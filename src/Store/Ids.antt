-- ===== src/Store/Ids.antt =====
-- crates/store/src/lib.rs: the identifiers of the chatroom's messages.
use mathlib.Core.List.{map-append}
use mathlib.Core.Path.{subst}
use clawpod.Base.Decimal.{ℤ}
use clawpod.Base.Signed.{
  largest, add_one, i64_max, IsBelow, AreUpTo, largest-AreUpTo, add_one-IsBelow,
}
use clawpod.Store.Steps.{updating-saves, refresh_locked-holds}
use clawpod.Base.{String, true, List, [], ◌∷◌, ◌++◌, map, ok, ◌≡◌, All, All-append, sym}
use clawpod.Domain.Core.{ChatroomMessageView}
use clawpod.Store.Records.{StoreSnapshot, ChatroomMessageRecord}
use clawpod.Store.State.{StateStore, StateFile, normalize_ids}
use clawpod.Store.Messages.{
  record_chatroom_message, with_message, next_chatroom_record, chatroom_view,
}

-- Every identifier is larger than those before it.
unfoldable pub Increasing : List ℤ → Type 0
Increasing [] = Unit
Increasing (n ∷ ns) = All (λ m. IsBelow n m) ns × Increasing ns

IsBelow-next :
    (ns : List ℤ) (k : ℤ) → IsBelow k i64_max → AreUpTo k ns → All (λ n. IsBelow n (add_one k)) ns
IsBelow-next [] k small u = tt
IsBelow-next (n ∷ ns) k small u = (add_one-IsBelow n k small u.0, IsBelow-next ns k small u.1)

Increasing-append :
    (ns : List ℤ) (k : ℤ) → All (λ n. IsBelow n k) ns → Increasing ns → Increasing (ns ++ k ∷ [])
unfolding Increasing
Increasing-append [] k h i = (tt, tt)
Increasing-append (n ∷ ns) k h i =
    (All-append (λ m. IsBelow n m) ns (k ∷ []) i.0 (h.0, tt), Increasing-append ns k h.1 i.1)

unfoldable pub ids_of : List ChatroomMessageRecord → List ℤ
ids_of rs = map (λ r. r.id) rs

-- A message recorded over a file that holds a snapshot whose largest identifier is not the largest
-- i64 gets an identifier above all of those in the file, and if those increase, so do those in the
-- file afterwards, where the message is the last.
pub record_chatroom_message_ids :
    (team_id from_agent message now : String) (st : StateStore) (s : StoreSnapshot)
    → st.file ≡ StateFile.holds s
    → IsBelow (largest (ids_of s.chatroom_messages)) i64_max
    → Increasing (ids_of s.chatroom_messages)
    → (view : ChatroomMessageView) × (after : StoreSnapshot) × (record_chatroom_message team_id
          from_agent message now true st
        ≡ (ok view, record { file = StateFile.holds after; snapshot = after }))
      × All (λ n. IsBelow n view.id) (ids_of s.chatroom_messages)
      × Increasing (ids_of after.chatroom_messages)
      × (ids_of after.chatroom_messages ≡ ids_of s.chatroom_messages ++ view.id ∷ [])
unfolding record_chatroom_message with_message chatroom_view next_chatroom_record ids_of
    normalize_ids
record_chatroom_message_ids team_id from_agent message now st s e small h =
    let ids = ids_of s.chatroom_messages in
    let made = with_message team_id from_agent message now (normalize_ids s) in
    let above = IsBelow-next ids (largest ids) small (largest-AreUpTo ids) in
    let appended =
      map-append (λ r. r.id) s.chatroom_messages
        (next_chatroom_record team_id from_agent message now (normalize_ids s) ∷ []) in
    (
      made.0,
      made.1,
      updating-saves st (normalize_ids s) (refresh_locked-holds st s e)
          (with_message team_id from_agent message now),
      above,
      subst Increasing (sym appended) (Increasing-append ids (add_one (largest ids)) above h),
      appended,
    )
