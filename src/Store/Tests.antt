-- ===== src/Store/Tests.antt =====
-- The store with one sender who waits for pairing.
use clawpod.Base.{
  eq_iff, ◌≢◌, inl, inr, ℕ, String, Bool, true, false, Option, none, some, [], ◌∷◌, ◌++◌, Result,
  ok, ◌≡◌, refl, All, arith,
}
use clawpod.Base.Decimal.{pos}
use clawpod.Base.Maps
use clawpod.Base.Signed.{IsBelow}
use clawpod.Domain.Core.{ChatroomMessageView}
use clawpod.Samples.{sample_lib, sample_time}
use clawpod.Pairing.{VerifyResult, verify_code}
use clawpod.Store.Records.{
  SenderAccessEntry, StoreSnapshot, SenderAccessRecord, ChatroomMessageRecord,
}
use clawpod.Store.State.{StateStore, StateFile, default_snapshot, refresh_locked}
use clawpod.Store.Sessions.{set_routing_affinity, get_routing_affinity}
use clawpod.Store.Messages.{record_chatroom_message}
use clawpod.Store.Senders.{
  AccessRequest, sender_access_key, verify_pairing_code, register_sender_access_request,
  is_sender_approved, is_expired, unlock,
}
use clawpod.Store.Codes.{find_pending_by_code, IsFound, find_pending_by_code-IsFound}
use clawpod.Store.Affinity.{set_routing_affinity-read_back}
use clawpod.Store.Ids.{Increasing, ids_of, record_chatroom_message_ids}
use clawpod.Store.Approvals.{Grants}
use clawpod.Store.Approved.{verify_pairing_code_approves}
use clawpod.Store.Pairings.{
  verify_pairing_code-Grants, verify_pairing_code-locks_out,
  register_sender_access_request-keeps_approvals,
}

abbrev alice : SenderAccessRecord
alice = record {
  key = "telegram:alice";
  channel = "telegram";
  sender_id = "alice";
  sender_label = none;
  status = "pending";
  peer_id = "alice";
  account_id = none;
  requested_at = "";
  updated_at = "";
  last_message_preview = none;
  last_message_id = none;
  pairing_code = some "ABC2";
  pairing_code_expires_at = none;
  failed_pairing_attempts = 2;
  locked_until = none;
}

abbrev first_message : ChatroomMessageRecord
first_message = record {
  id = pos 4;
  team_id = "dev";
  from_agent = "default";
  message = "hi";
  created_at = "";
}

abbrev waiting : StoreSnapshot
waiting = record default_snapshot {
  sender_access = ("telegram:alice", alice) ∷ [];
  chatroom_messages = first_message ∷ [];
  next_chatroom_message_id = pos 4;
}

abbrev on_disk : StateStore
on_disk = record { file = StateFile.holds waiting; snapshot = default_snapshot }

on_disk_read : refresh_locked on_disk ≡ ok waiting
unfolding refresh_locked
on_disk_read = refl

alice_found : Maps.get waiting.sender_access (sender_access_key "telegram" "alice") ≡ some alice
unfolding Maps.get sender_access_key
alice_found = refl

-- The store of a process that did something else before, with the file of another store.
abbrev with_file_of : StateStore → StateStore
with_file_of st = record { file = st.file; snapshot = waiting }

false_ne_true : false ≢ true
false_ne_true e = cc

-- Bob's agent in another conversation stays what it was.
set_routing_affinity-read_back_example :
    (get_routing_affinity "slack" "d" "bob"
      (with_file_of (set_routing_affinity "slack" "c" "bob" "reviewer" "t" true on_disk).1)).0
    ≡ (get_routing_affinity "slack" "d" "bob" on_disk).0
set_routing_affinity-read_back_example =
    (set_routing_affinity-read_back "slack" "c" "bob" "reviewer" "t" on_disk
        (with_file_of (set_routing_affinity "slack" "c" "bob" "reviewer" "t" true on_disk).1)
        waiting on_disk_read refl).2
      "slack" "d" "bob" (inr (inl (λ e. false_ne_true ((eq_iff "c" "d").1 e))))
      (refl, (refl, (refl, (refl, (refl, tt))))) (refl, (refl, (refl, (refl, (refl, tt)))))
      (refl, tt) (refl, tt)

one_message : Increasing (ids_of waiting.chatroom_messages)
unfolding Increasing ids_of
one_message = (tt, tt)

record_chatroom_message_ids_example :
    (view : ChatroomMessageView) × (after : StoreSnapshot) × (record_chatroom_message "dev"
        "reviewer" "hello" "t" true on_disk
      ≡ (ok view, record { file = StateFile.holds after; snapshot = after }))
    × All (λ n. IsBelow n view.id) (ids_of waiting.chatroom_messages)
    × Increasing (ids_of after.chatroom_messages)
    × (ids_of after.chatroom_messages ≡ ids_of waiting.chatroom_messages ++ view.id ∷ [])
unfolding ids_of
record_chatroom_message_ids_example =
    record_chatroom_message_ids "dev" "reviewer" "hello" "t" on_disk waiting refl refl one_message

abbrev verify_at : ℕ → String → Bool → StateStore → Result VerifyResult × StateStore
verify_at now code = verify_pairing_code sample_time sample_lib 3 60 now code "telegram" "alice"

alice_let_in : (verify_at 7 "ABC2" true on_disk).0 ≡ ok VerifyResult.approved
unfolding verify_pairing_code Maps.get
alice_let_in = refl

verify_pairing_code-Grants_example :
    (s : StoreSnapshot) × (entry : SenderAccessRecord) × (refresh_locked on_disk ≡ ok s)
    × (Maps.get s.sender_access (sender_access_key "telegram" "alice") ≡ some entry)
    × Grants sample_time sample_lib 7 "ABC2" entry
verify_pairing_code-Grants_example =
    verify_pairing_code-Grants sample_time sample_lib 3 60 7 "ABC2" "telegram" "alice" true on_disk
      alice_let_in

alice_fresh : is_expired sample_time 7 alice ≡ false
unfolding is_expired
alice_fresh = refl

alice_free : unlock sample_time 7 alice ≡ some alice
unfolding unlock
alice_free = refl

wrong_code : verify_code sample_lib "ABC3" "ABC2" ≡ false
unfolding verify_code
wrong_code = refl

-- The third wrong code locks alice out: a second later her own code is refused.
verify_pairing_code-locks_out_example :
    let other = with_file_of (verify_at 7 "ABC3" true on_disk).1 in
    ((verify_at 1000000007 "ABC2" true other).0 ≡ ok VerifyResult.locked_out)
    × ((verify_at 1000000007 "ABC2" true other).1.file ≡ other.file)
verify_pairing_code-locks_out_example =
    verify_pairing_code-locks_out sample_time sample_lib 3 60 7 "ABC3" "telegram" "alice" on_disk
      waiting alice alice "ABC2" on_disk_read alice_found alice_free refl alice_fresh wrong_code
      (omega arith) (omega arith) (omega arith) (omega arith)
      (with_file_of (verify_at 7 "ABC3" true on_disk).1) 1000000007 "ABC2" true refl (omega arith)

abbrev request : AccessRequest
request = record {
  channel = "telegram";
  sender_id = "alice";
  sender_label = some " Alice ";
  peer_id = "alice";
  account_id = none;
  last_message_preview = some "let me in";
  last_message_id = none;
}

register_sender_access_request-keeps_approvals_example :
    (is_sender_approved "telegram" "alice"
      (with_file_of (register_sender_access_request request "t" true on_disk).1)).0
    ≡ (is_sender_approved "telegram" "alice" on_disk).0
register_sender_access_request-keeps_approvals_example =
    register_sender_access_request-keeps_approvals request "t" on_disk
      (with_file_of (register_sender_access_request request "t" true on_disk).1) waiting
      on_disk_read refl "telegram" "alice"

alice-Grants : Grants sample_time sample_lib 7 "ABC2" alice
unfolding verify_code
alice-Grants = record {
  stored_code = "ABC2";
  has_code = refl;
  matches = refl;
  not_locked = λ until e. cc;
  not_expired = λ expires e. cc;
}

verify_pairing_code_approves_example :
    ((verify_at 7 "ABC2" true on_disk).0 ≡ ok VerifyResult.approved)
    × ((is_sender_approved "telegram" "alice" (with_file_of (verify_at 7 "ABC2" true on_disk).1)).0
        ≡ ok true)
verify_pairing_code_approves_example =
    verify_pairing_code_approves sample_time sample_lib 3 60 7 "ABC2" "telegram" "alice" on_disk
      (with_file_of (verify_at 7 "ABC2" true on_disk).1) waiting alice on_disk_read alice_found
      alice-Grants refl

find_pending_by_code-IsFound_example :
    (found : Option SenderAccessEntry) × ((find_pending_by_code sample_time sample_lib 7 " ABC2 "
        on_disk).0
      ≡ ok found)
    × IsFound sample_time sample_lib 7 " ABC2 " waiting.sender_access found
find_pending_by_code-IsFound_example =
    find_pending_by_code-IsFound sample_time sample_lib 7 " ABC2 " on_disk waiting on_disk_read
