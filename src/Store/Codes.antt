-- ===== src/Store/Codes.antt =====
-- crates/store/src/lib.rs: the pairing codes that wait with the senders, and how one is found again.
use clawpod.Base.{
  ℕ, String, Bool, true, false, not, Option, none, some, [], ◌∷◌, ◌==◌, Map, if◌then◌else◌, ltb,
  is_some, and_then, Result, ok, ◌≡◌, refl, Bool-cases, Option-cases, eq_iff, ap, sym, inl, inr,
}
use mathlib.Core.List.{Memᴰ}
use clawpod.Base.Maps
use clawpod.Extern.{TextLib, TimeLib}
use clawpod.Pairing.{verify_code}
use clawpod.Store.Records.{SenderAccessRecord, SenderAccessEntry, StoreSnapshot}
use clawpod.Store.State.{StateStore, reading, updating, refresh_locked}
use clawpod.Store.Senders.{sender_access_key, time_of}
use clawpod.Store.Steps.{reading-ok}

-- `store_pairing_code`.
unfoldable pub store_pairing_code :
    String → String → String → String → String → Bool → StateStore → Result (Unit {0}) × StateStore
unfolding updating sender_access_key
store_pairing_code channel sender_id code expires_at now = updating (λ s. (
  tt,
  record s {
    sender_access = Maps.modify s.sender_access (sender_access_key channel sender_id) (λ entry.
        record entry {
          pairing_code = some code;
          pairing_code_expires_at = some expires_at;
          updated_at = now;
        });
  },
))

-- `clear_pairing_code`.
unfoldable pub clear_pairing_code :
    String → String → Bool → StateStore → Result (Unit {0}) × StateStore
unfolding updating sender_access_key
clear_pairing_code channel sender_id = updating (λ s. (
  tt,
  record s {
    sender_access =
        Maps.modify s.sender_access (sender_access_key channel sender_id)
          (λ entry. record entry { pairing_code = none; pairing_code_expires_at = none });
  },
))

unfoldable pub code_of : SenderAccessRecord → Option (String × String)
code_of entry = elim entry.pairing_code [
  | none ↦ none
  | some code ↦ elim entry.pairing_code_expires_at [
    | none ↦ none
    | some expires ↦ some (code, expires)
  ]
]

-- `get_pairing_code`.
unfoldable pub get_pairing_code :
    String → String → StateStore → Result (Option (String × String)) × StateStore
unfolding reading sender_access_key code_of
get_pairing_code channel sender_id =
    reading (λ s. and_then (Maps.get s.sender_access (sender_access_key channel sender_id)) code_of)

module _ (time : TimeLib) (lib : TextLib) (now : ℕ) where
  abbrev is_later : Option ℕ → Bool
  is_later none = false
  is_later (some locked) = ltb now locked

  -- `sender_access_from_record`.
  unfoldable pub sender_access_from_record : SenderAccessRecord → SenderAccessEntry
  sender_access_from_record r = record {
    key = r.key;
    channel = r.channel;
    sender_id = r.sender_id;
    sender_label = r.sender_label;
    status = r.status;
    peer_id = r.peer_id;
    account_id = r.account_id;
    requested_at = r.requested_at;
    updated_at = r.updated_at;
    last_message_preview = r.last_message_preview;
    last_message_id = r.last_message_id;
    has_pairing_code = is_some r.pairing_code;
    pairing_code_expires_at = r.pairing_code_expires_at;
    failed_pairing_attempts = r.failed_pairing_attempts;
    is_locked_out = is_later (time_of time r.locked_until);
  }

  -- The test of the loop in `find_pending_by_code`.
  unfoldable pub waits_for : String → SenderAccessRecord → Bool
  unfolding verify_code
  waits_for code r = if not (r.status == "pending") then false else elim r.pairing_code [
    | none ↦ false
    | some stored_code ↦ verify_code lib code stored_code
  ]

  unfoldable pub first_waiting : String → Map SenderAccessRecord → Option SenderAccessRecord
  unfolding waits_for
  first_waiting code [] = none
  first_waiting code ((key, r) ∷ more) =
      let rest = first_waiting code more in if waits_for code r then some r else rest

  -- `find_pending_by_code`.
  unfoldable pub find_pending_by_code :
      String → StateStore → Result (Option SenderAccessEntry) × StateStore
  unfolding reading first_waiting sender_access_from_record
  find_pending_by_code code =
      reading (λ s.
        and_then (first_waiting code s.sender_access) (λ r. some (sender_access_from_record r)))

  -- A sender whom a code would let in: pending, with a stored code that the code matches.
  pub record IsWaiting (code : String) (r : SenderAccessRecord) : Type 0 where
    pending : r.status ≡ "pending"
    stored_code : String
    has_code : r.pairing_code ≡ some stored_code
    matches : verify_code lib code stored_code ≡ true

  waits_for-IsWaiting :
      (code : String) (r : SenderAccessRecord) → waits_for code r ≡ true → IsWaiting code r
  unfolding waits_for
  waits_for-IsWaiting code r e = elim (Bool-cases (r.status == "pending")) [
    | inr other ↦ absurd (let e' = rw (waits_for, other) at e in cc)
    | inl is ↦ elim (Option-cases r.pairing_code) [
      | inl missing ↦ absurd (let e' = rw (waits_for, is, missing) at e in cc)
      | inr (stored, has) ↦ record {
        pending = (eq_iff r.status "pending").0 is;
        stored_code = stored;
        has_code = has;
        matches = rw (waits_for, is, has) at e;
      }
    ]
  ]

  IsWaiting-waits_for :
      (code : String) (r : SenderAccessRecord) → IsWaiting code r → waits_for code r ≡ true
  unfolding waits_for
  IsWaiting-waits_for code r w = rw ((eq_iff r.status "pending").1 w.pending, w.has_code) w.matches

  -- What a search for a code finds: nobody where no sender waits for it, or a sender who does.
  pub data IsFound (code : String) (senders : Map SenderAccessRecord)
      : Option SenderAccessEntry → Type 0 where
    nobody :
        ((key : String) (r : SenderAccessRecord) → Memᴰ (key, r) senders → ¬ IsWaiting code r)
        → IsFound code senders none
    somebody :
        (key : String) (r : SenderAccessRecord)
        → Memᴰ (key, r) senders
        → IsWaiting code r
        → IsFound code senders (some (sender_access_from_record r))

  IsFound-tail :
      (code key : String) (r : SenderAccessRecord) (more : Map SenderAccessRecord)
      (o : Option SenderAccessEntry)
      → waits_for code r ≡ false
      → IsFound code more o
      → IsFound code ((key, r) ∷ more) o
  IsFound-tail code key r more o other (nobody h) = nobody (λ k q listed w. elim listed [
    | Memᴰ.head e ↦
        let same : q ≡ r = ap (λ p. p.1) e in
        let yes : waits_for code r ≡ true = (rw (sym same) (IsWaiting-waits_for code q w)) in cc
    | Memᴰ.tail there ↦ h k q there w
  ])
  IsFound-tail code key r more o other (somebody k q listed w) = somebody k q (Memᴰ.tail listed) w

  first_waiting-IsFound :
      (code : String) (senders : Map SenderAccessRecord)
      → IsFound code senders
          (and_then (first_waiting code senders) (λ r. some (sender_access_from_record r)))
  unfolding first_waiting
  first_waiting-IsFound code [] = nobody (λ key r listed w. elim listed [ ])
  first_waiting-IsFound code ((key, r) ∷ more) = elim (Bool-cases (waits_for code r)) [
    | inl waits ↦ rw waits (somebody key r (Memᴰ.head refl) (waits_for-IsWaiting code r waits))
    | inr other ↦ rw other (IsFound-tail code key r more _ other (first_waiting-IsFound code more))
  ]

  -- Where the state can be read, a search for a code finds a pending sender whose stored code the
  -- code matches, and finds nobody only if there is no such sender.
  pub find_pending_by_code-IsFound :
      (code : String) (st : StateStore) (s : StoreSnapshot)
      → refresh_locked st ≡ ok s
      → (found : Option SenderAccessEntry) × ((find_pending_by_code code st).0 ≡ ok found)
        × IsFound code s.sender_access found
  unfolding find_pending_by_code
  find_pending_by_code-IsFound code st s read = (
    and_then (first_waiting code s.sender_access) (λ r. some (sender_access_from_record r)),
    reading-ok st s read (λ t.
        and_then (first_waiting code t.sender_access) (λ r. some (sender_access_from_record r))),
    first_waiting-IsFound code s.sender_access,
  )
