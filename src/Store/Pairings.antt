-- ===== src/Store/Pairings.antt =====
-- crates/store/src/lib.rs: approval by a pairing code, and the lock after wrong ones.
use clawpod.Base.{
  ℕ, ◌<◌, ◌≤◌, ◌+◌, ◌*◌, ◌^◌, String, Bool, true, false, Option, none, some, ok, ◌≡◌, refl, sym,
  ◌==◌, eq_refl, arith, Bool-cases, Option-cases, inl, inr, ◌∙◌, ap, ltb, leb, ◌%◌, eq_iff,
}
use clawpod.Base.Decimal.{i64_of}
use clawpod.Base.Maps
use clawpod.Extern.{TextLib, TimeLib}
use clawpod.Pairing.{VerifyResult, verify_code}
use clawpod.Store.Records.{StoreSnapshot, SenderAccessRecord}
use clawpod.Store.State.{StateStore, StateFile, refresh_locked, normalize_ids}
use clawpod.Store.Senders.{
  sender_access_key, verify_pairing_code, verify_entry, check_code, unlock, is_expired, time_of,
  counted, count_failure, verify_in, is_approved_entry, is_sender_approved, registered, known_entry,
  new_entry, register_sender_access_request, AccessRequest,
}
use clawpod.Store.Steps.{
  flatten-eq-ok, transact-ok, updating-saves, reading-ok, refresh_locked-holds,
}
use clawpod.Store.Approvals.{Grants, verify_entry-approved, verify_pairing_code-known, with_entry}

module _ (time : TimeLib) (lib : TextLib) (max_failed_attempts lockout_secs now : ℕ)
    (provided_code : String) where
  -- A verification that answers `Approved` had the sender's entry in the state it read, with a code
  -- that the text provided matches, not expired, and the entry not locked.
  pub verify_pairing_code-Grants :
      (channel sender_id : String) (writes : Bool) (st : StateStore)
      → (verify_pairing_code time lib max_failed_attempts lockout_secs now provided_code channel
          sender_id writes st).0
        ≡ ok VerifyResult.approved
      → (s : StoreSnapshot) × (entry : SenderAccessRecord) × (refresh_locked st ≡ ok s)
        × (Maps.get s.sender_access (sender_access_key channel sender_id) ≡ some entry)
        × Grants time lib now provided_code entry
  unfolding verify_pairing_code verify_in
  verify_pairing_code-Grants channel sender_id writes st e =
      let (s, read, answered) =
        transact-ok
          (verify_in time lib max_failed_attempts lockout_secs now provided_code channel sender_id)
          writes st (ok VerifyResult.approved) (flatten-eq-ok _ e) in
      elim (Option-cases (Maps.get s.sender_access (sender_access_key channel sender_id))) [
        | inl missing ↦ absurd (let e' = rw (verify_in, missing) at answered in cc)
        | inr (entry, found) ↦ (
          s,
          entry,
          read,
          found,
          verify_entry-approved time lib max_failed_attempts lockout_secs now provided_code entry
              (rw (verify_in, found) at answered),
        )
      ]

  wrong_code :
      (entry free : SenderAccessRecord) (stored_code : String) (failed : SenderAccessRecord)
      → unlock time now entry ≡ some free
      → free.pairing_code ≡ some stored_code
      → is_expired time now free ≡ false
      → verify_code lib provided_code stored_code ≡ false
      → count_failure time max_failed_attempts lockout_secs now free ≡ some failed
      → verify_entry time lib max_failed_attempts lockout_secs now provided_code entry
        ≡ record { result = ok VerifyResult.invalid_code; entry = failed; persisted = true }
  unfolding verify_entry check_code
  wrong_code entry free stored_code failed unlocked has fresh bad counts =
      rw (verify_entry, unlocked, check_code, has, fresh, bad, counts) refl

  locked_entry :
      (entry : SenderAccessRecord) (until : ℕ)
      → time_of time entry.locked_until ≡ some until
      → now < until
      → verify_entry time lib max_failed_attempts lockout_secs now provided_code entry
        ≡ record { result = ok VerifyResult.locked_out; entry = entry; persisted = false }
  unfolding verify_entry unlock
  locked_entry entry until is early =
      let first : ltb now until ≡ true = ground arith in rw (verify_entry, unlock, is, first) refl

pub normalized_entry :
    (s : StoreSnapshot) (key : String) (entry : SenderAccessRecord)
    → Maps.get (normalize_ids (with_entry s key entry)).sender_access key ≡ some entry
unfolding normalize_ids
normalized_entry s key entry = rw (Maps.get-insert s.sender_access key entry key, eq_refl key) refl

-- The entry after the wrong code that reaches the maximum.
locks :
    (time : TimeLib) (max_failed_attempts lockout_secs now : ℕ) (entry : SenderAccessRecord)
    → max_failed_attempts ≤ entry.failed_pairing_attempts + 1
    → entry.failed_pairing_attempts + 1 < 2 ^ 32
    → lockout_secs < 2 ^ 63
    → now + lockout_secs * 1000000000 ≤ time.last
    → (failed : SenderAccessRecord) × (count_failure time max_failed_attempts lockout_secs now entry
        ≡ some failed)
      × (time_of time failed.locked_until ≡ some (now + lockout_secs * 1000000000))
unfolding count_failure counted i64_of
locks time max_failed_attempts lockout_secs now entry enough small secs in_range =
    let attempts : (entry.failed_pairing_attempts + 1) % 2 ^ 32
        ≡ entry.failed_pairing_attempts + 1 =
      omega (arith, small) in
    let reached : leb max_failed_attempts (entry.failed_pairing_attempts + 1) ≡ true =
      ground arith in
    let signed : ltb lockout_secs (2 ^ 63) ≡ true = ground arith in
    let end = time.add_seconds-pos now lockout_secs in_range in
    let lockout_end = now + lockout_secs * 1000000000 in
    (
      record (counted time entry) {
        locked_until = some (time.to_rfc3339 lockout_end);
        updated_at = time.to_rfc3339 now;
      },
      rw (attempts, reached, signed, end) refl,
      time.parse-to_rfc3339 (now + lockout_secs * 1000000000) in_range,
    )

-- A wrong code that makes the failed attempts reach the maximum, with the file written, locks the
-- sender out: until `lockout_secs` later every process that reads the file refuses every code, the
-- right one too, and leaves the file as it is. The entry is not locked, or its lock has passed, which
-- sets the failed attempts to 0 first; it has a code that has not expired; the number of attempts, a
-- u32, does not wrap; and the end of the lock is a time of a year up to 9999, with `lockout_secs` below
-- 2^63.
pub verify_pairing_code-locks_out :
    (time : TimeLib) (lib : TextLib) (max_failed_attempts lockout_secs now : ℕ)
    (wrong channel sender_id : String) (st : StateStore) (s : StoreSnapshot)
    (entry free : SenderAccessRecord) (stored_code : String)
    → refresh_locked st ≡ ok s
    → Maps.get s.sender_access (sender_access_key channel sender_id) ≡ some entry
    → unlock time now entry ≡ some free
    → free.pairing_code ≡ some stored_code
    → is_expired time now free ≡ false
    → verify_code lib wrong stored_code ≡ false
    → max_failed_attempts ≤ free.failed_pairing_attempts + 1
    → free.failed_pairing_attempts + 1 < 2 ^ 32
    → lockout_secs < 2 ^ 63
    → now + lockout_secs * 1000000000 ≤ time.last
    → (other : StateStore) (later : ℕ) (code : String) (writes : Bool)
    → other.file
      ≡ (verify_pairing_code time lib max_failed_attempts lockout_secs now wrong channel sender_id
          true st).1.file
    → later < now + lockout_secs * 1000000000
    → let second =
        verify_pairing_code time lib max_failed_attempts lockout_secs later code channel sender_id
          writes other in
      (second.0 ≡ ok VerifyResult.locked_out) × (second.1.file ≡ other.file)
verify_pairing_code-locks_out time lib max_failed_attempts lockout_secs now wrong channel sender_id
      st s entry free stored_code read found unlocked has fresh bad enough small secs in_range other
      later code writes shared early =
    let key = sender_access_key channel sender_id in
    let (failed, counts, until) =
      locks time max_failed_attempts lockout_secs now free enough small secs in_range in
    let attempt =
      wrong_code time lib max_failed_attempts lockout_secs now wrong entry free stored_code failed
        unlocked has fresh bad counts in
    let first =
      (verify_pairing_code-known time lib max_failed_attempts lockout_secs now wrong channel
          sender_id st s entry read found).0
        (ap (λ v. v.persisted) attempt) in
    let file : other.file ≡ StateFile.holds (with_entry s key failed) =
      shared
      ∙ ap (λ r. r.1.file) first
      ∙ ap (λ v. StateFile.holds (with_entry s key v.entry)) attempt in
    let refused =
      locked_entry time lib max_failed_attempts lockout_secs later code failed
        (now + lockout_secs * 1000000000) until early in
    let second =
      (verify_pairing_code-known time lib max_failed_attempts lockout_secs later code channel
          sender_id other (normalize_ids (with_entry s key failed)) failed
          (refresh_locked-holds other (with_entry s key failed) file)
          (normalized_entry s key failed)).1
        (ap (λ v. v.persisted) refused) writes in
    (ap (λ r. r.0) second ∙ ap (λ v. v.result) refused, ap (λ r. r.1.file) second)

registered-keeps :
    (r : AccessRequest) (now : String) (entry : Option SenderAccessRecord)
    → is_approved_entry (some (registered r now entry).1) ≡ is_approved_entry entry
unfolding registered known_entry new_entry
registered-keeps r now none = refl
registered-keeps r now (some entry) = elim (Bool-cases (entry.status == "approved")) [
  | inl done ↦ rw done done
  | inr pending ↦ rw pending refl
]

-- A request for access, written to the file, approves nobody and withdraws no approval: every process
-- that reads the file finds each sender approved or not as before.
pub register_sender_access_request-keeps_approvals :
    (r : AccessRequest) (now : String) (st other : StateStore) (s : StoreSnapshot)
    → refresh_locked st ≡ ok s
    → other.file ≡ (register_sender_access_request r now true st).1.file
    → (channel sender_id : String)
    → (is_sender_approved channel sender_id other).0 ≡ (is_sender_approved channel sender_id st).0
unfolding register_sender_access_request is_sender_approved normalize_ids
register_sender_access_request-keeps_approvals r now st other s read shared channel sender_id =
    let key = sender_access_key r.channel r.sender_id in
    let asked = sender_access_key channel sender_id in
    let done = registered r now (Maps.get s.sender_access key) in
    let saved = updating-saves st s read (λ t.
      let k = sender_access_key r.channel r.sender_id in
      let made = registered r now (Maps.get t.sender_access k) in
      (made.0, record t { sender_access = Maps.insert t.sender_access k made.1 })) in
    let after = with_entry s key done.1 in
    let reads =
      reading-ok other (normalize_ids after)
        (refresh_locked-holds other after (shared ∙ ap (λ q. q.1.file) saved))
        (λ t. is_approved_entry (Maps.get t.sender_access asked)) in
    reads
    ∙ ap ok (kept s key asked done.1 (registered-keeps r now (Maps.get s.sender_access key)))
    ∙ sym (reading-ok st s read (λ t. is_approved_entry (Maps.get t.sender_access asked)))
  where
    kept :
        (s : StoreSnapshot) (key asked : String) (entry : SenderAccessRecord)
        → is_approved_entry (some entry) ≡ is_approved_entry (Maps.get s.sender_access key)
        → is_approved_entry (Maps.get (Maps.insert s.sender_access key entry) asked)
          ≡ is_approved_entry (Maps.get s.sender_access asked)
    kept s key asked entry same = elim (Bool-cases (key == asked)) [
      | inl e ↦
          rw (Maps.get-insert s.sender_access key entry asked, e)
            (same
              ∙ ap (λ k. is_approved_entry (Maps.get s.sender_access k)) ((eq_iff key asked).0 e))
      | inr e ↦ rw (Maps.get-insert s.sender_access key entry asked, e) refl
    ]
