-- ===== src/Store/Approvals.antt =====
-- crates/store/src/lib.rs: how a sender gets to be approved.
use clawpod.Base.{
  Option, ◌≢◌, ap, ℕ, ◌≤◌, String, Bool, true, false, none, some, ok, ◌≡◌, refl, sym, arith,
  Bool-cases, Option-cases, inl, inr, ltb, ◌∙◌,
}
use clawpod.Base.Maps
use clawpod.Extern.{TextLib, TimeLib}
use clawpod.Pairing.{VerifyResult, verify_code}
use clawpod.Store.Records.{StoreSnapshot, SenderAccessRecord}
use clawpod.Store.State.{StateStore, StateFile, refresh_locked, flatten}
use clawpod.Store.Senders.{
  sender_access_key, verify_pairing_code, verify_entry, check_code, unlock, is_expired, time_of,
  count_failure, failed_step, verify_in,
}
use clawpod.Store.Steps.{transact-saves, transact-returns}

-- What it takes for an entry to be approved with a code at a time.
pub record Grants (time : TimeLib) (lib : TextLib) (now : ℕ) (provided_code : String)
    (entry : SenderAccessRecord) : Type 0 where
  pub stored_code : String
  pub has_code : entry.pairing_code ≡ some stored_code
  pub matches : verify_code lib provided_code stored_code ≡ true
  pub not_locked : (until : ℕ) → time_of time entry.locked_until ≡ some until → until ≤ now
  pub not_expired :
      (expires : ℕ) → time_of time entry.pairing_code_expires_at ≡ some expires → now ≤ expires

abbrev pub with_entry : StoreSnapshot → String → SenderAccessRecord → StoreSnapshot
with_entry s key entry = record s { sender_access = Maps.insert s.sender_access key entry }

abbrev pub saved_with : StoreSnapshot → String → SenderAccessRecord → StateStore
saved_with s key entry = record {
  file = StateFile.holds (with_entry s key entry);
  snapshot = with_entry s key entry;
}

module _ (time : TimeLib) (lib : TextLib) (max_failed_attempts lockout_secs now : ℕ)
    (provided_code : String) where
  failed_step-unapproved :
      (entry : SenderAccessRecord) (failed : Option SenderAccessRecord)
      → (failed_step time entry failed).result ≢ ok VerifyResult.approved
  failed_step-unapproved entry none e = cc
  failed_step-unapproved entry (some failed) e = cc

  check_code-approved :
      (entry : SenderAccessRecord)
      → (check_code time lib max_failed_attempts lockout_secs now provided_code entry).result
        ≡ ok VerifyResult.approved
      → (code : String) × (entry.pairing_code ≡ some code)
        × (verify_code lib provided_code code ≡ true)
        × (is_expired time now entry ≡ false)
  unfolding check_code
  check_code-approved entry e = elim (Option-cases entry.pairing_code) [
    | inl missing ↦ absurd (let e' = rw missing at e in cc)
    | inr (code, has) ↦ elim (Bool-cases (is_expired time now entry)) [
      | inl late ↦ absurd (let e' = rw (has, late) at e in cc)
      | inr fresh ↦ elim (Bool-cases (verify_code lib provided_code code)) [
        | inl good ↦ (code, has, good, fresh)
        | inr bad ↦ absurd (
            failed_step-unapproved (record entry { pairing_code = some code })
              (count_failure time max_failed_attempts lockout_secs now
                (record entry { pairing_code = some code }))
              (rw (has, fresh, bad) at e))
      ]
    ]
  ]

  is_expired-false :
      (entry : SenderAccessRecord)
      → is_expired time now entry ≡ false
      → (expires : ℕ) → time_of time entry.pairing_code_expires_at ≡ some expires
      → now ≤ expires
  unfolding is_expired
  is_expired-false entry e expires is = (let e' = rw (is_expired, is) at e in ground arith)

  -- An entry is approved only by its code, while it is not locked and the code has not expired.
  pub verify_entry-approved :
      (entry : SenderAccessRecord)
      → (verify_entry time lib max_failed_attempts lockout_secs now provided_code entry).result
        ≡ ok VerifyResult.approved
      → Grants time lib now provided_code entry
  unfolding verify_entry unlock
  verify_entry-approved entry e = elim (Option-cases (time_of time entry.locked_until)) [
    | inl never ↦
        let (code, has, good, fresh) =
          check_code-approved entry (rw (verify_entry, unlock, never) at e) in
        record {
          stored_code = code;
          has_code = has;
          matches = good;
          not_locked = λ until is. absurd (let bad = sym never ∙ is in cc);
          not_expired = is_expired-false entry fresh;
        }
    | inr (until, is) ↦ elim (Bool-cases (ltb now until)) [
      | inl locked ↦ absurd (let e' = rw (verify_entry, unlock, is, locked) at e in cc)
      | inr over ↦
          let (code, has, good, fresh) =
            check_code-approved (record entry { locked_until = none; failed_pairing_attempts = 0 })
              (rw (verify_entry, unlock, is, over) at e) in
          record {
            stored_code = code;
            has_code = has;
            matches = good;
            not_locked = λ until' is'.
                (let same : until ≡ until' = (let p = sym is ∙ is' in cc) in
                  rw (sym same) (ground arith));
            not_expired = is_expired-false entry fresh;
          }
    ]
  ]

  -- What verification does to a snapshot, as in `verify_pairing_code`.
  pub verify_pairing_code-known :
      (channel sender_id : String) (st : StateStore) (s : StoreSnapshot)
      (entry : SenderAccessRecord)
      → refresh_locked st ≡ ok s
      → Maps.get s.sender_access (sender_access_key channel sender_id) ≡ some entry
      → let made = verify_entry time lib max_failed_attempts lockout_secs now provided_code entry in
        (made.persisted ≡ true
          → verify_pairing_code time lib max_failed_attempts lockout_secs now provided_code channel
              sender_id true st
            ≡ (made.result, saved_with s (sender_access_key channel sender_id) made.entry))
        × (made.persisted ≡ false
            → (writes : Bool)
            → verify_pairing_code time lib max_failed_attempts lockout_secs now provided_code
                channel sender_id writes st
              ≡ (
                made.result,
                record st {
                  snapshot = with_entry s (sender_access_key channel sender_id) made.entry;
                },
              ))
  unfolding verify_pairing_code verify_in
  verify_pairing_code-known channel sender_id st s entry read found =
      let made = verify_entry time lib max_failed_attempts lockout_secs now provided_code entry in
      let work =
        verify_in time lib max_failed_attempts lockout_secs now provided_code channel sender_id in
      (
        λ kept.
            ap (λ r. (flatten r.0, r.1))
              (transact-saves st s read work made.result
                (with_entry s (sender_access_key channel sender_id) made.entry)
                (rw (verify_in, found, kept) refl)),
        λ lost writes.
            ap (λ r. (flatten r.0, r.1))
              (transact-returns st s read work made.result
                (with_entry s (sender_access_key channel sender_id) made.entry) writes
                (rw (verify_in, found, lost) refl)),
      )
