-- ===== src/Store/Approved.antt =====
-- crates/store/src/lib.rs: the right code lets its sender in.
use clawpod.Base.{
  ℕ, ◌≤◌, String, true, false, none, some, ok, ◌≡◌, refl, ◌==◌, arith, Option-cases, inl, inr, ◌∙◌,
  ap, ltb,
}
use clawpod.Base.Maps
use clawpod.Extern.{TextLib, TimeLib}
use clawpod.Pairing.{VerifyResult, verify_code}
use clawpod.Store.Records.{StoreSnapshot, SenderAccessRecord}
use clawpod.Store.State.{StateStore, StateFile, refresh_locked, normalize_ids}
use clawpod.Store.Senders.{
  VerifyStep, sender_access_key, verify_pairing_code, verify_entry, check_code, unlock, is_expired,
  time_of, approve, is_approved_entry, is_sender_approved,
}
use clawpod.Store.Steps.{reading-ok, refresh_locked-holds}
use clawpod.Store.Approvals.{Grants, verify_pairing_code-known, with_entry}
use clawpod.Store.Pairings.{normalized_entry}

module _ (time : TimeLib) (lib : TextLib) (max_failed_attempts lockout_secs now : ℕ)
    (provided_code : String) where
  abbrev right : SenderAccessRecord → VerifyStep
  right entry = record {
    result = ok VerifyResult.approved;
    entry = approve time now entry;
    persisted = true;
  }

  check_code-right :
      (entry : SenderAccessRecord) (stored_code : String)
      → entry.pairing_code ≡ some stored_code
      → is_expired time now entry ≡ false
      → verify_code lib provided_code stored_code ≡ true
      → (made : VerifyStep) → right entry ≡ made
      → check_code time lib max_failed_attempts lockout_secs now provided_code entry ≡ made
  unfolding check_code
  check_code-right entry stored_code has fresh good made e = rw (check_code, has, fresh, good) e

  fresh_code :
      (entry : SenderAccessRecord)
      → ((expires : ℕ) → time_of time entry.pairing_code_expires_at ≡ some expires → now ≤ expires)
      → is_expired time now entry ≡ false
  unfolding is_expired
  fresh_code entry h = elim (Option-cases (time_of time entry.pairing_code_expires_at)) [
    | inl never ↦ rw (is_expired, never) refl
    | inr (expires, is) ↦ (let le = h expires is in rw (is_expired, is) (ground arith))
  ]

  -- The step of an entry that may be approved ends with an approved entry, and is written.
  granted :
      (entry : SenderAccessRecord)
      → Grants time lib now provided_code entry
      → (approved : SenderAccessRecord) × (approved.status ≡ "approved")
        × (verify_entry time lib max_failed_attempts lockout_secs now provided_code entry
            ≡ record { result = ok VerifyResult.approved; entry = approved; persisted = true })
  unfolding verify_entry unlock
  granted entry g = elim (Option-cases (time_of time entry.locked_until)) [
    | inl never ↦ (
      approve time now entry,
      refl,
      rw (verify_entry, unlock, never)
          (check_code-right entry g.stored_code g.has_code (fresh_code entry g.not_expired)
            g.matches _ refl),
    )
    | inr (until, is) ↦
        let over : ltb now until ≡ false = (let le = g.not_locked until is in ground arith) in
        let free : SenderAccessRecord = record entry {
          locked_until = none;
          failed_pairing_attempts = 0;
        } in
        (
          approve time now free,
          refl,
          rw (verify_entry, unlock, is, over)
              (check_code-right free g.stored_code g.has_code (fresh_code free g.not_expired)
                g.matches _ refl),
        )
  ]

  -- A sender whose entry has the code provided, not expired and not locked, is approved when the file
  -- is written, and every process that reads the file finds it so.
  pub verify_pairing_code_approves :
      (channel sender_id : String) (st other : StateStore) (s : StoreSnapshot)
      (entry : SenderAccessRecord)
      → refresh_locked st ≡ ok s
      → Maps.get s.sender_access (sender_access_key channel sender_id) ≡ some entry
      → Grants time lib now provided_code entry
      → let done =
          verify_pairing_code time lib max_failed_attempts lockout_secs now provided_code channel
            sender_id true st in
        other.file ≡ done.1.file
        → (done.0 ≡ ok VerifyResult.approved)
          × ((is_sender_approved channel sender_id other).0 ≡ ok true)
  unfolding is_sender_approved
  verify_pairing_code_approves channel sender_id st other s entry read found g shared =
      let key = sender_access_key channel sender_id in
      let (approved, status, step) = granted entry g in
      let done =
        (verify_pairing_code-known time lib max_failed_attempts lockout_secs now provided_code
            channel sender_id st s entry read found).0
          (ap (λ v. v.persisted) step) in
      let file : other.file ≡ StateFile.holds (with_entry s key approved) =
        shared
        ∙ ap (λ r. r.1.file) done
        ∙ ap (λ v. StateFile.holds (with_entry s key v.entry)) step in
      (
        ap (λ r. r.0) done ∙ ap (λ v. v.result) step,
        reading-ok other (normalize_ids (with_entry s key approved))
              (refresh_locked-holds other (with_entry s key approved) file)
              (λ t. is_approved_entry (Maps.get t.sender_access key))
            ∙ ap (λ e. ok (is_approved_entry e)) (normalized_entry s key approved)
            ∙ ap (λ w. ok (w == "approved")) status,
      )
