-- ===== src/Queue/Handling/Outcomes.antt =====
-- crates/queue/src/lib.rs: a message whose processing failed waits in incoming until its backoff ends.
use clawpod.Base.{
  ℕ, ◌+◌, ◌^◌, ◌%◌, ◌<◌, arith, String, true, false, none, some, Map, ltb, contains, ◌≡◌, refl, ◌∙◌,
  inl, inr, Bool-cases, err, eq_refl,
}
use clawpod.Base.Maps
use clawpod.Base.Maps.{get-insert, get-remove}
use clawpod.Base.Decimal.{ℤ, leb_int, i64_of, i64_bound}
use clawpod.Queue.{IncomingQueueEnvelope}
use clawpod.Queue.Names.{queued_file_name, IsI64, parse_due_from_filename-queued_file_name}
use clawpod.Queue.Retry.{requeued, requeue_or_dead_letter, fate_of, failed_once, next_attempt}
use clawpod.Queue.Files.{Payload, readable, Folders, scan_incoming_files, is_due}
use clawpod.Queue.Files.Scans.{scan_incoming_files-IsOrdered}
use clawpod.Queue.Handling.{Failing, complete, settle_failure, rewrite_and_move, put_back}

i64_of-IsI64 : (bits : ℕ) → bits < 2 ^ 64 → IsI64 (i64_of bits)
unfolding i64_of
i64_of-IsI64 bits lt = elim (Bool-cases (ltb bits i64_bound)) [
  | inl e ↦ rw e (ground arith)
  | inr e ↦ rw e (ground arith)
]

is_due-queued_file_name :
    (t at : ℤ) (simple : String) → IsI64 at → is_due t (queued_file_name at simple) ≡ leb_int at t
unfolding is_due
is_due-queued_file_name t at simple small =
    let (due, json) = parse_due_from_filename-queued_file_name at simple small in
    rw (is_due, json, due) refl

scanned_when_due :
    (m : Map Payload) (p : Payload) (at t : ℤ) (simple : String)
    → Maps.get m (queued_file_name at simple) ≡ some p
    → IsI64 at
    → contains (scan_incoming_files t m) (queued_file_name at simple) ≡ leb_int at t
unfolding Maps.contains_key
scanned_when_due m p at t simple stored small =
    (scan_incoming_files-IsOrdered t m).0 (queued_file_name at simple)
    ∙ rw (Maps.contains_key, stored, is_due-queued_file_name t at simple small) refl

next_attempt-small : (w : Failing) (n : ℕ) → next_attempt w.config w.now n < 2 ^ 64
unfolding next_attempt
next_attempt-small w n = omega arith

-- What a failed message with attempts left goes on as, and the name of its file.
abbrev next_count : IncomingQueueEnvelope → ℕ
next_count envelope = (envelope.retry_count + 1) % 2 ^ 32

abbrev pub next_due : Failing → IncomingQueueEnvelope → ℕ
next_due w envelope = next_attempt w.config w.now (next_count envelope)

abbrev pub next_name : Failing → IncomingQueueEnvelope → String
next_name w envelope = queued_file_name (i64_of (next_due w envelope)) w.simple

abbrev pub next_envelope : Failing → String → IncomingQueueEnvelope → IncomingQueueEnvelope
next_envelope w e envelope = record envelope {
  retry_count = next_count envelope;
  last_error = some e;
  available_at_ms = some (next_due w envelope);
}

requeue_or_dead_letter-requeued :
    (w : Failing) (envelope : IncomingQueueEnvelope) (e : String)
    → ltb w.config.max_retries (next_count envelope) ≡ false
    → requeue_or_dead_letter w.config w.now e envelope ≡ requeued (next_envelope w e envelope)
unfolding requeue_or_dead_letter fate_of failed_once
requeue_or_dead_letter-requeued w envelope e left = rw left refl

-- A message whose processing fails while attempts are left goes back to incoming with the failure
-- counted and its error noted, and leaves processing; no scan gives it before its backoff is over,
-- and every scan from then on does, as long as the file is there. The write and the move succeed.
pub complete-waits :
    (w : Failing) (name : String) (envelope : IncomingQueueEnvelope) (e : String) (fs : Folders)
    → w.disk.torn ≡ none
    → w.disk.moves ≡ true
    → ltb w.config.max_retries (next_count envelope) ≡ false
    → let after = (complete w name envelope (err e) fs).1 in
      (Maps.get after.incoming (next_name w envelope)
        ≡ some (readable (next_envelope w e envelope)))
      × (Maps.get after.processing name ≡ none)
      × ((t : ℤ)
          → contains (scan_incoming_files t after.incoming) (next_name w envelope)
            ≡ leb_int (i64_of (next_due w envelope)) t)
unfolding complete settle_failure rewrite_and_move put_back
complete-waits w name envelope e fs whole moves left =
    rw
      (
        complete,
        requeue_or_dead_letter-requeued w envelope e left,
        settle_failure,
        rewrite_and_move,
        whole,
        moves,
      )
      (stored, rw (get-remove fs.processing name name, eq_refl name) refl, λ t. scanned t)
  where
    new : Map Payload
    new = Maps.insert fs.incoming (next_name w envelope) (readable (next_envelope w e envelope))

    stored : Maps.get new (next_name w envelope) ≡ some (readable (next_envelope w e envelope))
    stored =
        rw
          (
            get-insert fs.incoming (next_name w envelope) (readable (next_envelope w e envelope))
                (next_name w envelope),
            eq_refl (next_name w envelope),
          )
          refl

    scanned :
        (t : ℤ)
        → contains (scan_incoming_files t new) (next_name w envelope)
          ≡ leb_int (i64_of (next_due w envelope)) t
    scanned t =
        scanned_when_due new _ (i64_of (next_due w envelope)) t w.simple stored
          (i64_of-IsI64 (next_due w envelope) (next_attempt-small w (next_count envelope)))
