-- ===== src/Queue/Retries.antt =====
-- crates/queue/src/lib.rs: a message that fails every time leaves the queue.
use clawpod.Base.{
  ℕ, zero, suc, ◌+◌, ◌-◌, ◌*◌, ◌^◌, ◌<◌, String, Bool, true, false, Option, some, List, [], ◌∷◌,
  ltb, ◌≡◌, refl, arith, inl, inr, Bool-cases, ◌%◌,
}
use clawpod.Queue.{IncomingQueueEnvelope}
use clawpod.Queue.Retry.{
  QueueConfig, requeued, dead_letter, removed, failed_once, next_attempt, fate_of,
  requeue_or_dead_letter,
}

-- The times at which a message is tried again when every attempt fails, and whether it has left the
-- queue, for at most some attempts; each fails at its time of the clock.
unfoldable pub failures :
    QueueConfig → (ℕ → ℕ) → String → ℕ → IncomingQueueEnvelope → List (Option ℕ) × Bool
unfolding requeue_or_dead_letter
failures config clock error zero envelope = ([], false)
failures config clock error (suc fuel) envelope =
    elim (requeue_or_dead_letter config (clock envelope.retry_count) error envelope) [
      | requeued again ↦
          let later = failures config clock error fuel again in
          (again.available_at_ms ∷ later.0, later.1)
      | dead_letter e ↦ ([], true)
      | removed ↦ ([], true)
    ]

-- The times of the retries from one number of attempts on.
unfoldable pub backoffs : QueueConfig → (ℕ → ℕ) → ℕ → ℕ → List (Option ℕ)
backoffs config clock zero n = []
backoffs config clock (suc k) n =
    some ((clock n + config.backoff_base_ms * 2 ^ n) % 2 ^ 64) ∷ backoffs config clock k (n + 1)

module _ (config : QueueConfig) (clock : ℕ → ℕ) (error : String)
    (small : config.max_retries + 1 < 2 ^ 32) where
  -- A message that fails every time is tried again exactly as often as the settings leave it, with
  -- waits that double from the base one, and then leaves the queue.
  pub failures-eq-backoffs :
      (k : ℕ) (envelope : IncomingQueueEnvelope) (fuel : ℕ)
      → envelope.retry_count + k ≡ config.max_retries
      → k < fuel
      → failures config clock error fuel envelope
        ≡ (backoffs config clock k envelope.retry_count, true)
  unfolding failures requeue_or_dead_letter fate_of failed_once next_attempt backoffs
  failures-eq-backoffs k envelope zero left enough = absurd (omega (arith, enough))
  failures-eq-backoffs zero envelope (suc fuel) left enough =
      let count : (envelope.retry_count + 1) % 2 ^ 32 ≡ envelope.retry_count + 1 =
        omega (arith, left, small) in
      let last : ltb config.max_retries (envelope.retry_count + 1) ≡ true = ground arith in
      elim (Bool-cases config.dead_letter_enabled) [
        | inl kept ↦
            rw (failures, requeue_or_dead_letter, fate_of, failed_once, count, last, kept) refl
        | inr dropped ↦
            rw (failures, requeue_or_dead_letter, fate_of, failed_once, count, last, dropped) refl
      ]
  failures-eq-backoffs (suc k) envelope (suc fuel) left enough =
      let n = envelope.retry_count in
      let count : (n + 1) % 2 ^ 32 ≡ n + 1 = omega (arith, left, small) in
      let more : ltb config.max_retries (n + 1) ≡ false = ground arith in
      let again : IncomingQueueEnvelope = record envelope {
        retry_count = n + 1;
        last_error = some error;
        available_at_ms = some ((clock n + config.backoff_base_ms * 2 ^ n) % 2 ^ 64);
      } in
      let ih = failures-eq-backoffs k again fuel (omega (arith, left)) (omega (arith, enough)) in
      let base : (n + 1) - 1 ≡ n = omega arith in
      rw
        (
          failures, requeue_or_dead_letter, fate_of, failed_once, count, more, next_attempt, base,
          ih,
        )
        refl
