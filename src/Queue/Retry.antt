-- ===== src/Queue/Retry.antt =====
-- crates/queue/src/lib.rs: a message whose processing failed.
use clawpod.Base.{ℕ, ◌+◌, ◌-◌, ◌*◌, ◌^◌, ◌%◌, String, Bool, some, ltb, if◌then◌else◌}
use clawpod.Domain.Models.{QueueMode}
use clawpod.Queue.{IncomingQueueEnvelope}

-- The settings of the queue.
pub record QueueConfig : Type 0 where
  pub mode : QueueMode
  pub max_retries : ℕ
  pub dead_letter_enabled : Bool
  pub backoff_base_ms : ℕ

-- What becomes of the file: back in the queue, in the folder of dead letters, or gone.
pub data Fate : Type 0 where
  requeued : IncomingQueueEnvelope → Fate
  dead_letter : IncomingQueueEnvelope → Fate
  removed : Fate

-- The number of the attempt is a u32.
unfoldable pub failed_once : String → IncomingQueueEnvelope → IncomingQueueEnvelope
failed_once error envelope = record envelope {
  retry_count = (envelope.retry_count + 1) % 2 ^ 32;
  last_error = some error;
}

-- The time of the next attempt: the bits of an i64.
unfoldable pub next_attempt : QueueConfig → ℕ → ℕ → ℕ
next_attempt config now retry_count =
    (now + config.backoff_base_ms * 2 ^ (retry_count - 1)) % 2 ^ 64

-- `requeue_or_dead_letter`, on its second part.
unfoldable pub fate_of : QueueConfig → ℕ → IncomingQueueEnvelope → Fate
unfolding next_attempt
fate_of config now envelope =
    if ltb config.max_retries envelope.retry_count
    then (if config.dead_letter_enabled then dead_letter envelope else removed)
    else requeued
        (record envelope { available_at_ms = some (next_attempt config now envelope.retry_count) })

-- `requeue_or_dead_letter`.
unfoldable pub requeue_or_dead_letter : QueueConfig → ℕ → String → IncomingQueueEnvelope → Fate
unfolding failed_once fate_of
requeue_or_dead_letter config now error envelope = fate_of config now (failed_once error envelope)
