-- ===== src/Queue/Handling.antt =====
-- crates/queue/src/lib.rs: what the processor does with one file: it claims the file, reads it, has it
-- processed, and settles what becomes of it.
pub mod Outcomes
pub mod Trace
pub mod Conserved
mod Tests
use clawpod.Base.{
  ℕ, String, Bool, Option, none, some, Map, if◌then◌else◌, unwrap_or, Result, ok, err, panic, ◌>>◌,
}
use clawpod.Base.Maps
use clawpod.Base.Decimal.{pos, i64_of}
use clawpod.Queue.{IncomingQueueEnvelope}
use clawpod.Queue.Names.{queued_file_name}
use clawpod.Queue.Files.{Payload, readable, invalid, Folders}
use clawpod.Queue.Retry.{QueueConfig, Fate, requeued, dead_letter, removed, requeue_or_dead_letter}

-- How the system serves the write of the envelope, and the move or removal after it: a write that
-- fails leaves the file with any contents.
pub record Disk : Type 0 where
  pub torn : Option Payload
  pub moves : Bool

-- The write of the envelope to the file in processing and its move to where `put` says; `emitted` is
-- the result of the event that tells of it.
unfoldable pub rewrite_and_move :
    Disk
    → Result (Unit {0})
    → String
    → IncomingQueueEnvelope
    → (Folders → Folders)
    → Folders
    → Result (Unit {0}) × Folders
rewrite_and_move disk emitted name envelope put fs = elim disk.torn [
  | some left ↦ (
    err "failed to rewrite envelope",
    record fs { processing = Maps.insert fs.processing name left },
  )
  | none ↦
      if disk.moves
      then (emitted, put (record fs { processing = Maps.remove fs.processing name }))
      else (
        err "failed to move queue payload",
        record fs { processing = Maps.insert fs.processing name (readable envelope) },
      )
]

-- A file for the next attempt, and one of a dead letter.
unfoldable pub put_back : String → IncomingQueueEnvelope → Folders → Folders
unfolding queued_file_name i64_of
put_back simple envelope fs = record fs {
  incoming =
      Maps.insert fs.incoming
        (queued_file_name (i64_of (unwrap_or envelope.available_at_ms 0)) simple)
        (readable envelope);
}

unfoldable pub bury : ℕ → String → IncomingQueueEnvelope → Folders → Folders
unfolding queued_file_name
bury now simple envelope fs = record fs {
  dead_letters =
      Maps.insert fs.dead_letters (queued_file_name (pos now) simple) (readable envelope);
}

-- The processor's settings, the system, the clock, the random part of a new name, and the result of
-- the event.
pub record Failing : Type 0 where
  pub config : QueueConfig
  pub disk : Disk
  pub now : ℕ
  pub simple : String
  pub emitted : Result (Unit {0})

-- The folders in `requeue_or_dead_letter`, by the fate of the message.
unfoldable pub settle_failure : Failing → String → Fate → Folders → Result (Unit {0}) × Folders
unfolding rewrite_and_move put_back bury
settle_failure w name (requeued envelope) fs =
    rewrite_and_move w.disk w.emitted name envelope (put_back w.simple envelope) fs
settle_failure w name (dead_letter envelope) fs =
    rewrite_and_move w.disk w.emitted name envelope (bury w.now w.simple envelope) fs
settle_failure w name removed fs =
    if w.disk.moves
    then (ok tt, record fs { processing = Maps.remove fs.processing name })
    else (err "failed to remove queue payload", fs)

-- The `match` of `handle_file` on what the processing returned. A panic ends the task and leaves the
-- file.
unfoldable pub complete :
    Failing
    → String
    → IncomingQueueEnvelope
    → Result (Unit {0})
    → Folders
    → Result (Unit {0}) × Folders
unfolding settle_failure requeue_or_dead_letter
complete w name envelope (ok u) fs =
    (ok tt, if w.disk.moves then record fs { processing = Maps.remove fs.processing name } else fs)
complete w name envelope (err e) fs =
    let settled = settle_failure w name (requeue_or_dead_letter w.config w.now e envelope) fs in
    (settled.0 >> err e, settled.1)
complete w name envelope (panic e) fs = (panic e, fs)

-- The rename that claims a file, which fails where another task has it.
unfoldable pub claim : String → Folders → Option Folders
claim name fs = elim (Maps.get fs.incoming name) [
  | none ↦ none
  | some payload ↦ some (record fs {
    incoming = Maps.remove fs.incoming name;
    processing = Maps.insert fs.processing name payload;
  })
]

-- Reading and processing a claimed file. The processing may put further messages into the folders.
unfoldable pub handle_claimed :
    (IncomingQueueEnvelope → Folders → Result (Unit {0}) × Folders)
    → Failing
    → String
    → Folders
    → Result (Unit {0}) × Folders
unfolding complete
handle_claimed process w name fs = elim (Maps.get fs.processing name) [
  | none ↦ (err "failed to read processing file", fs)
  | some payload ↦ elim payload [
    | invalid ↦ (err "invalid queue payload", fs)
    | readable envelope ↦
        let (result, after) = process envelope fs in complete w name envelope result after
  ]
]

-- `handle_file`.
unfoldable pub handle_file :
    (IncomingQueueEnvelope → Folders → Result (Unit {0}) × Folders)
    → Failing
    → String
    → Folders
    → Result (Unit {0}) × Folders
unfolding claim handle_claimed
handle_file process w name fs = elim (claim name fs) [
  | none ↦ (ok tt, fs)
  | some claimed ↦ handle_claimed process w name claimed
]
