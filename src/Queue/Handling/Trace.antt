-- ===== src/Queue/Handling/Trace.antt =====
-- crates/queue/src/lib.rs: every history of the queue's folders. Tasks and restarts interleave in any
-- order, and a message is always in one place.
use clawpod.Base.{
  ℕ, ◌+◌, String, Bool, none, some, [], if◌then◌else◌, unwrap_or, ◌≡◌, ◌==◌, Result, ok, err, panic,
}
use clawpod.Base.Maps
use clawpod.Base.Maps.{get-insert, get-remove, get-eq-none_iff}
use clawpod.Base.Keys.{IsDistinct, total}
use clawpod.Base.Decimal.{pos, i64_of}
use clawpod.Queue.{EnqueueMessage, IncomingQueueEnvelope, enqueued}
use clawpod.Queue.Names.{queued_file_name}
use clawpod.Queue.Retry.{Fate, requeued, dead_letter, removed, requeue_or_dead_letter}
use clawpod.Queue.Files.{
  Payload, readable, invalid, Folders, enqueue_message, recover_processing_files,
}
use clawpod.Queue.Files.Keeping.{IsApart}
use clawpod.Queue.Handling.{Failing, claim, complete}

abbrev pub no_files : Folders
no_files = record { incoming = []; processing = []; dead_letters = [] }

-- A random name is not in use.
abbrev pub IsFree : Folders → String → Type 0
IsFree fs name =
    (Maps.get fs.incoming name ≡ none)
    × (Maps.get fs.processing name ≡ none)
    × (Maps.get fs.dead_letters name ≡ none)

-- The names that a failed message may get.
abbrev pub HasFreeNames : Failing → Fate → Folders → Type 0
HasFreeNames w (requeued envelope) fs =
    IsFree fs (queued_file_name (i64_of (unwrap_or envelope.available_at_ms 0)) w.simple)
HasFreeNames w (dead_letter envelope) fs = IsFree fs (queued_file_name (pos w.now) w.simple)
HasFreeNames w removed fs = Unit

abbrev pub fate : Failing → IncomingQueueEnvelope → Result (Unit {0}) → Fate
fate w envelope (ok u) = removed
fate w envelope (err e) = requeue_or_dead_letter w.config w.now e envelope
fate w envelope (panic e) = removed

-- One step: a message comes in, a task claims a file, a task ends, or the program is restarted. The
-- writes of a task that ends succeed; its moves may fail.
pub data Step (fs : Folders) : Folders → Type 0 where
  enqueues :
      (msg : EnqueueMessage) (simple : String) {after : Folders}
      → IsFree fs (queued_file_name (pos msg.timestamp_ms) simple)
      → after ≡ enqueue_message msg simple fs
      → Step fs after
  claims : (name : String) {after : Folders} → claim name fs ≡ some after → Step fs after
  completes :
      (w : Failing) (name : String) (envelope : IncomingQueueEnvelope) (result : Result (Unit {0}))
      {after : Folders}
      → Maps.get fs.processing name ≡ some (readable envelope)
      → w.disk.torn ≡ none
      → HasFreeNames w (fate w envelope result) fs
      → after ≡ (complete w name envelope result fs).1
      → Step fs after
  restarts :
      (renames : String → Bool) {after : Folders}
      → after ≡ (recover_processing_files renames fs).1
      → Step fs after

pub data Reach : Folders → Type 0 where
  start : {fs : Folders} → fs ≡ no_files → Reach fs
  later : {fs after : Folders} → Reach fs → Step fs after → Reach after

module _ (id : String) where
  -- 1 for a file that holds the message.
  abbrev pub holds : Payload → ℕ
  holds (readable envelope) = if envelope.message_id == id then 1 else 0
  holds invalid = 0

  -- The places that the message is in.
  abbrev pub copies : Folders → ℕ
  copies fs = total holds fs.incoming + total holds fs.processing + total holds fs.dead_letters

  abbrev pub entered_by : {fs after : Folders} → Step fs after → ℕ
  entered_by (enqueues msg simple free e) = holds (readable (enqueued msg))
  entered_by (claims name e) = 0
  entered_by (completes w name envelope result held whole free e) = 0
  entered_by (restarts renames e) = 0

  -- A failed message ends when it failed for the last time, with dead letters off.
  abbrev pub ended_as : Failing → IncomingQueueEnvelope → Fate → ℕ
  ended_as w envelope removed = if w.disk.moves then holds (readable envelope) else 0
  ended_as w envelope (requeued r) = 0
  ended_as w envelope (dead_letter r) = 0

  -- A message ends when it has been processed as well.
  abbrev pub ended_with : Failing → IncomingQueueEnvelope → Result (Unit {0}) → ℕ
  ended_with w envelope (ok u) = if w.disk.moves then holds (readable envelope) else 0
  ended_with w envelope (err e) =
      ended_as w envelope (requeue_or_dead_letter w.config w.now e envelope)
  ended_with w envelope (panic e) = 0

  abbrev pub ended_by : {fs after : Folders} → Step fs after → ℕ
  ended_by (enqueues msg simple free e) = 0
  ended_by (claims name e) = 0
  ended_by (completes w name envelope result held whole free e) = ended_with w envelope result
  ended_by (restarts renames e) = 0

  -- How often the message came in, and how often it ended.
  unfoldable pub entered : {fs : Folders} → Reach fs → ℕ
  entered (start e) = 0
  entered (later r s) = entered_by s + entered r

  unfoldable pub ended : {fs : Folders} → Reach fs → ℕ
  ended (start e) = 0
  ended (later r s) = ended_by s + ended r

-- The file names in each folder are different, and a file does not wait and be worked on at once.
pub record IsSound (fs : Folders) : Type 0 where
  pub incoming_IsDistinct : IsDistinct fs.incoming
  pub processing_IsDistinct : IsDistinct fs.processing
  pub dead_letters_IsDistinct : IsDistinct fs.dead_letters
  pub apart : IsApart fs.processing fs.incoming
