-- ===== src/Queue/Files.antt =====
-- crates/queue/src/lib.rs: the folders of the queue. A file waits in incoming, is worked on in
-- processing, and ends in dead_letter or removed; here are how it comes into incoming and how
-- incoming is scanned. Handling says what is done with a file.
pub mod Recovery
pub mod Scans
pub mod Keeping
use Prim.Native.String
use text.Mathlib.Text.{is_le}
use clawpod.Base.{
  ℕ, String, Bool, true, false, ◌&&◌, Option, none, some, List, [], ◌∷◌, Map, if◌then◌else◌,
  unwrap_or, Result, ok, err, panic, ◌>>◌,
}
use clawpod.Base.Maps
use clawpod.Base.Decimal.{ℤ, pos, leb_int, i64_of}
use clawpod.Queue.{EnqueueMessage, IncomingQueueEnvelope, enqueued}
use clawpod.Queue.Names.{is_json, due_key, parse_due_from_filename, queued_file_name}
use clawpod.Queue.Retry.{QueueConfig, Fate, requeued, dead_letter, removed, requeue_or_dead_letter}

-- What reading a file and parsing it gives: an envelope, or nothing that is one.
pub data Payload : Type 0 where
  readable : IncomingQueueEnvelope → Payload
  invalid : Payload

-- The folders, by file name.
pub record Folders : Type 0 where
  pub incoming : Map Payload
  pub processing : Map Payload
  pub dead_letters : Map Payload

-- `enqueue_message`, where the write succeeds.
unfoldable pub enqueue_message : EnqueueMessage → String → Folders → Folders
unfolding queued_file_name enqueued
enqueue_message msg simple fs = record fs {
  incoming =
      Maps.insert fs.incoming (queued_file_name (pos msg.timestamp_ms) simple)
        (readable (enqueued msg));
}

-- The loop of `recover_processing_files` over the entries of the folder: what it returns, what is
-- left in processing, and incoming after it. `renames` says of which file the move succeeds.
unfoldable pub recover_entries :
    (String → Bool) → Map Payload → Map Payload → Result (Unit {0}) × Map Payload × Map Payload
unfolding is_json
recover_entries renames [] incoming = (ok tt, [], incoming)
recover_entries renames ((name, payload) ∷ entries) incoming =
    let moves = is_json name && renames name in
    let rest =
      recover_entries renames entries
        (if moves then Maps.insert incoming name payload else incoming) in
    if moves
    then rest
    else if is_json name
    then (
      err "failed to move stale processing file back to incoming",
      (name, payload) ∷ entries,
      incoming,
    )
    else (rest.0, (name, payload) ∷ rest.1, rest.2)

-- `recover_processing_files`.
unfoldable pub recover_processing_files : (String → Bool) → Folders → Result (Unit {0}) × Folders
unfolding recover_entries
recover_processing_files renames fs =
    let (result, left, incoming) = recover_entries renames fs.processing fs.incoming in
    (result, record fs { processing = left; incoming = incoming })

-- The files that `scan_incoming_files` does not skip.
unfoldable pub is_due : ℤ → String → Bool
unfolding is_json parse_due_from_filename
is_due now name = is_json name && elim (parse_due_from_filename name) [
  | none ↦ true
  | some available_at ↦ leb_int available_at now
]

-- The comparison of its sort, as "not after".
unfoldable pub not_after : String → String → Bool
unfolding parse_due_from_filename
not_after a b =
    if leb_int (due_key a) (due_key b)
    then (if leb_int (due_key b) (due_key a) then is_le (String.compare a b) else true)
    else false

-- The stable sort of its names.
unfoldable pub insert_name : String → List String → List String
unfolding not_after
insert_name a [] = a ∷ []
insert_name a (b ∷ names) =
    let rest = insert_name a names in if not_after a b then a ∷ b ∷ names else b ∷ rest

-- `scan_incoming_files`, on the entries of the folder.
unfoldable pub scan_incoming_files : ℤ → Map Payload → List String
unfolding is_due insert_name
scan_incoming_files now [] = []
scan_incoming_files now ((name, payload) ∷ entries) =
    let rest = scan_incoming_files now entries in
    if is_due now name then insert_name name rest else rest
