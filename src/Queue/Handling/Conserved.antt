-- ===== src/Queue/Handling/Conserved.antt =====
-- crates/queue/src/lib.rs: no history of the folders loses a message or makes two of it.
use clawpod.Base.{ℕ, ◌+◌, String, some, ◌≡◌}
use clawpod.Base.Maps
use clawpod.Queue.{IncomingQueueEnvelope}
use clawpod.Queue.Retry.{Fate, requeued, dead_letter, removed}
use clawpod.Queue.Files.{readable, Folders}
use clawpod.Queue.Handling.{Failing}
use clawpod.Queue.Handling.Trace.{copies, IsSound}

-- Folders after a step that takes `out` and brings `new` of the message.
record Moves (id : String) (new out : ℕ) (fs after : Folders) : Type 0 where
  sound : IsSound after
  count : copies id after + out ≡ copies id fs + new

-- The envelope that a failed message goes on with keeps its identifier.
abbrev HasId : IncomingQueueEnvelope → Fate → Type 0
HasId envelope (requeued r) = r.message_id ≡ envelope.message_id
HasId envelope (dead_letter r) = r.message_id ≡ envelope.message_id
HasId envelope removed = Unit

module _ (id : String) (fs : Folders) (v : IsSound fs) (w : Failing) (name : String)
    (envelope : IncomingQueueEnvelope)
    (held : Maps.get fs.processing name ≡ some (readable envelope)) where
  abbrev without : Folders
  without = record fs { processing = Maps.remove fs.processing name }
