-- ===== src/RunEvents.antt =====
-- crates/store/src/run_events.rs: the buffer of run events behind its lock. The broadcast channel
-- is tokio's and is left out: a send changes nothing of the buffer.
pub mod Bounds
pub mod Recall
mod Tests
use clawpod.Base.{
  ℕ, ◌+◌, String, Option, none, some, List, [], ◌∷◌, ◌++◌, Map, ltb, if◌then◌else◌, length,
  unwrap_or,
}
use clawpod.Base.Maps
use clawpod.Domain.Core.{RunEvent}

-- `BufferInner`.
pub record RunEventBuffer : Type 0 where
  pub runs : Map (List RunEvent)
  pub completed : List String
  pub max_completed_runs : ℕ
  pub max_events_per_run : ℕ

-- `RunEventBuffer::new`.
unfoldable pub new : ℕ → ℕ → RunEventBuffer
new max_completed_runs max_events_per_run = record {
  runs = [];
  completed = [];
  max_completed_runs = max_completed_runs;
  max_events_per_run = max_events_per_run;
}

-- `push`: the entry is made if it is missing, and a full entry drops the event.
unfoldable pub push : RunEvent → RunEventBuffer → RunEventBuffer
push event b =
    let events = unwrap_or (Maps.get b.runs event.run_id) [] in
    record b {
      runs =
          Maps.insert b.runs event.run_id
            (if ltb (length events) b.max_events_per_run then events ++ event ∷ [] else events);
    }

-- The `while` loop of `mark_completed`, which pops from the front of the queue.
unfoldable pub evict : ℕ → List String → Map (List RunEvent) → List String × Map (List RunEvent)
evict limit [] runs = ([], runs)
evict limit (oldest ∷ completed) runs =
    let rest = evict limit completed (Maps.remove runs oldest) in
    if ltb limit (length (oldest ∷ completed)) then rest else (oldest ∷ completed, runs)

-- `mark_completed`.
unfoldable pub mark_completed : String → RunEventBuffer → RunEventBuffer
mark_completed run_id b =
    let (completed, runs) = evict b.max_completed_runs (b.completed ++ run_id ∷ []) b.runs in
    record b { completed = completed; runs = runs }

-- `get_events`.
unfoldable pub get_events : String → RunEventBuffer → List RunEvent
get_events run_id b = unwrap_or (Maps.get b.runs run_id) []

-- `event_count`.
unfoldable pub event_count : String → RunEventBuffer → ℕ
event_count run_id b = elim (Maps.get b.runs run_id) [ none ↦ 0 | some events ↦ length events ]
