-- ===== src/RunEvents/Bounds.antt =====
-- crates/store/src/run_events.rs: the buffer stays within its two limits, and an eviction removes
-- the runs that completed first.
use clawpod.Base.{
  ℕ, ◌≤◌, String, List, [], ◌∷◌, ◌++◌, Map, ◌≡◌, refl, inl, inr, Bool-cases, ltb, length,
  length-append, unwrap_or, eq_iff, arith,
}
use clawpod.Base.Maps
use clawpod.Domain.Core.{RunEvent}
use clawpod.RunEvents.{RunEventBuffer, new, push, evict, mark_completed, get_events}

-- The operations of the buffer, in any order.
pub data Op : Type 0 where
  pushed : RunEvent → Op
  marked : String → Op

abbrev pub apply : Op → RunEventBuffer → RunEventBuffer
apply (pushed event) b = push event b
apply (marked run_id) b = mark_completed run_id b

abbrev pub run : List Op → RunEventBuffer → RunEventBuffer
run [] b = b
run (op ∷ ops) b = run ops (apply op b)

-- The buffer has the limits that it was made with, and is within them.
pub record IsBounded (max_runs max_events : ℕ) (b : RunEventBuffer) : Type 0 where
  pub runs_limit : b.max_completed_runs ≡ max_runs
  pub events_limit : b.max_events_per_run ≡ max_events
  pub queue : length b.completed ≤ max_runs
  pub events : (run_id : String) → length (get_events run_id b) ≤ max_events

evict-length :
    (limit : ℕ) (completed : List String) (runs : Map (List RunEvent))
    → length (evict limit completed runs).0 ≤ limit
unfolding evict
evict-length limit [] runs = omega arith
evict-length limit (oldest ∷ completed) runs =
    ground (arith, evict-length limit completed (Maps.remove runs oldest))

evict-get :
    (limit k : ℕ) (completed : List String) (runs : Map (List RunEvent)) (id : String)
    → length (unwrap_or (Maps.get runs id) []) ≤ k
    → length (unwrap_or (Maps.get (evict limit completed runs).1 id) []) ≤ k
unfolding evict
evict-get limit k [] runs id h = h
evict-get limit k (oldest ∷ completed) runs id h =
    elim (Bool-cases (ltb limit (length (oldest ∷ completed)))) [
      | inr short ↦ rw short h
      | inl long ↦ rw long (
          evict-get limit k completed (Maps.remove runs oldest) id
            (rw Maps.get-remove (ground arith)))
    ]

module _ (max_runs max_events : ℕ) where
  push-IsBounded :
      (event : RunEvent) (b : RunEventBuffer)
      → IsBounded max_runs max_events b
      → IsBounded max_runs max_events (push event b)
  unfolding push get_events
  push-IsBounded event b h = record {
    runs_limit = h.runs_limit;
    events_limit = h.events_limit;
    queue = h.queue;
    events = λ id. rw Maps.get-insert (
        ground (
          arith,
          h.events id,
          h.events event.run_id,
          length-append (get_events event.run_id b) (event ∷ []),
          eq_iff event.run_id id,
        ));
  }

  mark_completed-IsBounded :
      (run_id : String) (b : RunEventBuffer)
      → IsBounded max_runs max_events b
      → IsBounded max_runs max_events (mark_completed run_id b)
  unfolding mark_completed get_events
  mark_completed-IsBounded run_id b h = record {
    runs_limit = h.runs_limit;
    events_limit = h.events_limit;
    queue =
        rw (← h.runs_limit) (evict-length b.max_completed_runs (b.completed ++ run_id ∷ []) b.runs);
    events = λ id.
        evict-get b.max_completed_runs max_events (b.completed ++ run_id ∷ []) b.runs id
          (h.events id);
  }

  apply-IsBounded :
      (op : Op) (b : RunEventBuffer)
      → IsBounded max_runs max_events b
      → IsBounded max_runs max_events (apply op b)
  apply-IsBounded (pushed event) b h = push-IsBounded event b h
  apply-IsBounded (marked run_id) b h = mark_completed-IsBounded run_id b h

  run_of-IsBounded :
      (ops : List Op) (b : RunEventBuffer)
      → IsBounded max_runs max_events b
      → IsBounded max_runs max_events (run ops b)
  run_of-IsBounded [] b h = h
  run_of-IsBounded (op ∷ ops) b h = run_of-IsBounded ops (apply op b) (apply-IsBounded op b h)

  new-IsBounded : IsBounded max_runs max_events (new max_runs max_events)
  unfolding new get_events Maps.get
  new-IsBounded = record {
    runs_limit = refl;
    events_limit = refl;
    queue = omega arith;
    events = λ id. omega arith;
  }

-- After any operations on a new buffer, no run has more events than the limit given, and at most the
-- given number of completed runs wait for their eviction.
pub run-IsBounded :
    (max_runs max_events : ℕ) (ops : List Op)
    → IsBounded max_runs max_events (run ops (new max_runs max_events))
run-IsBounded max_runs max_events ops =
    run_of-IsBounded max_runs max_events ops _ (new-IsBounded max_runs max_events)
