-- ===== src/RunEvents/Tests.antt =====
-- The buffer of run events on a short history.
use clawpod.Base.{ℕ, String, List, [], ◌∷◌, ◌≡◌, refl, take, arith}
use clawpod.Base.Maps
use clawpod.Domain.Core.{RunEvent, RunEventType}
use clawpod.RunEvents.{new, push, evict, mark_completed, get_events}
use clawpod.RunEvents.Bounds.{Op, pushed, marked, run, IsBounded, run-IsBounded}
use clawpod.RunEvents.Recall.{history, get_events-eq-history}

abbrev event : String → ℕ → RunEvent
event id n = record {
  run_id = id;
  seq = n;
  timestamp = "";
  event_type = RunEventType.started;
  payload = "null";
}

abbrev ops : List Op
ops =
    pushed (event "a" 0)
    ∷ pushed (event "b" 0)
    ∷ pushed (event "a" 1)
    ∷ marked "a"
    ∷ pushed (event "b" 1)
    ∷ []

run-IsBounded_example : IsBounded 1 2 (run ops (new 1 2))
run-IsBounded_example = run-IsBounded 1 2 ops

get_events-eq-history_example : get_events "b" (run ops (new 1 2)) ≡ take 2 (history "b" ops)
get_events-eq-history_example = get_events-eq-history 1 2 ops "b" (omega arith)

-- With room for no completed run, a completion discards the events.
evicted : get_events "a" (run ops (new 0 2)) ≡ []
unfolding get_events new push mark_completed evict Maps.get Maps.insert Maps.remove
evicted = refl
