-- ===== src/Queue/Runs.antt =====
-- crates/queue/src/lib.rs: one run of an agent for a message: its record, its events, its result.
use clawpod.Base.{
  ◌%◌, ◌^◌, String, Bool, none, some, List, [], ◌∷◌, Map, length, unwrap_or, if◌then◌else◌, format,
  Result, ok, err, panic,
}
use clawpod.Base.Maps
use clawpod.Base.Text
use clawpod.Domain.Core.{
  ProviderKind, AgentConfig, RunEvent, RunRequest, RunResult, RunStatus, default_think_level,
}
use clawpod.Domain.Models.{think_level_str}
use clawpod.Extern.{TextLib}
use clawpod.RunEvents.{RunEventBuffer, push, mark_completed}
use clawpod.Store.State.{StateStore}
use clawpod.Store.Runs.{record_run_start, record_run_end, RunStart, RunEnd}
use clawpod.Team.{provider_from_metadata, response_of}

-- `{:?}` of the providers.
abbrev provider_debug : ProviderKind → String
provider_debug ProviderKind.anthropic = "Anthropic"
provider_debug ProviderKind.openai = "Openai"
provider_debug ProviderKind.custom = "Custom"
provider_debug ProviderKind.mock = "Mock"

-- The arguments of `run_single_task`.
pub record Task : Type 0 where
  pub task_id : String
  pub message_id : String
  pub session_key : String
  pub working_directory : String
  pub agent_id : String
  pub prompt : String
  pub continue_session : Bool
  pub metadata : Map String

-- What the run meets: the fresh identifier, the runner's events and its answer, the times of the two
-- records, and whether the writes of the state file succeed.
pub record RunWorld : Type 0 where
  pub run_id : String
  pub run_streamed : RunRequest → List RunEvent × Result RunResult
  pub started : String
  pub ended : String
  pub start_writes : Bool
  pub end_writes : Bool

-- The store and the buffer of events.
pub record Memory : Type 0 where
  pub store : StateStore
  pub events : RunEventBuffer

-- The request, and the arguments of `record_run_start`.
unfoldable pub task_request : String → Task → AgentConfig → RunRequest
unfolding provider_from_metadata
task_request run_id task agent = record {
  run_id = run_id;
  task_id = task.task_id;
  session_key = task.session_key;
  agent_id = task.agent_id;
  provider = unwrap_or (provider_from_metadata task.metadata) agent.provider;
  model = unwrap_or (Maps.get task.metadata "effective_model") agent.model;
  think_level = unwrap_or agent.think_level default_think_level;
  working_directory = task.working_directory;
  prompt = task.prompt;
  continue_session = task.continue_session;
  metadata = task.metadata;
}

unfoldable pub run_start : TextLib → String → RunRequest → RunStart
unfolding think_level_str
run_start lib message_id req = record {
  run_id = req.run_id;
  task_id = req.task_id;
  message_id = message_id;
  session_key = req.session_key;
  agent_id = req.agent_id;
  prompt = req.prompt;
  model = some req.model;
  provider = some (lib.to_lowercase (provider_debug req.provider));
  think_level = some (think_level_str req.think_level);
}

-- The loop of the task that forwards the events.
unfoldable pub forward : List RunEvent → RunEventBuffer → RunEventBuffer
unfolding push
forward [] buffer = buffer
forward (event ∷ events) buffer = forward events (push event buffer)

-- The arguments of `record_run_end`; the count of events is a u32.
unfoldable pub run_succeeded : List RunEvent → RunResult → RunEnd
run_succeeded events run = record {
  status = RunStatus.succeeded;
  output = some run.text;
  error = none;
  duration_ms = some run.duration_ms;
  event_count = some (length events % 2 ^ 32);
  stderr = if Text.is_empty run.stderr then none else some run.stderr;
}

unfoldable pub run_failed : List RunEvent → String → RunEnd
run_failed events e = record {
  status = RunStatus.failed;
  output = none;
  error = some e;
  duration_ms = none;
  event_count = some (length events % 2 ^ 32);
  stderr = none;
}

-- The `?` after the record of the end, and what follows it.
unfoldable pub after_end :
    String
    → Result String
    → RunEventBuffer
    → Result (Unit {0}) × StateStore
    → Result String × Memory
unfolding mark_completed
after_end run_id answer buffer (ok u, store) =
    (answer, record { store = store; events = mark_completed run_id buffer })
after_end run_id answer buffer (err e, store) = (err e, record { store = store; events = buffer })
after_end run_id answer buffer (panic e, store) =
    (panic e, record { store = store; events = buffer })

-- From the runner's answer on: a runner that panics ends the task without a record of the end.
unfoldable pub finish_run :
    RunWorld → List RunEvent → Result RunResult → Memory → Result String × Memory
unfolding record_run_end run_succeeded run_failed after_end forward
finish_run w events (ok run) m =
    after_end w.run_id (ok (response_of run)) (forward events m.events)
      (record_run_end w.run_id (run_succeeded events run) w.ended w.end_writes m.store)
finish_run w events (err e) m =
    after_end w.run_id (err e) (forward events m.events)
      (record_run_end w.run_id (run_failed events e) w.ended w.end_writes m.store)
finish_run w events (panic e) m = (panic e, record m { events = forward events m.events })

-- The `?` after the record of the start, and what follows it.
unfoldable pub started_run :
    RunWorld → RunRequest → RunEventBuffer → Result (Unit {0}) × StateStore → Result String × Memory
unfolding finish_run
started_run w req buffer (ok u, store) =
    let (events, out) = w.run_streamed req in
    finish_run w events out (record { store = store; events = buffer })
started_run w req buffer (err e, store) = (err e, record { store = store; events = buffer })
started_run w req buffer (panic e, store) = (panic e, record { store = store; events = buffer })

-- `run_single_task`.
unfoldable pub run_single_task :
    TextLib → Map AgentConfig → RunWorld → Task → Memory → Result String × Memory
unfolding started_run task_request run_start record_run_start
run_single_task lib agents w task m = elim (Maps.get agents task.agent_id) [
  | none ↦ (err (format ("agent not found: " ∷ task.agent_id ∷ [])), m)
  | some agent ↦
      let req = task_request w.run_id task agent in
      started_run w req m.events
        (record_run_start (run_start lib task.message_id req) w.started w.start_writes m.store)
]
