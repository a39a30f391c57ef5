-- ===== src/Store/Runs.antt =====
-- crates/store/src/lib.rs: the records of agent runs.
use clawpod.Base.{ℕ, String, Bool, Option, none, some, Result, or_else}
use clawpod.Base.Maps
use clawpod.Domain.Core.{RunStatus}
use clawpod.Store.Records.{RunRecord}
use clawpod.Store.State.{StateStore, updating, reading}

-- `status_to_str`.
unfoldable pub status_to_str : RunStatus → String
status_to_str RunStatus.pending = "pending"
status_to_str RunStatus.running = "running"
status_to_str RunStatus.succeeded = "succeeded"
status_to_str RunStatus.failed = "failed"

-- The arguments of `record_run_start`.
pub record RunStart : Type 0 where
  pub run_id : String
  pub task_id : String
  pub message_id : String
  pub session_key : String
  pub agent_id : String
  pub prompt : String
  pub model : Option String
  pub provider : Option String
  pub think_level : Option String

unfoldable pub pending_run : RunStart → String → RunRecord
pending_run r now = record {
  id = r.run_id;
  task_id = r.task_id;
  message_id = r.message_id;
  session_key = r.session_key;
  agent_id = r.agent_id;
  status = "pending";
  prompt = some r.prompt;
  output = none;
  error = none;
  duration_ms = none;
  created_at = now;
  updated_at = now;
  started_at = none;
  ended_at = none;
  model = r.model;
  provider = r.provider;
  event_count = none;
  stderr = none;
  think_level = r.think_level;
}

-- `record_run_start`.
unfoldable pub record_run_start :
    RunStart → String → Bool → StateStore → Result (Unit {0}) × StateStore
unfolding updating pending_run
record_run_start r now =
    updating (λ s. (tt, record s { runs = Maps.insert s.runs r.run_id (pending_run r now) }))

-- The arguments of `record_run_end` after the run.
pub record RunEnd : Type 0 where
  pub status : RunStatus
  pub output : Option String
  pub error : Option String
  pub duration_ms : Option ℕ
  pub event_count : Option ℕ
  pub stderr : Option String

unfoldable pub ended : RunEnd → String → RunRecord → RunRecord
unfolding status_to_str
ended e now run = record run {
  status = status_to_str e.status;
  output = e.output;
  error = e.error;
  duration_ms = e.duration_ms;
  ended_at = some now;
  updated_at = now;
  event_count = or_else e.event_count run.event_count;
  stderr = or_else e.stderr run.stderr;
}

-- `record_run_end`.
unfoldable pub record_run_end :
    String → RunEnd → String → Bool → StateStore → Result (Unit {0}) × StateStore
unfolding updating ended
record_run_end run_id e now =
    updating (λ s. (tt, record s { runs = Maps.modify s.runs run_id (ended e now) }))

-- `get_run`, the record whose fields the JSON value has.
unfoldable pub get_run : String → StateStore → Result (Option RunRecord) × StateStore
unfolding reading
get_run run_id = reading (λ s. Maps.get s.runs run_id)
