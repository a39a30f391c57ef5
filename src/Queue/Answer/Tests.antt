-- ===== src/Queue/Answer/Tests.antt =====
-- What follows an agent's answer, at concrete inputs.
use mathlib.Core.List.{Memᴰ}
use clawpod.Base.{◌+◌, ◌≤◌, arith, String, true, false, some, [], ◌∷◌, ok, err, ◌≡◌, refl}
use clawpod.Base.Maps
use clawpod.Base.Text
use clawpod.Domain.Core.{InboundEvent, ChatroomPost, RunEvent, RunEventType}
use clawpod.Samples.{agents, teams, sample_lib, hello, agent_called}
use clawpod.Store.State.{StateStore, StateFile, default_snapshot, refresh_locked}
use clawpod.Queue.{EnqueueMessage}
use clawpod.Queue.Runs.{Task, RunWorld, Memory, run_single_task}
use clawpod.Queue.Ended.{IsRecorded, run_single_task-IsRecorded}
use clawpod.Queue.Answer.{Stamps, handoff_loop, handoff_message, handoffs}
use clawpod.Queue.Depths.{Chain, ends, hands, handoffs_end}
use clawpod.Queue.Rooms.{IsPosted, post_chatroom_messages-Tells}
use clawpod.Queue.Outgoing.{OutboundEvent}
use clawpod.Routing.Mentions.{
  extract_teammate_mentions, team_mentions, tagged_handoffs, is_valid_teammate,
}

abbrev stamps : Stamps
stamps = record { now_ms = λ n. 1700000000000; new_v4 = λ n. "u" }

abbrev store : StateStore
store = record { file = StateFile.missing; snapshot = default_snapshot }

abbrev fresh : Memory
fresh = record {
  store = store;
  events = record { runs = []; completed = []; max_completed_runs = 5; max_events_per_run = 5 };
}

abbrev task : Task
task = record {
  task_id = "t";
  message_id = "m1";
  session_key = "k";
  working_directory = "/w";
  agent_id = "default";
  prompt = "hello";
  continue_session = false;
  metadata = [];
}

abbrev event : RunEvent
event = record {
  run_id = "r";
  seq = 0;
  timestamp = "now";
  event_type = RunEventType.started;
  payload = "null";
}

abbrev failing_world : RunWorld
failing_world = record {
  run_id = "r";
  run_streamed = λ req. (event ∷ [], err "no answer");
  started = "t0";
  ended = "t1";
  start_writes = true;
  end_writes = true;
}

default_known : Maps.get agents "default" ≡ some (agent_called "Default")
unfolding Maps.get
default_known = refl

store_read : refresh_locked store ≡ ok default_snapshot
unfolding refresh_locked
store_read = refl

run_single_task-IsRecorded_example :
    IsRecorded failing_world fresh.events
      (event ∷ [])
      (err "no answer")
      (run_single_task sample_lib agents failing_world task fresh)
run_single_task-IsRecorded_example =
    run_single_task-IsRecorded sample_lib agents failing_world task (agent_called "Default") fresh
      default_snapshot (event ∷ []) (err "no answer") default_known store_read refl refl refl tt

abbrev asks : String
asks = "[@reviewer: look] [@reviewer: again]"

abbrev handed : EnqueueMessage
handed =
    handoff_message stamps 0 "default" hello 1
      (record { teammate_id = "reviewer"; message = "look" })

abbrev next_event : InboundEvent
next_event = record hello { chain_depth = 1; from_agent = some "default" }

one_hop : Chain sample_lib 3 hello 1
unfolding handoffs extract_teammate_mentions handoff_loop handoff_message Text.trim Maps.get
    team_mentions tagged_handoffs is_valid_teammate
one_hop =
    hands {next = next_event} agents teams stamps (some "dev") "default" asks handed
      (Memᴰ.head refl) refl ends

handoffs_end_example : 0 + 1 ≤ 3
handoffs_end_example = handoffs_end sample_lib 3 hello 1 (omega arith) (omega arith) one_hop

abbrev post : ChatroomPost
post = record { team_id = "dev"; message = "hi" }

post_chatroom_messages-Tells_example :
    IsPosted agents teams stamps "default" "now" 0 (post ∷ []) store
post_chatroom_messages-Tells_example =
    post_chatroom_messages-Tells agents teams stamps "default" "now" 0 (post ∷ []) store
      default_snapshot store_read

abbrev outbound : OutboundEvent
outbound = record {
  channel = "telegram";
  recipient_id = "alice_1";
  message = "hi alice";
  message_id = "m1";
  original_message_id = "m1";
  agent_id = "default";
  files = [];
}
