-- ===== src/Queue/Tests.antt =====
-- The queue at concrete inputs.
use clawpod.Base.{String, true, false, none, some, [], ◌∷◌, ◌==◌, ok, ◌≡◌, refl, format, arith}
use clawpod.Base.Maps
use clawpod.Domain.Models.{QueueMode}
use clawpod.Domain.Core.{ChatType}
use clawpod.Samples.{agents, teams, sample_lib, hello, agent_called}
use clawpod.Queue.{
  EnqueueMessage, enqueued, envelope_to_event, envelope_to_event-enqueued, is_internal_channel,
}
use clawpod.Queue.Route.{Routed, route_event}
use clawpod.Queue.Routed.{route_event-IsConfigured}
use clawpod.Queue.Context.{record_session_context}
use clawpod.Queue.Contexts.{Remembers, record_session_context-Remembers}
use clawpod.Store.Records.{SessionSummary}
use clawpod.Store.State.{StateStore, StateFile, default_snapshot, refresh_locked}
use clawpod.Store.Sessions.{get_session}
use clawpod.Queue.Retry.{QueueConfig}
use clawpod.Queue.Retries.{failures, backoffs, failures-eq-backoffs}
use clawpod.Routing.{parse_agent_routing}

abbrev message : EnqueueMessage
message = record {
  channel = "telegram";
  sender = "alice";
  sender_id = "alice_1";
  message = "hello";
  message_id = "m1";
  timestamp_ms = 1700000000000;
  chat_type = ChatType.thread;
  peer_id = "p";
  account_id = none;
  pre_routed_agent = none;
  from_agent = none;
  files = [];
  chain_depth = 0;
}

envelope_to_event-enqueued_example : envelope_to_event (λ t. some t) 0 (enqueued message) ≡ record {
  message_id = "m1";
  channel = "telegram";
  sender = "alice";
  sender_id = "alice_1";
  text = "hello";
  timestamp = 1700000000000;
  chat_type = ChatType.thread;
  peer_id = "p";
  account_id = none;
  files = [];
  pre_routed_agent = none;
  from_agent = none;
  chain_depth = 0;
}
envelope_to_event-enqueued_example =
    envelope_to_event-enqueued (λ t. some t) 0 message (omega arith) refl

abbrev config : QueueConfig
config = record {
  mode = QueueMode.collect;
  max_retries = 2;
  dead_letter_enabled = true;
  backoff_base_ms = 500;
}

failures-eq-backoffs_example :
    failures config (λ n. 1000) "boom" 5 (enqueued message)
    ≡ (backoffs config (λ n. 1000) 2 0, true)
unfolding enqueued
failures-eq-backoffs_example =
    failures-eq-backoffs config (λ n. 1000) "boom" (omega arith) 2 (enqueued message) 5
      (omega arith) (omega arith)

waits : backoffs config (λ n. 1000) 2 0 ≡ some 1500 ∷ some 2000 ∷ []
unfolding backoffs
waits = refl

route_event-IsConfigured_example :
    (r : Routed) × (route_event sample_lib agents teams [] hello "hello" (some "reviewer") ≡ ok r)
    × (Maps.contains_key agents r.agent_id ≡ true)
    × ((f : String)
        → hello.pre_routed_agent ≡ some f
        → Maps.contains_key agents f ≡ true
        → r.agent_id ≡ f)
    × ((a : String)
        → hello.pre_routed_agent ≡ none
        → some "reviewer" ≡ some a
        → Maps.contains_key agents a ≡ true
        → (a == "default") ≡ false
        → is_internal_channel hello.channel ≡ false
        → (parse_agent_routing sample_lib "hello" agents teams).agent_id ≡ "default"
        → r.agent_id ≡ a)
    × ((a : String)
        → hello.pre_routed_agent ≡ none
        → (parse_agent_routing sample_lib "hello" agents teams).agent_id ≡ a
        → Maps.contains_key agents a ≡ true
        → (a == "default") ≡ false
        → r.agent_id ≡ a)
route_event-IsConfigured_example =
    route_event-IsConfigured sample_lib "default" (agent_called "Default")
      (("reviewer", agent_called "Reviewer") ∷ []) teams [] hello "hello" (some "reviewer")

abbrev fresh_store : StateStore
fresh_store = record { file = StateFile.missing; snapshot = default_snapshot }

fresh_read : refresh_locked fresh_store ≡ ok default_snapshot
unfolding refresh_locked
fresh_read = refl

external : is_internal_channel hello.channel ≡ false
unfolding is_internal_channel
external = refl

record_session_context-Remembers_example :
    (summary : SessionSummary) × ((get_session
        (format ("agent:" ∷ "default" ∷ ":" ∷ "main" ∷ []))
        (record_session_context "default" hello "agent:default:direct:alice_1" "main" "t" true
          fresh_store).1).0
      ≡ ok (some summary))
    × Remembers hello summary
record_session_context-Remembers_example =
    record_session_context-Remembers "default" hello "agent:default:direct:alice_1" "main" "t"
      fresh_store
      (record_session_context "default" hello "agent:default:direct:alice_1" "main" "t" true
        fresh_store).1
      default_snapshot fresh_read external refl
