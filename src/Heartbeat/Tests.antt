-- ===== src/Heartbeat/Tests.antt =====
-- Heartbeats at concrete inputs.
use clawpod.Base.{ℕ, false, ◌≤◌, String, false, none, some, [], ◌∷◌, ◌≡◌, refl, max}
use mathlib.Core.List.{Memᴰ}
use clawpod.Base.Maps
use clawpod.Base.Text
use clawpod.Config.Durations.{parse_duration_str}
use clawpod.Domain.Core.{AgentConfig}
use clawpod.Samples.{agent_called}
use clawpod.Store.Records.{SessionRecord, StoreSnapshot}
use clawpod.Store.State.{StateStore, StateFile, default_snapshot}
use clawpod.Heartbeat.Classified.{IsClassified, LacksToken, normalize_heartbeat_output-IsClassified}
use clawpod.Heartbeat.Normalize.{
  NormalizeResult, alert, normalize_heartbeat_output, strip_markdown_wrappers,
}
use clawpod.Heartbeat.Ticks.{own_interval, resolve_tick_interval, resolve_tick_interval_bounds}

normalize_heartbeat_output-IsClassified_example :
    IsClassified " HEARTBEAT_OK all well " 300
      (normalize_heartbeat_output " HEARTBEAT_OK all well " 300)
    × (Text.is_empty (Text.trim " HEARTBEAT_OK all well ") ≡ false
        → LacksToken (strip_markdown_wrappers (Text.trim " HEARTBEAT_OK all well "))
        → normalize_heartbeat_output " HEARTBEAT_OK all well " 300
          ≡ alert (Text.trim " HEARTBEAT_OK all well "))
normalize_heartbeat_output-IsClassified_example =
    normalize_heartbeat_output-IsClassified " HEARTBEAT_OK all well " 300

abbrev every_5s : AgentConfig
every_5s = record (agent_called "Default") {
  heartbeat = some (record {
    every = some "5s";
    model = none;
    prompt = none;
    target = none;
    to = none;
    account_id = none;
    ack_max_chars = none;
    direct_policy = none;
    include_reasoning = none;
    light_context = none;
    isolated_session = none;
    active_hours = none;
  });
}

own_interval_5s : own_interval every_5s.heartbeat ≡ some 5
unfolding parse_duration_str
own_interval_5s = refl

found_5s : Maps.get (("default", every_5s) ∷ []) "default" ≡ some every_5s
unfolding Maps.get
found_5s = refl

resolve_tick_interval_bounds_example :
    (resolve_tick_interval (("default", every_5s) ∷ []) none 60 ≤ max 5 10)
    × ((setter : String) × (other : AgentConfig) × (m : ℕ) × Memᴰ {A = String × AgentConfig}
          (setter, other)
          (("default", every_5s) ∷ [])
        × (own_interval other.heartbeat ≡ some m)
        × (resolve_tick_interval (("default", every_5s) ∷ []) none 60 ≡ max m 10))
resolve_tick_interval_bounds_example =
    (resolve_tick_interval_bounds (("default", every_5s) ∷ []) none 60).1 "default" every_5s 5
      found_5s own_interval_5s

short_text : normalize_heartbeat_output "**HEARTBEAT_OK** " 300 ≡ NormalizeResult.ack_only
unfolding normalize_heartbeat_output
short_text = refl

abbrev main_session : SessionRecord
main_session = record {
  session_key = "agent:default:main";
  agent_id = "default";
  created_at = "";
  updated_at = "";
  last_channel = none;
  last_peer_id = none;
  last_account_id = none;
  last_chat_type = none;
  last_sender_id = none;
  last_message_id = none;
  last_thread_id = none;
  last_heartbeat_text = none;
  last_heartbeat_sent_at = none;
}

abbrev one_session : StoreSnapshot
one_session = record default_snapshot { sessions = ("agent:default:main", main_session) ∷ [] }

abbrev on_disk : StateStore
on_disk = record { file = StateFile.holds one_session; snapshot = default_snapshot }
