-- ===== src/Heartbeat/Outcome.antt =====
-- crates/heartbeat/src/lib.rs: what `run_once` decides, before the agent runs and after.
use clawpod.Base.{
  String, Bool, true, false, not, ◌&&◌, Option, none, some, List, [], ◌∷◌, Map, ◌==◌, ◌||◌,
  if◌then◌else◌, or_else, unwrap_or, format,
}
use clawpod.Base.Maps
use clawpod.Base.Text
use clawpod.Domain.Beat.{
  HeartbeatTarget, HeartbeatRunReason, HeartbeatDeliveryMode, HeartbeatIndicatorType,
  is_event_driven,
}
use clawpod.Domain.Core.{AgentConfig, TeamConfig}
use clawpod.Extern.{TimeLib}
use clawpod.Heartbeat.Policy.{EffectiveHeartbeatPolicy}
use clawpod.Heartbeat.Dedup.{is_duplicate_heartbeat}
use clawpod.Heartbeat.Normalize.{NormalizeResult, ack_only, ok_with_text, alert}
use clawpod.Heartbeat.Delivery.{DeliveryTarget, DeliveryKind, outbound, chatroom}
use clawpod.Heartbeat.Indicator.{resolve_indicator_type, derive_event_status}
use clawpod.Store.Records.{SessionSummary}

-- `reason == HeartbeatRunReason::Scheduled`.
abbrev pub is_scheduled : HeartbeatRunReason → Bool
is_scheduled HeartbeatRunReason.scheduled = true
is_scheduled _ = false

-- The frontmatter of heartbeat.md over the policy.
unfoldable pub with_file_settings :
    EffectiveHeartbeatPolicy → Option HeartbeatTarget → Option String → EffectiveHeartbeatPolicy
with_file_settings policy target to = record policy {
  target = unwrap_or target policy.target;
  to = or_else to policy.to;
}

-- What a run starts with: it is skipped for a reason, or it goes on with a prompt.
pub data Start : Type 0 where
  skip : String → Start
  prompt_with : String → Start

abbrev pub file_prompt : String
file_prompt =
    "Read heartbeat.md in your workspace root and follow its instructions strictly. Do not infer or repeat old tasks from prior conversation history. If nothing needs attention, reply HEARTBEAT_OK."

-- The gates of `run_once`: the active hours, then the prompt.
unfoldable pub start_run : HeartbeatRunReason → Bool → Bool → String → Start
unfolding is_event_driven
start_run reason within_active_hours heartbeat_file_exists prompt =
    if is_scheduled reason && not within_active_hours
    then skip "quiet-hours"
    else if heartbeat_file_exists
    then prompt_with file_prompt
    else if not (Text.is_empty prompt)
    then prompt_with prompt
    else if not (is_event_driven reason)
    then skip "empty-heartbeat-file"
    else prompt_with prompt

-- The session of the run, and the one that deliveries look at.
unfoldable pub main_session_key : String → String → String
main_session_key agent_id main_key = format ("agent:" ∷ agent_id ∷ ":" ∷ main_key ∷ [])

unfoldable pub run_session_key : Bool → String → String → String
unfolding main_session_key
run_session_key isolated_session agent_id main_key =
    if isolated_session
    then format (main_session_key agent_id main_key ∷ ":heartbeat" ∷ [])
    else main_session_key agent_id main_key

abbrev is_alert : NormalizeResult → Bool
is_alert (alert t) = true
is_alert _ = false

-- `delivery_mode`, `delivery_channel` and `delivery_recipient`.
unfoldable pub choose_delivery :
    Bool
    → NormalizeResult
    → Option DeliveryKind
    → HeartbeatDeliveryMode × Option String × Option String
choose_delivery true normalized target = (HeartbeatDeliveryMode.suppressed, none, none)
choose_delivery false ack_only target = (HeartbeatDeliveryMode.suppressed, none, none)
choose_delivery false (ok_with_text t) target = (HeartbeatDeliveryMode.suppressed, none, none)
choose_delivery false (alert t) (some (outbound d)) =
    (HeartbeatDeliveryMode.delivered, some d.channel, some d.recipient)
choose_delivery false (alert t) (some (chatroom team_id)) =
    (HeartbeatDeliveryMode.delivered, some "chatroom", some team_id)
choose_delivery false (alert t) none = (HeartbeatDeliveryMode.no_target, none, none)

abbrev pub is_delivered : HeartbeatDeliveryMode → Bool
is_delivered HeartbeatDeliveryMode.delivered = true
is_delivered _ = false

abbrev pub is_no_target : HeartbeatDeliveryMode → Bool
is_no_target HeartbeatDeliveryMode.no_target = true
is_no_target _ = false

-- What a delivery asks of the queue and of the store.
pub data Action : Type 0 where
  enqueue_outgoing : DeliveryTarget → String → Action
  record_chatroom : String → String → Action
  enqueue_chatroom : String → String → String → Action

-- The loop over the teammates, for those who are configured and not the agent.
unfoldable pub tell_teammates :
    Map AgentConfig → String → String → String → List String → List Action
unfolding Maps.contains_key
tell_teammates agents team_id agent_id text [] = []
tell_teammates agents team_id agent_id text (teammate_id ∷ rest) =
    let later = tell_teammates agents team_id agent_id text rest in
    if teammate_id == agent_id || not (Maps.contains_key agents teammate_id)
    then later
    else enqueue_chatroom team_id teammate_id text ∷ later

unfoldable pub tell_team :
    Map AgentConfig → String → String → String → Option TeamConfig → List Action
unfolding tell_teammates
tell_team agents team_id agent_id text none = []
tell_team agents team_id agent_id text (some team) =
    tell_teammates agents team_id agent_id text team.agents

unfoldable pub deliver :
    Map AgentConfig → Map TeamConfig → String → String → Option DeliveryKind → List Action
unfolding tell_team Maps.get
deliver agents teams agent_id text none = []
deliver agents teams agent_id text (some (outbound d)) = enqueue_outgoing d text ∷ []
deliver agents teams agent_id text (some (chatroom team_id)) =
    record_chatroom team_id text ∷ tell_team agents team_id agent_id text (Maps.get teams team_id)

abbrev pub alert_text : NormalizeResult → String → String
alert_text (alert t) output = t
alert_text _ output = output

-- The outcome of a run whose agent answered.
pub record Outcome : Type 0 where
  pub delivery_mode : HeartbeatDeliveryMode
  pub delivery_channel : Option String
  pub delivery_recipient : Option String
  pub actions : List Action
  pub indicator : Option HeartbeatIndicatorType
  pub skip_reason : Option String

module _ (time : TimeLib) (agents : Map AgentConfig) (teams : Map TeamConfig) where
  unfoldable pub is_dup :
      HeartbeatRunReason → NormalizeResult → Option SessionSummary → String → String → Bool
  unfolding is_event_driven is_duplicate_heartbeat
  is_dup reason normalized session output finished_at =
      not (is_event_driven reason)
      && is_alert normalized
      && is_duplicate_heartbeat time session output finished_at

  unfoldable pub outcome_of :
      Bool → String → String → NormalizeResult → Option DeliveryKind → Outcome
  unfolding choose_delivery deliver derive_event_status resolve_indicator_type
  outcome_of duplicate agent_id output normalized target =
      let (mode, channel, recipient) = choose_delivery duplicate normalized target in
      record {
        delivery_mode = mode;
        delivery_channel = channel;
        delivery_recipient = recipient;
        actions =
            if is_delivered mode
            then deliver agents teams agent_id (alert_text normalized output) target
            else [];
        indicator = resolve_indicator_type (
            derive_event_status normalized (is_delivered mode)
              (is_no_target mode && is_alert normalized) false);
        skip_reason = if duplicate then some "duplicate" else none;
      }

  -- The part of `run_once` after the agent's answer.
  unfoldable pub after_answer :
      HeartbeatRunReason
      → String
      → String
      → NormalizeResult
      → Option SessionSummary
      → Option DeliveryKind
      → String
      → Outcome
  unfolding is_dup outcome_of
  after_answer reason agent_id output normalized session target finished_at =
      outcome_of (is_dup reason normalized session output finished_at) agent_id output normalized
        target
