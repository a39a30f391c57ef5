-- ===== src/Domain/Models.antt =====
-- crates/domain/src/lib.rs: the models that the program knows, and the words for levels and outcomes.
use clawpod.Base.{
  ℕ, String, Bool, true, false, Option, none, some, List, [], ◌∷◌, ◌&&◌, ◌==◌, any, if◌then◌else◌,
}
use clawpod.Domain.Core.{ProviderKind, ThinkLevel, RunEventType}
use clawpod.Domain.Beat.{HeartbeatRunReason, HeartbeatIndicatorType, HeartbeatDeliveryMode}

pub data QueueMode : Type 0 where
  collect followup steer steer_backlog : QueueMode

pub data ProviderHarness : Type 0 where
  anthropic openai : ProviderHarness

-- `ThinkLevel::to_claude_effort`.
unfoldable pub to_claude_effort : ThinkLevel → Option String
to_claude_effort ThinkLevel.off = some "low"
to_claude_effort ThinkLevel.minimal = some "low"
to_claude_effort ThinkLevel.low = some "low"
to_claude_effort ThinkLevel.medium = some "medium"
to_claude_effort ThinkLevel.high = some "high"
to_claude_effort ThinkLevel.xhigh = some "max"
to_claude_effort ThinkLevel.adaptive = none

-- `Display` of the levels.
unfoldable pub think_level_str : ThinkLevel → String
think_level_str ThinkLevel.off = "off"
think_level_str ThinkLevel.minimal = "minimal"
think_level_str ThinkLevel.low = "low"
think_level_str ThinkLevel.medium = "medium"
think_level_str ThinkLevel.high = "high"
think_level_str ThinkLevel.xhigh = "xhigh"
think_level_str ThinkLevel.adaptive = "adaptive"

pub record ModelDefinition : Type 0 where
  pub id : String
  pub name : String
  pub provider : ProviderKind
  pub supports_thinking : Bool
  pub default_think_level : ThinkLevel
  pub context_window : Option ℕ

-- `MODEL_CATALOG`.
abbrev pub model_catalog : List ModelDefinition
model_catalog =
    record {
      id = "claude-opus-4-6";
      name = "Claude Opus 4.6";
      provider = ProviderKind.anthropic;
      supports_thinking = true;
      default_think_level = ThinkLevel.adaptive;
      context_window = some 1000000;
    }
    ∷ record {
      id = "claude-sonnet-4-6";
      name = "Claude Sonnet 4.6";
      provider = ProviderKind.anthropic;
      supports_thinking = true;
      default_think_level = ThinkLevel.adaptive;
      context_window = some 200000;
    }
    ∷ record {
      id = "claude-haiku-4-5";
      name = "Claude Haiku 4.5";
      provider = ProviderKind.anthropic;
      supports_thinking = false;
      default_think_level = ThinkLevel.off;
      context_window = some 200000;
    }
    ∷ record {
      id = "gpt-5.4";
      name = "GPT-5.4";
      provider = ProviderKind.openai;
      supports_thinking = true;
      default_think_level = ThinkLevel.low;
      context_window = some 1050000;
    }
    ∷ record {
      id = "gpt-5.4-mini";
      name = "GPT-5.4 Mini";
      provider = ProviderKind.openai;
      supports_thinking = true;
      default_think_level = ThinkLevel.low;
      context_window = some 1050000;
    }
    ∷ []

-- `==` of the providers.
unfoldable pub same_provider : ProviderKind → ProviderKind → Bool
same_provider ProviderKind.anthropic ProviderKind.anthropic = true
same_provider ProviderKind.openai ProviderKind.openai = true
same_provider ProviderKind.custom ProviderKind.custom = true
same_provider ProviderKind.mock ProviderKind.mock = true
same_provider _ _ = false

abbrev keep_provider : ProviderKind → List ModelDefinition → List ModelDefinition
keep_provider provider [] = []
keep_provider provider (m ∷ models) =
    let rest = keep_provider provider models in
    if same_provider m.provider provider then m ∷ rest else rest

-- `models_for_provider` and `is_known_model`.
unfoldable pub models_for_provider : ProviderKind → List ModelDefinition
unfolding same_provider
models_for_provider provider = keep_provider provider model_catalog

unfoldable pub is_known_model : ProviderKind → String → Bool
unfolding same_provider
is_known_model provider model_id =
    any (λ m. same_provider m.provider provider && m.id == model_id) model_catalog

-- `HeartbeatRunReason::is_action_wake`.
unfoldable pub is_action_wake : HeartbeatRunReason → Bool
is_action_wake HeartbeatRunReason.manual = true
is_action_wake HeartbeatRunReason.exec_event = true
is_action_wake HeartbeatRunReason.hook = true
is_action_wake _ = false

-- `Display` of the reasons, of the indicators, of the modes, and of the events' types.
unfoldable pub reason_str : HeartbeatRunReason → String
reason_str HeartbeatRunReason.scheduled = "scheduled"
reason_str HeartbeatRunReason.manual = "manual"
reason_str HeartbeatRunReason.retry = "retry"
reason_str HeartbeatRunReason.exec_event = "exec_event"
reason_str HeartbeatRunReason.wake = "wake"
reason_str HeartbeatRunReason.cron = "cron"
reason_str HeartbeatRunReason.hook = "hook"
reason_str HeartbeatRunReason.other = "other"

unfoldable pub indicator_str : HeartbeatIndicatorType → String
indicator_str HeartbeatIndicatorType.ok = "ok"
indicator_str HeartbeatIndicatorType.sent = "sent"
indicator_str HeartbeatIndicatorType.alert = "alert"
indicator_str HeartbeatIndicatorType.error = "error"

unfoldable pub delivery_mode_str : HeartbeatDeliveryMode → String
delivery_mode_str HeartbeatDeliveryMode.delivered = "delivered"
delivery_mode_str HeartbeatDeliveryMode.suppressed = "suppressed"
delivery_mode_str HeartbeatDeliveryMode.no_target = "no_target"

unfoldable pub event_type_str : RunEventType → String
event_type_str RunEventType.started = "started"
event_type_str RunEventType.tool_call = "tool_call"
event_type_str RunEventType.tool_result = "tool_result"
event_type_str RunEventType.agent_message = "agent_message"
event_type_str RunEventType.thinking = "thinking"
event_type_str RunEventType.completed = "completed"
event_type_str RunEventType.failed = "failed"
event_type_str RunEventType.text_chunk = "text_chunk"
