-- ===== src/Heartbeat/Policy.antt =====
-- crates/heartbeat/src/policy.rs and visibility.rs: the settings in force, an agent's over the
-- defaults over the built-in ones.
use clawpod.Base.{
  ℕ, String, Bool, true, false, not, ◌&&◌, Option, unwrap_or, or_else, and_then, Result, ok, ◌>>=◌,
}
use clawpod.Domain.Beat.{
  ActiveHoursConfig, HeartbeatTarget, HeartbeatDirectPolicy, AgentHeartbeatConfig,
  ChannelHeartbeatConfig,
}
use clawpod.Config.Durations.{parse_duration_str}

abbrev pub default_heartbeat_prompt : String
default_heartbeat_prompt =
    "1. Review your current context and any pending work.\n2. If anything needs the user's attention, report it clearly.\n3. If nothing needs attention, reply HEARTBEAT_OK."

abbrev pub default_every : String
default_every = "30m"

abbrev pub default_ack_max_chars : ℕ
default_ack_max_chars = 300

-- `every` in seconds.
pub record EffectiveHeartbeatPolicy : Type 0 where
  pub every : ℕ
  pub model : Option String
  pub prompt : String
  pub target : HeartbeatTarget
  pub to : Option String
  pub account_id : Option String
  pub ack_max_chars : ℕ
  pub direct_policy : HeartbeatDirectPolicy
  pub include_reasoning : Bool
  pub light_context : Bool
  pub isolated_session : Bool
  pub active_hours : Option ActiveHoursConfig

-- `pick_str`, `pick_copy` and `pick`.
abbrev pub pick {ℓ} : {A : Type ℓ} → Option A → Option A → A → A
pick agent defaults fallback = unwrap_or (or_else agent defaults) fallback

-- `resolve_effective_policy` of policy.rs.
unfoldable pub resolve_effective_policy :
    Option AgentHeartbeatConfig → Option AgentHeartbeatConfig → Result EffectiveHeartbeatPolicy
resolve_effective_policy agent_defaults agent_config = do
  every ← parse_duration_str (
      pick (and_then agent_config (λ c. c.every)) (and_then agent_defaults (λ c. c.every))
        default_every)
  ok (record {
    every = every;
    model = or_else (and_then agent_config (λ c. c.model)) (and_then agent_defaults (λ c. c.model));
    prompt =
        pick (and_then agent_config (λ c. c.prompt)) (and_then agent_defaults (λ c. c.prompt))
          default_heartbeat_prompt;
    target =
        pick (and_then agent_config (λ c. c.target)) (and_then agent_defaults (λ c. c.target))
          HeartbeatTarget.nowhere;
    to = or_else (and_then agent_config (λ c. c.to)) (and_then agent_defaults (λ c. c.to));
    account_id =
        or_else (and_then agent_config (λ c. c.account_id))
          (and_then agent_defaults (λ c. c.account_id));
    ack_max_chars =
        pick (and_then agent_config (λ c. c.ack_max_chars))
          (and_then agent_defaults (λ c. c.ack_max_chars)) default_ack_max_chars;
    direct_policy =
        pick (and_then agent_config (λ c. c.direct_policy))
          (and_then agent_defaults (λ c. c.direct_policy)) HeartbeatDirectPolicy.allow;
    include_reasoning =
        pick (and_then agent_config (λ c. c.include_reasoning))
          (and_then agent_defaults (λ c. c.include_reasoning)) false;
    light_context =
        pick (and_then agent_config (λ c. c.light_context))
          (and_then agent_defaults (λ c. c.light_context)) false;
    isolated_session =
        pick (and_then agent_config (λ c. c.isolated_session))
          (and_then agent_defaults (λ c. c.isolated_session)) true;
    active_hours =
        or_else (and_then agent_config (λ c. c.active_hours))
          (and_then agent_defaults (λ c. c.active_hours));
  })

pub record EffectiveVisibility : Type 0 where
  pub show_ok : Bool
  pub show_alerts : Bool
  pub use_indicator : Bool

unfoldable pub should_short_circuit : EffectiveVisibility → Bool
should_short_circuit v = not v.show_ok && not v.show_alerts && not v.use_indicator

-- `resolve_visibility` of visibility.rs.
unfoldable pub resolve_visibility :
    Option ChannelHeartbeatConfig → Option ChannelHeartbeatConfig → EffectiveVisibility
resolve_visibility channel_config channel_defaults = record {
  show_ok =
      pick (and_then channel_config (λ c. c.show_ok)) (and_then channel_defaults (λ c. c.show_ok))
        false;
  show_alerts =
      pick (and_then channel_config (λ c. c.show_alerts))
        (and_then channel_defaults (λ c. c.show_alerts)) true;
  use_indicator =
      pick (and_then channel_config (λ c. c.use_indicator))
        (and_then channel_defaults (λ c. c.use_indicator)) true;
}
