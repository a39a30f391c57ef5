-- ===== src/Domain/Beat.antt =====
-- crates/domain/src/lib.rs: the configuration of heartbeats, and the words for their outcome.
use clawpod.Base.{ℕ, String, Bool, true, false, Option}

pub record ActiveHoursConfig : Type 0 where
  pub start : String
  pub end : String
  pub timezone : Option String

pub data HeartbeatTarget : Type 0 where
  nowhere last telegram discord slack chatroom : HeartbeatTarget

pub data HeartbeatDirectPolicy : Type 0 where
  allow block : HeartbeatDirectPolicy

pub record AgentHeartbeatConfig : Type 0 where
  pub every : Option String
  pub model : Option String
  pub prompt : Option String
  pub target : Option HeartbeatTarget
  pub to : Option String
  pub account_id : Option String
  pub ack_max_chars : Option ℕ
  pub direct_policy : Option HeartbeatDirectPolicy
  pub include_reasoning : Option Bool
  pub light_context : Option Bool
  pub isolated_session : Option Bool
  pub active_hours : Option ActiveHoursConfig

pub record ChannelHeartbeatConfig : Type 0 where
  pub show_ok : Option Bool
  pub show_alerts : Option Bool
  pub use_indicator : Option Bool

pub data HeartbeatRunReason : Type 0 where
  scheduled manual retry exec_event wake cron hook other : HeartbeatRunReason

-- `matches!(self, ExecEvent | Cron | Wake | Hook)`.
unfoldable pub is_event_driven : HeartbeatRunReason → Bool
is_event_driven HeartbeatRunReason.exec_event = true
is_event_driven HeartbeatRunReason.cron = true
is_event_driven HeartbeatRunReason.wake = true
is_event_driven HeartbeatRunReason.hook = true
is_event_driven _ = false

pub data HeartbeatIndicatorType : Type 0 where
  ok sent alert error : HeartbeatIndicatorType

pub data HeartbeatDeliveryMode : Type 0 where
  delivered suppressed no_target : HeartbeatDeliveryMode
