-- ===== src/Domain/Core.antt =====
-- crates/domain/src/lib.rs: agents, teams, messages, runs and chains.
use clawpod.Base.{ℕ, String, Bool, Option, List, Map}
use clawpod.Base.Decimal.{ℤ}
use clawpod.Domain.Beat.{AgentHeartbeatConfig}

pub data ProviderKind : Type 0 where
  anthropic openai custom mock : ProviderKind

pub data ThinkLevel : Type 0 where
  off minimal low medium high xhigh adaptive : ThinkLevel

-- `#[default]` of the enum.
abbrev pub default_think_level : ThinkLevel
default_think_level = low

pub data DmScope : Type 0 where
  main per_peer per_channel_peer per_account_channel_peer : DmScope

pub data ChatType : Type 0 where
  direct group thread : ChatType

pub record AgentBrowserConfig : Type 0 where
  pub profile : Option String

pub record AgentConfig : Type 0 where
  pub name : String
  pub provider : ProviderKind
  pub model : String
  pub think_level : Option ThinkLevel
  pub provider_id : Option String
  pub system_prompt : Option String
  pub prompt_file : Option String
  pub heartbeat : Option AgentHeartbeatConfig
  pub browser : Option AgentBrowserConfig

pub record TeamConfig : Type 0 where
  pub name : String
  pub agents : List String
  pub leader_agent : String

pub record BindingMatch : Type 0 where
  pub channel : Option String
  pub account_id : Option String
  pub peer_id : Option String
  pub group_id : Option String
  pub thread_id : Option String

pub record BindingRule : Type 0 where
  pub agent_id : String
  pub matcher : BindingMatch

pub record InboundEvent : Type 0 where
  pub message_id : String
  pub channel : String
  pub sender : String
  pub sender_id : String
  pub text : String
  pub timestamp : ℕ
  pub chat_type : ChatType
  pub peer_id : String
  pub account_id : Option String
  pub files : List String
  pub pre_routed_agent : Option String
  pub from_agent : Option String
  pub chain_depth : ℕ

pub data RunStatus : Type 0 where
  pending running succeeded failed : RunStatus

pub data ChainState : Type 0 where
  running succeeded failed max_steps_reached : ChainState

pub record RunRequest : Type 0 where
  pub run_id : String
  pub task_id : String
  pub session_key : String
  pub agent_id : String
  pub provider : ProviderKind
  pub model : String
  pub think_level : ThinkLevel
  pub working_directory : String
  pub prompt : String
  pub continue_session : Bool
  pub metadata : Map String

-- `exit_code` is an `i32`, of which the modelled code reads nothing; it is kept as a bit pattern.
pub record RunResult : Type 0 where
  pub text : String
  pub stdout : String
  pub stderr : String
  pub exit_code : ℕ
  pub duration_ms : ℕ
  pub metadata : Map String

pub record ChatroomMessageView : Type 0 where
  pub id : ℤ
  pub team_id : String
  pub from_agent : String
  pub message : String
  pub created_at : String

pub record ChatroomPost : Type 0 where
  pub team_id : String
  pub message : String

pub record MentionHandoff : Type 0 where
  pub teammate_id : String
  pub message : String

pub record ChainStep : Type 0 where
  pub agent_id : String
  pub input : String
  pub output : String
  pub handoffs : List MentionHandoff

pub record ChainResult : Type 0 where
  pub final_text : String
  pub steps : List ChainStep
  pub state : ChainState

pub record RouteDecision : Type 0 where
  pub agent_id : String
  pub message : String
  pub is_team_routed : Bool
  pub team_id : Option String

pub data RunEventType : Type 0 where
  started tool_call tool_result agent_message thinking completed failed text_chunk : RunEventType

-- The field `data` of the source is `payload`.
pub record RunEvent : Type 0 where
  pub run_id : String
  pub seq : ℕ
  pub timestamp : String
  pub event_type : RunEventType
  pub payload : String
