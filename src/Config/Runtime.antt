-- ===== src/Config/Runtime.antt =====
-- crates/config/src/lib.rs: the configuration of the program.
use clawpod.Base.{ℕ, String, Bool, Option, List, Map}
use clawpod.Config.Access.{ChannelAccessConfig}
use clawpod.Domain.Beat.{AgentHeartbeatConfig, ChannelHeartbeatConfig}
use clawpod.Domain.Core.{AgentConfig, TeamConfig, BindingRule, DmScope, ProviderKind}
use clawpod.Domain.Models.{ProviderHarness}
use clawpod.Queue.Retry.{QueueConfig}

pub record ServerConfig : Type 0 where
  pub enabled : Bool
  pub api_port : ℕ
  pub host : String
  pub allow_public_bind : Bool

pub record PairingConfig : Type 0 where
  pub code_length : ℕ
  pub code_ttl_secs : ℕ
  pub max_failed_attempts : ℕ
  pub lockout_secs : ℕ

pub record DaemonConfig : Type 0 where
  pub home_dir : String
  pub workspace_dir : String
  pub poll_interval_ms : ℕ
  pub max_concurrent_runs : ℕ

pub record SessionConfig : Type 0 where
  pub dm_scope : DmScope
  pub main_key : String

pub record ChainConfig : Type 0 where
  pub max_chain_steps : ℕ

pub record RunnerConfig : Type 0 where
  pub default_provider : ProviderKind
  pub timeout_sec : ℕ

pub record BrowserProfileConfig : Type 0 where
  pub cdp_port : ℕ
  pub profile_dir : String
  pub display : String
  pub kasm_port : ℕ
  pub view_path : Option String
  pub os_user : Option String
  pub home_dir : Option String
  pub driver : Option String

pub record BrowserConfig : Type 0 where
  pub default_profile : Option String
  pub profiles : Map BrowserProfileConfig

pub record HeartbeatConfig : Type 0 where
  pub enabled : Bool
  pub interval_sec : ℕ
  pub sender : String

pub record AgentDefaultsConfig : Type 0 where
  pub heartbeat : Option AgentHeartbeatConfig

pub record ChannelDefaultsConfig : Type 0 where
  pub heartbeat : Option ChannelHeartbeatConfig

pub record CustomProviderConfig : Type 0 where
  pub name : String
  pub harness : ProviderHarness
  pub base_url : String
  pub api_key : Option String
  pub api_key_env : Option String
  pub model : Option String

pub record TelegramConfig : Type 0 where
  pub bot_token : Option String
  pub bot_token_env : Option String
  pub access : Option ChannelAccessConfig
  pub heartbeat : Option ChannelHeartbeatConfig

pub record DiscordConfig : Type 0 where
  pub bot_token : Option String
  pub bot_token_env : Option String
  pub guild_id : Option String
  pub mention_only : Bool
  pub access : Option ChannelAccessConfig
  pub heartbeat : Option ChannelHeartbeatConfig

pub record SlackConfig : Type 0 where
  pub bot_token : Option String
  pub bot_token_env : Option String
  pub app_token : Option String
  pub app_token_env : Option String
  pub access : Option ChannelAccessConfig
  pub heartbeat : Option ChannelHeartbeatConfig

pub record ChannelsConfig : Type 0 where
  pub defaults : Option ChannelDefaultsConfig
  pub telegram : Option TelegramConfig
  pub discord : Option DiscordConfig
  pub slack : Option SlackConfig

pub record RuntimeConfig : Type 0 where
  pub daemon : DaemonConfig
  pub server : ServerConfig
  pub queue : QueueConfig
  pub session : SessionConfig
  pub chain : ChainConfig
  pub runner : RunnerConfig
  pub browser : BrowserConfig
  pub heartbeat : HeartbeatConfig
  pub agent_defaults : Option AgentDefaultsConfig
  pub agents : Map AgentConfig
  pub custom_providers : Map CustomProviderConfig
  pub default_team : Option String
  pub teams : Map TeamConfig
  pub bindings : List BindingRule
  pub channels : ChannelsConfig
  pub pairing : PairingConfig
