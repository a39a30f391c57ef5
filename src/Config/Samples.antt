-- ===== src/Config/Samples.antt =====
-- A small configuration for the tests, with the access to a Telegram channel and an environment.
use clawpod.Base.{String, Option, ◌==◌, if◌then◌else◌, true, false, none, some, [], ◌∷◌}
use clawpod.Config.Access.{DirectMessagePolicy, GroupPolicy, ChannelAccessConfig}
use clawpod.Config.Runtime.{RuntimeConfig}
use clawpod.Config.Secrets.{masked_secret}
use clawpod.Domain.Core.{DmScope, ProviderKind}
use clawpod.Domain.Models.{ProviderHarness, QueueMode}
use clawpod.Samples.{agents, agent_called, teams}

abbrev pub access : ChannelAccessConfig
access = record {
  dm_policy = DirectMessagePolicy.pairing;
  group_policy = GroupPolicy.mention_only;
  allow_from = [];
  group_allow_from = [];
  channels = ("news", record { allow = false; require_mention = none }) ∷ [];
}

-- A configuration with the token of a bot, an empty one, and the keys of two providers.
abbrev pub config : RuntimeConfig
config = record {
  daemon = record {
    home_dir = "~/.clawpod";
    workspace_dir = "~/.clawpod/workspaces";
    poll_interval_ms = 1000;
    max_concurrent_runs = 4;
  };
  server = record {
    enabled = true;
    api_port = 3777;
    host = "127.0.0.1";
    allow_public_bind = false;
  };
  queue = record {
    mode = QueueMode.collect;
    max_retries = 3;
    dead_letter_enabled = true;
    backoff_base_ms = 500;
  };
  session = record { dm_scope = DmScope.per_peer; main_key = "main" };
  chain = record { max_chain_steps = 8 };
  runner = record { default_provider = ProviderKind.anthropic; timeout_sec = 600 };
  browser = record {
    default_profile = some "desk";
    profiles =
        (
          "desk",
          record {
            cdp_port = 9222;
            profile_dir = "profiles/desk";
            display = ":1";
            kasm_port = 8444;
            view_path = none;
            os_user = none;
            home_dir = some "/home/desk";
            driver = none;
          },
        )
        ∷ [];
  };
  heartbeat = record { enabled = true; interval_sec = 60; sender = "heartbeat" };
  agent_defaults = none;
  agents =
      (
        "coder",
        record (agent_called "Coder") {
          provider = ProviderKind.custom;
          provider_id = some " near ";
          browser = some (record { profile = some "desk" });
        },
      )
      ∷ agents;
  custom_providers =
      (
        "near",
        record {
          name = "Near";
          harness = ProviderHarness.openai;
          base_url = "http://near";
          api_key = some "key_1";
          api_key_env = none;
          model = none;
        },
      )
      ∷ (
        "far",
        record {
          name = "Far";
          harness = ProviderHarness.anthropic;
          base_url = "http://far";
          api_key = some " ";
          api_key_env = some "FAR_KEY";
          model = some "large";
        },
      )
      ∷ [];
  default_team = some "dev";
  teams = teams;
  bindings = [];
  channels = record {
    defaults = none;
    telegram = some (record {
      bot_token = some "token_1";
      bot_token_env = none;
      access = some access;
      heartbeat = none;
    });
    discord = none;
    slack = some (record {
      bot_token = some masked_secret;
      bot_token_env = none;
      app_token = some "token_2";
      app_token_env = none;
      access = none;
      heartbeat = none;
    });
  };
  pairing = record {
    code_length = 6;
    code_ttl_secs = 600;
    max_failed_attempts = 5;
    lockout_secs = 300;
  };
}

abbrev pub environment : String → Option String
environment name = if name == "FAR_KEY" then some "key_2" else none
