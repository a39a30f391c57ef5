-- ===== src/Config/Secrets.antt =====
-- crates/config/src/lib.rs: the secrets of a configuration, which are masked where it is shown and
-- put back where a shown configuration returns.
use clawpod.Base.{
  String, Bool, not, ◌&&◌, Option, none, some, [], ◌∷◌, Map, ◌==◌, if◌then◌else◌, some_is, and_then,
  option_map, format, Result, ok, err,
}
use clawpod.Base.Maps
use clawpod.Base.Text
use clawpod.Config.Runtime.{
  TelegramConfig, DiscordConfig, SlackConfig, CustomProviderConfig, RuntimeConfig,
}

abbrev pub masked_secret : String
masked_secret = "***MASKED***"

-- `trim().is_empty()`.
unfoldable pub is_blank : String → Bool
unfolding Text.trim
is_blank s = Text.is_empty (Text.trim s)

-- `normalize_secret` and `normalize_plain`.
unfoldable pub normalize_secret : Option String → Option String
unfolding is_blank
normalize_secret none = none
normalize_secret (some value) =
    if not (is_blank value) && not (value == masked_secret) then some value else none

unfoldable pub normalize_plain : Option String → Option String
unfolding is_blank
normalize_plain none = none
normalize_plain (some value) = if not (is_blank value) then some value else none

-- `mask_secret` and `restore_secret`.
unfoldable pub mask_secret : Option String → Option String
unfolding is_blank
mask_secret none = none
mask_secret (some raw) = if not (is_blank raw) then some masked_secret else some raw

unfoldable pub restore_secret : Option String → Option String → Option String
restore_secret slot previous = if some_is slot masked_secret then previous else slot

-- The masked channels.
unfoldable pub mask_telegram : TelegramConfig → TelegramConfig
unfolding mask_secret
mask_telegram c = record c { bot_token = mask_secret c.bot_token }

unfoldable pub mask_discord : DiscordConfig → DiscordConfig
unfolding mask_secret
mask_discord c = record c { bot_token = mask_secret c.bot_token }

unfoldable pub mask_slack : SlackConfig → SlackConfig
unfolding mask_secret
mask_slack c = record c { bot_token = mask_secret c.bot_token; app_token = mask_secret c.app_token }

unfoldable pub mask_providers : Map CustomProviderConfig → Map CustomProviderConfig
unfolding mask_secret
mask_providers [] = []
mask_providers ((id, p) ∷ providers) =
    (id, record p { api_key = mask_secret p.api_key }) ∷ mask_providers providers

-- `masked_for_display`.
unfoldable pub masked_for_display : RuntimeConfig → RuntimeConfig
unfolding mask_telegram mask_discord mask_slack mask_providers
masked_for_display config = record config {
  channels = record config.channels {
    telegram = option_map mask_telegram config.channels.telegram;
    discord = option_map mask_discord config.channels.discord;
    slack = option_map mask_slack config.channels.slack;
  };
  custom_providers = mask_providers config.custom_providers;
}

-- The channels with their secrets back.
unfoldable pub restore_telegram : Option TelegramConfig → TelegramConfig → TelegramConfig
unfolding restore_secret
restore_telegram previous c = record c {
  bot_token = restore_secret c.bot_token (and_then previous (λ prev. prev.bot_token));
}

unfoldable pub restore_discord : Option DiscordConfig → DiscordConfig → DiscordConfig
unfolding restore_secret
restore_discord previous c = record c {
  bot_token = restore_secret c.bot_token (and_then previous (λ prev. prev.bot_token));
}

unfoldable pub restore_slack : Option SlackConfig → SlackConfig → SlackConfig
unfolding restore_secret
restore_slack previous c = record c {
  bot_token = restore_secret c.bot_token (and_then previous (λ prev. prev.bot_token));
  app_token = restore_secret c.app_token (and_then previous (λ prev. prev.app_token));
}

unfoldable pub restore_providers :
    Map CustomProviderConfig → Map CustomProviderConfig → Map CustomProviderConfig
unfolding restore_secret
restore_providers previous [] = []
restore_providers previous ((id, p) ∷ providers) =
    (
      id,
      record p {
        api_key = restore_secret p.api_key (and_then (Maps.get previous id) (λ prev. prev.api_key));
      },
    )
    ∷ restore_providers previous providers

-- `restore_masked_secrets`.
unfoldable pub restore_masked_secrets : RuntimeConfig → RuntimeConfig → RuntimeConfig
unfolding restore_telegram restore_discord restore_slack restore_providers
restore_masked_secrets config previous = record config {
  channels = record config.channels {
    telegram = option_map (restore_telegram previous.channels.telegram) config.channels.telegram;
    discord = option_map (restore_discord previous.channels.discord) config.channels.discord;
    slack = option_map (restore_slack previous.channels.slack) config.channels.slack;
  };
  custom_providers = restore_providers previous.custom_providers config.custom_providers;
}

-- The value of an environment variable.
module _ (env : String → Option String) where
  -- `resolve_secret`.
  unfoldable pub resolve_secret : Option String → Option String → String → Result (Option String)
  unfolding normalize_secret normalize_plain is_blank
  resolve_secret inline env_name field_name = elim (normalize_secret inline) [
    | some value ↦ ok (some value)
    | none ↦ elim (normalize_plain env_name) [
      | none ↦ ok none
      | some name ↦ elim (env name) [
        | none ↦ err (format ("missing env var " ∷ name ∷ " for " ∷ field_name ∷ []))
        | some value ↦
            if is_blank value
            then err (format ("empty env var " ∷ name ∷ " for " ∷ field_name ∷ []))
            else ok (some value)
      ]
    ]
  ]

  -- `custom_provider_api_key`.
  unfoldable pub custom_provider_api_key : RuntimeConfig → String → Result (Option String)
  unfolding resolve_secret
  custom_provider_api_key config provider_id = elim (Maps.get config.custom_providers provider_id) [
    | none ↦ err (format ("custom provider not found: " ∷ provider_id ∷ []))
    | some provider ↦
        resolve_secret provider.api_key provider.api_key_env
          (format ("custom_providers." ∷ provider_id ∷ ".api_key" ∷ []))
  ]

  -- `telegram_bot_token`, `discord_bot_token`, `slack_bot_token`, `slack_app_token`.
  unfoldable pub telegram_bot_token : RuntimeConfig → Result (Option String)
  unfolding resolve_secret
  telegram_bot_token config =
      resolve_secret (and_then config.channels.telegram (λ c. c.bot_token))
        (and_then config.channels.telegram (λ c. c.bot_token_env)) "channels.telegram.bot_token"

  unfoldable pub discord_bot_token : RuntimeConfig → Result (Option String)
  unfolding resolve_secret
  discord_bot_token config =
      resolve_secret (and_then config.channels.discord (λ c. c.bot_token))
        (and_then config.channels.discord (λ c. c.bot_token_env)) "channels.discord.bot_token"

  unfoldable pub slack_bot_token : RuntimeConfig → Result (Option String)
  unfolding resolve_secret
  slack_bot_token config =
      resolve_secret (and_then config.channels.slack (λ c. c.bot_token))
        (and_then config.channels.slack (λ c. c.bot_token_env)) "channels.slack.bot_token"

  unfoldable pub slack_app_token : RuntimeConfig → Result (Option String)
  unfolding resolve_secret
  slack_app_token config =
      resolve_secret (and_then config.channels.slack (λ c. c.app_token))
        (and_then config.channels.slack (λ c. c.app_token_env)) "channels.slack.app_token"
