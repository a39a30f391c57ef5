-- ===== src/Config/Restored.antt =====
-- crates/config/src/lib.rs: a configuration that was shown and comes back is the one it was.
use clawpod.Base.{
  String, Bool, true, false, Option, none, some, [], ◌∷◌, Map, ◌==◌, eq_refl, eq_iff, if◌then◌else◌,
  and_then, option_map, ◌≡◌, refl, inl, inr, Bool-cases, arith, ◌⊎◌,
}
use clawpod.Base.Maps
use clawpod.Base.Keys.{IsDistinct}
use clawpod.Config.Runtime.{
  TelegramConfig, DiscordConfig, SlackConfig, CustomProviderConfig, RuntimeConfig,
}
use clawpod.Config.Secrets.{
  masked_secret, is_blank, mask_secret, restore_secret, mask_telegram, mask_discord, mask_slack,
  mask_providers, masked_for_display, restore_telegram, restore_discord, restore_slack,
  restore_providers, restore_masked_secrets,
}

restore_secret-mask_secret : (v : Option String) → restore_secret (mask_secret v) v ≡ v
unfolding restore_secret mask_secret
restore_secret-mask_secret none = refl
restore_secret-mask_secret (some raw) = elim (Bool-cases (is_blank raw)) [
  | inl blank ↦ rw blank (kept (raw == masked_secret))
  | inr full ↦ rw full refl
]
  where
    kept : (b : Bool) → (if b then some raw else some raw) ≡ some raw
    kept true = refl
    kept false = refl

telegram_back :
    (c : Option TelegramConfig) → option_map (restore_telegram c) (option_map mask_telegram c) ≡ c
unfolding restore_telegram mask_telegram
telegram_back none = refl
telegram_back (some c) = rw (restore_secret-mask_secret c.bot_token) refl

discord_back :
    (c : Option DiscordConfig) → option_map (restore_discord c) (option_map mask_discord c) ≡ c
unfolding restore_discord mask_discord
discord_back none = refl
discord_back (some c) = rw (restore_secret-mask_secret c.bot_token) refl

slack_back : (c : Option SlackConfig) → option_map (restore_slack c) (option_map mask_slack c) ≡ c
unfolding restore_slack mask_slack
slack_back none = refl
slack_back (some c) =
    rw (restore_secret-mask_secret c.bot_token, restore_secret-mask_secret c.app_token) refl

-- The entries of the second map are in the first.
abbrev HasAll : Map CustomProviderConfig → Map CustomProviderConfig → Type 0
HasAll m [] = Unit
HasAll m ((id, p) ∷ entries) = (Maps.get m id ≡ some p) × HasAll m entries

HasAll-cons :
    (j : String) (w : CustomProviderConfig) (m entries : Map CustomProviderConfig)
    → Maps.Lacks entries j
    → HasAll m entries
    → HasAll ((j, w) ∷ m) entries
unfolding Maps.get
HasAll-cons j w m [] h all = tt
HasAll-cons j w m ((id, p) ∷ entries) h all =
    let other : (j == id) ≡ false = ground (arith, h.0, eq_iff j id, eq_iff id j) in
    (rw (Maps.get, other) all.0, HasAll-cons j w m entries h.1 all.1)

HasAll-self : (m : Map CustomProviderConfig) → IsDistinct m → HasAll m m
unfolding Maps.get
HasAll-self [] d = tt
HasAll-self ((j, w) ∷ m) d =
    (rw (Maps.get, eq_refl j) refl, HasAll-cons j w m m d.0 (HasAll-self m d.1))

providers_back :
    (m entries : Map CustomProviderConfig)
    → HasAll m entries
    → restore_providers m (mask_providers entries) ≡ entries
unfolding restore_providers mask_providers
providers_back m [] all = refl
providers_back m ((id, p) ∷ entries) all =
    rw
      (
        restore_providers,
        mask_providers,
        all.0,
        restore_secret-mask_secret p.api_key,
        providers_back m entries all.1,
      )
      refl

-- A slot shows nothing of a secret: it is empty, blank or the mask.
abbrev pub IsHidden : Option String → Type 0
IsHidden none = Unit
IsHidden (some v) = (is_blank v ≡ true) ⊎ (v ≡ masked_secret)

mask_secret-IsHidden : (v : Option String) → IsHidden (mask_secret v)
unfolding mask_secret
mask_secret-IsHidden none = tt
mask_secret-IsHidden (some raw) = elim (Bool-cases (is_blank raw)) [
  | inl blank ↦ rw blank (inl blank)
  | inr full ↦ rw full (inr refl)
]

abbrev pub HidesAll : Map CustomProviderConfig → Type 0
HidesAll [] = Unit
HidesAll ((id, p) ∷ providers) = IsHidden p.api_key × HidesAll providers

mask_providers-HidesAll : (m : Map CustomProviderConfig) → HidesAll (mask_providers m)
unfolding mask_providers
mask_providers-HidesAll [] = tt
mask_providers-HidesAll ((id, p) ∷ m) = (mask_secret-IsHidden p.api_key, mask_providers-HidesAll m)

-- Every secret of the configuration is hidden.
pub record IsMasked (config : RuntimeConfig) : Type 0 where
  pub telegram : IsHidden (and_then config.channels.telegram (λ c. c.bot_token))
  pub discord : IsHidden (and_then config.channels.discord (λ c. c.bot_token))
  pub slack_bot : IsHidden (and_then config.channels.slack (λ c. c.bot_token))
  pub slack_app : IsHidden (and_then config.channels.slack (λ c. c.app_token))
  pub providers : HidesAll config.custom_providers

telegram-IsHidden :
    (c : Option TelegramConfig)
    → IsHidden (and_then (option_map mask_telegram c) (λ x. x.bot_token))
unfolding mask_telegram
telegram-IsHidden none = tt
telegram-IsHidden (some c) = mask_secret-IsHidden c.bot_token

discord-IsHidden :
    (c : Option DiscordConfig) → IsHidden (and_then (option_map mask_discord c) (λ x. x.bot_token))
unfolding mask_discord
discord-IsHidden none = tt
discord-IsHidden (some c) = mask_secret-IsHidden c.bot_token

slack-IsHidden :
    (c : Option SlackConfig)
    → IsHidden (and_then (option_map mask_slack c) (λ x. x.bot_token))
      × IsHidden (and_then (option_map mask_slack c) (λ x. x.app_token))
unfolding mask_slack
slack-IsHidden none = (tt, tt)
slack-IsHidden (some c) = (mask_secret-IsHidden c.bot_token, mask_secret-IsHidden c.app_token)

-- Where the providers have different identifiers, a configuration that is shown has the mask in place
-- of each token of a channel and each key of a provider that is not blank, and where it comes back as
-- it was shown, all its secrets are put back: it is the configuration that it was, also where a secret
-- is blank or looks like the mask.
pub restore_masked_secrets-masked_for_display :
    (config : RuntimeConfig)
    → IsDistinct config.custom_providers
    → IsMasked (masked_for_display config)
      × (restore_masked_secrets (masked_for_display config) config ≡ config)
unfolding restore_masked_secrets masked_for_display
restore_masked_secrets-masked_for_display config d = (
  record {
    telegram = telegram-IsHidden config.channels.telegram;
    discord = discord-IsHidden config.channels.discord;
    slack_bot = (slack-IsHidden config.channels.slack).0;
    slack_app = (slack-IsHidden config.channels.slack).1;
    providers = mask_providers-HidesAll config.custom_providers;
  },
  rw
      (
        telegram_back config.channels.telegram,
        discord_back config.channels.discord,
        slack_back config.channels.slack,
        providers_back config.custom_providers config.custom_providers
            (HasAll-self config.custom_providers d),
      )
      refl,
)
