-- ===== src/Queue/Metadata.antt =====
-- crates/queue/src/lib.rs: what a run is told besides its prompt: the preamble, the browser profile of
-- the agent, its provider and the provider's key.
use clawpod.Base.{
  String, not, Option, none, some, [], ◌∷◌, Map, if◌then◌else◌, format, Result, ok, ◌>>=◌, ok_or,
}
use clawpod.Base.Maps
use clawpod.Base.Decimal.{to_decimal}
use clawpod.Config.Browser.{ResolvedBrowserProfile, resolve_browser_profile_for_agent}
use clawpod.Config.Runtime.{CustomProviderConfig, RuntimeConfig}
use clawpod.Config.Secrets.{is_blank, custom_provider_api_key}
use clawpod.Domain.Core.{ProviderKind, AgentConfig}
use clawpod.Domain.Models.{ProviderHarness}

unfoldable pub provider_kind_str : ProviderKind → String
provider_kind_str ProviderKind.anthropic = "anthropic"
provider_kind_str ProviderKind.openai = "openai"
provider_kind_str ProviderKind.custom = "custom"
provider_kind_str ProviderKind.mock = "mock"

abbrev pub harness_str : ProviderHarness → String
harness_str ProviderHarness.anthropic = "anthropic"
harness_str ProviderHarness.openai = "openai"

-- `entry(key).or_insert(value)`.
unfoldable pub or_insert : Map String → String → String → Map String
unfolding Maps.contains_key Maps.insert
or_insert m key value = if Maps.contains_key m key then m else Maps.insert m key value

-- `if let Some(value) = .. { metadata.insert(key, value) }`.
unfoldable pub insert_some : Map String → String → Option String → Map String
unfolding Maps.insert
insert_some m key none = m
insert_some m key (some value) = Maps.insert m key value

-- The entries of the browser profile.
unfoldable pub add_browser : Map String → Option ResolvedBrowserProfile → Map String
unfolding insert_some to_decimal
add_browser m none = m
add_browser m (some profile) =
    let m1 = Maps.insert m "browser_profile" profile.name in
    let m2 = Maps.insert m1 "browser_cdp_port" (to_decimal profile.cdp_port) in
    let m3 = Maps.insert m2 "browser_profile_dir" profile.profile_dir in
    let m4 = Maps.insert m3 "browser_display" profile.display in
    let m5 = Maps.insert m4 "browser_kasm_port" (to_decimal profile.kasm_port) in
    let m6 = Maps.insert m5 "browser_view_path" profile.view_path in
    insert_some m6 "browser_home_dir" profile.home_dir

-- The entries of an agent without a provider of its own.
unfoldable pub add_kind : AgentConfig → Map String → Map String
unfolding or_insert is_blank provider_kind_str
add_kind agent m =
    let m1 = or_insert m "effective_provider" (provider_kind_str agent.provider) in
    if not (is_blank agent.model) then or_insert m1 "effective_model" agent.model else m1

-- The key that the Codex login left.
unfoldable pub add_codex : AgentConfig → Option String → Map String → Map String
unfolding or_insert
add_codex agent codex_token m = elim agent.provider [
  | ProviderKind.openai ↦ elim codex_token [
    | none ↦ m
    | some token ↦ or_insert m "openai_api_key" token
  ]
  | _ ↦ m
]

-- The environment and the home folder of the user, the file of the Codex login, and what
-- `load_system_preamble` reads.
pub record Surroundings : Type 0 where
  pub env : String → Option String
  pub user_home : Option String
  pub codex_token : Option String
  pub load_system_preamble : String → AgentConfig → Result (Option String)

-- The entries of `apply_custom_provider_metadata` before and after the key.
unfoldable pub provider_entries : String → CustomProviderConfig → Map String → Map String
unfolding Maps.insert
provider_entries provider_id provider m =
    let m1 = Maps.insert m "effective_provider" "custom" in
    let m2 = Maps.insert m1 "custom_provider_id" provider_id in
    let m3 = Maps.insert m2 "custom_harness" (harness_str provider.harness) in
    Maps.insert m3 "custom_base_url" provider.base_url

unfoldable pub with_key : CustomProviderConfig → String → Map String → Map String
unfolding Maps.insert is_blank
with_key provider api_key m =
    let m1 = Maps.insert m "custom_api_key" api_key in
    elim provider.model [
      | none ↦ m1
      | some model ↦ if not (is_blank model) then Maps.insert m1 "effective_model" model else m1
    ]

module _ (s : Surroundings) (config : RuntimeConfig) where
  -- `apply_custom_provider_metadata`.
  unfoldable pub apply_custom_provider_metadata :
      Map String → String → CustomProviderConfig → Result (Map String)
  unfolding provider_entries with_key custom_provider_api_key
  apply_custom_provider_metadata m provider_id provider =
      custom_provider_api_key s.env config provider_id >>= λ key.
      ok_or key (format ("custom provider missing api_key: " ∷ provider_id ∷ [])) >>= λ api_key.
      ok (with_key provider api_key (provider_entries provider_id provider m))

  -- The entries of the provider.
  unfoldable pub add_provider : AgentConfig → Map String → Result (Map String)
  unfolding apply_custom_provider_metadata add_kind
  add_provider agent m = elim agent.provider_id [
    | none ↦ ok (add_kind agent m)
    | some provider_id ↦
        ok_or (Maps.get config.custom_providers provider_id)
          (format ("custom provider not found: " ∷ provider_id ∷ []))
        >>= λ provider. apply_custom_provider_metadata m provider_id provider
  ]

  -- `build_run_metadata_for_agent`.
  unfoldable pub build_run_metadata_for_agent : String → Map String → Result (Map String)
  unfolding insert_some add_browser add_provider add_codex
  build_run_metadata_for_agent agent_id plugin_metadata =
      ok_or (Maps.get config.agents agent_id) (format ("agent not found: " ∷ agent_id ∷ []))
      >>= λ agent. s.load_system_preamble agent_id agent >>= λ preamble.
          resolve_browser_profile_for_agent s.user_home config agent_id >>= λ browser.
          add_provider agent
            (add_browser (insert_some plugin_metadata "system_preamble" preamble) browser)
          >>= λ m. ok (add_codex agent s.codex_token m)
