-- ===== src/Queue/Runnable.antt =====
-- crates/queue/src/lib.rs: which provider a run is told of, under a configuration that validation
-- accepts.
use clawpod.Base.{
  String, Option, none, some, Map, unwrap_or, Option-cases, inl, inr, ◌≡◌, refl, format, [], ◌∷◌,
  Result, ok, err,
}
use clawpod.Base.Maps
use clawpod.Base.Maps.{get-insert}
use clawpod.Config.Runtime.{CustomProviderConfig, RuntimeConfig}
use clawpod.Config.Secrets.{custom_provider_api_key}
use clawpod.Config.Valid.{validate-IsValid}
use clawpod.Config.Validate.{validate}
use clawpod.Domain.Core.{AgentConfig}
use clawpod.Queue.Metadata.{
  provider_kind_str, insert_some, add_browser, add_kind, add_codex, Surroundings,
  apply_custom_provider_metadata, add_provider, build_run_metadata_for_agent,
}
use clawpod.Queue.Entries.{
  IsCustomRun, get-insert_some-other, get-add_browser, get-add_codex, effective, get-add_kind,
  entries-IsCustomRun,
}

-- What is made of the provider of an agent.
pub data IsTold (s : Surroundings) (config : RuntimeConfig) (agent : AgentConfig)
    (plugin_metadata : Map String) (told : Result (Map String)) : Type 0 where
  of_kind :
      (m : Map String)
      → agent.provider_id ≡ none
      → told ≡ ok m
      → Maps.get m "effective_provider"
        ≡ some (
            unwrap_or
              (Maps.get plugin_metadata "effective_provider")
              (provider_kind_str agent.provider))
      → IsTold s config agent plugin_metadata told
  of_custom :
      (provider_id : String) (provider : CustomProviderConfig) (key : String) (m : Map String)
      → agent.provider_id ≡ some provider_id
      → Maps.get config.custom_providers provider_id ≡ some provider
      → custom_provider_api_key s.env config provider_id ≡ ok (some key)
      → told ≡ ok m
      → IsCustomRun provider_id provider key m
      → IsTold s config agent plugin_metadata told
  unknown :
      (provider_id : String)
      → agent.provider_id ≡ some provider_id
      → Maps.get config.custom_providers provider_id ≡ none
      → told ≡ err (format ("custom provider not found: " ∷ provider_id ∷ []))
      → IsTold s config agent plugin_metadata told

-- A run of an agent of a configuration that passes validation, whose preamble can be read, is told of
-- its provider: without a provider of its own, of the one that a plugin chose or else of the agent's
-- kind; with one, of that provider, its address, its harness and its key. The only error left is a
-- provider that is not configured under exactly the name that the agent gives.
pub build_run_metadata_for_agent-IsTold :
    (s : Surroundings) (config : RuntimeConfig) (agent_id : String) (agent : AgentConfig)
    (plugin_metadata : Map String) (preamble : Option String)
    → validate s.env config ≡ ok tt
    → Maps.get config.agents agent_id ≡ some agent
    → s.load_system_preamble agent_id agent ≡ ok preamble
    → IsTold s config agent plugin_metadata
        (build_run_metadata_for_agent s config agent_id plugin_metadata)
unfolding build_run_metadata_for_agent add_provider apply_custom_provider_metadata
build_run_metadata_for_agent-IsTold s config agent_id agent plugin_metadata preamble valid found
      read =
    let relied = validate-IsValid s.env config valid in
    let (profile, has_profile) = (relied.agents agent_id agent found).browser s.user_home in
    let first = insert_some plugin_metadata "system_preamble" preamble in
    let before = add_browser first profile in
    elim (Option-cases agent.provider_id) [
      | inl own ↦
          IsTold.of_kind (add_codex agent s.codex_token (add_kind agent before)) own
            (rw (found, read, has_profile, own) refl)
            (rw
              (
                get-add_codex agent s.codex_token (add_kind agent before) "effective_provider" refl,
                get-add_kind agent before,
                get-add_browser first profile "effective_provider" effective,
                get-insert_some-other plugin_metadata "system_preamble" preamble
                    "effective_provider" refl,
              )
              refl)
      | inr (provider_id, named) ↦
          elim (Option-cases (Maps.get config.custom_providers provider_id)) [
            | inl missing ↦
                IsTold.unknown provider_id named missing
                  (rw (found, read, has_profile, named, missing) refl)
            | inr (provider, configured) ↦
                let (key, has_key) = relied.providers provider_id provider configured in
                IsTold.of_custom provider_id provider key _ named configured has_key
                  (rw (found, read, has_profile, named, configured, has_key) refl)
                  (entries-IsCustomRun agent s.codex_token provider_id provider key before)
          ]
    ]
