-- ===== src/Config/Served.antt =====
-- crates/config/src/lib.rs: the agents of a configuration that passes validation.
use clawpod.Base.{
  Map, Option, Result, String, [], bind-eq-ok, false, format, is_some, none, ok, ok_or, or_else,
  refl, some, then-eq-ok, true, ◌>>=◌, ◌∷◌, ◌≡◌,
}
use clawpod.Base.Maps
use clawpod.Config.Runtime.{RuntimeConfig, CustomProviderConfig, BrowserProfileConfig}
use clawpod.Config.Secrets.{custom_provider_api_key}
use clawpod.Config.Browser.{ResolvedBrowserProfile, resolve_browser_profile_for_agent, resolved}
use clawpod.Config.Checks.{
  bail_first, bail_first-eq-ok, validate_each, bail_if-eq-ok, not-eq-false, is_some-get,
  validate_each-eq-ok,
}
use clawpod.Config.Validate.{
  is_custom, custom_provider_id, agent_tests, validate_agent, checked_heartbeat, names_unknown,
  agent_profile, check_default_profile, check_agent_profile, key_present, check_provider,
}
use clawpod.Domain.Core.{AgentConfig}

-- The agent's browser profile is found, and where its provider is custom, that provider is configured.
pub record IsServed (env : String → Option String) (config : RuntimeConfig) (agent_id : String)
    (agent : AgentConfig) : Type 0 where
  pub browser :
      (user_home : Option String)
      → (profile : Option ResolvedBrowserProfile) × (resolve_browser_profile_for_agent user_home
            config agent_id
          ≡ ok profile)
  pub provider :
      is_custom agent.provider ≡ true
      → (provider_id : String) × (key : String) × (custom_provider_id agent ≡ some provider_id)
        × (custom_provider_api_key env config provider_id ≡ ok (some key))

key_present-eq-ok :
    (provider_id : String) (key : Option String)
    → key_present provider_id key ≡ ok tt
    → (value : String) × (key ≡ some value)
key_present-eq-ok provider_id none e = cc
key_present-eq-ok provider_id (some value) e = (value, refl)

-- The name is one of the profiles.
named-found :
    (profiles : Map BrowserProfileConfig) (name : String)
    → names_unknown profiles (some name) ≡ false
    → (p : BrowserProfileConfig) × (Maps.get profiles name ≡ some p)
unfolding Maps.contains_key
named-found profiles name e =
    is_some-get (Maps.get profiles name) (not-eq-false (is_some (Maps.get profiles name)) e)

-- The profile of the agent, or the default one, is found.
browser-found :
    (user_home : Option String) (config : RuntimeConfig) (agent_id : String) (agent : AgentConfig)
    → Maps.get config.agents agent_id ≡ some agent
    → names_unknown config.browser.profiles config.browser.default_profile ≡ false
    → names_unknown config.browser.profiles (agent_profile agent) ≡ false
    → (profile : Option ResolvedBrowserProfile) × (resolve_browser_profile_for_agent user_home
          config agent_id
        ≡ ok profile)
unfolding resolve_browser_profile_for_agent
browser-found user_home config agent_id agent found default own =
    rw found (chosen (agent_profile agent) config.browser.default_profile own default)
  where
    at :
        (name : String)
        → names_unknown config.browser.profiles (some name) ≡ false
        → (profile : Option ResolvedBrowserProfile) × ((ok_or
                (Maps.get config.browser.profiles name)
                (format ("browser profile not found: " ∷ name ∷ []))
              >>= λ p. ok (some (resolved user_home config name p)))
            ≡ ok profile)
    at name e =
        let (p, known) = named-found config.browser.profiles name e in
        (some (resolved user_home config name p), rw known refl)

    chosen :
        (a b : Option String)
        → names_unknown config.browser.profiles a ≡ false
        → names_unknown config.browser.profiles b ≡ false
        → (profile : Option ResolvedBrowserProfile) × (elim (or_else a b)
              as (λ _. Result (Option ResolvedBrowserProfile)) [
                | none ↦ ok none
                | some name ↦
                    ok_or
                      (Maps.get config.browser.profiles name)
                      (format ("browser profile not found: " ∷ name ∷ []))
                    >>= λ p. ok (some (resolved user_home config name p))
              ]
            ≡ ok profile)
    chosen none none ea eb = (none, refl)
    chosen none (some name) ea eb = at name eb
    chosen (some name) b ea eb = at name ea

-- The key of a provider that is configured.
pub provider-key :
    (env : String → Option String) (config : RuntimeConfig)
    → validate_each (check_provider env config) config.custom_providers ≡ ok tt
    → (provider_id : String) (provider : CustomProviderConfig)
    → Maps.get config.custom_providers provider_id ≡ some provider
    → (key : String) × (custom_provider_api_key env config provider_id ≡ ok (some key))
unfolding check_provider
provider-key env config e provider_id provider found =
    let checked =
      validate_each-eq-ok (check_provider env config) config.custom_providers e provider_id provider
        found in
    let (key, (resolves, present)) =
      bind-eq-ok (custom_provider_api_key env config provider_id) (key_present provider_id)
        checked in
    let (value, is_value) = key_present-eq-ok provider_id key present in
    (value, rw is_value at resolves)

-- The provider of an agent whose kind is custom is configured.
provider-found :
    (env : String → Option String) (config : RuntimeConfig) (agent_id : String)
    (agent : AgentConfig)
    → validate_each (check_provider env config) config.custom_providers ≡ ok tt
    → validate_agent config.custom_providers agent_id agent ≡ ok tt
    → is_custom agent.provider ≡ true
    → (provider_id : String) × (key : String) × (custom_provider_id agent ≡ some provider_id)
      × (custom_provider_api_key env config provider_id ≡ ok (some key))
unfolding validate_agent agent_tests Maps.contains_key
provider-found env config agent_id agent keys valid custom =
    let tests = agent_tests config.custom_providers agent_id agent in
    let parts =
      then-eq-ok (bail_first tests)
        (checked_heartbeat agent.heartbeat (format ("agents." ∷ agent_id ∷ ".heartbeat" ∷ [])))
        valid in
    let (_, (_, (_, (has_id, (is_known, _))))) = bail_first-eq-ok tests parts.0 in
    let (provider_id, named) =
      is_some-get (custom_provider_id agent)
        (not-eq-false (is_some (custom_provider_id agent)) (rw custom at has_id)) in
    let known = rw (custom, named) at is_known in
    let (provider, found) =
      is_some-get (Maps.get config.custom_providers provider_id)
        (not-eq-false (is_some (Maps.get config.custom_providers provider_id)) known) in
    let (key, resolves) = provider-key env config keys provider_id provider found in
    (provider_id, key, named, resolves)

pub agents-served :
    (env : String → Option String) (config : RuntimeConfig)
    → validate_each (check_provider env config) config.custom_providers ≡ ok tt
    → validate_each (validate_agent config.custom_providers) config.agents ≡ ok tt
    → check_default_profile config ≡ ok tt
    → validate_each (check_agent_profile config.browser.profiles) config.agents ≡ ok tt
    → (agent_id : String) (agent : AgentConfig) → Maps.get config.agents agent_id ≡ some agent
    → IsServed env config agent_id agent
unfolding check_default_profile check_agent_profile
agents-served env config keys valid default own agent_id agent found =
    let default_known =
      bail_if-eq-ok (names_unknown config.browser.profiles config.browser.default_profile) _
        default in
    let checked =
      validate_each-eq-ok (check_agent_profile config.browser.profiles) config.agents own agent_id
        agent found in
    let own_known =
      bail_if-eq-ok (names_unknown config.browser.profiles (agent_profile agent)) _ checked in
    record {
      browser =
          λ user_home. browser-found user_home config agent_id agent found default_known own_known;
      provider = provider-found env config agent_id agent keys (
          validate_each-eq-ok (validate_agent config.custom_providers) config.agents valid agent_id
            agent found);
    }
