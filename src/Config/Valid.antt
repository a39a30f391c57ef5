-- ===== src/Config/Valid.antt =====
-- crates/config/src/lib.rs: what a configuration that passes validation can be relied on for.
use clawpod.Base.{
  Option, Option-cases, String, [], arith, false, format, inl, inr, is_some, not, ok, refl, some,
  then-eq-ok, true, ◌<◌, ◌>>◌, ◌∷◌, ◌≡◌, ◌⊎◌,
}
use clawpod.Base.Maps
use clawpod.Config.Runtime.{RuntimeConfig, CustomProviderConfig}
use clawpod.Config.Secrets.{custom_provider_api_key}
use clawpod.Config.Browser.{add_agent_to_default_team}
use clawpod.Config.Ports.{AreApart, validate_profiles-AreApart}
use clawpod.Config.Checks.{
  bail_first, bail_first-eq-ok, validate_each, bail_if-eq-ok, not-eq-false, is_some-get,
}
use clawpod.Config.Served.{IsServed, provider-key, agents-served}
use clawpod.Config.Validate.{
  validate_agent, validate_agents, is_public_bind, check_default_profile, check_agent_profile,
  nothing_seen, validate_profiles, validate_browser_profiles, field_tests, check_provider,
  check_default_team, validate,
}
use clawpod.Domain.Core.{AgentConfig}

-- What the running program relies on.
pub record IsValid (env : String → Option String) (config : RuntimeConfig) : Type 0 where
  pub bind : (is_public_bind config.server ≡ false) ⊎ (config.server.allow_public_bind ≡ true)
  pub runs : 0 < config.daemon.max_concurrent_runs
  pub interval : 0 < config.heartbeat.interval_sec
  pub providers :
      (provider_id : String) (provider : CustomProviderConfig)
      → Maps.get config.custom_providers provider_id ≡ some provider
      → (key : String) × (custom_provider_api_key env config provider_id ≡ ok (some key))
  pub agents :
      (agent_id : String) (agent : AgentConfig)
      → Maps.get config.agents agent_id ≡ some agent
      → IsServed env config agent_id agent
  pub profiles : AreApart config.browser.profiles
  pub joins :
      (agent_id : String)
      → (joined : RuntimeConfig × Option String) × (add_agent_to_default_team agent_id config
          ≡ ok joined)

-- The default team takes a new agent.
team-joins :
    (config : RuntimeConfig)
    → check_default_team config ≡ ok tt
    → (agent_id : String)
    → (joined : RuntimeConfig × Option String) × (add_agent_to_default_team agent_id config
        ≡ ok joined)
unfolding check_default_team add_agent_to_default_team Maps.contains_key
team-joins config e agent_id = elim (Option-cases config.default_team) [
  | inl no_team ↦ rw no_team (_, refl)
  | inr (team_id, has_team) ↦
      let checked = rw has_team at e in
      let present =
        bail_if-eq-ok (not (is_some (Maps.get config.teams team_id)))
          (format ("default_team must reference an existing team: " ∷ team_id ∷ [])) checked in
      let (team, found) =
        is_some-get (Maps.get config.teams team_id)
          (not-eq-false (is_some (Maps.get config.teams team_id)) present) in
      rw (has_team, found) (_, refl)
]

-- A configuration that passes validation is one that the program can rely on: the server is bound to
-- this machine unless the configuration allows more, at least one run may go at a time, the heartbeat
-- has an interval, every provider has a key, every agent has a browser profile where one is named or
-- there is a default one, and a provider with a key where its provider is a custom one, no two browser
-- profiles have the same CDP port, the same viewer port or the same display, and a new agent can join
-- the default team.
pub validate-IsValid :
    (env : String → Option String) (config : RuntimeConfig)
    → validate env config ≡ ok tt
    → IsValid env config
unfolding validate validate_agents validate_browser_profiles field_tests
validate-IsValid env config e =
    let browser = validate_browser_profiles config in
    let agents = validate_agents config in
    let team = check_default_team config in
    let providers = validate_each (check_provider env config) config.custom_providers in
    let (fields, e1) =
      then-eq-ok (bail_first (field_tests config)) (providers >> (team >> (agents >> browser))) e in
    let (keys, e2) = then-eq-ok providers (team >> (agents >> browser)) e1 in
    let (in_team, e3) = then-eq-ok team (agents >> browser) e2 in
    let (in_agents, in_browser) = then-eq-ok agents browser e3 in
    let profiles = validate_profiles config.browser.profiles nothing_seen in
    let named = validate_each (check_agent_profile config.browser.profiles) config.agents in
    let (default, e4) = then-eq-ok (check_default_profile config) (profiles >> named) in_browser in
    let (apart, own) = then-eq-ok profiles named e4 in
    let each = validate_each (validate_agent config.custom_providers) config.agents in
    let valid = (then-eq-ok each _ in_agents).0 in
    let (_, (bind, (runs, (interval, _)))) = bail_first-eq-ok (field_tests config) fields in
    record {
      bind = ground (arith, bind);
      runs = ground (arith, runs);
      interval = ground (arith, interval);
      providers = provider-key env config keys;
      agents = agents-served env config keys valid default own;
      profiles = validate_profiles-AreApart config.browser.profiles nothing_seen apart;
      joins = team-joins config in_team;
    }
