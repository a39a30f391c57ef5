-- ===== src/Config/Validate.antt =====
-- crates/config/src/lib.rs: what a configuration must fulfil before it is used.
use Prim.Native.Char.{Char, code}
use clawpod.Base.{
  ℕ, String, Bool, true, false, not, ◌&&◌, ◌||◌, Option, none, some, List, [], ◌∷◌, Map, ◌==◌,
  nat_eq, leb, if◌then◌else◌, and_then, option_map, is_some, unwrap_or, contains, any, format,
  Result, ok, err, panic, ◌>>=◌, ◌>>◌,
}
use clawpod.Base.Maps
use clawpod.Base.Text
use clawpod.Base.Decimal.{to_decimal}
use clawpod.Config.Checks.{bail_if, bail_first, validate_each}
use clawpod.Config.Durations.{parse_duration_str}
use clawpod.Config.Runtime.{ServerConfig, BrowserProfileConfig, RuntimeConfig, CustomProviderConfig}
use clawpod.Config.Secrets.{is_blank, custom_provider_api_key}
use clawpod.Domain.Beat.{AgentHeartbeatConfig}
use clawpod.Domain.Core.{ProviderKind, AgentConfig}

-- `ServerConfig::is_public_bind`.
unfoldable pub is_public_bind : ServerConfig → Bool
unfolding Text.trim
is_public_bind server =
    let host = Text.trim server.host in
    not (host == "127.0.0.1" || host == "localhost" || host == "::1")

unfoldable pub is_profile_char : Char → Bool
is_profile_char c =
    let n = code c in
    (leb 48 n && leb n 57)
    || (leb 65 n && leb n 90)
    || (leb 97 n && leb n 122)
    || nat_eq n 95
    || nat_eq n 45

abbrev pub all_chars : (Char → Bool) → String → Bool
all_chars p String.[] = true
all_chars p (String.◌∷◌ c s) = p c && all_chars p s

-- `is_valid_profile_name`.
unfoldable pub is_valid_profile_name : String → Bool
unfolding is_blank is_profile_char
is_valid_profile_name value = not (is_blank value) && all_chars is_profile_char value

-- `with_context`, whose text comes before the error's.
abbrev in_context : String → Result ℕ → Result (Unit {0})
in_context context (ok n) = ok tt
in_context context (err e) = err context
in_context context (panic e) = panic e

abbrev checked_every : String → Option String → Result (Unit {0})
checked_every label none = ok tt
checked_every label (some every) =
    in_context (format (label ∷ ".every must be a duration like 30m or 1h" ∷ []))
      (parse_duration_str every)

-- `validate_agent_heartbeat_config`.
unfoldable pub validate_agent_heartbeat_config : AgentHeartbeatConfig → String → Result (Unit {0})
unfolding is_blank
validate_agent_heartbeat_config config label =
    checked_every label config.every
    >> bail_if (elim config.ack_max_chars [ none ↦ false | some n ↦ nat_eq n 0 ])
        (format (label ∷ ".ack_max_chars must be greater than zero" ∷ []))
    >> bail_if
        (elim config.active_hours [
          | none ↦ false
          | some hours ↦ is_blank hours.start || is_blank hours.end
        ])
        (format (label ∷ ".active_hours requires both start and end" ∷ []))

abbrev pub checked_heartbeat : Option AgentHeartbeatConfig → String → Result (Unit {0})
checked_heartbeat none label = ok tt
checked_heartbeat (some config) label = validate_agent_heartbeat_config config label

-- The provider of an agent whose kind is custom.
unfoldable pub custom_provider_id : AgentConfig → Option String
unfolding Text.trim
custom_provider_id agent =
    and_then (option_map Text.trim agent.provider_id)
      (λ value. if Text.is_empty value then none else some value)

abbrev pub is_custom : ProviderKind → Bool
is_custom ProviderKind.custom = true
is_custom _ = false

-- The tests on an agent, apart from its heartbeat.
unfoldable pub agent_tests : Map CustomProviderConfig → String → AgentConfig → List (Bool × String)
unfolding is_blank custom_provider_id Maps.contains_key
agent_tests custom_providers agent_id agent =
    let at = format ("agents." ∷ agent_id ∷ []) in
    let provider_id = unwrap_or (custom_provider_id agent) "" in
    (is_blank agent.name, format (at ∷ ".name must not be empty" ∷ []))
    ∷ (is_blank agent.model, format (at ∷ ".model must not be empty" ∷ []))
    ∷ (
      elim agent.prompt_file [ none ↦ false | some file ↦ is_blank file ],
      format (at ∷ ".prompt_file must not be empty" ∷ []),
    )
    ∷ (
      is_custom agent.provider && not (is_some (custom_provider_id agent)),
      format (at ∷ ".provider_id is required for custom providers" ∷ []),
    )
    ∷ (
      is_custom agent.provider && not (Maps.contains_key custom_providers provider_id),
      format (at ∷ ".provider_id references unknown custom provider: " ∷ provider_id ∷ []),
    )
    ∷ []

-- One round of the loop of `validate_agents`.
unfoldable pub validate_agent : Map CustomProviderConfig → String → AgentConfig → Result (Unit {0})
unfolding agent_tests validate_agent_heartbeat_config
validate_agent custom_providers agent_id agent =
    bail_first (agent_tests custom_providers agent_id agent)
    >> checked_heartbeat agent.heartbeat (format ("agents." ∷ agent_id ∷ ".heartbeat" ∷ []))

-- `validate_agents`.
unfoldable pub validate_agents : RuntimeConfig → Result (Unit {0})
unfolding validate_agent
validate_agents config =
    validate_each (validate_agent config.custom_providers) config.agents
    >> checked_heartbeat (and_then config.agent_defaults (λ d. d.heartbeat))
        "agent_defaults.heartbeat"

-- The sets of `validate_browser_profiles`.
pub record Seen : Type 0 where
  pub cdp_ports : List ℕ
  pub displays : List String
  pub kasm_ports : List ℕ
  pub view_paths : List String

abbrev pub has_number : List ℕ → ℕ → Bool
has_number ns n = any (nat_eq n) ns

-- The tests on the path where a profile is viewed.
abbrev pub checked_view_path : String → List String → Option String → Result (List String)
checked_view_path name seen none = ok seen
checked_view_path name seen (some view_path) =
    bail_if (is_blank view_path)
      (format ("browser.profiles." ∷ name ∷ ".view_path must not be empty" ∷ []))
    >> bail_if (not (is_some (Text.strip_prefix view_path "/")))
        (format ("browser.profiles." ∷ name ∷ ".view_path must start with '/': " ∷ view_path ∷ []))
    >> bail_if (contains seen view_path) (
        format
          ("browser.profiles." ∷ name ∷ ".view_path duplicates another profile: " ∷ view_path ∷ []))
    >> ok (view_path ∷ seen)

-- The tests on a profile, apart from its view path.
unfoldable pub profile_tests : String → BrowserProfileConfig → Seen → List (Bool × String)
unfolding is_valid_profile_name is_blank to_decimal
profile_tests name profile seen =
    let at = format ("browser.profiles." ∷ name ∷ []) in
    (
      not (is_valid_profile_name name),
      format
          (at ∷ " is invalid; profile names may only contain letters, numbers, '_' and '-'" ∷ []),
    )
    ∷ (nat_eq profile.cdp_port 0, format (at ∷ ".cdp_port must be greater than 0" ∷ []))
    ∷ (nat_eq profile.kasm_port 0, format (at ∷ ".kasm_port must be greater than 0" ∷ []))
    ∷ (is_blank profile.profile_dir, format (at ∷ ".profile_dir must not be empty" ∷ []))
    ∷ (is_blank profile.display, format (at ∷ ".display must not be empty" ∷ []))
    ∷ (
      has_number seen.cdp_ports profile.cdp_port,
      format (at ∷ ".cdp_port duplicates another profile: " ∷ to_decimal profile.cdp_port ∷ []),
    )
    ∷ (
      contains seen.displays profile.display,
      format (at ∷ ".display duplicates another profile: " ∷ profile.display ∷ []),
    )
    ∷ (
      has_number seen.kasm_ports profile.kasm_port,
      format (at ∷ ".kasm_port duplicates another profile: " ∷ to_decimal profile.kasm_port ∷ []),
    )
    ∷ []

-- The sets after the profile.
abbrev pub seen_with : BrowserProfileConfig → Seen → List String → Seen
seen_with profile seen view_paths = record {
  cdp_ports = profile.cdp_port ∷ seen.cdp_ports;
  displays = profile.display ∷ seen.displays;
  kasm_ports = profile.kasm_port ∷ seen.kasm_ports;
  view_paths = view_paths;
}

-- One round of the loop over the profiles.
unfoldable pub validate_profile : String → BrowserProfileConfig → Seen → Result Seen
unfolding profile_tests Text.strip_prefix is_blank
validate_profile name profile seen =
    bail_first (profile_tests name profile seen)
    >> (checked_view_path name seen.view_paths profile.view_path >>= λ view_paths.
        ok (seen_with profile seen view_paths))

unfoldable pub validate_profiles : Map BrowserProfileConfig → Seen → Result (Unit {0})
unfolding validate_profile
validate_profiles [] seen = ok tt
validate_profiles ((name, profile) ∷ profiles) seen =
    validate_profile name profile seen >>= λ seen'. validate_profiles profiles seen'

-- The profile that an agent names.
abbrev pub agent_profile : AgentConfig → Option String
agent_profile agent = and_then agent.browser (λ b. b.profile)

abbrev pub names_unknown : Map BrowserProfileConfig → Option String → Bool
names_unknown profiles none = false
names_unknown profiles (some name) = not (Maps.contains_key profiles name)

-- The profiles that are named: the default one, and those of the agents.
unfoldable pub check_default_profile : RuntimeConfig → Result (Unit {0})
unfolding Maps.contains_key
check_default_profile config =
    bail_if (names_unknown config.browser.profiles config.browser.default_profile) (
      format (
        "browser.default_profile references unknown profile: "
        ∷ unwrap_or config.browser.default_profile ""
        ∷ []))

unfoldable pub check_agent_profile :
    Map BrowserProfileConfig → String → AgentConfig → Result (Unit {0})
unfolding Maps.contains_key
check_agent_profile profiles agent_id agent =
    bail_if (names_unknown profiles (agent_profile agent)) (
      format (
        "agents."
        ∷ agent_id
        ∷ ".browser.profile references unknown profile: "
        ∷ unwrap_or (agent_profile agent) ""
        ∷ []))

abbrev pub nothing_seen : Seen
nothing_seen = record { cdp_ports = []; displays = []; kasm_ports = []; view_paths = [] }

-- `validate_browser_profiles`.
unfoldable pub validate_browser_profiles : RuntimeConfig → Result (Unit {0})
unfolding validate_profiles check_default_profile check_agent_profile
validate_browser_profiles config =
    check_default_profile config
    >> (validate_profiles config.browser.profiles nothing_seen
        >> validate_each (check_agent_profile config.browser.profiles) config.agents)

-- The tests on single fields.
unfoldable pub field_tests : RuntimeConfig → List (Bool × String)
unfolding is_blank is_public_bind
field_tests config =
    (is_blank config.server.host, "server.host must not be empty")
    ∷ (
      is_public_bind config.server && not config.server.allow_public_bind,
      format
          ("server.host=" ∷ config.server.host ∷ " requires server.allow_public_bind = true" ∷ []),
    )
    ∷ (nat_eq config.daemon.max_concurrent_runs 0, "daemon.max_concurrent_runs must be at least 1")
    ∷ (nat_eq config.heartbeat.interval_sec 0, "heartbeat.interval_sec must be at least 1")
    ∷ []

-- A key that a provider must have.
abbrev pub key_present : String → Option String → Result (Unit {0})
key_present provider_id none =
    err (format ("custom_providers." ∷ provider_id ∷ " requires api_key or api_key_env" ∷ []))
key_present provider_id (some key) = ok tt

unfoldable pub check_provider :
    (String → Option String) → RuntimeConfig → String → CustomProviderConfig → Result (Unit {0})
unfolding custom_provider_api_key
check_provider env config provider_id provider =
    custom_provider_api_key env config provider_id >>= key_present provider_id

unfoldable pub check_default_team : RuntimeConfig → Result (Unit {0})
unfolding Maps.contains_key
check_default_team config =
    bail_if
      (elim config.default_team [
        | none ↦ false
        | some team_id ↦ not (Maps.contains_key config.teams team_id)
      ])
      (format
        ("default_team must reference an existing team: " ∷ unwrap_or config.default_team "" ∷ []))

-- `validate`, with the environment.
unfoldable pub validate : (String → Option String) → RuntimeConfig → Result (Unit {0})
unfolding field_tests check_provider check_default_team validate_agents validate_browser_profiles
validate env config =
    bail_first (field_tests config)
    >> (validate_each (check_provider env config) config.custom_providers
        >> (check_default_team config
            >> (validate_agents config >> validate_browser_profiles config)))
