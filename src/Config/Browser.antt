-- ===== src/Config/Browser.antt =====
-- crates/config/src/lib.rs: what is read off a configuration: its folders, the address of the server,
-- the browser profile of an agent, and the team that a new agent joins.
use clawpod.Base.{
  ℕ, String, not, Option, none, some, [], ◌∷◌, ◌==◌, ◌++◌, if◌then◌else◌, or_else, and_then,
  option_map, contains, format, Result, ok, ◌>>=◌, ok_or,
}
use clawpod.Base.Maps
use clawpod.Base.Paths
use clawpod.Base.Text
use clawpod.Base.Decimal.{to_decimal}
use clawpod.Config.Runtime.{BrowserProfileConfig, RuntimeConfig}
use clawpod.Config.Secrets.{is_blank}
use clawpod.Config.Validate.{agent_profile}

pub record ResolvedBrowserProfile : Type 0 where
  pub name : String
  pub cdp_port : ℕ
  pub profile_dir : String
  pub display : String
  pub kasm_port : ℕ
  pub view_path : String
  pub os_user : Option String
  pub home_dir : Option String
  pub driver : Option String

-- `default_browser_view_path`.
unfoldable pub default_browser_view_path : String → Option String → String
unfolding is_blank
default_browser_view_path profile_name configured =
    elim (and_then configured (λ value. if not (is_blank value) then some value else none)) [
      | some view_path ↦ view_path
      | none ↦ format ("/view/" ∷ profile_name ∷ [])
    ]

-- `server_bind_host`, `server_listen_addr`, `office_url`.
unfoldable pub server_bind_host : RuntimeConfig → String
unfolding Text.trim
server_bind_host config = Text.trim config.server.host

unfoldable pub server_listen_addr : RuntimeConfig → String
unfolding server_bind_host to_decimal
server_listen_addr config =
    format (server_bind_host config ∷ ":" ∷ to_decimal config.server.api_port ∷ [])

unfoldable pub office_url : RuntimeConfig → String
unfolding server_bind_host to_decimal
office_url config =
    format (
      "http://"
      ∷ server_bind_host config
      ∷ ":"
      ∷ to_decimal config.server.api_port
      ∷ "/office"
      ∷ [])

-- `add_agent_to_default_team`, with the configuration it changes.
unfoldable pub add_agent_to_default_team :
    String → RuntimeConfig → Result (RuntimeConfig × Option String)
unfolding Maps.get Maps.insert
add_agent_to_default_team agent_id config = elim config.default_team [
  | none ↦ ok (config, none)
  | some team_id ↦
      ok_or (Maps.get config.teams team_id)
        (format ("default_team references unknown team: " ∷ team_id ∷ []))
      >>= λ team.
          let members =
            if not (contains team.agents agent_id)
            then team.agents ++ (agent_id ∷ [])
            else team.agents in
          ok (
            record config {
              teams = Maps.insert config.teams team_id (record team { agents = members });
            },
            some team_id,
          )
]

-- The home folder of the user.
module _ (user_home : Option String) where
  -- `expand_tilde`.
  unfoldable pub expand_tilde : String → String
  unfolding Text.strip_prefix Paths.join
  expand_tilde raw =
      elim (and_then (Text.strip_prefix raw "~/")
        (λ stripped. option_map (λ home. Paths.join home stripped) user_home)) [
          | some path ↦ path
          | none ↦ elim user_home [ none ↦ raw | some home ↦ if raw == "~" then home else raw ]
        ]

  unfoldable pub home_dir : RuntimeConfig → String
  unfolding expand_tilde
  home_dir config = expand_tilde config.daemon.home_dir

  unfoldable pub workspace_dir : RuntimeConfig → String
  unfolding expand_tilde
  workspace_dir config = expand_tilde config.daemon.workspace_dir

  -- The folders of the queue and of the state.
  unfoldable pub queue_dir : RuntimeConfig → String
  unfolding home_dir Paths.join
  queue_dir config = Paths.join (home_dir config) "queue"

  unfoldable pub incoming_dir : RuntimeConfig → String
  unfolding queue_dir
  incoming_dir config = Paths.join (queue_dir config) "incoming"

  unfoldable pub processing_dir : RuntimeConfig → String
  unfolding queue_dir
  processing_dir config = Paths.join (queue_dir config) "processing"

  unfoldable pub outgoing_dir : RuntimeConfig → String
  unfolding queue_dir
  outgoing_dir config = Paths.join (queue_dir config) "outgoing"

  unfoldable pub dead_letter_dir : RuntimeConfig → String
  unfolding queue_dir
  dead_letter_dir config = Paths.join (queue_dir config) "dead_letter"

  unfoldable pub files_dir : RuntimeConfig → String
  unfolding home_dir
  files_dir config = Paths.join (home_dir config) "files"

  unfoldable pub resolve_agent_workdir : RuntimeConfig → String → String
  unfolding workspace_dir
  resolve_agent_workdir config agent_id = Paths.join (workspace_dir config) agent_id

  -- `resolve_browser_path`.
  unfoldable pub resolve_browser_path : RuntimeConfig → String → String
  unfolding expand_tilde home_dir Paths.is_absolute
  resolve_browser_path config raw =
      let path = expand_tilde raw in
      if Paths.is_absolute path then path else Paths.join (home_dir config) path

  -- The record that both functions below build.
  unfoldable pub resolved : RuntimeConfig → String → BrowserProfileConfig → ResolvedBrowserProfile
  unfolding resolve_browser_path default_browser_view_path
  resolved config profile_name profile = record {
    name = profile_name;
    cdp_port = profile.cdp_port;
    profile_dir = resolve_browser_path config profile.profile_dir;
    display = profile.display;
    kasm_port = profile.kasm_port;
    view_path = default_browser_view_path profile_name profile.view_path;
    os_user = profile.os_user;
    home_dir = option_map (resolve_browser_path config) profile.home_dir;
    driver = profile.driver;
  }

  -- `resolve_browser_profile`.
  unfoldable pub resolve_browser_profile : RuntimeConfig → String → Result ResolvedBrowserProfile
  unfolding resolved
  resolve_browser_profile config profile_name =
      ok_or (Maps.get config.browser.profiles profile_name)
        (format ("browser profile not found: " ∷ profile_name ∷ []))
      >>= λ profile. ok (resolved config profile_name profile)

  -- `resolve_browser_profile_for_agent`.
  unfoldable pub resolve_browser_profile_for_agent :
      RuntimeConfig → String → Result (Option ResolvedBrowserProfile)
  unfolding resolved
  resolve_browser_profile_for_agent config agent_id =
      ok_or (Maps.get config.agents agent_id) (format ("agent not found: " ∷ agent_id ∷ []))
      >>= λ agent. elim (or_else (agent_profile agent) config.browser.default_profile) [
        | none ↦ ok none
        | some profile_name ↦
            ok_or (Maps.get config.browser.profiles profile_name)
              (format ("browser profile not found: " ∷ profile_name ∷ []))
            >>= λ profile. ok (some (resolved config profile_name profile))
      ]
