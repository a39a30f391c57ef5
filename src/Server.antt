-- ===== src/Server.antt =====
-- crates/server/src/lib.rs: the requests that change agents and teams, each on a copy of the
-- configuration that is validated and written before it takes the place of the old one.

pub mod Staffed
pub mod Sound
mod Tests
use clawpod.Base.{
  String, Bool, true, false, not, ◌||◌, ◌==◌, leb, length, Option, none, some, List, [], ◌∷◌, Map,
  contains, is_some, if◌then◌else◌, format, Result, ok, err, panic, ◌>>=◌, ◌>>◌, unwrap_or,
}
use clawpod.Base.Maps
use clawpod.Base.Text
use clawpod.Config.Browser.{add_agent_to_default_team}
use clawpod.Config.Checks.{bail_if, bail_first}
use clawpod.Config.Runtime.{RuntimeConfig}
use clawpod.Config.Secrets.{is_blank}
use clawpod.Config.Validate.{all_chars, is_profile_char, validate}
use clawpod.Domain.Core.{AgentConfig, TeamConfig}

-- `normalize_identifier`.
unfoldable pub normalize_identifier : String → String → Result String
unfolding Text.trim is_profile_char
normalize_identifier value label =
    let trimmed = Text.trim value in
    bail_first (
      (Text.is_empty trimmed, format (label ∷ " must not be empty" ∷ []))
      ∷ (
        not (all_chars is_profile_char trimmed),
        format (label ∷ " may only contain letters, numbers, '_' and '-'" ∷ []),
      )
      ∷ [])
    >> ok trimmed

-- `validate_agent_config`.
unfoldable pub validate_agent_config : AgentConfig → Result (Unit {0})
unfolding is_blank
validate_agent_config agent = bail_first (
    (is_blank agent.name, "agent.name must not be empty")
    ∷ (is_blank agent.model, "agent.model must not be empty")
    ∷ [])

-- The loop over the members of a team.
unfoldable pub check_members : Map AgentConfig → List String → List String → Result (Unit {0})
unfolding Maps.contains_key
check_members agents seen [] = ok tt
check_members agents seen (agent_id ∷ members) =
    bail_if (not (Maps.contains_key agents agent_id))
      (format ("team.agents contains unknown agent: " ∷ agent_id ∷ []))
    >> (bail_if (contains seen agent_id)
          (format ("team.agents contains duplicate agent: " ∷ agent_id ∷ []))
        >> check_members agents (agent_id ∷ seen) members)

abbrev is_empty_list : List String → Bool
is_empty_list [] = true
is_empty_list (x ∷ xs) = false

abbrev pub team_tests : Map AgentConfig → TeamConfig → List (Bool × String)
team_tests agents team =
    (is_blank team.name, "team.name must not be empty")
    ∷ (is_empty_list team.agents, "team.agents must include at least one agent")
    ∷ (
      not (Maps.contains_key agents team.leader_agent),
      "team.leader_agent must reference an existing agent",
    )
    ∷ (
      not (contains team.agents team.leader_agent),
      "team.leader_agent must also be listed in team.agents",
    )
    ∷ []

-- `validate_team_config`.
unfoldable pub validate_team_config : Map AgentConfig → TeamConfig → Result (Unit {0})
unfolding is_blank Maps.contains_key check_members
validate_team_config agents team =
    bail_first (team_tests agents team) >> check_members agents [] team.agents

-- The first team that has the agent.
unfoldable pub referring_team : Map TeamConfig → String → Option String
referring_team [] agent_id = none
referring_team ((team_id, team) ∷ teams) agent_id =
    if team.leader_agent == agent_id || contains team.agents agent_id
    then some team_id
    else referring_team teams agent_id

-- What the handlers give to `mutate_config`.
unfoldable pub create_agent : String → AgentConfig → RuntimeConfig → Result RuntimeConfig
unfolding Maps.contains_key Maps.insert add_agent_to_default_team
create_agent agent_id agent config =
    bail_if (Maps.contains_key config.agents agent_id)
      (format ("agent already exists: " ∷ agent_id ∷ []))
    >> (add_agent_to_default_team agent_id
          (record config { agents = Maps.insert config.agents agent_id agent })
        >>= λ joined. ok joined.0)

unfoldable pub update_agent : String → AgentConfig → RuntimeConfig → Result RuntimeConfig
unfolding Maps.contains_key Maps.insert
update_agent agent_id agent config =
    bail_if (not (Maps.contains_key config.agents agent_id))
      (format ("agent not found: " ∷ agent_id ∷ []))
    >> ok (record config { agents = Maps.insert config.agents agent_id agent })

unfoldable pub delete_agent : String → RuntimeConfig → Result RuntimeConfig
unfolding Maps.contains_key Maps.remove referring_team
delete_agent agent_id config =
    bail_if (not (Maps.contains_key config.agents agent_id))
      (format ("agent not found: " ∷ agent_id ∷ []))
    >> (bail_if (leb (length config.agents) 1) "cannot remove the last agent"
        >> (bail_if (is_some (referring_team config.teams agent_id)) (
              format (
                "agent "
                ∷ agent_id
                ∷ " is still referenced by team "
                ∷ unwrap_or (referring_team config.teams agent_id) ""
                ∷ []))
            >> ok (record config { agents = Maps.remove config.agents agent_id })))

unfoldable pub create_team : String → TeamConfig → RuntimeConfig → Result RuntimeConfig
unfolding Maps.contains_key Maps.insert validate_team_config
create_team team_id team config =
    bail_if (Maps.contains_key config.teams team_id)
      (format ("team already exists: " ∷ team_id ∷ []))
    >> (validate_team_config config.agents team
        >> ok (record config { teams = Maps.insert config.teams team_id team }))

unfoldable pub update_team : String → TeamConfig → RuntimeConfig → Result RuntimeConfig
unfolding Maps.contains_key Maps.insert validate_team_config
update_team team_id team config =
    bail_if (not (Maps.contains_key config.teams team_id))
      (format ("team not found: " ∷ team_id ∷ []))
    >> (validate_team_config config.agents team
        >> ok (record config { teams = Maps.insert config.teams team_id team }))

unfoldable pub delete_team : String → RuntimeConfig → Result RuntimeConfig
unfolding Maps.contains_key Maps.remove
delete_team team_id config =
    bail_if (not (Maps.contains_key config.teams team_id))
      (format ("team not found: " ∷ team_id ∷ []))
    >> ok (record config { teams = Maps.remove config.teams team_id })

-- The requests, with the identifiers as they come.
pub data Request : Type 0 where
  post_agent put_agent : String → AgentConfig → Request
  remove_agent : String → Request
  post_team put_team : String → TeamConfig → Request
  remove_team : String → Request

unfoldable pub mutate : Request → RuntimeConfig → Result RuntimeConfig
unfolding normalize_identifier validate_agent_config
mutate (Request.post_agent id agent) config = normalize_identifier id "agent id" >>= λ agent_id.
    validate_agent_config agent >> create_agent agent_id agent config
mutate (Request.put_agent id agent) config =
    validate_agent_config agent
    >> (normalize_identifier id "agent id" >>= λ agent_id. update_agent agent_id agent config)
mutate (Request.remove_agent id) config =
    normalize_identifier id "agent id" >>= λ agent_id. delete_agent agent_id config
mutate (Request.post_team id team) config =
    normalize_identifier id "team id" >>= λ team_id. create_team team_id team config
mutate (Request.put_team id team) config =
    normalize_identifier id "team id" >>= λ team_id. update_team team_id team config
mutate (Request.remove_team id) config =
    normalize_identifier id "team id" >>= λ team_id. delete_team team_id config

-- `mutate_config`: the new configuration, after `ensure_runtime_dirs` and `write_config`.
unfoldable pub mutate_config :
    (String → Option String) → Result (Unit {0}) → Request → RuntimeConfig → Result RuntimeConfig
unfolding mutate validate
mutate_config env written request config =
    mutate request config >>= λ next. validate env next >> (written >> ok next)
