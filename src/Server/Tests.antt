-- ===== src/Server/Tests.antt =====
-- The requests on a small configuration with one team of two agents, which new agents join.
use clawpod.Base.{[], ◌∷◌, ok, err, ◌≡◌, refl}
use clawpod.Base.Maps
use clawpod.Config.Runtime.{RuntimeConfig}
use clawpod.Config.Samples.{config, environment}
use clawpod.Config.Valid.{IsValid}
use clawpod.Samples.{agent_called, dev}
use clawpod.Server.{Request, mutate_config, create_agent, delete_agent, validate_team_config}
use clawpod.Server.Staffed.{AreStaffed, AreStaffed-team, validate_team_config-IsStaffed}
use clawpod.Server.Sound.{IsStaffedConfig, mutate_config-IsStaffedConfig}

abbrev request : Request
request = Request.post_agent " writer " (agent_called "Writer")

abbrev changed : RuntimeConfig
changed = record config {
  agents = Maps.insert config.agents "writer" (agent_called "Writer");
  teams =
      Maps.insert config.teams "dev"
        (record dev { agents = "default" ∷ "reviewer" ∷ "writer" ∷ [] });
}

no_teams : AreStaffed config.agents []
unfolding Maps.get
no_teams team_id team found = cc

staffed_config : IsStaffedConfig config
unfolding Maps.insert validate_team_config Maps.get
staffed_config =
    AreStaffed-team config.agents [] "dev" dev no_teams
      (validate_team_config-IsStaffed config.agents dev refl)

accepted : mutate_config environment (ok tt) request config ≡ ok changed
unfolding mutate_config Maps.get create_agent
accepted = refl

-- An agent of a team is not deleted.
refused :
    mutate_config environment (ok tt) (Request.remove_agent "reviewer") config
    ≡ err "agent reviewer is still referenced by team dev"
unfolding mutate_config Maps.get delete_agent
refused = refl

mutate_config-IsStaffedConfig_example : IsStaffedConfig changed × IsValid environment changed
mutate_config-IsStaffedConfig_example =
    mutate_config-IsStaffedConfig environment (ok tt) request config changed accepted staffed_config
