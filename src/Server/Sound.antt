-- ===== src/Server/Sound.antt =====
-- crates/server/src/lib.rs: what the requests that change agents and teams keep true.
use mathlib.Core.Path.{subst}
use clawpod.Base.{
  String, false, not, ◌==◌, Option, [], ◌∷◌, contains, is_some, eq_iff, Bool-cases, inl, inr, ◌≡◌,
  ok, ok_injective, Result, bind-eq-ok, then-eq-ok, ◌>>=◌, ◌>>◌, format, leb, length, unwrap_or,
}
use clawpod.Base.Maps
use clawpod.Base.Maps.{get-remove}
use clawpod.Config.Browser.{add_agent_to_default_team}
use clawpod.Config.Checks.{bail_if, bail_if-eq-ok}
use clawpod.Config.Runtime.{RuntimeConfig}
use clawpod.Config.Valid.{IsValid, validate-IsValid}
use clawpod.Config.Validate.{validate}
use clawpod.Domain.Core.{AgentConfig, TeamConfig}
use clawpod.Server.Staffed.{
  AreStaffed, contains_key_self, AreStaffed-insert, AreStaffed-team, AreStaffed-remove,
  validate_team_config-IsStaffed, not-referring, add_agent_to_default_team-AreStaffed,
}
use clawpod.Server.{
  normalize_identifier, validate_agent_config, validate_team_config, referring_team, create_agent,
  update_agent, delete_agent, create_team, update_team, delete_team, Request, mutate, mutate_config,
}

-- Every team of the configuration is staffed.
abbrev pub IsStaffedConfig : RuntimeConfig → Type 0
IsStaffedConfig config = AreStaffed config.agents config.teams

-- A step of the configuration keeps its teams staffed.
abbrev Keeps : (RuntimeConfig → Result RuntimeConfig) → Type 0
Keeps step =
    (config next : RuntimeConfig)
    → step config ≡ ok next
    → IsStaffedConfig config
    → IsStaffedConfig next

create_agent-Keeps : (agent_id : String) (agent : AgentConfig) → Keeps (create_agent agent_id agent)
unfolding create_agent
create_agent-Keeps agent_id agent config next e staffed =
    let with_agent = record config { agents = Maps.insert config.agents agent_id agent } in
    let joining = add_agent_to_default_team agent_id with_agent in
    let taken : RuntimeConfig × Option String → Result RuntimeConfig = λ joined. ok joined.0 in
    let (_, e1) =
      then-eq-ok (bail_if (Maps.contains_key config.agents agent_id) _) (joining >>= taken) e in
    let (joined, (joins, is_next)) = bind-eq-ok joining taken e1 in
    subst IsStaffedConfig (ok_injective is_next) (
      add_agent_to_default_team-AreStaffed agent_id with_agent joined
        (contains_key_self config.agents agent_id agent)
        (AreStaffed-insert config.agents config.teams agent_id agent staffed) joins)

update_agent-Keeps : (agent_id : String) (agent : AgentConfig) → Keeps (update_agent agent_id agent)
unfolding update_agent
update_agent-Keeps agent_id agent config next e staffed =
    let with_agent = record config { agents = Maps.insert config.agents agent_id agent } in
    let (_, is_next) =
      then-eq-ok (bail_if (not (Maps.contains_key config.agents agent_id)) _) (ok with_agent) e in
    subst IsStaffedConfig (ok_injective is_next)
      (AreStaffed-insert config.agents config.teams agent_id agent staffed)

delete_agent-Keeps : (agent_id : String) → Keeps (delete_agent agent_id)
unfolding delete_agent Maps.contains_key
delete_agent-Keeps agent_id config next e staffed =
    let without = record config { agents = Maps.remove config.agents agent_id } in
    let free = bail_if (is_some (referring_team config.teams agent_id)) (
      format (
        "agent "
        ∷ agent_id
        ∷ " is still referenced by team "
        ∷ unwrap_or (referring_team config.teams agent_id) ""
        ∷ [])) in
    let more = bail_if (leb (length config.agents) 1) "cannot remove the last agent" in
    let (_, e1) =
      then-eq-ok (bail_if (not (Maps.contains_key config.agents agent_id)) _)
        (more >> (free >> ok without)) e in
    let (_, e2) = then-eq-ok more (free >> ok without) e1 in
    let (is_free, is_next) = then-eq-ok free (ok without) e2 in
    let unused = not-referring config.teams agent_id (bail_if-eq-ok _ _ is_free) in
    subst IsStaffedConfig (ok_injective is_next) (λ team_id team found. record {
      leader = (staffed team_id team found).leader;
      members = λ id member. elim (Bool-cases (agent_id == id)) [
        | inl same ↦
            let a : contains team.agents id ≡ false =
              subst (λ x. contains team.agents x ≡ false) ((eq_iff agent_id id).0 same)
                (unused team_id team found) in
            absurd (cc)
        | inr other ↦
            rw (get-remove config.agents agent_id id, other)
              ((staffed team_id team found).members id member)
      ];
    })

create_team-Keeps : (team_id : String) (team : TeamConfig) → Keeps (create_team team_id team)
unfolding create_team
create_team-Keeps team_id team config next e staffed =
    let with_team = record config { teams = Maps.insert config.teams team_id team } in
    let checked = validate_team_config config.agents team in
    let (_, e1) =
      then-eq-ok (bail_if (Maps.contains_key config.teams team_id) _) (checked >> ok with_team) e in
    let (valid, is_next) = then-eq-ok checked (ok with_team) e1 in
    subst IsStaffedConfig (ok_injective is_next) (
      AreStaffed-team config.agents config.teams team_id team staffed
        (validate_team_config-IsStaffed config.agents team valid))

update_team-Keeps : (team_id : String) (team : TeamConfig) → Keeps (update_team team_id team)
unfolding update_team
update_team-Keeps team_id team config next e staffed =
    let with_team = record config { teams = Maps.insert config.teams team_id team } in
    let checked = validate_team_config config.agents team in
    let (_, e1) =
      then-eq-ok (bail_if (not (Maps.contains_key config.teams team_id)) _)
        (checked >> ok with_team) e in
    let (valid, is_next) = then-eq-ok checked (ok with_team) e1 in
    subst IsStaffedConfig (ok_injective is_next) (
      AreStaffed-team config.agents config.teams team_id team staffed
        (validate_team_config-IsStaffed config.agents team valid))

delete_team-Keeps : (team_id : String) → Keeps (delete_team team_id)
unfolding delete_team
delete_team-Keeps team_id config next e staffed =
    let without = record config { teams = Maps.remove config.teams team_id } in
    let (_, is_next) =
      then-eq-ok (bail_if (not (Maps.contains_key config.teams team_id)) _) (ok without) e in
    subst IsStaffedConfig (ok_injective is_next)
      (AreStaffed-remove config.agents config.teams team_id staffed)

-- A step under the identifier that is read.
Keeps-normalized :
    (value label : String) (step : String → RuntimeConfig → Result RuntimeConfig)
    → ((id : String) → Keeps (step id))
    → Keeps (λ config. normalize_identifier value label >>= λ id. step id config)
Keeps-normalized value label step keeps config next e staffed =
    let (id, (_, stepped)) =
      bind-eq-ok (normalize_identifier value label) (λ id. step id config) e in
    keeps id config next stepped staffed

mutate-Keeps : (request : Request) → Keeps (mutate request)
unfolding mutate
mutate-Keeps (Request.post_agent id agent) config next e staffed =
    let (agent_id, (_, e1)) =
      bind-eq-ok (normalize_identifier id "agent id")
        (λ agent_id. validate_agent_config agent >> create_agent agent_id agent config) e in
    let (_, e2) =
      then-eq-ok (validate_agent_config agent) (create_agent agent_id agent config) e1 in
    create_agent-Keeps agent_id agent config next e2 staffed
mutate-Keeps (Request.put_agent id agent) config next e staffed =
    let (_, e1) =
      then-eq-ok (validate_agent_config agent)
        (normalize_identifier id "agent id" >>= λ agent_id. update_agent agent_id agent config) e in
    Keeps-normalized id "agent id" (λ agent_id. update_agent agent_id agent)
      (λ agent_id. update_agent-Keeps agent_id agent) config next e1 staffed
mutate-Keeps (Request.remove_agent id) config next e staffed =
    Keeps-normalized id "agent id" delete_agent delete_agent-Keeps config next e staffed
mutate-Keeps (Request.post_team id team) config next e staffed =
    Keeps-normalized id "team id" (λ team_id. create_team team_id team)
      (λ team_id. create_team-Keeps team_id team) config next e staffed
mutate-Keeps (Request.put_team id team) config next e staffed =
    Keeps-normalized id "team id" (λ team_id. update_team team_id team)
      (λ team_id. update_team-Keeps team_id team) config next e staffed
mutate-Keeps (Request.remove_team id) config next e staffed =
    Keeps-normalized id "team id" delete_team delete_team-Keeps config next e staffed

-- A request that is accepted leaves a configuration that validation accepts, and where every team was
-- led by one of its members and had configured agents only, this still holds.
pub mutate_config-IsStaffedConfig :
    (env : String → Option String) (written : Result (Unit {0})) (request : Request)
    (config next : RuntimeConfig)
    → mutate_config env written request config ≡ ok next
    → IsStaffedConfig config
    → IsStaffedConfig next × IsValid env next
unfolding mutate_config
mutate_config-IsStaffedConfig env written request config next e staffed =
    let (changed, (mutated, e1)) =
      bind-eq-ok (mutate request config) (λ c. validate env c >> (written >> ok c)) e in
    let (valid, e2) = then-eq-ok (validate env changed) (written >> ok changed) e1 in
    let (_, is_next) = then-eq-ok written (ok changed) e2 in
    subst (λ c. IsStaffedConfig c × IsValid env c) (ok_injective is_next)
      (mutate-Keeps request config changed mutated staffed, validate-IsValid env changed valid)
