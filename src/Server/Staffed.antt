-- ===== src/Server/Staffed.antt =====
-- crates/server/src/lib.rs: teams whose members are all configured.
use mathlib.Core.Path.{subst}
use clawpod.Base.{
  String, true, false, not, ◌||◌, ◌==◌, eq_iff, eq_refl, Option, some, List, [], ◌∷◌, ◌++◌, Map,
  contains, is_some, Bool-cases, Option-cases, inl, inr, ◌≡◌, refl, ap, arith, ok, ok_injective,
  then-eq-ok, ◌>>◌, format, unwrap_or,
}
use clawpod.Base.Maps
use clawpod.Base.Maps.{get-insert, get-remove}
use clawpod.Config.Browser.{add_agent_to_default_team}
use clawpod.Config.Checks.{bail_if, bail_first, bail_first-eq-ok, bail_if-eq-ok, not-eq-false}
use clawpod.Config.Runtime.{RuntimeConfig}
use clawpod.Domain.Core.{AgentConfig, TeamConfig}
use clawpod.Server.{check_members, team_tests, validate_team_config, referring_team}

-- The leader of the team is a member of it, and its members are configured.
pub record IsStaffed (agents : Map AgentConfig) (team : TeamConfig) : Type 0 where
  pub leader : contains team.agents team.leader_agent ≡ true
  pub members :
      (agent_id : String)
      → contains team.agents agent_id ≡ true
      → Maps.contains_key agents agent_id ≡ true

abbrev pub AreStaffed : Map AgentConfig → Map TeamConfig → Type 0
AreStaffed agents teams =
    (team_id : String) (team : TeamConfig)
    → Maps.get teams team_id ≡ some team
    → IsStaffed agents team

contains_key-insert :
    {V : Type 0} (m : Map V) (k : String) (v : V) (j : String)
    → Maps.contains_key m j ≡ true
    → Maps.contains_key (Maps.insert m k v) j ≡ true
unfolding Maps.contains_key
contains_key-insert m k v j has = elim (Bool-cases (k == j)) [
  | inl same ↦ rw (get-insert m k v j, same) refl
  | inr other ↦ rw (get-insert m k v j, other) has
]

pub contains_key_self :
    {V : Type 0} (m : Map V) (k : String) (v : V) → Maps.contains_key (Maps.insert m k v) k ≡ true
unfolding Maps.contains_key
contains_key_self m k v = rw (get-insert m k v k, eq_refl k) refl

pub AreStaffed-insert :
    (agents : Map AgentConfig) (teams : Map TeamConfig) (agent_id : String) (agent : AgentConfig)
    → AreStaffed agents teams
    → AreStaffed (Maps.insert agents agent_id agent) teams
AreStaffed-insert agents teams agent_id agent staffed team_id team found = record {
  leader = (staffed team_id team found).leader;
  members = λ id member.
      contains_key-insert agents agent_id agent id ((staffed team_id team found).members id member);
}

-- A team that is staffed can take any place.
pub AreStaffed-team :
    (agents : Map AgentConfig) (teams : Map TeamConfig) (team_id : String) (team : TeamConfig)
    → AreStaffed agents teams
    → IsStaffed agents team
    → AreStaffed agents (Maps.insert teams team_id team)
AreStaffed-team agents teams team_id team staffed own id t found =
    elim (Bool-cases (team_id == id)) [
      | inl same ↦
          let e : some team ≡ some t = rw (get-insert teams team_id team id, same) at found in
          subst (λ x. IsStaffed agents x) (ap (λ o. unwrap_or o team) e) own
      | inr other ↦ staffed id t (rw (get-insert teams team_id team id, other) at found)
    ]

contains-append :
    (xs : List String) (a b : String) → contains (xs ++ a ∷ []) b ≡ (contains xs b || (a == b))
contains-append [] a b = ground arith
contains-append (x ∷ xs) a b = ground (arith, contains-append xs a b)

pub AreStaffed-remove :
    (agents : Map AgentConfig) (teams : Map TeamConfig) (team_id : String)
    → AreStaffed agents teams
    → AreStaffed agents (Maps.remove teams team_id)
AreStaffed-remove agents teams team_id staffed id t found = elim (Bool-cases (team_id == id)) [
  | inl same ↦ absurd (let e = rw (get-remove teams team_id id, same) at found in cc)
  | inr other ↦ staffed id t (rw (get-remove teams team_id id, other) at found)
]

check_members-known :
    (agents : Map AgentConfig) (seen members : List String)
    → check_members agents seen members ≡ ok tt
    → (agent_id : String) → contains members agent_id ≡ true
    → Maps.contains_key agents agent_id ≡ true
unfolding check_members
check_members-known agents seen [] e agent_id member = cc
check_members-known agents seen (x ∷ members) e agent_id member =
    let unseen =
      bail_if (contains seen x) (format ("team.agents contains duplicate agent: " ∷ x ∷ [])) in
    let rest = check_members agents (x ∷ seen) members in
    let known =
      bail_if (not (Maps.contains_key agents x))
        (format ("team.agents contains unknown agent: " ∷ x ∷ [])) in
    let (e1, e2) = then-eq-ok known (unseen >> rest) e in
    let (_, e3) = then-eq-ok unseen rest e2 in
    elim (Bool-cases (x == agent_id)) [
      | inl same ↦
          subst (λ a. Maps.contains_key agents a ≡ true) ((eq_iff x agent_id).0 same)
            (not-eq-false (Maps.contains_key agents x) (bail_if-eq-ok _ _ e1))
      | inr other ↦ check_members-known agents (x ∷ seen) members e3 agent_id (rw other at member)
    ]

pub validate_team_config-IsStaffed :
    (agents : Map AgentConfig) (team : TeamConfig)
    → validate_team_config agents team ≡ ok tt
    → IsStaffed agents team
unfolding validate_team_config
validate_team_config-IsStaffed agents team e =
    let (e1, e2) =
      then-eq-ok (bail_first (team_tests agents team)) (check_members agents [] team.agents) e in
    let (_, (_, (_, (led, _)))) = bail_first-eq-ok (team_tests agents team) e1 in
    record {
      leader = not-eq-false (contains team.agents team.leader_agent) led;
      members = check_members-known agents [] team.agents e2;
    }

pub not-referring :
    (teams : Map TeamConfig) (agent_id : String)
    → is_some (referring_team teams agent_id) ≡ false
    → (team_id : String) (team : TeamConfig) → Maps.get teams team_id ≡ some team
    → contains team.agents agent_id ≡ false
unfolding referring_team Maps.get
not-referring [] agent_id none_refers team_id team found = cc
not-referring ((j, t) ∷ teams) agent_id none_refers team_id team found =
    let apart : contains t.agents agent_id ≡ false = ground (arith, none_refers) in
    let rest : is_some (referring_team teams agent_id) ≡ false = ground (arith, none_refers) in
    elim (Bool-cases (j == team_id)) [
      | inl same ↦
          let e : some t ≡ some team = rw same at found in
          subst (λ x. contains x.agents agent_id ≡ false) (ap (λ o. unwrap_or o t) e) apart
      | inr other ↦ not-referring teams agent_id rest team_id team (rw other at found)
    ]

-- A member more, which is configured.
IsStaffed-joined :
    (agents : Map AgentConfig) (team : TeamConfig) (agent_id : String)
    → Maps.contains_key agents agent_id ≡ true
    → IsStaffed agents team
    → IsStaffed agents (record team { agents = team.agents ++ agent_id ∷ [] })
IsStaffed-joined agents team agent_id known staffed = record {
  leader = rw (contains-append team.agents agent_id team.leader_agent, staffed.leader) refl;
  members = λ id member. elim (Bool-cases (contains team.agents id)) [
    | inl old ↦ staffed.members id old
    | inr new ↦
        let same : (agent_id == id) ≡ true =
          rw (contains-append team.agents agent_id id, new) at member in
        subst (λ a. Maps.contains_key agents a ≡ true) ((eq_iff agent_id id).0 same) known
  ];
}

pub add_agent_to_default_team-AreStaffed :
    (agent_id : String) (config : RuntimeConfig) (joined : RuntimeConfig × Option String)
    → Maps.contains_key config.agents agent_id ≡ true
    → AreStaffed config.agents config.teams
    → add_agent_to_default_team agent_id config ≡ ok joined
    → AreStaffed joined.0.agents joined.0.teams
unfolding add_agent_to_default_team
add_agent_to_default_team-AreStaffed agent_id config joined known staffed e =
    elim (Option-cases config.default_team) [
      | inl no_team ↦
          let same = ok_injective (rw no_team at e) in
          subst (λ j. AreStaffed j.0.agents j.0.teams) same staffed
      | inr (team_id, has_team) ↦ elim (Option-cases (Maps.get config.teams team_id)) [
        | inl missing ↦ absurd (let e' = rw (has_team, missing) at e in cc)
        | inr (team, found) ↦ elim (Bool-cases (contains team.agents agent_id)) [
          | inl member ↦
              let same = ok_injective (rw (has_team, found, member) at e) in
              subst (λ j. AreStaffed j.0.agents j.0.teams) same
                (AreStaffed-team config.agents config.teams team_id team staffed
                  (staffed team_id team found))
          | inr new ↦
              let same = ok_injective (rw (has_team, found, new) at e) in
              subst (λ j. AreStaffed j.0.agents j.0.teams) same
                (AreStaffed-team config.agents config.teams team_id
                  (record team { agents = team.agents ++ agent_id ∷ [] }) staffed
                  (IsStaffed-joined config.agents team agent_id known (staffed team_id team found)))
        ]
      ]
    ]
