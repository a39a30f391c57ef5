-- ===== src/Routing/Prefix.antt =====
-- crates/routing/src/lib.rs: where a message with an `@name` prefix goes, and which posts a response
-- may make.
use mathlib.Core.List.{Memᴰ}
use clawpod.Base.{
  String, true, false, Option, none, some, List, [], ◌∷◌, Map, ◌≡◌, refl, ◌⊎◌, inl, inr, All,
  Bool-cases, Option-cases, contains, unwrap_or, option_map, arith,
}
use clawpod.Base.Maps
use clawpod.Base.Text
use clawpod.Domain.Core.{AgentConfig, TeamConfig, RouteDecision, ChatroomPost}
use clawpod.Extern.{Captures, TextLib}
use clawpod.Routing.Mentions.{mentioned}
use clawpod.Routing.{
  eq_ignore_ascii_case, agent_named, team_named, to_agent, to_team, resolve_candidate,
  parse_agent_routing, find_team_for_agent, chatroom_post, chatroom_posts, extract_chatroom_posts,
}

-- An entry of the agents that goes by the name: its key, or its display name up to ASCII case.
abbrev pub IsCalledAgent : String → String → AgentConfig → Type 0
IsCalledAgent candidate id agent =
    (id ≡ candidate) ⊎ (eq_ignore_ascii_case agent.name candidate ≡ true)

abbrev pub IsCalledTeam : String → String → TeamConfig → Type 0
IsCalledTeam candidate id team =
    (id ≡ candidate) ⊎ (eq_ignore_ascii_case team.name candidate ≡ true)

-- Nothing in the configuration goes by the name.
pub record IsUnknown (agents : Map AgentConfig) (teams : Map TeamConfig) (candidate : String)
    : Type 0 where
  pub no_agent : Maps.Lacks agents candidate
  pub no_team : Maps.Lacks teams candidate
  pub no_agent_name : All (λ e. eq_ignore_ascii_case e.1.name candidate ≡ false) agents
  pub no_team_name : All (λ e. eq_ignore_ascii_case e.1.name candidate ≡ false) teams

agent_named-cases :
    (agents : Map AgentConfig) (candidate : String)
    → ((agent_named agents candidate ≡ none)
        × All (λ e. eq_ignore_ascii_case e.1.name candidate ≡ false) agents)
      ⊎ ((id : String) × (agent : AgentConfig) × (agent_named agents candidate ≡ some id)
          × Memᴰ (id, agent) agents
          × (eq_ignore_ascii_case agent.name candidate ≡ true))
unfolding agent_named
agent_named-cases [] candidate = inl (refl, tt)
agent_named-cases ((id, agent) ∷ agents) candidate =
    elim (Bool-cases (eq_ignore_ascii_case agent.name candidate)) [
      | inl called ↦ inr (id, agent, rw called, Memᴰ.head refl, called)
      | inr other ↦ elim (agent_named-cases agents candidate) [
        | inl (missed, h) ↦ inl (rw other missed, (other, h))
        | inr (i, a, found, listed, called) ↦ inr (i, a, rw other found, Memᴰ.tail listed, called)
      ]
    ]

team_named-cases :
    (teams : Map TeamConfig) (candidate : String)
    → ((team_named teams candidate ≡ none)
        × All (λ e. eq_ignore_ascii_case e.1.name candidate ≡ false) teams)
      ⊎ ((id : String) × (team : TeamConfig) × (team_named teams candidate ≡ some (id, team))
          × Memᴰ (id, team) teams
          × (eq_ignore_ascii_case team.name candidate ≡ true))
unfolding team_named
team_named-cases [] candidate = inl (refl, tt)
team_named-cases ((id, team) ∷ teams) candidate =
    elim (Bool-cases (eq_ignore_ascii_case team.name candidate)) [
      | inl called ↦ inr (id, team, rw called, Memᴰ.head refl, called)
      | inr other ↦ elim (team_named-cases teams candidate) [
        | inl (missed, h) ↦ inl (rw other missed, (other, h))
        | inr (i, t, found, listed, called) ↦ inr (i, t, rw other found, Memᴰ.tail listed, called)
      ]
    ]

-- What a candidate resolves to.
pub data IsResolved (agents : Map AgentConfig) (teams : Map TeamConfig)
    (candidate stripped : String) : Option RouteDecision → Type 0 where
  to_one :
      (id : String) (agent : AgentConfig)
      → Memᴰ (id, agent) agents
      → IsCalledAgent candidate id agent
      → IsResolved agents teams candidate stripped (some (to_agent id stripped))
  to_many :
      (id : String) (team : TeamConfig)
      → Memᴰ (id, team) teams
      → IsCalledTeam candidate id team
      → IsResolved agents teams candidate stripped (some (to_team id team stripped))
  to_none : IsUnknown agents teams candidate → IsResolved agents teams candidate stripped none

resolve_candidate-IsResolved :
    (agents : Map AgentConfig) (teams : Map TeamConfig) (candidate stripped : String)
    → IsResolved agents teams candidate stripped (resolve_candidate agents teams candidate stripped)
unfolding resolve_candidate
resolve_candidate-IsResolved agents teams candidate stripped =
    elim (Option-cases (Maps.get agents candidate)) [
      | inr (agent, found) ↦
          rw found (to_one candidate agent (Maps.get-Mem agents candidate agent found) (inl refl))
      | inl missing ↦ elim (Option-cases (Maps.get teams candidate)) [
        | inr (team, found) ↦
            rw (missing, found)
              (to_many candidate team (Maps.get-Mem teams candidate team found) (inl refl))
        | inl teamless ↦ elim (agent_named-cases agents candidate) [
          | inr (id, agent, found, listed, called) ↦
              rw (missing, teamless, found) (to_one id agent listed (inr called))
          | inl (nameless, no_agent) ↦ elim (team_named-cases teams candidate) [
            | inr (id, team, found, listed, called) ↦
                rw (missing, teamless, nameless, found) (to_many id team listed (inr called))
            | inl (lost, no_team) ↦
                rw (missing, teamless, nameless, lost)
                  (to_none (record {
                    no_agent = (Maps.get-eq-none_iff agents candidate).0 missing;
                    no_team = (Maps.get-eq-none_iff teams candidate).0 teamless;
                    no_agent_name = no_agent;
                    no_team_name = no_team;
                  }))
          ]
        ]
      ]
    ]

module _ (lib : TextLib) (raw : String) (agents : Map AgentConfig) (teams : Map TeamConfig) where
  abbrev pub prefix : Option Captures
  prefix = lib.captures "^@(\\S+)\\s+([\\s\\S]*)$" raw

  abbrev pub candidate : Captures → String
  candidate caps = unwrap_or (option_map lib.to_lowercase caps.group_1) ""

  abbrev pub stripped : Captures → String
  stripped caps = unwrap_or caps.group_2 ""

  -- Where a message goes, and why.
  pub data IsRouted (d : RouteDecision) : Type 0 where
    unprefixed : prefix ≡ none → d ≡ to_agent "default" raw → IsRouted d
    unknown :
        (caps : Captures)
        → prefix ≡ some caps
        → IsUnknown agents teams (candidate caps)
        → d ≡ to_agent "default" raw
        → IsRouted d
    addressed :
        (caps : Captures) (id : String) (agent : AgentConfig)
        → prefix ≡ some caps
        → Memᴰ (id, agent) agents
        → IsCalledAgent (candidate caps) id agent
        → d ≡ to_agent id (stripped caps)
        → IsRouted d
    addressed_team :
        (caps : Captures) (id : String) (team : TeamConfig)
        → prefix ≡ some caps
        → Memᴰ (id, team) teams
        → IsCalledTeam (candidate caps) id team
        → d ≡ to_team id team (stripped caps)
        → IsRouted d

-- A message with no `@name` prefix, or with the name of nothing that is configured, goes unchanged to
-- the agent "default"; any other goes without its prefix to a configured agent that has the name as
-- its id or display name, or to the leader of such a team.
pub parse_agent_routing-IsRouted :
    (lib : TextLib) (raw : String) (agents : Map AgentConfig) (teams : Map TeamConfig)
    → IsRouted lib raw agents teams (parse_agent_routing lib raw agents teams)
unfolding parse_agent_routing
parse_agent_routing-IsRouted lib raw agents teams =
    elim (Option-cases (prefix lib raw agents teams)) [
      | inl e ↦ unprefixed e (rw (e, parse_agent_routing))
      | inr (caps, e) ↦
          rw (e, parse_agent_routing) (go caps e _ (resolve_candidate-IsResolved agents teams _ _))
    ]
  where
    go :
        (caps : Captures)
        → prefix lib raw agents teams ≡ some caps
        → (o : Option RouteDecision)
        → IsResolved agents teams
            (candidate lib raw agents teams caps)
            (stripped lib raw agents teams caps)
            o
        → IsRouted lib raw agents teams (unwrap_or o (to_agent "default" raw))
    go caps e _ (to_none h) = unknown caps e h refl
    go caps e _ (to_one id agent listed called) = addressed caps id agent e listed called refl
    go caps e _ (to_many id team listed called) = addressed_team caps id team e listed called refl

-- The team found for an agent is listed and has the agent as a member; none is found only when no
-- team has it.
pub find_team_for_agent-cases :
    (agent_id : String) (teams : Map TeamConfig)
    → ((find_team_for_agent agent_id teams ≡ none)
        × All (λ e. contains e.1.agents agent_id ≡ false) teams)
      ⊎ ((id : String) × (team : TeamConfig) × (find_team_for_agent agent_id teams ≡ some id)
          × Memᴰ (id, team) teams
          × (contains team.agents agent_id ≡ true))
unfolding find_team_for_agent
find_team_for_agent-cases agent_id [] = inl (refl, tt)
find_team_for_agent-cases agent_id ((id, team) ∷ teams) =
    elim (Bool-cases (contains team.agents agent_id)) [
      | inl member ↦ inr (id, team, rw member, Memᴰ.head refl, member)
      | inr other ↦ elim (find_team_for_agent-cases agent_id teams) [
        | inl (missed, h) ↦ inl (rw other missed, (other, h))
        | inr (i, t, found, listed, member) ↦ inr (i, t, rw other found, Memᴰ.tail listed, member)
      ]
    ]

-- A post that an agent may make: not blank, to a team that has the agent as a member.
pub record IsAllowedPost (agent : String) (teams : Map TeamConfig) (post : ChatroomPost)
    : Type 0 where
  pub team : TeamConfig
  pub listed : Memᴰ (post.team_id, team) teams
  pub member : contains team.agents agent ≡ true
  pub spoken : Text.is_empty post.message ≡ false

chatroom_post-IsAllowedPost :
    (lib : TextLib) (agent : String) (teams : Map TeamConfig) (caps : Captures)
    (post : ChatroomPost)
    → chatroom_post lib agent teams caps ≡ some post
    → IsAllowedPost agent teams post
unfolding chatroom_post
chatroom_post-IsAllowedPost lib agent teams caps post e =
    elim (Option-cases (Maps.get teams (mentioned lib caps))) [
      | inl missing ↦ absurd (ground arith)
      | inr (team, found) ↦
          let same : post.team_id ≡ mentioned lib caps = ground arith in
          record {
            team = team;
            listed = rw same (Maps.get-Mem teams _ team found);
            member = ground arith;
            spoken = ground arith;
          }
    ]

chatroom_posts-IsAllowedPost :
    (lib : TextLib) (agent : String) (teams : Map TeamConfig) (tags : List Captures)
    → All (IsAllowedPost agent teams) (chatroom_posts lib agent teams tags)
unfolding chatroom_posts
chatroom_posts-IsAllowedPost lib agent teams [] = tt
chatroom_posts-IsAllowedPost lib agent teams (caps ∷ more) =
    elim (Option-cases (chatroom_post lib agent teams caps)) [
      | inl skip ↦ rw (skip, All) (chatroom_posts-IsAllowedPost lib agent teams more)
      | inr (post, e) ↦
          rw (e, All)
            (
              chatroom_post-IsAllowedPost lib agent teams caps post e,
              chatroom_posts-IsAllowedPost lib agent teams more,
            )
    ]

-- An agent posts only to the rooms of teams that it belongs to, and no blank message.
pub extract_chatroom_posts-IsAllowedPost :
    (lib : TextLib) (response agent : String) (teams : Map TeamConfig)
    → All (IsAllowedPost agent teams) (extract_chatroom_posts lib response agent teams)
unfolding extract_chatroom_posts
extract_chatroom_posts-IsAllowedPost lib response agent teams =
    chatroom_posts-IsAllowedPost lib agent teams _
