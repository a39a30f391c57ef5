-- ===== src/Routing.antt =====
-- crates/routing/src/lib.rs: which agent gets a message. `parse_agent_routing` and the tags of a
-- response are here, binding rules in Routing/Binding, teammate mentions in Routing/Mentions; the
-- children Prefix, Best, Tagged and Handoffs prove their laws, and Tests runs them.
pub mod Binding
pub mod Mentions
pub mod Prefix
pub mod Best
pub mod Tagged
pub mod Handoffs
mod Tests
use Prim.Native.Char.{Char, code}
use Prim.Native.String
use clawpod.Base.{
  ℕ, ◌+◌, String, Bool, true, false, ◌&&◌, Option, none, some, List, [], ◌∷◌, Map, ◌==◌, leb,
  nat_eq, if◌then◌else◌, unwrap_or, option_map, contains,
}
use clawpod.Base.Maps
use clawpod.Base.Text
use clawpod.Domain.Core.{AgentConfig, TeamConfig, RouteDecision, ChatroomPost}
use clawpod.Extern.{Captures, TextLib}

-- `u8::to_ascii_lowercase` on a code point.
abbrev to_ascii_lowercase : ℕ → ℕ
to_ascii_lowercase n = if leb b'A' n && leb n b'Z' then n + 32 else n

-- `str::eq_ignore_ascii_case`.
unfoldable pub eq_ignore_ascii_case : String → String → Bool
eq_ignore_ascii_case String.[] String.[] = true
eq_ignore_ascii_case (String.◌∷◌ c s) (String.◌∷◌ d t) =
    nat_eq (to_ascii_lowercase (code c)) (to_ascii_lowercase (code d)) && eq_ignore_ascii_case s t
eq_ignore_ascii_case _ _ = false

-- `for (id, agent) in agents { if agent.name.eq_ignore_ascii_case(&candidate) { .. } }`.
unfoldable pub agent_named : Map AgentConfig → String → Option String
agent_named [] candidate = none
agent_named ((id, agent) ∷ agents) candidate =
    let rest = agent_named agents candidate in
    if eq_ignore_ascii_case agent.name candidate then some id else rest

-- The same loop over the teams.
unfoldable pub team_named : Map TeamConfig → String → Option (String × TeamConfig)
team_named [] candidate = none
team_named ((id, team) ∷ teams) candidate =
    let rest = team_named teams candidate in
    if eq_ignore_ascii_case team.name candidate then some (id, team) else rest

abbrev pub to_agent : String → String → RouteDecision
to_agent id message = record {
  agent_id = id;
  message = message;
  is_team_routed = false;
  team_id = none;
}

abbrev pub to_team : String → TeamConfig → String → RouteDecision
to_team id team message = record {
  agent_id = team.leader_agent;
  message = message;
  is_team_routed = true;
  team_id = some id;
}

-- The four lookups of a candidate, in the order of the source; `none` where all of them fail.
unfoldable pub resolve_candidate :
    Map AgentConfig → Map TeamConfig → String → String → Option RouteDecision
unfolding Maps.contains_key
resolve_candidate agents teams candidate stripped =
    if Maps.contains_key agents candidate
    then some (to_agent candidate stripped)
    else elim (Maps.get teams candidate) [
      | some team ↦ some (to_team candidate team stripped)
      | none ↦ elim (agent_named agents candidate) [
        | some id ↦ some (to_agent id stripped)
        | none ↦ option_map (λ t. to_team t.0 t.1 stripped) (team_named teams candidate)
      ]
    ]

-- `find_team_for_agent`.
unfoldable pub find_team_for_agent : String → Map TeamConfig → Option String
find_team_for_agent agent_id [] = none
find_team_for_agent agent_id ((team_id, team) ∷ teams) =
    let rest = find_team_for_agent agent_id teams in
    if contains team.agents agent_id then some team_id else rest

module _ (lib : TextLib) where
  -- `parse_agent_routing`.
  unfoldable pub parse_agent_routing : String → Map AgentConfig → Map TeamConfig → RouteDecision
  parse_agent_routing raw_message agents teams =
      elim (lib.captures "^@(\\S+)\\s+([\\s\\S]*)$" raw_message) [
        | none ↦ to_agent "default" raw_message
        | some caps ↦
            unwrap_or
              (resolve_candidate agents teams
                (unwrap_or (option_map lib.to_lowercase caps.group_1) "")
                (unwrap_or caps.group_2 ""))
              (to_agent "default" raw_message)
      ]

  -- One round of the loop of `extract_chatroom_posts`; `none` is `continue`.
  unfoldable pub chatroom_post : String → Map TeamConfig → Captures → Option ChatroomPost
  unfolding Text.trim
  chatroom_post current_agent_id teams caps =
      let team_id = unwrap_or (option_map lib.to_lowercase caps.group_1) "" in
      let message = unwrap_or (option_map Text.trim caps.group_2) "" in
      if Text.is_empty message then none else elim (Maps.get teams team_id) [
        | none ↦ none
        | some team ↦
            if contains team.agents current_agent_id
            then some (record { team_id = team_id; message = message })
            else none
      ]

  unfoldable pub chatroom_posts : String → Map TeamConfig → List Captures → List ChatroomPost
  chatroom_posts current_agent_id teams [] = []
  chatroom_posts current_agent_id teams (caps ∷ more) =
      let rest = chatroom_posts current_agent_id teams more in
      elim (chatroom_post current_agent_id teams caps) [ none ↦ rest | some post ↦ post ∷ rest ]

  -- `extract_chatroom_posts`.
  unfoldable pub extract_chatroom_posts : String → String → Map TeamConfig → List ChatroomPost
  extract_chatroom_posts response current_agent_id teams =
      chatroom_posts current_agent_id teams
        (lib.captures_iter "\\[#(\\S+?):\\s*([\\s\\S]*?)\\]" response)

  -- `extract_route_to`.
  unfoldable pub extract_route_to : String → Option String
  extract_route_to response = elim (lib.captures "\\[route_to:\\s*(\\S+?)\\s*\\]" response) [
    | none ↦ none
    | some caps ↦ option_map lib.to_lowercase caps.group_1
  ]

  -- `strip_route_to_tags`.
  unfoldable pub strip_route_to_tags : String → String
  unfolding Text.trim
  strip_route_to_tags response =
      Text.trim (lib.erase_all "\\s*\\[route_to:\\s*\\S+?\\s*\\]" response)
