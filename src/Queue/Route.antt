-- ===== src/Queue/Route.antt =====
-- crates/queue/src/lib.rs: which agent and which team a message goes to, in `process_claimed_file`.
use clawpod.Base.{
  String, Bool, false, not, ◌&&◌, Option, none, some, List, [], ◌∷◌, Map, ◌==◌, if◌then◌else◌,
  Result, ok, err, ◌>>=◌,
}
use clawpod.Base.Maps
use clawpod.Domain.Core.{AgentConfig, TeamConfig, BindingRule, InboundEvent, RouteDecision}
use clawpod.Extern.{TextLib}
use clawpod.Queue.{is_internal_channel}
use clawpod.Routing.{parse_agent_routing, find_team_for_agent}
use clawpod.Routing.Binding.{resolve_binding}

-- `default_agent_id`, with the table's first key.
unfoldable pub default_agent_id : Map AgentConfig → Result String
unfolding Maps.contains_key
default_agent_id [] = err "no agents configured"
default_agent_id ((id, agent) ∷ agents) =
    if Maps.contains_key ((id, agent) ∷ agents) "default" then ok "default" else ok id

module _ (agents : Map AgentConfig) (teams : Map TeamConfig) (bindings : List BindingRule)
    (event : InboundEvent) where
  -- The agent that the sender talked to before, if it is still configured.
  unfoldable pub sticky : Bool → Option String → String → String
  unfolding is_internal_channel Maps.contains_key
  sticky was_explicit_mention none agent_id = agent_id
  sticky was_explicit_mention (some affinity_agent) agent_id =
      if not was_explicit_mention
        && not (is_internal_channel event.channel)
        && Maps.contains_key agents affinity_agent
      then affinity_agent
      else agent_id

  unfoldable pub bound : String → String → String
  unfolding resolve_binding
  bound default_agent agent_id =
      if agent_id == "default" then resolve_binding event bindings default_agent else agent_id

  unfoldable pub forced : Option String → RouteDecision → RouteDecision
  unfolding Maps.contains_key
  forced none route = route
  forced (some agent_id) route =
      if Maps.contains_key agents agent_id
      then record route { agent_id = agent_id; is_team_routed = false; team_id = none }
      else route

  unfoldable pub or_fallback : String → String → String
  unfolding Maps.contains_key
  or_fallback default_agent agent_id =
      if Maps.contains_key agents agent_id then agent_id else default_agent

  -- The decision from the parsed message on, and whether an `@` mention made it.
  unfoldable pub routed : Option String → String → RouteDecision → RouteDecision
  unfolding sticky bound forced
  routed affinity default_agent route = forced event.pre_routed_agent (record route {
    agent_id =
        bound default_agent (sticky (not (route.agent_id == "default")) affinity route.agent_id);
  })

  unfoldable pub team_of : RouteDecision → String → Option String
  unfolding find_team_for_agent
  team_of route agent_id =
      if event.channel == "chatroom"
      then some event.peer_id
      else if route.is_team_routed
      then route.team_id
      else find_team_for_agent agent_id teams

-- What the routing stage settles: the agent, its team, and whether the sender's affinity is set.
pub record Routed : Type 0 where
  pub agent_id : String
  pub team_id : Option String
  pub sets_affinity : Bool

unfoldable pub settle :
    Map AgentConfig
    → Map TeamConfig
    → List BindingRule
    → InboundEvent
    → Option String
    → RouteDecision
    → String
    → Routed
unfolding routed or_fallback team_of is_internal_channel
settle agents teams bindings event affinity parsed default_agent =
    let route = routed agents teams bindings event affinity default_agent parsed in
    let agent_id = or_fallback agents teams bindings event default_agent route.agent_id in
    record {
      agent_id = agent_id;
      team_id = team_of agents teams bindings event route agent_id;
      sets_affinity = not (parsed.agent_id == "default") && not (is_internal_channel event.channel);
    }

-- The routing stage, on the text that the incoming hook left; a failed look-up of the affinity is
-- none.
unfoldable pub route_event :
    TextLib
    → Map AgentConfig
    → Map TeamConfig
    → List BindingRule
    → InboundEvent
    → String
    → Option String
    → Result Routed
unfolding default_agent_id parse_agent_routing settle
route_event lib agents teams bindings event hooked_text affinity = do
  default_agent ← default_agent_id agents
  ok (
      settle agents teams bindings event affinity (parse_agent_routing lib hooked_text agents teams)
        default_agent)
