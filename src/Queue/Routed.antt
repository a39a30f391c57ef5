-- ===== src/Queue/Routed.antt =====
-- crates/queue/src/lib.rs: the agent that a message is routed to.
use clawpod.Base.{
  String, Bool, true, false, not, Option, none, some, List, ◌∷◌, Map, ◌==◌, ok, ◌≡◌, refl,
  Bool-cases, inl, inr, eq_refl, ap, ◌∙◌,
}
use clawpod.Base.Maps
use clawpod.Domain.Core.{AgentConfig, TeamConfig, BindingRule, InboundEvent, RouteDecision}
use clawpod.Extern.{TextLib}
use clawpod.Queue.{is_internal_channel}
use clawpod.Queue.Route.{
  default_agent_id, sticky, bound, forced, or_fallback, routed, settle, route_event, Routed,
}
use clawpod.Routing.{parse_agent_routing}

default_agent_id_cases :
    (id : String) (agent : AgentConfig) (agents : Map AgentConfig)
    → (default : String) × (default_agent_id ((id, agent) ∷ agents) ≡ ok default)
      × (Maps.contains_key ((id, agent) ∷ agents) default ≡ true)
unfolding default_agent_id Maps.contains_key Maps.get
default_agent_id_cases id agent agents =
    elim (Bool-cases (Maps.contains_key ((id, agent) ∷ agents) "default")) [
      | inl has ↦ ("default", rw (default_agent_id, has) refl, has)
      | inr lacks ↦ (id, rw (default_agent_id, lacks) refl, rw (eq_refl id) refl)
    ]

module _ (agents : Map AgentConfig) (teams : Map TeamConfig) (bindings : List BindingRule)
    (event : InboundEvent) (affinity : Option String) (default : String) where
  fallback :
      Maps.contains_key agents default ≡ true
      → (wanted : String)
      → Maps.contains_key agents (or_fallback agents teams bindings event default wanted) ≡ true
  unfolding or_fallback
  fallback listed wanted = elim (Bool-cases (Maps.contains_key agents wanted)) [
    | inl has ↦ rw (or_fallback, has) has
    | inr lacks ↦ rw (or_fallback, lacks) listed
  ]

  forces :
      (f : String)
      → event.pre_routed_agent ≡ some f
      → Maps.contains_key agents f ≡ true
      → (route : RouteDecision)
      → or_fallback agents teams bindings event default
          (routed agents teams bindings event affinity default route).agent_id
        ≡ f
  unfolding routed forced or_fallback
  forces f e has route = rw (routed, e, forced, has, or_fallback, has) refl

  sticky-keeps :
      (mentioned : Bool) (o : Option String) (a id : String)
      → mentioned ≡ false
      → o ≡ some a
      → Maps.contains_key agents a ≡ true
      → is_internal_channel event.channel ≡ false
      → sticky agents teams bindings event mentioned o id ≡ a
  unfolding sticky
  sticky-keeps mentioned o a id silent e has out = rw (e, sticky, silent, out, has) refl

  bound-keeps :
      (id : String) → (id == "default") ≡ false → bound agents teams bindings event default id ≡ id
  unfolding bound
  bound-keeps id other = rw (bound, other) refl

  forced-none :
      (o : Option String) (route : RouteDecision)
      → o ≡ none
      → forced agents teams bindings event o route ≡ route
  unfolding forced
  forced-none o route free = rw free refl

  stays :
      (a : String)
      → event.pre_routed_agent ≡ none
      → affinity ≡ some a
      → Maps.contains_key agents a ≡ true
      → (a == "default") ≡ false
      → is_internal_channel event.channel ≡ false
      → (route : RouteDecision) → route.agent_id ≡ "default"
      → or_fallback agents teams bindings event default
          (routed agents teams bindings event affinity default route).agent_id
        ≡ a
  unfolding routed or_fallback
  stays a free e has other out route plain =
      let silent : not (route.agent_id == "default") ≡ false =
        ap (λ id. not (id == "default")) plain in
      let kept =
        sticky-keeps (not (route.agent_id == "default")) affinity a route.agent_id silent e has
          out in
      let same : (routed agents teams bindings event affinity default route).agent_id ≡ a =
        ap (λ r. r.agent_id) (forced-none event.pre_routed_agent _ free)
        ∙ ap (bound agents teams bindings event default) kept
        ∙ bound-keeps a other in
      ap (or_fallback agents teams bindings event default) same ∙ rw (or_fallback, has) refl

  sticky-mentioned :
      (o : Option String) (id : String) → sticky agents teams bindings event true o id ≡ id
  unfolding sticky
  sticky-mentioned none id = refl
  sticky-mentioned (some a) id = refl

  mentioned :
      (a : String)
      → event.pre_routed_agent ≡ none
      → Maps.contains_key agents a ≡ true
      → (a == "default") ≡ false
      → (route : RouteDecision) → route.agent_id ≡ a
      → or_fallback agents teams bindings event default
          (routed agents teams bindings event affinity default route).agent_id
        ≡ a
  unfolding routed or_fallback
  mentioned a free has other route is =
      let explicit : not (route.agent_id == "default") ≡ true =
        ap (λ id. not (id == "default")) is ∙ ap not other in
      let kept : sticky agents teams bindings event (not (route.agent_id == "default")) affinity
            route.agent_id
          ≡ a =
        ap (λ b. sticky agents teams bindings event b affinity route.agent_id) explicit
        ∙ sticky-mentioned affinity route.agent_id
        ∙ is in
      let same : (routed agents teams bindings event affinity default route).agent_id ≡ a =
        ap (λ r. r.agent_id) (forced-none event.pre_routed_agent _ free)
        ∙ ap (bound agents teams bindings event default) kept
        ∙ bound-keeps a other in
      ap (or_fallback agents teams bindings event default) same ∙ rw (or_fallback, has) refl

module _ (lib : TextLib) (id : String) (agent : AgentConfig) (more : Map AgentConfig)
    (teams : Map TeamConfig) (bindings : List BindingRule) (event : InboundEvent) (text : String)
    (affinity : Option String) where
  -- With at least one agent configured, routing succeeds whatever the message, the bindings, the
  -- sender's affinity and a forced agent say, and the agent it gives is configured. A forced agent
  -- that is configured gets the message. Without one, a message whose text is parsed to a configured
  -- agent other than "default" goes to that agent, whatever the affinity and the bindings say; and one
  -- whose text is parsed to "default", because it mentions nobody or because it mentions @default,
  -- goes on an external channel to the configured agent of the sender's affinity, unless that is
  -- "default" itself.
  pub route_event-IsConfigured :
      (r : Routed) × (route_event lib ((id, agent) ∷ more) teams bindings event text affinity
        ≡ ok r)
      × (Maps.contains_key ((id, agent) ∷ more) r.agent_id ≡ true)
      × ((f : String)
          → event.pre_routed_agent ≡ some f
          → Maps.contains_key ((id, agent) ∷ more) f ≡ true
          → r.agent_id ≡ f)
      × ((a : String)
          → event.pre_routed_agent ≡ none
          → affinity ≡ some a
          → Maps.contains_key ((id, agent) ∷ more) a ≡ true
          → (a == "default") ≡ false
          → is_internal_channel event.channel ≡ false
          → (parse_agent_routing lib text ((id, agent) ∷ more) teams).agent_id ≡ "default"
          → r.agent_id ≡ a)
      × ((a : String)
          → event.pre_routed_agent ≡ none
          → (parse_agent_routing lib text ((id, agent) ∷ more) teams).agent_id ≡ a
          → Maps.contains_key ((id, agent) ∷ more) a ≡ true
          → (a == "default") ≡ false
          → r.agent_id ≡ a)
  unfolding route_event settle
  route_event-IsConfigured =
      let (default, is, listed) = default_agent_id_cases id agent more in
      let parsed = parse_agent_routing lib text ((id, agent) ∷ more) teams in
      (
        settle ((id, agent) ∷ more) teams bindings event affinity parsed default,
        rw (route_event, is) refl,
        fallback ((id, agent) ∷ more) teams bindings event affinity default listed
            (routed ((id, agent) ∷ more) teams bindings event affinity default parsed).agent_id,
        λ f e has. forces ((id, agent) ∷ more) teams bindings event affinity default f e has parsed,
        λ a e e' has other out plain.
            stays ((id, agent) ∷ more) teams bindings event affinity default a e e' has other out
              parsed plain,
        λ a e is has other.
            mentioned ((id, agent) ∷ more) teams bindings event affinity default a e has other
              parsed is,
      )
