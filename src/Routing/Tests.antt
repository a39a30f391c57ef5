-- ===== src/Routing/Tests.antt =====
-- Routing at concrete inputs.
use clawpod.Base.{ℕ, String, Option, none, some, List, [], ◌∷◌, ◌≡◌, refl, ◌⊎◌, All}
use clawpod.Base.Maps
use clawpod.Domain.Core.{BindingRule}
use clawpod.Routing.{parse_agent_routing, to_team, resolve_candidate}
use clawpod.Routing.Binding.{binding_match_score, keep_better, best_rule, resolve_binding}
use clawpod.Routing.Mentions.{
  is_valid_teammate, tagged_handoffs, team_mentions, extract_teammate_mentions,
}
use clawpod.Routing.Best.{IsBest, resolve_binding-IsBest}
use clawpod.Routing.Prefix.{IsRouted, parse_agent_routing-IsRouted}
use clawpod.Routing.Handoffs.{extract_teammate_mentions-IsHandoffTarget}
use clawpod.Routing.Tagged.{IsHandoffTarget, ids}
use clawpod.Samples.{agents, dev, teams, sample_lib, hello}

abbrev rule_for : String → Option String → Option String → BindingRule
rule_for agent channel peer = record {
  agent_id = agent;
  matcher = record {
    channel = channel;
    account_id = none;
    peer_id = peer;
    group_id = none;
    thread_id = none;
  };
}

abbrev rules : List BindingRule
rules =
    rule_for "a" (some "telegram") none
    ∷ rule_for "b" none (some "alice_1")
    ∷ rule_for "c" none (some "alice_1")
    ∷ []

first_best : resolve_binding hello rules "default" ≡ "b"
unfolding resolve_binding best_rule keep_better binding_match_score
first_best = refl

resolve_binding-IsBest_example :
    All (λ r. binding_match_score hello r ≡ none) rules
      × (resolve_binding hello rules "default" ≡ "default")
    ⊎ ((s : ℕ) × (rule : BindingRule) × IsBest hello rules s rule
        × (resolve_binding hello rules "default" ≡ rule.agent_id))
resolve_binding-IsBest_example = resolve_binding-IsBest hello rules "default"

to_the_team : parse_agent_routing sample_lib "@dev hello" agents teams ≡ to_team "dev" dev "hello"
unfolding parse_agent_routing resolve_candidate Maps.get
to_the_team = refl

parse_agent_routing-IsRouted_example :
    IsRouted sample_lib "@dev hello" agents teams
      (parse_agent_routing sample_lib "@dev hello" agents teams)
parse_agent_routing-IsRouted_example =
    parse_agent_routing-IsRouted sample_lib "@dev hello" agents teams

dev_found : Maps.get teams "dev" ≡ some dev
unfolding Maps.get
dev_found = refl

abbrev response : String
response = "[@reviewer: look] [@reviewer: again]"

-- The second tag for the same teammate is dropped.
one_handoff :
    extract_teammate_mentions sample_lib response "default" none "dev" teams agents
    ≡ record { teammate_id = "reviewer"; message = "look" } ∷ []
unfolding extract_teammate_mentions team_mentions tagged_handoffs is_valid_teammate Maps.get
one_handoff = refl

extract_teammate_mentions-IsHandoffTarget_example :
    All
      (IsHandoffTarget "default" none dev agents)
      (ids (extract_teammate_mentions sample_lib response "default" none "dev" teams agents))
extract_teammate_mentions-IsHandoffTarget_example =
    extract_teammate_mentions-IsHandoffTarget sample_lib response "default" none "dev" dev teams
      agents dev_found
