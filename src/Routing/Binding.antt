-- ===== src/Routing/Binding.antt =====
-- crates/routing/src/lib.rs: binding rules, and the rule with the best score.
use clawpod.Base.{
  ℕ, ◌+◌, String, Bool, ◌||◌, Option, none, some, List, [], ◌∷◌, ◌==◌, ltb, if◌then◌else◌,
  unwrap_or, option_map,
}
use clawpod.Base.Options.{◌>>=◌}
use clawpod.Domain.Core.{BindingRule, InboundEvent}

-- One `if let Some(v) = &rule.matcher.field { if <mismatch> { return None; } score += weight; }`.
unfoldable pub field_score : Option String → (String → Bool) → ℕ → Option ℕ
field_score none matches weight = some 0
field_score (some v) matches weight = if matches v then some weight else none

-- `binding_match_score`.
unfoldable pub binding_match_score : InboundEvent → BindingRule → Option ℕ
unfolding field_score
binding_match_score event rule = do
  channel ← field_score rule.matcher.channel (λ v. event.channel == v) 1
  account ←
      field_score rule.matcher.account_id
        (λ v. v == "*" || unwrap_or event.account_id "default" == v) 1
  peer ← field_score rule.matcher.peer_id (λ v. event.peer_id == v) 3
  group ← field_score rule.matcher.group_id (λ v. event.peer_id == v) 2
  thread ← field_score rule.matcher.thread_id (λ v. event.peer_id == v) 2
  some (channel + account + peer + group + thread)

-- The `match best` of the loop: the new rule replaces the best one only with a higher score.
unfoldable pub keep_better : Option (ℕ × BindingRule) → ℕ → BindingRule → Option (ℕ × BindingRule)
keep_better none score rule = some (score, rule)
keep_better (some (best_score, best)) score rule =
    if ltb best_score score then some (score, rule) else some (best_score, best)

unfoldable pub best_rule :
    InboundEvent → Option (ℕ × BindingRule) → List BindingRule → Option (ℕ × BindingRule)
best_rule event best [] = best
best_rule event best (rule ∷ rules) =
    best_rule event
      (elim (binding_match_score event rule) [
        | none ↦ best
        | some score ↦ keep_better best score rule
      ])
      rules

-- `resolve_binding`.
unfoldable pub resolve_binding : InboundEvent → List BindingRule → String → String
resolve_binding event bindings default_agent =
    unwrap_or (option_map (λ b. b.1.agent_id) (best_rule event none bindings)) default_agent
