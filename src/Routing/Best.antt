-- ===== src/Routing/Best.antt =====
-- crates/routing/src/lib.rs: `resolve_binding` picks the first of the rules with the best score.
use mathlib.Core.List.{append_assoc, append-nil}
use clawpod.Base.{
  ℕ, ◌≤◌, ◌<◌, String, Option, none, some, List, [], ◌∷◌, ◌++◌, ◌≡◌, refl, ap, ◌∙◌, ◌⊎◌, inl, inr,
  All, All-append, Option-cases, Bool-cases, ltb, arith,
}
use clawpod.Domain.Core.{BindingRule, InboundEvent}
use clawpod.Routing.Binding.{binding_match_score, keep_better, best_rule, resolve_binding}

-- How a rule's score compares with `s`; a rule that does not match has none.
abbrev pub IsBelow : ℕ → Option ℕ → Type 0
IsBelow s none = Unit
IsBelow s (some t) = t < s

abbrev pub IsAtMost : ℕ → Option ℕ → Type 0
IsAtMost s none = Unit
IsAtMost s (some t) = t ≤ s

module _ (event : InboundEvent) where
  -- The rule stands in the list, what precedes it scores less, what follows it no more.
  pub record IsBest (rules : List BindingRule) (s : ℕ) (rule : BindingRule) : Type 0 where
    pub before : List BindingRule
    pub after : List BindingRule
    pub position : rules ≡ before ++ rule ∷ after
    pub score : binding_match_score event rule ≡ some s
    pub ahead : All (λ r. IsBelow s (binding_match_score event r)) before
    pub behind : All (λ r. IsAtMost s (binding_match_score event r)) after

  abbrev Chosen : List BindingRule → Option (ℕ × BindingRule) → Type 0
  Chosen rules none = All (λ r. binding_match_score event r ≡ none) rules
  Chosen rules (some (s, rule)) = IsBest rules s rule

  All-IsBelow :
      (s : ℕ) (rules : List BindingRule)
      → All (λ r. binding_match_score event r ≡ none) rules
      → All (λ r. IsBelow s (binding_match_score event r)) rules
  All-IsBelow s [] h = tt
  All-IsBelow s (r ∷ rules) (e, h) = (rw e tt, All-IsBelow s rules h)

  All-IsBelow_mono :
      (s t : ℕ) (rules : List BindingRule)
      → s < t
      → All (λ r. IsAtMost s (binding_match_score event r)) rules
      → All (λ r. IsBelow t (binding_match_score event r)) rules
  All-IsBelow_mono s t [] lt h = tt
  All-IsBelow_mono s t (r ∷ rules) lt (e, h) =
      (go (binding_match_score event r) e, All-IsBelow_mono s t rules lt h)
    where
      go : (o : Option ℕ) → IsAtMost s o → IsBelow t o
      go none _ = tt
      go (some k) le = omega arith

  All-IsAtMost_of_below :
      (s : ℕ) (rules : List BindingRule)
      → All (λ r. IsBelow s (binding_match_score event r)) rules
      → All (λ r. IsAtMost s (binding_match_score event r)) rules
  All-IsAtMost_of_below s [] h = tt
  All-IsAtMost_of_below s (r ∷ rules) (e, h) =
      (go (binding_match_score event r) e, All-IsAtMost_of_below s rules h)
    where
      go : (o : Option ℕ) → IsBelow s o → IsAtMost s o
      go none _ = tt
      go (some k) lt = omega arith

  -- A rule that is not better goes behind the best one.
  IsBest-keep :
      (rules : List BindingRule) (s : ℕ) (rule next : BindingRule)
      → IsBest rules s rule
      → IsAtMost s (binding_match_score event next)
      → IsBest (rules ++ next ∷ []) s rule
  IsBest-keep rules s rule next b le = record {
    before = b.before;
    after = b.after ++ next ∷ [];
    position =
        ap (λ l. l ++ next ∷ []) b.position ∙ append_assoc b.before (rule ∷ b.after) (next ∷ []);
    score = b.score;
    ahead = b.ahead;
    behind = All-append _ b.after (next ∷ []) b.behind (le, tt);
  }

  IsBest-replace :
      (rules : List BindingRule) (s t : ℕ) (rule next : BindingRule)
      → IsBest rules s rule
      → binding_match_score event next ≡ some t
      → s < t
      → IsBest (rules ++ next ∷ []) t next
  IsBest-replace rules s t rule next b e lt = record {
    before = rules;
    after = [];
    position = refl;
    score = e;
    ahead = rw b.position (
        All-append _ b.before (rule ∷ b.after)
          (All-IsBelow_mono s t b.before lt (All-IsAtMost_of_below s b.before b.ahead))
          (rw b.score lt, All-IsBelow_mono s t b.after lt b.behind));
    behind = tt;
  }

  Chosen-step :
      (rules : List BindingRule) (best : Option (ℕ × BindingRule)) (next : BindingRule) (t : ℕ)
      → Chosen rules best
      → binding_match_score event next ≡ some t
      → Chosen (rules ++ next ∷ []) (keep_better best t next)
  unfolding keep_better
  Chosen-step rules none next t h e = record {
    before = rules;
    after = [];
    position = refl;
    score = e;
    ahead = All-IsBelow t rules h;
    behind = tt;
  }
  Chosen-step rules (some (s, rule)) next t h e = elim (Bool-cases (ltb s t)) [
    | inl better ↦ rw better (IsBest-replace rules s t rule next h e (ground arith))
    | inr worse ↦
        let le : t ≤ s = ground arith in rw worse (IsBest-keep rules s rule next h (rw e le))
  ]

  Chosen-skip :
      (rules : List BindingRule) (best : Option (ℕ × BindingRule)) (next : BindingRule)
      → Chosen rules best
      → binding_match_score event next ≡ none
      → Chosen (rules ++ next ∷ []) best
  Chosen-skip rules none next h e = All-append _ rules (next ∷ []) h (e, tt)
  Chosen-skip rules (some (s, rule)) next h e = IsBest-keep rules s rule next h (rw e tt)

  best_rule-Chosen :
      (rules : List BindingRule) (best : Option (ℕ × BindingRule)) (more : List BindingRule)
      → Chosen rules best
      → Chosen (rules ++ more) (best_rule event best more)
  unfolding best_rule
  best_rule-Chosen rules best [] h = rw append-nil h
  best_rule-Chosen rules best (next ∷ more) h =
      rw (← append_assoc rules (next ∷ []) more)
        (elim (Option-cases (binding_match_score event next)) [
          | inl e ↦
              rw e
                (best_rule-Chosen (rules ++ next ∷ []) best more (Chosen-skip rules best next h e))
          | inr (t, e) ↦ rw e (
              best_rule-Chosen (rules ++ next ∷ []) (keep_better best t next) more
                (Chosen-step rules best next t h e))
        ])

-- Either no rule matches the event and the default agent is taken, or the agent is that of the first
-- among the matching rules with the highest score.
pub resolve_binding-IsBest :
    (event : InboundEvent) (bindings : List BindingRule) (default_agent : String)
    → (All (λ r. binding_match_score event r ≡ none) bindings
        × (resolve_binding event bindings default_agent ≡ default_agent))
      ⊎ ((s : ℕ) × (rule : BindingRule) × IsBest event bindings s rule
          × (resolve_binding event bindings default_agent ≡ rule.agent_id))
unfolding resolve_binding
resolve_binding-IsBest event bindings default_agent =
    go (best_rule event none bindings) refl (best_rule-Chosen event [] none bindings tt)
  where
    go :
        (o : Option (ℕ × BindingRule))
        → best_rule event none bindings ≡ o
        → Chosen event bindings o
        → (All (λ r. binding_match_score event r ≡ none) bindings
            × (resolve_binding event bindings default_agent ≡ default_agent))
          ⊎ ((s : ℕ) × (rule : BindingRule) × IsBest event bindings s rule
              × (resolve_binding event bindings default_agent ≡ rule.agent_id))
    go none e h = inl (h, rw e)
    go (some (s, rule)) e h = inr (s, rule, h, rw e)
