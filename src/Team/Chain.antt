-- ===== src/Team/Chain.antt =====
-- crates/team/src/lib.rs: what the steps of a finished chain look like.
use mathlib.Core.List.{append_assoc, append-nil}
use mathlib.Core.Path.{subst}
use clawpod.Base.{
  ℕ, zero, suc, ◌+◌, ◌≤◌, ◌<◌, String, Bool, true, Option, none, some, List, [], ◌∷◌, ◌++◌, ◌≡◌,
  refl, sym, ap, ◌∙◌, ◌⊎◌, inl, inr, All, Bool-cases, Option-cases, length, get_last?,
  get_last?-concat, contains, unwrap_or, option_map, ok, ◌>>=◌, Result-cases, ok_injective, arith,
}
use clawpod.Base.Maps
use clawpod.Domain.Core.{TeamConfig, MentionHandoff, ChainStep, ChainResult, ChainState}
use clawpod.Extern.{TextLib}
use clawpod.Routing.Handoffs.{
  extract_teammate_mentions-IsHandoffTarget, extract_teammate_mentions-Distinct,
}
use clawpod.Routing.Tagged.{IsHandoffTarget, Distinct, ids}
use clawpod.Team.{
  World, TeamExecutionInput, from_teammate, fan_out_step, join_all, aggregate, after_response,
  call_agent, handoffs_of, step_of, chain_loop, execute_team_chain,
}

module _ (input : TeamExecutionInput) (team : TeamConfig) where
  -- The steps that a chain may take within a number of rounds, from an agent that heard from
  -- another: it ends when an agent hands over to nobody, fans out to two or more teammates, or runs
  -- out of rounds; else it goes on with the one teammate handed to.
  pub data IsChain : ℕ → Option String → String → List ChainStep → ChainState → Type 0 where
    exhausted :
        {prev : Option String} {current : String}
        → IsChain zero prev current [] ChainState.max_steps_reached
    answered :
        {k : ℕ} {prev : Option String} {current : String} {step : ChainStep}
        → step.agent_id ≡ current
        → step.handoffs ≡ []
        → IsChain (suc k) prev current (step ∷ []) ChainState.succeeded
    handed :
        {k : ℕ} {prev : Option String} {current : String} {step : ChainStep} {rest : List ChainStep}
        {state : ChainState} (mention : MentionHandoff)
        → step.agent_id ≡ current
        → step.handoffs ≡ mention ∷ []
        → IsHandoffTarget current prev team input.agents mention.teammate_id
        → IsChain k (some current) mention.teammate_id rest state
        → IsChain (suc k) prev current (step ∷ rest) state
    fanned :
        {k : ℕ} {prev : Option String} {current : String} {step : ChainStep} (text : String)
        → step.agent_id ≡ current
        → 1 < length step.handoffs
        → All (IsHandoffTarget current prev team input.agents) (ids step.handoffs)
        → Distinct (ids step.handoffs)
        → IsChain (suc k) prev current (step ∷ fan_out_step text ∷ []) ChainState.succeeded

  -- The result of a loop that started with some steps already taken.
  record Extends (rounds : ℕ) (prev : Option String) (current : String) (steps : List ChainStep)
      (r : ChainResult) : Type 0 where
    taken : List ChainStep
    split : r.steps ≡ steps ++ taken
    chain : IsChain rounds prev current taken r.state
    answer :
        r.final_text
        ≡ unwrap_or (option_map (λ s. s.output) (get_last? r.steps)) "chain ended without output"

module _ (lib : TextLib) (world : World) (input : TeamExecutionInput) (team : TeamConfig)
    (found : Maps.get input.teams input.team_id ≡ some team) where
  abbrev Continues : ℕ → Type 0
  Continues rounds =
      (n : ℕ) (current message : String) (continue : Bool) (prev : Option String)
      (steps : List ChainStep) (r : ChainResult)
      → chain_loop lib world input rounds n current message continue prev steps ≡ ok r
      → Extends input team rounds prev current steps r

  module _ (current : String) (prev : Option String) (response : String)
      (handoffs : List MentionHandoff)
      (h : handoffs_of lib world input response current prev ≡ handoffs) where
    pub handoffs-IsHandoffTarget :
        All (IsHandoffTarget current prev team input.agents) (ids handoffs)
    handoffs-IsHandoffTarget =
        subst (λ l. All (IsHandoffTarget current prev team input.agents) (ids l)) h
          (extract_teammate_mentions-IsHandoffTarget lib response current prev input.team_id team
            input.teams input.agents found)

    handoffs-Distinct : Distinct (ids handoffs)
    handoffs-Distinct =
        subst (λ l. Distinct (ids l)) h
          (extract_teammate_mentions-Distinct lib response current prev input.team_id team
            input.teams input.agents found)

  -- The round that follows a response, by the handoffs in it.
  Extends-round :
      (rounds : ℕ)
      → Continues rounds
      → (n : ℕ) (current message : String) (prev : Option String) (steps : List ChainStep)
        (response : String) (handoffs : List MentionHandoff)
      → handoffs_of lib world input response current prev ≡ handoffs
      → (r : ChainResult)
      → after_response lib world input
          (λ agent text done.
            chain_loop lib world input rounds (suc n) agent text true (some current) done)
          n
          current
          response
          (steps ++ step_of lib world input response current message prev ∷ [])
          handoffs
        ≡ ok r
      → Extends input team (suc rounds) prev current steps r
  unfolding after_response
  Extends-round rounds ih n current message prev steps response [] h r e =
      subst (Extends input team (suc rounds) prev current steps) (ok_injective e) (record {
        taken = step_of lib world input response current message prev ∷ [];
        split = refl;
        chain = answered refl h;
        answer = rw get_last?-concat;
      })
  Extends-round rounds ih n current message prev steps response (mention ∷ []) h r e =
      let later =
        ih (suc n) mention.teammate_id (from_teammate current mention.message) true (some current) _
          r e in
      record {
        taken = step_of lib world input response current message prev ∷ later.taken;
        split =
            later.split
            ∙ append_assoc steps (step_of lib world input response current message prev ∷ [])
                later.taken;
        chain =
            handed mention refl h
              (handoffs-IsHandoffTarget current prev response (mention ∷ []) h).0 later.chain;
        answer = later.answer;
      }
  Extends-round rounds ih n current message prev steps response (first ∷ second ∷ others) h r e =
      elim (Result-cases (join_all lib world input (suc n) current (first ∷ second ∷ others))) [
        | inl (results, joined) ↦
            subst (Extends input team (suc rounds) prev current steps)
              (ok_injective (rw (joined, ◌>>=◌) at e))
              (record {
                taken =
                    step_of lib world input response current message prev
                    ∷ fan_out_step (aggregate results)
                    ∷ [];
                split = append_assoc steps _ _;
                chain =
                    fanned (aggregate results) refl (rw h (omega arith))
                      (rw h (handoffs-IsHandoffTarget current prev response _ h))
                      (rw h (handoffs-Distinct current prev response _ h));
                answer = rw get_last?-concat;
              })
        | inr (s, inl failed) ↦ absurd (let e' = rw (failed, ◌>>=◌) at e in cc)
        | inr (s, inr failed) ↦ absurd (let e' = rw (failed, ◌>>=◌) at e in cc)
      ]

  chain_loop-Extends : (rounds : ℕ) → Continues rounds
  unfolding chain_loop
  chain_loop-Extends zero n current message continue prev steps r e =
      subst (Extends input team zero prev current steps) (ok_injective e)
        (record { taken = []; split = sym (append-nil steps); chain = exhausted; answer = refl })
  chain_loop-Extends (suc rounds) n current message continue prev steps r e =
      elim (Result-cases (call_agent lib world input n current message continue)) [
        | inl (response, called) ↦
            Extends-round rounds (chain_loop-Extends rounds) n current message prev steps response _
              refl r (rw (called, ◌>>=◌) at e)
        | inr (s, inl failed) ↦ absurd (let e' = rw (failed, ◌>>=◌) at e in cc)
        | inr (s, inr failed) ↦ absurd (let e' = rw (failed, ◌>>=◌) at e in cc)
      ]

IsChain-length :
    {input : TeamExecutionInput} {team : TeamConfig} {k : ℕ} {prev : Option String}
    {current : String} {steps : List ChainStep} {state : ChainState}
    → IsChain input team k prev current steps state
    → ((state ≡ ChainState.max_steps_reached) × (length steps ≡ k))
      ⊎ ((state ≡ ChainState.succeeded) × (0 < length steps) × (length steps ≤ k + 1))
IsChain-length exhausted = inl (refl, refl)
IsChain-length (answered a h) = inr (refl, omega arith, omega arith)
IsChain-length (fanned text a l m d) = inr (refl, omega arith, omega arith)
IsChain-length (handed mention a h t later) = elim (IsChain-length later) [
  | inl (s, l) ↦ inl (s, ap suc l)
  | inr (s, p, l) ↦ inr (s, omega arith, omega arith)
]

module _ (lib : TextLib) (world : World) (input : TeamExecutionInput) (r : ChainResult)
    (done : execute_team_chain lib world input ≡ ok r) where
  -- The team that ran, and the steps that it took.
  pub record Ran : Type 0 where
    pub team : TeamConfig
    pub found : Maps.get input.teams input.team_id ≡ some team
    pub start_is_member : contains team.agents input.start_agent_id ≡ true
    pub chain : IsChain input team input.max_chain_steps none input.start_agent_id r.steps r.state
    pub answer :
        r.final_text
        ≡ unwrap_or (option_map (λ s. s.output) (get_last? r.steps)) "chain ended without output"

  ran_of_found : (team : TeamConfig) → Maps.get input.teams input.team_id ≡ some team → Ran
  unfolding execute_team_chain
  ran_of_found team found = elim (Bool-cases (contains team.agents input.start_agent_id)) [
    | inr stranger ↦ absurd (let e = rw (found, execute_team_chain, ◌>>=◌, stranger) at done in cc)
    | inl member ↦
        let e = rw (found, execute_team_chain, ◌>>=◌, member) at done in
        let all =
          chain_loop-Extends lib world input team found input.max_chain_steps 0 input.start_agent_id
            input.initial_message input.continue_session none [] r e in
        record {
          team = team;
          found = found;
          start_is_member = member;
          chain = rw all.split all.chain;
          answer = all.answer;
        }
  ]

  -- A chain that returns ran in a team that exists, from one of its members; each step hands over
  -- only to configured members other than the agent and the one it heard from; the chain stops at
  -- the first response without a handoff or with several; and the answer is the last step's output.
  pub execute_team_chain-Ran : Ran
  unfolding execute_team_chain
  execute_team_chain-Ran = elim (Option-cases (Maps.get input.teams input.team_id)) [
    | inr (team, found) ↦ ran_of_found team found
    | inl missing ↦ absurd (let e = rw (missing, execute_team_chain, ◌>>=◌) at done in cc)
  ]

  -- A chain that returns took exactly `max_chain_steps` steps if it stopped at the limit; else it
  -- succeeded with at least one step and at most one more than the limit, the summary of a fan-out.
  pub execute_team_chain_length :
      ((r.state ≡ ChainState.max_steps_reached) × (length r.steps ≡ input.max_chain_steps))
      ⊎ ((r.state ≡ ChainState.succeeded)
          × (0 < length r.steps)
          × (length r.steps ≤ input.max_chain_steps + 1))
  execute_team_chain_length = IsChain-length execute_team_chain-Ran.chain
