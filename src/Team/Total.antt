-- ===== src/Team/Total.antt =====
-- crates/team/src/lib.rs: the chain ends with a result whatever the agents say.
use clawpod.Base.{
  ℕ, zero, suc, String, Bool, true, Option, none, some, List, [], ◌∷◌, ◌++◌, ◌≡◌, refl, inl, inr,
  Option-cases, contains, Result, ok, ◌>>=◌,
}
use clawpod.Base.Maps
use clawpod.Domain.Core.{
  AgentConfig, TeamConfig, RunRequest, RunResult, MentionHandoff, ChainStep, ChainResult,
}
use clawpod.Extern.{TextLib}
use clawpod.Team.{
  World, TeamExecutionInput, build_run_request, fan_out_text, fan_out_one, join_all, call_agent,
  after_response, handoffs_of, step_of, request_in, fanned_out, aggregate, chain_loop,
  execute_team_chain, from_teammate, response_of,
}
use clawpod.Team.Chain.{handoffs-IsHandoffTarget}

module _ (lib : TextLib) (world : World) (input : TeamExecutionInput) (team : TeamConfig)
    (found : Maps.get input.teams input.team_id ≡ some team)
    (workdirs : (id : String)
      → Maps.contains_key input.agents id ≡ true
      → (d : String) × (Maps.get input.session_workdirs id ≡ some d))
    (answers : (n : ℕ) (q : RunRequest) → (a : RunResult) × (world.run n q ≡ ok a)) where
  agent_of_key :
      (id : String)
      → Maps.contains_key input.agents id ≡ true
      → (agent : AgentConfig) × (Maps.get input.agents id ≡ some agent)
  unfolding Maps.contains_key
  agent_of_key id h = elim (Option-cases (Maps.get input.agents id)) [
    | inl missing ↦ absurd (let e = rw missing at h in cc)
    | inr found_agent ↦ found_agent
  ]

  key_of_agent :
      (id : String) (agent : AgentConfig)
      → Maps.get input.agents id ≡ some agent
      → Maps.contains_key input.agents id ≡ true
  unfolding Maps.contains_key
  key_of_agent id agent e = rw e

  build_run_request_total :
      (run_id id prompt : String) (continue : Bool) (agent : AgentConfig)
      → Maps.contains_key input.agents id ≡ true
      → (q : RunRequest) × (build_run_request run_id input.task_id input.session_key id prompt
            continue agent input.session_workdirs input.run_metadata
          ≡ ok q)
  unfolding build_run_request
  build_run_request_total run_id id prompt continue agent h =
      let (d, e) = workdirs id h in
      (
        request_in run_id input.task_id input.session_key id prompt continue agent
            input.run_metadata d,
        rw (e, build_run_request),
      )

  call_agent_total :
      (n : ℕ) (current message : String) (continue : Bool)
      → Maps.contains_key input.agents current ≡ true
      → (response : String) × (call_agent lib world input n current message continue ≡ ok response)
  unfolding call_agent
  call_agent_total n current message continue h =
      let (agent, e) = agent_of_key current h in
      let (q, built) = build_run_request_total (world.new_v4 n) current message continue agent h in
      let (a, ran) = answers n q in (response_of a, rw (e, ◌>>=◌, built, ran))

  fan_out_one_total :
      (n : ℕ) (sender : String) (mention : MentionHandoff)
      → (result : String × String) × (fan_out_one lib world input n sender mention ≡ ok result)
  unfolding fan_out_one fan_out_text
  fan_out_one_total n sender mention =
      elim (Option-cases (Maps.get input.agents mention.teammate_id)) [
        | inl missing ↦ ((mention.teammate_id, "agent not found"), rw (missing, fan_out_one))
        | inr (agent, e) ↦
            let (q, built) =
              build_run_request_total (world.new_v4 n) mention.teammate_id
                (from_teammate sender mention.message) true agent (key_of_agent _ agent e) in
            let (a, ran) = answers n q in
            (
              (mention.teammate_id, response_of a),
              rw (e, fan_out_one, ◌>>=◌, built, ran, fan_out_text),
            )
      ]

  join_all_total :
      (n : ℕ) (sender : String) (mentions : List MentionHandoff)
      → (results : List (String × String)) × (join_all lib world input n sender mentions
          ≡ ok results)
  unfolding join_all
  join_all_total n sender [] = ([], refl)
  join_all_total n sender (mention ∷ mentions) =
      let (one, e) = fan_out_one_total n sender mention in
      let (rest, es) = join_all_total (suc n) sender mentions in (one ∷ rest, rw (e, ◌>>=◌, es))

  after_response_total :
      (next : String → String → List ChainStep → Result ChainResult)
      → ((id message : String) (steps : List ChainStep)
          → Maps.contains_key input.agents id ≡ true
          → (r : ChainResult) × (next id message steps ≡ ok r))
      → (n : ℕ) (current response : String) (prev : Option String) (steps : List ChainStep)
        (handoffs : List MentionHandoff)
      → handoffs_of lib world input response current prev ≡ handoffs
      → (r : ChainResult) × (after_response lib world input next n current response steps handoffs
          ≡ ok r)
  unfolding after_response
  after_response_total next total n current response prev steps [] h = (_, refl)
  after_response_total next total n current response prev steps (mention ∷ []) h =
      total mention.teammate_id (from_teammate current mention.message) steps
        (handoffs-IsHandoffTarget lib world input team found current prev response _ h).0.configured
  after_response_total next total n current response prev steps (first ∷ second ∷ others) h =
      let (results, e) = join_all_total (suc n) current (first ∷ second ∷ others) in
      (fanned_out steps (aggregate results), rw (e, ◌>>=◌))

  chain_loop_total :
      (rounds n : ℕ) (current message : String) (continue : Bool) (prev : Option String)
      (steps : List ChainStep)
      → Maps.contains_key input.agents current ≡ true
      → (r : ChainResult) × (chain_loop lib world input rounds n current message continue prev steps
          ≡ ok r)
  unfolding chain_loop
  chain_loop_total zero n current message continue prev steps h = (_, refl)
  chain_loop_total (suc rounds) n current message continue prev steps h =
      let (response, called) = call_agent_total n current message continue h in
      let (r, e) =
        after_response_total _
          (λ id text done k. chain_loop_total rounds (suc n) id text true (some current) done k) n
          current response prev
          (steps ++ step_of lib world input response current message prev ∷ [])
          (handoffs_of lib world input response current prev) refl in
      (r, rw (called, ◌>>=◌) e)

  -- If the start agent is a configured member of the team, every configured agent has a working
  -- directory and the runner answers every request, then the chain returns a result.
  pub execute_team_chain_total :
      contains team.agents input.start_agent_id ≡ true
      → Maps.contains_key input.agents input.start_agent_id ≡ true
      → (r : ChainResult) × (execute_team_chain lib world input ≡ ok r)
  unfolding execute_team_chain
  execute_team_chain_total member configured =
      let (r, e) =
        chain_loop_total input.max_chain_steps 0 input.start_agent_id input.initial_message
          input.continue_session none [] configured in
      (r, rw (found, ◌>>=◌, member) e)
