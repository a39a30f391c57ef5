-- ===== src/Team.antt =====
-- crates/team/src/lib.rs: `execute_team_chain`, which runs one agent after another as their
-- responses hand over. The runner and `Uuid::new_v4` are outside: `World` gives the result of each
-- call by its number. Team/Chain proves what the steps look like, Team/Total that the chain ends.
pub mod Chain
pub mod Total
mod Tests
use clawpod.Base.{
  ℕ, zero, suc, ◌+◌, String, Bool, true, Option, none, some, List, [], ◌∷◌, ◌++◌, Map, ◌==◌,
  if◌then◌else◌, unwrap_or, or_else, option_map, get_last?, contains, format, Result, ok, err,
  panic, ◌>>=◌, ok_or, or_panic,
}
use clawpod.Base.Maps
use clawpod.Base.Text
use clawpod.Domain.Core.{
  ProviderKind, ThinkLevel, default_think_level, AgentConfig, TeamConfig, RunRequest, RunResult,
  MentionHandoff, ChainStep, ChainResult, ChainState,
}
use clawpod.Extern.{TextLib}
use clawpod.Routing.Mentions.{extract_teammate_mentions}

-- The runner's answer to the n-th request, and the n-th fresh identifier.
pub record World : Type 0 where
  pub run : ℕ → RunRequest → Result RunResult
  pub new_v4 : ℕ → String

pub record TeamExecutionInput : Type 0 where
  pub task_id : String
  pub session_key : String
  pub team_id : String
  pub start_agent_id : String
  pub initial_message : String
  pub continue_session : Bool
  pub max_chain_steps : ℕ
  pub agents : Map AgentConfig
  pub teams : Map TeamConfig
  pub session_workdirs : Map String
  pub run_metadata : Map (Map String)

-- The `match` on the provider's name.
unfoldable pub provider_of_name : String → Option ProviderKind
provider_of_name name =
    if name == "anthropic"
    then some ProviderKind.anthropic
    else if name == "openai"
    then some ProviderKind.openai
    else if name == "custom"
    then some ProviderKind.custom
    else if name == "mock"
    then some ProviderKind.mock
    else none

-- `provider_from_metadata`.
unfoldable pub provider_from_metadata : Map String → Option ProviderKind
provider_from_metadata metadata = elim (Maps.get metadata "effective_provider") [
  | none ↦ none
  | some name ↦ provider_of_name name
]

-- The request that `build_run_request` makes, in a working directory.
abbrev pub request_in :
    String
    → String
    → String
    → String
    → String
    → Bool
    → AgentConfig
    → Map (Map String)
    → String
    → RunRequest
request_in run_id task_id session_key agent_id prompt continue_session agent run_metadata workdir =
    let metadata = unwrap_or (Maps.get run_metadata agent_id) [] in
    record {
      run_id = run_id;
      task_id = task_id;
      session_key = session_key;
      agent_id = agent_id;
      provider = unwrap_or (provider_from_metadata metadata) agent.provider;
      model = unwrap_or (Maps.get metadata "effective_model") agent.model;
      think_level = unwrap_or agent.think_level default_think_level;
      working_directory = workdir;
      prompt = prompt;
      continue_session = continue_session;
      metadata = metadata;
    }

-- `build_run_request`, which panics on a missing working directory.
unfoldable pub build_run_request :
    String
    → String
    → String
    → String
    → String
    → Bool
    → AgentConfig
    → Map String
    → Map (Map String)
    → Result RunRequest
build_run_request run_id task_id session_key agent_id prompt continue_session agent session_workdirs
      run_metadata =
    elim (Maps.get session_workdirs agent_id) [
      | none ↦ panic "session workdir must be pre-resolved for all agents"
      | some workdir ↦ ok (
          request_in run_id task_id session_key agent_id prompt continue_session agent run_metadata
            workdir)
    ]

-- `if run.text.is_empty() { run.stdout } else { run.text }`.
abbrev pub response_of : RunResult → String
response_of run = if Text.is_empty run.text then run.stdout else run.text

abbrev pub from_teammate : String → String → String
from_teammate sender message = format ("[Message from teammate @" ∷ sender ∷ "]:\n" ∷ message ∷ [])

-- What one of the parallel runs yields for its teammate.
unfoldable pub fan_out_text : Result RunResult → Result String
fan_out_text (ok out) = ok (response_of out)
fan_out_text (err e) = ok (format ("error: " ∷ e ∷ []))
fan_out_text (panic e) = panic e

-- `aggregated.join("\n\n---\n\n")`.
unfoldable pub aggregate : List (String × String) → String
aggregate [] = ""
aggregate ((agent_id, text) ∷ []) = format ("@" ∷ agent_id ∷ ": " ∷ text ∷ [])
aggregate ((agent_id, text) ∷ r ∷ rs) =
    format ("@" ∷ agent_id ∷ ": " ∷ text ∷ "\n\n---\n\n" ∷ aggregate (r ∷ rs) ∷ [])

abbrev pub fan_out_step : String → ChainStep
fan_out_step text = record { agent_id = "fanout"; input = "fan-out"; output = text; handoffs = [] }

abbrev pub fanned_out : List ChainStep → String → ChainResult
fanned_out steps text = record {
  final_text = text;
  steps = steps ++ fan_out_step text ∷ [];
  state = ChainState.succeeded;
}

module _ (lib : TextLib) (world : World) (input : TeamExecutionInput) where
  -- The future of one mention, the n-th call of the runner.
  unfoldable pub fan_out_one : ℕ → String → MentionHandoff → Result (String × String)
  fan_out_one n sender mention = elim (Maps.get input.agents mention.teammate_id) [
    | none ↦ ok (mention.teammate_id, "agent not found")
    | some target ↦ do
      request ←
          build_run_request (world.new_v4 n) input.task_id input.session_key mention.teammate_id
            (from_teammate sender mention.message) true target input.session_workdirs
            input.run_metadata
      text ← fan_out_text (world.run n request)
      ok (mention.teammate_id, text)
  ]

  -- `join_all`: the results stand in the order of the mentions.
  unfoldable pub join_all : ℕ → String → List MentionHandoff → Result (List (String × String))
  join_all n sender [] = ok []
  join_all n sender (mention ∷ mentions) = do
    result ← fan_out_one n sender mention
    results ← join_all (suc n) sender mentions
    ok (result ∷ results)

  -- One round's run of the current agent, the n-th call, and its response.
  unfoldable pub call_agent : ℕ → String → String → Bool → Result String
  call_agent n current message continue = do
    agent ← ok_or (Maps.get input.agents current) (format ("agent not found: " ∷ current ∷ []))
    request ←
        build_run_request (world.new_v4 n) input.task_id input.session_key current message continue
          agent input.session_workdirs input.run_metadata
    run ← world.run n request
    ok (response_of run)

  abbrev pub handoffs_of : String → String → Option String → List MentionHandoff
  handoffs_of response current prev =
      extract_teammate_mentions lib response current prev input.team_id input.teams input.agents

  abbrev pub step_of : String → String → String → Option String → ChainStep
  step_of response current message prev = record {
    agent_id = current;
    input = message;
    output = response;
    handoffs = handoffs_of response current prev;
  }

  -- What a round does with a response: it ends the chain, goes on with the one teammate (`next`), or
  -- fans out.
  unfoldable pub after_response :
      (String → String → List ChainStep → Result ChainResult)
      → ℕ
      → String
      → String
      → List ChainStep
      → List MentionHandoff
      → Result ChainResult
  after_response next n current response steps [] =
      ok (record { final_text = response; steps = steps; state = ChainState.succeeded })
  after_response next n current response steps (mention ∷ []) =
      next mention.teammate_id (from_teammate current mention.message) steps
  after_response next n current response steps (first ∷ second ∷ others) = do
    results ← join_all (suc n) current (first ∷ second ∷ others)
    ok (fanned_out steps (aggregate results))

  -- The `for _ in 0..max_chain_steps` loop, on the rounds left and the number of runner calls made.
  unfoldable pub chain_loop :
      ℕ → ℕ → String → String → Bool → Option String → List ChainStep → Result ChainResult
  chain_loop zero n current message continue prev steps = ok (record {
    final_text =
        unwrap_or (option_map (λ s. s.output) (get_last? steps)) "chain ended without output";
    steps = steps;
    state = ChainState.max_steps_reached;
  })
  chain_loop (suc rounds) n current message continue prev steps = do
    response ← call_agent n current message continue
    after_response
        (λ agent text done. chain_loop rounds (suc n) agent text true (some current) done) n current
        response (steps ++ step_of response current message prev ∷ [])
        (handoffs_of response current prev)

  -- `execute_team_chain`.
  unfoldable pub execute_team_chain : Result ChainResult
  execute_team_chain = do
    team ←
        ok_or (Maps.get input.teams input.team_id)
          (format ("team not found: " ∷ input.team_id ∷ []))
    if contains team.agents input.start_agent_id
        then chain_loop input.max_chain_steps 0 input.start_agent_id input.initial_message
            input.continue_session none []
        else err
            (format ("start agent " ∷ input.start_agent_id ∷ " not in team " ∷ input.team_id ∷ []))
