-- ===== src/Team/Tests.antt =====
-- A chain of two agents at concrete inputs.
use clawpod.Base.{
  String, true, false, some, [], ◌∷◌, ◌≡◌, refl, ◌==◌, if◌then◌else◌, Bool-cases, inl, inr, ok,
}
use clawpod.Base.Maps
use clawpod.Domain.Core.{RunResult, ChainResult, ChainState}
use clawpod.Samples.{agents, dev, teams, sample_lib}
use clawpod.Routing.Mentions.{
  is_valid_teammate, tagged_handoffs, bare_handoff, team_mentions, extract_teammate_mentions,
}
use clawpod.Team.{
  World, TeamExecutionInput, build_run_request, provider_from_metadata, call_agent, after_response,
  chain_loop, execute_team_chain,
}
use clawpod.Team.Chain.{Ran, execute_team_chain-Ran}
use clawpod.Team.Total.{execute_team_chain_total}

abbrev says : String → RunResult
says text = record {
  text = text;
  stdout = "";
  stderr = "";
  exit_code = 0;
  duration_ms = 1;
  metadata = [];
}

-- The agent "default" hands over to "reviewer", who answers.
abbrev world : World
world = record {
  run = λ n q.
      ok
        (says (if q.agent_id == "default" then "[@reviewer: look] [@reviewer: again]" else "fine"));
  new_v4 = λ n. "id";
}

abbrev input : TeamExecutionInput
input = record {
  task_id = "t";
  session_key = "s";
  team_id = "dev";
  start_agent_id = "default";
  initial_message = "go";
  continue_session = false;
  max_chain_steps = 8;
  agents = agents;
  teams = teams;
  session_workdirs = ("default", "/d") ∷ ("reviewer", "/r") ∷ [];
  run_metadata = [];
}

dev_found : Maps.get teams "dev" ≡ some dev
unfolding Maps.get
dev_found = refl

workdirs :
    (id : String)
    → Maps.contains_key agents id ≡ true
    → (d : String) × (Maps.get input.session_workdirs id ≡ some d)
unfolding Maps.contains_key Maps.get
workdirs id h = elim (Bool-cases ("default" == id)) [
  | inl same ↦ ("/d", rw same)
  | inr other ↦ elim (Bool-cases ("reviewer" == id)) [
    | inl same ↦ ("/r", rw (other, same))
    | inr neither ↦ absurd (let e = rw (other, neither) at h in cc)
  ]
]

configured : Maps.contains_key agents "default" ≡ true
unfolding Maps.contains_key Maps.get
configured = refl

execute_team_chain_total_example :
    (r : ChainResult) × (execute_team_chain sample_lib world input ≡ ok r)
execute_team_chain_total_example =
    execute_team_chain_total sample_lib world input dev dev_found workdirs (λ n q. (_, refl)) refl
      configured

abbrev outcome : ChainResult
outcome = record {
  final_text = "fine";
  steps =
      record {
        agent_id = "default";
        input = "go";
        output = "[@reviewer: look] [@reviewer: again]";
        handoffs = record { teammate_id = "reviewer"; message = "look" } ∷ [];
      }
      ∷ record {
        agent_id = "reviewer";
        input = "[Message from teammate @default]:\nlook";
        output = "fine";
        handoffs = [];
      }
      ∷ [];
  state = ChainState.succeeded;
}

two_steps : execute_team_chain sample_lib world input ≡ ok outcome
unfolding execute_team_chain chain_loop call_agent build_run_request after_response
    extract_teammate_mentions team_mentions tagged_handoffs bare_handoff is_valid_teammate Maps.get
    provider_from_metadata
two_steps = refl

execute_team_chain-Ran_example : Ran sample_lib world input outcome two_steps
execute_team_chain-Ran_example = execute_team_chain-Ran sample_lib world input outcome two_steps
