-- ===== src/Config/Tests.antt =====
-- The ingress policy on a Telegram channel that pairs its senders, and a configuration with secrets.
use clawpod.Base.{ok, err, true, false, none, some, [], ◌≡◌, refl, ◌↔◌}
use clawpod.Base.Maps
use clawpod.Config.Access.{IngressDecision, evaluate_ingress_policy}
use clawpod.Config.Access.Laws.{Admits, evaluate_ingress_policy-Admits_iff}
use clawpod.Config.Restored.{IsMasked, restore_masked_secrets-masked_for_display}
use clawpod.Config.Secrets.{masked_for_display, restore_masked_secrets}
use clawpod.Config.Valid.{IsValid, validate-IsValid}
use clawpod.Config.Validate.{validate}
use clawpod.Config.Browser.{resolve_browser_profile_for_agent}
use clawpod.Queue.Metadata.{Surroundings, build_run_metadata_for_agent}
use clawpod.Queue.Runnable.{IsTold, build_run_metadata_for_agent-IsTold}
use clawpod.Config.Samples.{access, config, environment}
use clawpod.Domain.Core.{ChatType}
use clawpod.Samples.{agent_called}

evaluate_ingress_policy-Admits_iff_example :
    (evaluate_ingress_policy access ChatType.group "alice" true false (some "news")
      ≡ IngressDecision.allow)
    ↔ Admits access "alice" true false (some "news") ChatType.group
evaluate_ingress_policy-Admits_iff_example =
    evaluate_ingress_policy-Admits_iff access ChatType.group "alice" true false (some "news")

restore_masked_secrets-masked_for_display_example :
    IsMasked (masked_for_display config)
    × (restore_masked_secrets (masked_for_display config) config ≡ config)
restore_masked_secrets-masked_for_display_example =
    restore_masked_secrets-masked_for_display config ((refl, tt), (tt, tt))

validate-IsValid_example : IsValid environment config
unfolding validate Maps.get
validate-IsValid_example = validate-IsValid environment config refl

abbrev surroundings : Surroundings
surroundings = record {
  env = environment;
  user_home = some "/home/u";
  codex_token = none;
  load_system_preamble = λ agent_id agent. ok (some "You are an agent.");
}

build_run_metadata_for_agent-IsTold_example :
    IsTold surroundings config
      (agent_called "Reviewer")
      []
      (build_run_metadata_for_agent surroundings config "reviewer" [])
unfolding validate Maps.get
build_run_metadata_for_agent-IsTold_example =
    build_run_metadata_for_agent-IsTold surroundings config "reviewer" (agent_called "Reviewer") []
      (some "You are an agent.") refl refl refl

-- The provider is configured, but not under the name with its spaces.
padded_provider :
    build_run_metadata_for_agent surroundings config "coder" []
    ≡ err "custom provider not found:  near "
unfolding build_run_metadata_for_agent resolve_browser_profile_for_agent Maps.get
padded_provider = refl
