-- ===== src/Setup/Main/Tests.antt =====
-- Runs of setup_marathon_job at concrete inputs.
use paasta.Prelude.{
  ◌≡◌, refl, codes, true, false, none, List, [], ◌∷◌, ok, raise, no_deployments_available,
}
use paasta.Effects.{Oracle, call}
use paasta.Marathon.{Effect}
use paasta.JobId.{split, decompose_job_id}
use paasta.Bounce.{HealthEnv}
use paasta.Setup.Deploy.{setup_service}
use paasta.Setup.Main.{Entry, deploy_marathon_service, count_failed, main}
use paasta.Setup.Main.Exit.{AllDeployed, main-AllDeployed}

abbrev env : HealthEnv
env = record {
  objects = record {
    id = λ t. "task";
    host = λ t. "good";
    started_at = λ t. none;
    alive = λ t. [];
  };
  now = 100;
  min_task_uptime = none;
  check_haproxy = false;
  registered = [];
}

abbrev agree : Oracle Effect
agree h e = ok true

-- The first has no docker image yet, the second no deployments.
abbrev entries : List Entry
entries =
    record { service_instance = codes "web.main"; loaded = ok none }
    ∷ record { service_instance = codes "new.main"; loaded = raise no_deployments_available }
    ∷ []

both_run : (main agree env [] 5 entries []).0 ≡ ok 0
unfolding main count_failed deploy_marathon_service setup_service decompose_job_id split call
both_run = refl

main-AllDeployed_example : AllDeployed agree env [] 5 entries []
main-AllDeployed_example = main-AllDeployed agree env [] 5 entries [] both_run

web_runs : (deploy_marathon_service agree env [] 5 (codes "web.main") (ok none) []).0 ≡ ok 0
unfolding deploy_marathon_service setup_service call
web_runs = refl
