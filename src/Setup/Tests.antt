-- ===== src/Setup/Tests.antt =====
-- A bounce and a deployment at concrete inputs.
use paasta.Prelude.{
  ℕ, nat_eq, text_eq, text_beq, ◌≡◌, ◌||◌, ◌&&◌, refl, codes, Bool, true, false, some, none, List,
  [], ◌∷◌, nat_beq, not, lock_timeout, if◌then◌else◌, contains, add, diff, set_of, insert, get_or,
  union, Result, ok, raise, other,
}
use paasta.Effects.{Oracle}
use paasta.Effects.Confined.{Confined}
use paasta.Marathon.{
  Task, Objects, App, Effect, drain, is_safe_to_kill, is_draining, get_matching_apps,
  get_num_at_risk_tasks,
}
use paasta.Bounce.{
  HealthEnv, Situation, crossover, bounce_func, get_happy_tasks, is_happy, get_bounce_method_func,
}
use paasta.Bounce.Locks.{with_lock}
use paasta.Setup.{OldTasks, drain_loop, safe_loop, drain_tasks_and_find_tasks_to_kill, do_bounce}
use paasta.Setup.States.{
  TasksByState, place, sort_tasks, get_tasks_by_state_for_app, get_tasks_by_state, sort_apps,
}
use paasta.Setup.States.Partition.{times_placed, bit, times_placed-get_tasks_by_state_for_app}
use paasta.Setup.Deploy.{
  Request, already_bounced, scale_down, num_tasks_to_scale, bounce_under_lock, setup_service,
  deploy_service, deploy_apps, deploy_with_drain_method, deploy_prepared, prepare_new_app, rescale,
  undrain_tasks,
}
use paasta.Setup.Draining.{Reason, killed_has-Reason}
use paasta.Setup.Draining.Exact.{raises, true_or_raises, steady, drain_tasks_exact}
use paasta.Setup.Confinement.{Allowed, do_bounce-Confined}

-- Draining task 2 raises; task 1 is not safe to kill; no task is draining.
abbrev answer : Effect → Result Bool
answer (drain t) = if nat_beq t 2 then raise other else ok true
answer (is_safe_to_kill t) = ok (not (nat_beq t 1))
answer (is_draining t) = ok false
answer e = ok true

drain_three :
    (drain_tasks_and_find_tasks_to_kill (steady answer) (1 ∷ 2 ∷ []) (3 ∷ []) [] []).0
    ≡ ok (3 ∷ 2 ∷ [])
unfolding drain_tasks_and_find_tasks_to_kill drain_loop safe_loop union diff add
drain_three = refl

killed_has-Reason_example :
    (((contains {A = ℕ} (3 ∷ []) 2 || contains {A = ℕ} [] 2) || contains {A = ℕ} (1 ∷ 2 ∷ []) 2)
      ≡ true)
    × Reason
        (steady answer)
        []
        (drain_tasks_and_find_tasks_to_kill (steady answer) (1 ∷ 2 ∷ []) (3 ∷ []) [] []).1
        2
killed_has-Reason_example =
    killed_has-Reason (steady answer) (1 ∷ 2 ∷ []) (3 ∷ []) [] (3 ∷ 2 ∷ []) [] 2 drain_three refl

drain_tasks_exact_example :
    (killed : List Task) × ((drain_tasks_and_find_tasks_to_kill
        (steady answer)
        (1 ∷ 2 ∷ [])
        (3 ∷ [])
        []
        []).0
      ≡ ok killed)
    × ((t : Task)
        → contains killed t ≡ (
            ((contains {A = ℕ} (3 ∷ []) t || contains {A = ℕ} [] t)
              || contains {A = ℕ} (1 ∷ 2 ∷ []) t)
            && (raises (answer (drain t)) || true_or_raises (answer (is_safe_to_kill t)))))
drain_tasks_exact_example = drain_tasks_exact answer (1 ∷ 2 ∷ []) (3 ∷ []) [] []

abbrev objects : Objects
objects = record {
  id = λ t. "task";
  host = λ t. if nat_beq t 7 then "bad" else "good";
  started_at = λ t. some 50;
  alive = λ t. true ∷ [];
}

abbrev old : OldTasks
old = record {
  happy = (codes "/old", 3 ∷ []) ∷ (codes "/older", 4 ∷ []) ∷ [];
  unhappy = (codes "/old", []) ∷ (codes "/older", []) ∷ [];
  draining = (codes "/old", 2 ∷ []) ∷ (codes "/older", []) ∷ [];
  at_risk = (codes "/old", []) ∷ (codes "/older", []) ∷ [];
}

abbrev situation : Situation
situation = record {
  instances = 2;
  new_app_running = true;
  happy_new_tasks = 11 ∷ [];
  old_happy = old.happy;
  old_unhappy = old.unhappy;
  margin_num = 1;
  margin_den = 1;
}

do_bounce-Confined_example :
    Confined
      (Allowed objects situation old (codes "new"))
      (do_bounce (steady answer) 5 objects (bounce_func crossover) situation old (codes "new"))
do_bounce-Confined_example =
    do_bounce-Confined (steady answer) 5 objects crossover situation old (codes "new")

abbrev env : HealthEnv
env = record {
  objects = objects;
  now = 100;
  min_task_uptime = none;
  check_haproxy = false;
  registered = [];
}

abbrev new_app : App
new_app = record {
  id = codes "/web.main.g1.c1";
  tasks = 6 ∷ 7 ∷ 8 ∷ [];
  instances = 3;
  health_checks = 1;
}

abbrev sorted : TasksByState
sorted = record { happy = 8 ∷ 6 ∷ []; unhappy = []; draining = []; at_risk = 7 ∷ [] }

sort_new_app :
    (get_tasks_by_state_for_app (steady answer) env ("bad" ∷ []) new_app []).0 ≡ ok sorted
unfolding get_tasks_by_state_for_app sort_tasks place add get_happy_tasks is_happy
sort_new_app = refl

times_placed-get_tasks_by_state_for_app_example :
    times_placed sorted 7 ≡ bit (contains new_app.tasks 7)
times_placed-get_tasks_by_state_for_app_example =
    times_placed-get_tasks_by_state_for_app (steady answer) env ("bad" ∷ []) new_app sorted [] 7
      (refl, (refl, (refl, tt))) sort_new_app

abbrev none_old : OldTasks
none_old = record { happy = []; unhappy = []; draining = []; at_risk = [] }

abbrev request : Request
request = record {
  service = codes "web";
  instance_name = codes "main";
  short_id = codes "web.main";
  config_id = codes "web.main.g1.c1";
  instances = 2;
  marathon_apps = new_app ∷ [];
  bounce_method = "crossover";
  drain_method_known = true;
  margin_num = 1;
  margin_den = 1;
}

-- Locks cannot be had.
abbrev locked_out : Oracle Effect
locked_out h (Effect.lock name) = raise lock_timeout
locked_out h e = answer e

deploy_locked_out :
    (setup_service locked_out env ("bad" ∷ []) 5 (some request) []).0 ≡ ok (1, already_bounced)
unfolding setup_service deploy_service deploy_apps deploy_with_drain_method deploy_prepared
    prepare_new_app rescale undrain_tasks bounce_under_lock with_lock get_matching_apps
    get_tasks_by_state sort_apps get_tasks_by_state_for_app sort_tasks place get_happy_tasks
    is_happy get_num_at_risk_tasks scale_down num_tasks_to_scale get_bounce_method_func get_or
    insert text_beq set_of
deploy_locked_out = refl
