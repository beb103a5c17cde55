-- ===== src/Setup/States.antt =====
-- get_tasks_by_state_for_app and get_tasks_by_state of setup_marathon_job.py: the tasks of an app by
-- state. The caller's happy tasks and Mesos' draining hosts are arguments.
pub mod Partition
use paasta.Prelude.{
  ℕ, nat_eq, string_eq, text_eq, String, Text, Bool, true, false, List, [], ◌∷◌, contains, add,
  insert, ok, raise, if◌then◌else◌,
}
use paasta.Effects.{Act, Oracle, call, pure, throw, and_then, ◌>>=◌}
use paasta.Marathon.{Task, App, Effect, is_draining}
use paasta.Bounce.{HealthEnv, get_happy_tasks}
use paasta.Setup.{OldTasks}

pub record TasksByState : Type 0 where
  pub happy : List Task
  pub unhappy : List Task
  pub draining : List Task
  pub at_risk : List Task

abbrev pub no_tasks : TasksByState
no_tasks = record { happy = []; unhappy = []; draining = []; at_risk = [] }

abbrev pub no_apps : OldTasks
no_apps = record { happy = []; unhappy = []; draining = []; at_risk = [] }

module _ (env : HealthEnv) (draining_hosts : List String) where
  -- The body of the loop, for the answer of `is_draining`.
  unfoldable pub place :
      (happy_tasks : List Task) → Task → (draining : Bool) → TasksByState → TasksByState
  place happy_tasks task true s = record s { draining = add task s.draining }
  place happy_tasks task false s =
      if contains happy_tasks task
      then if contains draining_hosts (env.objects.host task)
        then record s { at_risk = add task s.at_risk }
        else record s { happy = add task s.happy }
      else record s { unhappy = add task s.unhappy }

module _ (oracle : Oracle Effect) (env : HealthEnv) (draining_hosts : List String) where
  unfoldable pub sort_tasks :
      (happy_tasks tasks : List Task) → TasksByState → Act Effect TasksByState
  unfolding call
  sort_tasks happy_tasks [] s = pure s
  sort_tasks happy_tasks (task ∷ tasks) s = do
    draining ← call oracle (is_draining task)
    sort_tasks happy_tasks tasks (place env draining_hosts happy_tasks task draining s)

  unfoldable pub get_tasks_by_state_for_app : App → Act Effect TasksByState
  get_tasks_by_state_for_app app = sort_tasks (get_happy_tasks env app) app.tasks no_tasks

  abbrev record_app : Text → TasksByState → OldTasks → OldTasks
  record_app id s old = record {
    happy = insert id s.happy old.happy;
    unhappy = insert id s.unhappy old.unhappy;
    draining = insert id s.draining old.draining;
    at_risk = insert id s.at_risk old.at_risk;
  }

  unfoldable pub sort_apps : List App → OldTasks → Act Effect OldTasks
  sort_apps [] old = pure old
  sort_apps (app ∷ apps) old = do
    s ← get_tasks_by_state_for_app app
    sort_apps apps (record_app app.id s old)

  unfoldable pub get_tasks_by_state : List App → Act Effect OldTasks
  get_tasks_by_state other_apps = sort_apps other_apps no_apps
