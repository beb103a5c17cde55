-- ===== src/Setup.antt =====
-- paasta_tools/setup_marathon_job.py: one round of a deployment. The tasks that it is handed as
-- old ones are drained and killed as the bounce method asks, and the other apps are removed where no
-- task of theirs is left. Log lines are left out.
pub mod States
pub mod Deploy
pub mod Main
pub mod Draining
pub mod Removal
pub mod Confinement
pub mod Tests
use paasta.Prelude.{
  ℕ, zero, suc, nat_eq, text_eq, String, Text, Bool, true, false, ◌&&◌, not, Option, none, some,
  List, [], ◌∷◌, ◌++◌, map, ◌==◌, contains, add, union, diff, set_of, lookup, length, nat_beq,
  Result, ok, raise, Exception, key_error, if◌then◌else◌,
}
use paasta.Effects.{Act, Oracle, call, pure, throw, try_except, caught, and_then, ◌>>=◌, ◌>>◌}
use paasta.Marathon.{Task, Objects, Effect, drain, is_safe_to_kill, reserve_all, kill_given_tasks}
use paasta.Bounce.{AppTasks, Actions, Situation, flatten_tasks}
use paasta.Bounce.Locks.{create_marathon_app, kill_old_ids}

-- The four dicts of old tasks, by app.
pub record OldTasks : Type 0 where
  pub happy : AppTasks
  pub unhappy : AppTasks
  pub draining : AppTasks
  pub at_risk : AppTasks

module _ (oracle : Oracle Effect) where
  -- `for task in all_draining_tasks: drain_method.drain(task)`; a task that cannot be drained is
  -- killed.
  unfoldable pub drain_loop : List Task → (tasks_to_kill : List Task) → Act Effect (List Task)
  unfolding call
  drain_loop [] kill = pure kill
  drain_loop (task ∷ rest) kill = do
    kill' ← try_except (do call oracle (drain task); pure kill) (λ _. pure (add task kill))
    drain_loop rest kill'

  -- The second loop: a task that is safe to kill, or whose check raises, is killed.
  unfoldable pub safe_loop : List Task → (tasks_to_kill : List Task) → Act Effect (List Task)
  unfolding call
  safe_loop [] kill = pure kill
  safe_loop (task ∷ rest) kill = do
    kill' ←
        try_except
          (do
            safe ← call oracle (is_safe_to_kill task)
            pure (if safe then add task kill else kill))
          (λ _. pure (add task kill))
    safe_loop rest kill'

  unfoldable pub drain_tasks_and_find_tasks_to_kill :
      (tasks_to_drain already_draining at_risk : List Task) → Act Effect (List Task)
  drain_tasks_and_find_tasks_to_kill tasks_to_drain already_draining at_risk = do
    let all_draining = union (union already_draining at_risk) tasks_to_drain
    kill ← drain_loop all_draining []
    safe_loop all_draining kill

  -- The hosts of killed at-risk tasks are reserved, one by one.
  unfoldable pub reserve_loop : Objects → List Task → (killed : List Task) → Act Effect Bool
  unfolding call
  reserve_loop o [] killed = pure true
  reserve_loop o (task ∷ rest) killed =
      (if contains killed task then call oracle (reserve_all (o.host task ∷ [])) else pure true)
      >> reserve_loop o rest killed

abbrev pub four :
    Option (List Task)
    → Option (List Task)
    → Option (List Task)
    → Option (List Task)
    → Result (List Task)
four (some h) (some u) (some d) (some r) = ok (union (union (union h u) d) r)
four _ _ _ _ = raise key_error

abbrev pub one_app :
    Text → Result (List Task) → (killed : List Task) → Result (List Text) → Result (List Text)
one_app app (ok tasks) killed (ok rest) =
    if nat_beq (length (diff tasks killed)) 0 then ok (app ∷ rest) else ok rest
one_app app (ok tasks) killed (raise e) = raise e
one_app app (raise e) killed rest = raise e

-- live_happy_tasks | live_unhappy_tasks | draining_tasks | at_risk_tasks; a missing key raises.
unfoldable pub tasks_of_app : OldTasks → Text → Result (List Task)
tasks_of_app old app =
    four (lookup app old.happy) (lookup app old.unhappy) (lookup app old.draining)
      (lookup app old.at_risk)

-- The loop that finds the apps to kill: those but the new one with no task left.
unfoldable pub find_apps_to_kill :
    OldTasks
    → (marathon_jobid : Text) → (killed : List Task) → (apps : AppTasks) → Result (List Text)
find_apps_to_kill old jobid killed [] = ok []
find_apps_to_kill old jobid killed ((app, tasks) ∷ apps) =
    let rest = find_apps_to_kill old jobid killed apps in
    if app == (b'/' ∷ jobid) then rest else one_app app (tasks_of_app old app) killed rest

abbrev pub lift {ℓ} : {A : Type ℓ} → Result A → List Effect → Result A × List Effect
lift r h = (r, h)

module _ (oracle : Oracle Effect) (polls : ℕ) (o : Objects) where
  abbrev pub maybe_create : Bool → Text → Act Effect Bool
  maybe_create true jobid = create_marathon_app oracle polls jobid
  maybe_create false jobid = pure false

  abbrev pub maybe_remove : List Text → Act Effect Bool
  maybe_remove [] = pure true
  maybe_remove (app ∷ apps) = kill_old_ids oracle polls (app ∷ apps)

  -- do_bounce, for the actions that the bounce method asked for.
  unfoldable pub act_on :
      Actions → (new_app_running : Bool) → OldTasks → (marathon_jobid : Text) → Act Effect Bool
  act_on actions new_app_running old jobid = do
    maybe_create (actions.create_app && not new_app_running) jobid
    kill ←
        drain_tasks_and_find_tasks_to_kill oracle actions.tasks_to_drain
          (flatten_tasks old.draining) (flatten_tasks old.at_risk)
    kill_given_tasks oracle (map o.id kill)
    reserve_loop oracle o (flatten_tasks old.at_risk) kill
    apps ← lift (find_apps_to_kill old jobid kill old.happy)
    maybe_remove apps

  unfoldable pub do_bounce :
      (Situation → Result Actions)
      → Situation
      → OldTasks
      → (marathon_jobid : Text) → Act Effect Bool
  do_bounce bounce_func situation old jobid = do
    actions ← lift (bounce_func situation)
    act_on actions situation.new_app_running old jobid
