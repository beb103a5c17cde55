-- ===== src/Setup/Deploy.antt =====
-- deploy_service of setup_marathon_job.py: sorts the tasks of the service's apps, scales the new app
-- and bounces the old ones under a lock.
pub mod Scaling
pub mod Statuses
use paasta.Prelude.{
  ℕ, nat_eq, string_eq, text_eq, ◌+◌, ◌-◌, min, String, Text, codes, Bool, true, false, not, Option,
  none, some, List, [], ◌∷◌, ◌==◌, contains, select, set_of, insert, lookup, get_or, take, drop,
  length, ltb, Result, ok, raise, Exception, lock_held, value_error, if◌then◌else◌,
}
use paasta.Effects.{Act, Oracle, call, pure, throw, try_except, caught, and_then, ◌>>=◌, ◌>>◌}
use paasta.Marathon.{
  Task, App, Effect, stop_draining, scale_app, get_matching_apps, get_num_at_risk_tasks,
}
use paasta.Bounce.{
  HealthEnv, get_happy_tasks, Method, bounce_func, get_bounce_method_func, Situation, AppTasks,
}
use paasta.Bounce.Locks.{with_lock}
use paasta.Setup.{OldTasks, do_bounce, lift}
use paasta.Setup.States.{TasksByState, get_tasks_by_state_for_app, get_tasks_by_state}

-- The messages that deploy_service returns beside its status.
pub data Message : Type 0 where
  deployed unknown_drain_method unknown_bounce_method already_bounced no_docker_image : Message

-- What the old apps' dicts and the happy new tasks become when the new app is scaled down.
pub record Scaled : Type 0 where
  pub old : OldTasks
  pub happy_new_tasks : List Task

-- Moves `excess` tasks of the new app to the old ones: draining ones first, then unhappy ones, those
-- at risk and happy ones.
unfoldable pub scale_down : (new_app_id : Text) → TasksByState → (excess : ℕ) → OldTasks → Scaled
scale_down id s excess old =
    let n_draining = min (length s.draining) excess in
    let left = excess - n_draining in
    let n_unhappy = min (length s.unhappy) left in
    let left' = left - n_unhappy in
    let n_at_risk = min (length s.at_risk) left' in
    let left'' = left' - n_at_risk in
    let n_happy = min (length s.happy) left'' in
    record {
      old = record {
        happy = insert id (set_of (take n_happy s.happy)) old.happy;
        unhappy = insert id (set_of (take n_unhappy s.unhappy)) old.unhappy;
        draining = insert id (set_of (take n_draining s.draining)) old.draining;
        at_risk = insert id (set_of (take n_at_risk s.at_risk)) old.at_risk;
      };
      happy_new_tasks = drop n_happy s.happy;
    }

-- max(min(len(new_app.tasks), new_app.instances) - instances, 0)
unfoldable pub num_tasks_to_scale : App → ℕ → ℕ
num_tasks_to_scale app instances = min (length app.tasks) app.instances - instances

module _ (oracle : Oracle Effect) (env : HealthEnv) (draining_hosts : List String) where
  unfoldable pub undrain_tasks : (to_undrain leave_draining : List Task) → Act Effect Bool
  unfolding call
  undrain_tasks [] leave_draining = pure true
  undrain_tasks (task ∷ rest) leave_draining =
      (if contains leave_draining task
        then pure true
        else try_except (call oracle (stop_draining task)) (λ _. pure true))
      >> undrain_tasks rest leave_draining

  -- Scales the new app up, or picks the tasks of it that are too many.
  unfoldable pub rescale :
      App → (instances : ℕ) → (happy : List Task) → OldTasks → Act Effect Scaled
  unfolding call
  rescale app instances happy old =
      let wanted = instances + get_num_at_risk_tasks env.objects draining_hosts app in
      if ltb app.instances wanted
      then (do
        call oracle (scale_app app.id wanted)
        pure (record { old = old; happy_new_tasks = happy }))
      else if ltb instances app.instances
      then (do
        s ← get_tasks_by_state_for_app oracle env draining_hosts app
        pure (scale_down app.id s (num_tasks_to_scale app instances) old))
      else pure (record { old = old; happy_new_tasks = happy })

  unfoldable pub prepare_new_app :
      List App → (instances : ℕ) → OldTasks → Act Effect (Bool × Scaled)
  prepare_new_app [] instances old = pure (false, record { old = old; happy_new_tasks = [] })
  prepare_new_app (app ∷ apps) instances old = do
    scaled ← rescale app instances (get_happy_tasks env app) old
    undrain_tasks app.tasks (get_or app.id [] scaled.old.draining)
    pure (true, scaled)

-- The keyword arguments of deploy_service; `drain_method_known` says whether the registry of
-- drain_lib.py has the name. `short_id` is that of the service and the instance.
pub record Request : Type 0 where
  pub service : Text
  pub instance_name : Text
  pub short_id : Text
  pub config_id : Text
  pub instances : ℕ
  pub marathon_apps : List App
  pub bounce_method : String
  pub drain_method_known : Bool
  pub margin_num : ℕ
  pub margin_den : ℕ

abbrev pub Status : Type 0
Status = ℕ × Message

abbrev pub already_being_bounced : Exception → Act Effect Status
already_being_bounced lock_held = pure (1, already_bounced)
already_being_bounced e = throw e

module _ (oracle : Oracle Effect) (env : HealthEnv) (draining_hosts : List String) (polls : ℕ) where
  unfoldable pub bounce_under_lock :
      Option Method → Request → (new_app_running : Bool) → Scaled → Act Effect Status
  bounce_under_lock none req running scaled = pure (1, unknown_bounce_method)
  bounce_under_lock (some method) req running scaled =
      try_except
        (do
          with_lock oracle req.short_id (
              do_bounce oracle polls env.objects (bounce_func method)
                (record {
                  instances = req.instances;
                  new_app_running = running;
                  happy_new_tasks = scaled.happy_new_tasks;
                  old_happy = scaled.old.happy;
                  old_unhappy = scaled.old.unhappy;
                  margin_num = req.margin_num;
                  margin_den = req.margin_den;
                })
                scaled.old req.config_id)
          pure (0, deployed))
        already_being_bounced

  unfoldable pub deploy_prepared : (new_app other_apps : List App) → Request → Act Effect Status
  deploy_prepared new_app other_apps req = do
    old ← get_tasks_by_state oracle env draining_hosts other_apps
    prepared ← prepare_new_app oracle env draining_hosts new_app req.instances old
    bounce_under_lock (get_bounce_method_func req.bounce_method) req prepared.0 prepared.1

  unfoldable pub deploy_with_drain_method :
      (new_app other_apps : List App) → Request → Act Effect Status
  deploy_with_drain_method new_app other_apps req =
      if req.drain_method_known
      then deploy_prepared new_app other_apps req
      else pure (1, unknown_drain_method)

  -- One new app at most, or a ValueError.
  unfoldable pub deploy_apps : (new_app other_apps : List App) → Request → Act Effect Status
  deploy_apps (app ∷ another ∷ more) other_apps req = throw value_error
  deploy_apps new_app other_apps req = deploy_with_drain_method new_app other_apps req

  unfoldable pub deploy_service : Request → Act Effect Status
  deploy_service req = do
    existing_apps ← lift (get_matching_apps req.service req.instance_name req.marathon_apps)
    deploy_apps (select (λ a. a.id == (b'/' ∷ req.config_id)) existing_apps)
        (select (λ a. not (a.id == (b'/' ∷ req.config_id))) existing_apps) req

  -- setup_service: none stands for a NoDockerImageError of format_marathon_app_dict.
  unfoldable pub setup_service : Option Request → Act Effect Status
  setup_service none = pure (1, no_docker_image)
  setup_service (some req) = deploy_service req
