-- ===== src/Autoscaling/Services.antt =====
-- get_configs_of_services_to_scale and autoscale_services of autoscaling_service_lib.py.
pub mod Pass
use paasta.Prelude.{
  ℕ, nat_eq, text_eq, ◌==◌, ℤ, ltb, length, Text, Bool, true, false, ◌&&◌, ◌||◌, not, Option, none,
  some, List, [], ◌∷◌, ◌++◌, add, Exception, lock_held, lock_timeout, no_data,
  no_deployments_available, Result, ok, raise, ◌>>=◌, if◌then◌else◌,
}
use paasta.Effects.{
  Act, Oracle, call, pure, throw, try_except, try_finally, caught, and_then, ◌>>=◌ as ◌>>>=◌, ◌>>◌,
}
use paasta.JobId.{split, spacer, format_job_id}
use paasta.Autoscaling.{
  Config, Error, Request, start_zookeeper, lock, unlock, stop_zookeeper, default_to,
  autoscale_marathon_instance,
}

-- A Marathon task; whether its app has health checks is asked for only if the task is not healthy.
pub record RunningTask : Type 0 where
  pub id : Text
  pub is_healthy : Bool
  pub has_health_checks : Result Bool

abbrev first_two : List Text → Text
first_two (a ∷ b ∷ parts) = a ++ spacer ∷ b
first_two (a ∷ []) = a
first_two [] = []

unfoldable pub get_short_job_id : Text → Text
unfolding split
get_short_job_id task_id = first_two (split spacer task_id)

-- `is_task_healthy(task) or not app.health_checks`
abbrev counts : RunningTask → Result Bool
counts task =
    if task.is_healthy then ok true else (do checks ← task.has_health_checks; ok (not checks))

-- The ids of the job's tasks that count as healthy.
unfoldable pub healthy_task_ids : (job_id : Text) → List RunningTask → Result (List Text)
unfolding get_short_job_id add
healthy_task_ids job_id [] = ok []
healthy_task_ids job_id (task ∷ tasks) =
    let rest = healthy_task_ids job_id tasks in
    if job_id == get_short_job_id task.id
    then (do healthy ← counts task; ids ← rest; ok (if healthy then add task.id ids else ids))
    else rest

-- A service's instance: its config, or what loading it raises, and what is read of it later.
pub record Instance : Type 0 where
  pub service : Text
  pub instance_name : Text
  pub config : Result Config
  pub zk_instances : Result (Option ℤ)
  pub utilization : Result ℕ
  pub den : ℕ

abbrev pub is_scalable : Config → Bool
is_scalable config =
    ltb 0 (default_to 0 config.max_instances) && (config.desired_start && not config.is_bespoke)

abbrev choose :
    Instance → Result Config → Result (List (Instance × Config)) → Result (List (Instance × Config))
choose i (ok config) (ok rest) = if is_scalable config then ok ((i, config) ∷ rest) else ok rest
choose i (ok config) (raise e) = raise e
choose i (raise no_deployments_available) rest = rest
choose i (raise e) rest = raise e

unfoldable pub get_configs_of_services_to_scale : List Instance → Result (List (Instance × Config))
get_configs_of_services_to_scale [] = ok []
get_configs_of_services_to_scale (i ∷ instances) =
    choose i i.config (get_configs_of_services_to_scale instances)

abbrev pub gathered {ℓ} : {A : Type ℓ} → Result A → List Request → Result A × List Request
gathered r h = (r, h)

module _ (oracle : Oracle Request) where
  abbrev pub lock_failed : Exception → Act Request Bool
  lock_failed lock_timeout = throw lock_held
  lock_failed e = throw e

  -- create_autoscaling_lock, around the body
  unfoldable pub create_autoscaling_lock : Act Request Bool → Act Request Bool
  unfolding call
  create_autoscaling_lock body =
      call oracle start_zookeeper
      >> try_finally (try_except (call oracle lock >> body) lock_failed >> call oracle unlock)
          (call oracle stop_zookeeper)

module _ (oracle : Oracle Request) (policy : ℕ → Error → Result ℤ)
    (all_marathon_tasks : List RunningTask) where
  -- The body of the loop's `try`.
  unfoldable pub autoscale_service : Instance → Config → Act Request Bool
  unfolding format_job_id healthy_task_ids
  autoscale_service i config =
      gathered (format_job_id i.service i.instance_name none none) >>>= λ job_id.
      gathered (healthy_task_ids job_id all_marathon_tasks) >>>= λ ids.
      if ltb 0 (length ids)
      then (autoscale_marathon_instance oracle policy config i.zk_instances (length ids)
            i.utilization i.den
          >>>= λ d. pure true)
      else throw no_data

  unfoldable pub autoscale_each : List (Instance × Config) → Act Request Bool
  autoscale_each [] = pure true
  autoscale_each ((i, config) ∷ configs) =
      try_except (autoscale_service i config) (λ _. pure true) >> autoscale_each configs

  abbrev pub skip_if_held : Exception → Act Request Bool
  skip_if_held lock_held = pure true
  skip_if_held e = throw e

  unfoldable pub autoscale_services : List Instance → Act Request Bool
  autoscale_services instances =
      try_except
        (create_autoscaling_lock oracle (
          gathered (get_configs_of_services_to_scale instances) >>>= λ configs.
          autoscale_each configs))
        skip_if_held
