-- ===== src/Cleanup.antt =====
-- paasta_tools/cleanup_marathon_jobs.py: apps in Marathon whose service or instance is configured no
-- more are deleted, unless these are too many. The kill threshold is a fraction, and the comparison
-- is exact. Events for Sensu and log lines are left out.
pub mod Removals
pub mod Tests
use paasta.Prelude.{
  ℕ, text_eq, ◌==◌, ◌*◌, ltb, length, Text, Bool, true, false, ◌&&◌, not, Option, none, some, List,
  [], ◌∷◌, map, select, any_of, lstrip, Exception, io_error, dont_kill_everything, invalid_job_name,
  Result, ok, raise, ◌>>=◌, if◌then◌else◌,
}
use paasta.Effects.{Act, Oracle, pure, throw, try_except, caught, and_then, ◌>>=◌ as ◌>>>=◌, ◌>>◌}
use paasta.Marathon.{App, Effect, list_all_marathon_app_ids}
use paasta.JobId.{JobParts, spacer, compose_job_id, format_job_id, deformat_job_id}
use paasta.Bounce.Locks.{with_lock, delete_marathon_app}

abbrev pub lifted {ℓ} : {A : Type ℓ} → Result A → List Effect → Result A × List Effect
lifted r h = (r, h)

-- An id that is no job id is skipped.
unfoldable pub running_apps : List Text → List JobParts
unfolding deformat_job_id
running_apps [] = []
running_apps (app_id ∷ app_ids) =
    let rest = running_apps app_ids in
    elim (deformat_job_id app_id) [ ok parts ↦ parts ∷ rest | raise e ↦ rest ]

-- (service, instance) in valid_services
abbrev pub is_valid : List (Text × Text) → JobParts → Bool
is_valid valid_services parts = any_of (λ v. v.0 == parts.0 && v.1 == parts.1) valid_services

unfoldable pub apps_to_kill : (valid_services : List (Text × Text)) → List JobParts → List JobParts
apps_to_kill valid_services running = select (λ parts. not (is_valid valid_services parts)) running

-- float(kill) / float(running) > threshold, where any app runs
unfoldable pub above_kill_threshold : (kill running threshold_num threshold_den : ℕ) → Bool
above_kill_threshold kill running num den = ltb 0 running && ltb (num * running) (kill * den)

module _ (oracle : Oracle Effect) (polls : ℕ) where
  abbrev pub skip_io_error : Exception → Act Effect Bool
  skip_io_error io_error = pure true
  skip_io_error e = throw e

  -- delete_app
  unfoldable pub delete_stale_app : (app_id : Text) → Act Effect Bool
  unfolding deformat_job_id compose_job_id
  delete_stale_app app_id = lifted (deformat_job_id app_id) >>>= λ parts.
      try_except
        (lifted (compose_job_id parts.0 parts.1 none none spacer) >>>= λ short_app_id.
          with_lock oracle short_app_id (delete_marathon_app oracle polls app_id))
        skip_io_error

  unfoldable pub delete_each : List JobParts → Act Effect Bool
  unfolding format_job_id
  delete_each [] = pure true
  delete_each (parts ∷ apps) =
      (lifted (format_job_id parts.0 parts.1 parts.2 parts.3) >>>= λ app_id.
      delete_stale_app app_id)
      >> delete_each apps

  -- cleanup_apps, for the services of the cluster and the apps of Marathon.
  unfoldable pub cleanup_apps :
      (valid_services : List (Text × Text))
      → List App
      → (threshold_num threshold_den : ℕ) → (force : Bool) → Act Effect Bool
  unfolding list_all_marathon_app_ids running_apps apps_to_kill above_kill_threshold
  cleanup_apps valid_services apps num den force =
      let running = running_apps (list_all_marathon_app_ids apps) in
      let kill = apps_to_kill valid_services running in
      if above_kill_threshold (length kill) (length running) num den && not force
      then throw dont_kill_everything
      else delete_each kill
