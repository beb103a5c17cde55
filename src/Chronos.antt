-- ===== src/Chronos.antt =====
-- paasta_tools/cleanup_chronos_jobs.py and the lookups of paasta_tools/chronos_tools.py that it makes:
-- which jobs of Chronos are deleted. Times are seconds; the events for Sensu and the printed reports
-- are left out.
pub mod Cleanup
pub mod Rerun
pub mod Tests
use paasta.Prelude.{
  ℕ, ◌+◌, ltb, leb, Text, text_eq, ◌==◌, Bool, true, false, ◌&&◌, ◌||◌, not, Option, none, some,
  List, [], ◌∷◌, ◌++◌, map, select, any_of, starts_with, Exception, Result, ok, raise, set_of, diff,
  ◌>>=◌, if◌then◌else◌,
}
use paasta.Effects.{Act, Oracle, call, pure, try_except, caught, and_then, ◌>>=◌ as ◌>>>=◌, ◌>>◌}
use paasta.JobId.Chronos.{compose_chronos_job_id, decompose_chronos_job_id, tmp_job_identifier}

-- A job of the API: its name, whether it is disabled, and the times of its last success and failure.
pub record Job : Type 0 where
  pub name : Text
  pub disabled : Bool
  pub last_success : Option ℕ
  pub last_failure : Option ℕ

pub data LastRunState : Type 0 where
  success fail not_run : LastRunState

abbrev last_run : Option ℕ → Option ℕ → Option ℕ × LastRunState
last_run none none = (none, not_run)
last_run (some s) none = (some s, success)
last_run none (some f) = (some f, fail)
last_run (some s) (some f) = if leb f s then (some s, success) else (some f, fail)

unfoldable pub get_status_last_run : Job → Option ℕ × LastRunState
get_status_last_run job = last_run job.last_success job.last_failure

unfoldable pub is_temporary : Text → Bool
unfolding starts_with
is_temporary name = starts_with name tmp_job_identifier

abbrev matches : Option Text → Text → Bool
matches none part = true
matches (some wanted) part = part == wanted

abbrev is_wanted : Option Text → Option Text → Result (Text × Text) → Bool
is_wanted service instance_name (raise e) = false
is_wanted service instance_name (ok parts) =
    matches service parts.0 && matches instance_name parts.1

unfoldable pub filter_non_temporary_chronos_jobs : List Job → List Job
unfolding is_temporary
filter_non_temporary_chronos_jobs jobs = select (λ job. not (is_temporary job.name)) jobs

unfoldable pub filter_chronos_jobs :
    List Job
    → (service instance_name : Option Text) → (include_disabled include_temporary : Bool) → List Job
unfolding decompose_chronos_job_id filter_non_temporary_chronos_jobs
filter_chronos_jobs jobs service instance_name include_disabled include_temporary =
    let matching_jobs =
      select
        (λ job.
          is_wanted service instance_name (decompose_chronos_job_id job.name)
          && not (job.disabled && not include_disabled))
        jobs in
    if include_temporary then matching_jobs else filter_non_temporary_chronos_jobs matching_jobs

unfoldable pub get_temporary_jobs_for_service_instance : List Job → Text → Text → List Job
unfolding filter_chronos_jobs is_temporary
get_temporary_jobs_for_service_instance jobs service instance_name =
    select (λ job. is_temporary job.name)
      (filter_chronos_jobs jobs (some service) (some instance_name) true true)

abbrev pub is_job_id : Result (Text × Text) → Bool
is_job_id (ok parts) = true
is_job_id (raise e) = false

unfoldable pub filter_paasta_jobs : List Text → List Text
unfolding decompose_chronos_job_id
filter_paasta_jobs jobs = select (λ job. is_job_id (decompose_chronos_job_id job)) jobs

unfoldable pub filter_tmp_jobs : List Text → List Text
unfolding is_temporary
filter_tmp_jobs job_names = select is_temporary job_names

-- More than a day ago.
abbrev pub has_expired : ℕ → Option ℕ × LastRunState → Bool
has_expired now (_, not_run) = false
has_expired now (none, state) = false
has_expired now (some time, state) = ltb (time + 86400) now

-- The inner loop adds the name once for each expired job.
abbrev pub name_for_each : Text → ℕ → List Job → List Text
name_for_each name now [] = []
name_for_each name now (job ∷ jobs) =
    let rest = name_for_each name now jobs in
    if has_expired now (get_status_last_run job) then name ∷ rest else rest

unfoldable pub filter_expired_tmp_jobs : ℕ → List Job → List Text → Result (List Text)
unfolding decompose_chronos_job_id get_temporary_jobs_for_service_instance get_status_last_run
filter_expired_tmp_jobs now jobs [] = ok []
filter_expired_tmp_jobs now jobs (job_name ∷ job_names) =
    let rest = filter_expired_tmp_jobs now jobs job_names in
    decompose_chronos_job_id job_name >>= λ parts. rest >>= λ more. ok (
      name_for_each job_name now (get_temporary_jobs_for_service_instance jobs parts.0 parts.1)
      ++ more)

abbrev pub compose_pair : Text × Text → Text
compose_pair job = compose_chronos_job_id job.0 job.1

-- The sets of main. The client lists the same jobs for each of its calls.
unfoldable pub jobs_to_delete :
    ℕ → List Job → (configured : List (Text × Text)) → Result (List Text)
unfolding filter_expired_tmp_jobs filter_tmp_jobs filter_paasta_jobs set_of diff
    compose_chronos_job_id
jobs_to_delete now jobs configured =
    let running_jobs = set_of (map (λ (job : Job). job.name) jobs) in
    let expected_service_jobs = set_of (map compose_pair configured) in
    let all_tmp_jobs = set_of (filter_tmp_jobs (filter_paasta_jobs running_jobs)) in
    filter_expired_tmp_jobs now jobs all_tmp_jobs >>= λ expired.
    ok (diff (diff running_jobs expected_service_jobs) (diff all_tmp_jobs (set_of expired)))

pub data ChronosCall : Type 0 where
  delete_tasks delete : Text → ChronosCall

module _ (oracle : Oracle ChronosCall) where
  -- execute_chronos_api_call_for_job: whether the response is an exception.
  unfoldable pub execute_call : ChronosCall → Act ChronosCall Bool
  unfolding call
  execute_call c = try_except (call oracle c >> pure false) (λ e. pure true)

  -- Whether any response of the list is an exception.
  unfoldable pub cleanup_each : (Text → ChronosCall) → List Text → Act ChronosCall Bool
  unfolding execute_call
  cleanup_each api_call [] = pure false
  cleanup_each api_call (job ∷ jobs) = execute_call (api_call job) >>>= λ failed.
      cleanup_each api_call jobs >>>= λ others. pure (failed || others)

  abbrev lifted : Result (List Text) → Act ChronosCall (List Text)
  lifted r h = (r, h)

  -- main, and whether it exits with 1
  unfoldable pub cleanup_chronos_jobs : ℕ → List Job → List (Text × Text) → Act ChronosCall Bool
  unfolding jobs_to_delete cleanup_each
  cleanup_chronos_jobs now jobs configured =
      lifted (jobs_to_delete now jobs configured) >>>= λ to_delete.
      cleanup_each delete_tasks to_delete >>>= λ task_failures.
      cleanup_each delete to_delete >>>= λ job_failures. pure (job_failures || task_failures)
