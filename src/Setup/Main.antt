-- ===== src/Setup/Main.antt =====
-- deploy_marathon_service and main of setup_marathon_job.py: the deployment of each service instance
-- that the command line names, its event and the exit code.
pub mod Exit
pub mod Tests
use paasta.Prelude.{
  ℕ, zero, suc, ◌+◌, ltb, nat_beq, String, Text, Bool, true, false, not, Option, List, [], ◌∷◌,
  ◌++◌, Exception, key_error, type_error, attribute_error, invalid_instance_config,
  no_deployments_available, no_configuration, Result, ok, raise, if◌then◌else◌,
}
use paasta.Effects.{Act, Oracle, call, pure, throw, try_except, caught, and_then, ◌>>=◌, ◌>>◌}
use paasta.Marathon.{Effect, send_event}
use paasta.JobId.{JobParts, spacer, decompose_job_id}
use paasta.Bounce.{HealthEnv}
use paasta.Setup.Deploy.{Request, setup_service}

-- An entry of the command line: its text, and what loading its config gives, where it is loaded. The
-- request is none where the config has no docker image.
pub record Entry : Type 0 where
  pub service_instance : Text
  pub loaded : Result (Option Request)

abbrev pub short_name : JobParts → Text
short_name parts = parts.0 ++ spacer ∷ parts.1

module _ (oracle : Oracle Effect) (env : HealthEnv) (draining_hosts : List String) (polls : ℕ) where
  -- The exceptions that the last clause handles, with the event that it sends.
  abbrev pub report_failure : Text → Exception → Act Effect ℕ
  report_failure name key_error = call oracle (send_event name true) >> pure 1
  report_failure name type_error = call oracle (send_event name true) >> pure 1
  report_failure name attribute_error = call oracle (send_event name true) >> pure 1
  report_failure name invalid_instance_config = call oracle (send_event name true) >> pure 1
  report_failure name e = throw e

  -- The event is critical where the status is not 0.
  abbrev pub set_up_and_report : Text → Option Request → Act Effect ℕ
  set_up_and_report name req = do
    st ← setup_service oracle env draining_hosts polls req
    call oracle (send_event name (not (nat_beq st.0 0)))
    pure 0

  unfoldable pub deploy_marathon_service : Text → Result (Option Request) → Act Effect ℕ
  deploy_marathon_service name (ok req) =
      try_except (set_up_and_report name req) (report_failure name)
  deploy_marathon_service name (raise no_deployments_available) = pure 0
  deploy_marathon_service name (raise no_configuration) = pure 1
  deploy_marathon_service name (raise e) = throw e

  -- What an entry adds to the failed deployments. The event is named by the service and instance.
  abbrev pub deploy_entry : Result JobParts → Result (Option Request) → Act Effect ℕ
  deploy_entry (ok parts) loaded = deploy_marathon_service (short_name parts) loaded
  deploy_entry (raise e) loaded = pure 1

  unfoldable pub count_failed : List Entry → (num_failed_deployments : ℕ) → Act Effect ℕ
  unfolding decompose_job_id
  count_failed [] failed = pure failed
  count_failed (entry ∷ entries) failed = do
    bad ← deploy_entry (decompose_job_id entry.service_instance spacer) entry.loaded
    count_failed entries (if ltb 0 bad then suc failed else failed)

  unfoldable pub main : List Entry → Act Effect ℕ
  main entries = do failed ← count_failed entries 0; pure (if ltb 0 failed then 1 else 0)
