-- ===== src/Replication.antt =====
-- paasta_tools/check_marathon_services_replication.py, with what it calls of marathon_tools.py and
-- utils.py: alerts on instances with too few tasks. Counts and thresholds are whole numbers, and their
-- ratio is exact. The texts of the alerts and log lines are left out.
pub mod Alerts
pub mod Names
pub mod Tests
use paasta.Prelude.{
  ℕ, ◌+◌, ◌-◌, ◌*◌, ◌/◌, ltb, nat_beq, length, Text, text_eq, starts_with, ◌==◌, Bool, true, false,
  ◌&&◌, not, Option, none, some, List, [], ◌∷◌, select, any_of, get_or, Result, ok, raise,
  no_deployments_available, ◌>>=◌, if◌then◌else◌,
}
use paasta.JobId.{compose_job_id, format_job_id, spacer}
use paasta.Marathon.{healthy_results}
use paasta.Metastatus.{Slave}
use paasta.Smartstack.{Backend, get_smartstack_replication_for_attribute}

pub record MarathonTask : Type 0 where
  pub app_id : Text
  pub started_at : Option ℕ
  pub alive : List Bool

-- What other systems answer: the slaves of the Mesos master, the table of a host's haproxy, the tasks of
-- Marathon, the clock in seconds, and the sending of an event, which is critical or not.
pub record Environment : Type 0 where
  pub slaves : Result (List Slave)
  pub haproxy : (synapse_host : Text) → Result (List Backend)
  pub tasks : Result (List MarathonTask)
  pub now : ℕ
  pub send : Text → (critical : Bool) → Result Bool

-- What the configs say of an instance: the namespace and the count of each instance of its service, its
-- first registration and the port of that, and how it is monitored.
pub record Monitored : Type 0 where
  pub service : Text
  pub instance_name : Text
  pub configs : List (Result (Text × Result ℕ))
  pub registration : Result Text
  pub proxy_port : Result (Option ℕ)
  pub replication_threshold : Option ℕ
  pub monitoring_blacklist : List (Text × Text)
  pub discover : Text

-- Whether something is under replicated.
unfoldable pub is_under_replicated : (num_available expected_count crit_threshold : ℕ) → Bool
is_under_replicated num_available expected_count crit_threshold =
    if nat_beq expected_count 0
    then ltb 100 crit_threshold
    else ltb (num_available * 100) (crit_threshold * expected_count)

abbrev pub get_replication_crit_percentage : Monitored → ℕ
get_replication_crit_percentage m = elim m.replication_threshold [ none ↦ 50 | some t ↦ t ]

unfoldable pub get_expected_instance_count_for_namespace :
    (namespace : Text) → List (Result (Text × Result ℕ)) → Result ℕ
get_expected_instance_count_for_namespace namespace [] = ok 0
get_expected_instance_count_for_namespace namespace (config ∷ configs) =
    let rest = get_expected_instance_count_for_namespace namespace configs in
    (do
      srv_config ← config
      instances ← if namespace == srv_config.0 then srv_config.1 else ok 0
      others ← rest
      ok (instances + others))

-- Whether a location has too few of the instances that it is to have.
abbrev pub location_under :
    (full_name : Text) (expected_count_per_location crit_threshold : ℕ)
    → Text × List (Text × ℕ)
    → Bool
unfolding is_under_replicated get_or
location_under full_name expected_count_per_location crit_threshold location =
    is_under_replicated (get_or full_name 0 location.1) expected_count_per_location crit_threshold

-- Whether the alert is critical, by the replication at each location.
unfoldable pub smartstack_critical :
    (full_name : Text) (expected_count crit_threshold : ℕ) → List (Text × List (Text × ℕ)) → Bool
unfolding is_under_replicated get_or
smartstack_critical full_name expected_count crit_threshold [] = true
smartstack_critical full_name expected_count crit_threshold (l ∷ ls) =
    any_of (location_under full_name (expected_count / length (l ∷ ls)) crit_threshold) (l ∷ ls)

module _ (env : Environment) where
  abbrev pub send_event : Text → (critical : Bool) → Result (Option Bool)
  send_event full_name critical = env.send full_name critical >>= λ _. ok (some critical)

  -- The event that is sent: none where the instance is announced under another name.
  unfoldable pub check_smartstack_replication_for_instance :
      Monitored → (expected_count : ℕ) → Result (Option Bool)
  unfolding compose_job_id get_smartstack_replication_for_attribute smartstack_critical
  check_smartstack_replication_for_instance m expected_count = do
    full_name ← compose_job_id m.service m.instance_name none none spacer
    primary_registration ← m.registration
    if primary_registration == full_name
        then (get_smartstack_replication_for_attribute env.haproxy m.discover full_name
              m.monitoring_blacklist env.slaves
            >>= λ info. send_event full_name (
                smartstack_critical full_name expected_count (get_replication_crit_percentage m)
                  info))
        else ok none

  abbrev pub started_before : ℕ → Option ℕ → Bool
  started_before limit none = false
  started_before limit (some started) = ltb started limit

  abbrev pub is_healthy_and_old : MarathonTask → Bool
  is_healthy_and_old task =
      healthy_results true true task.alive && started_before (env.now - 60) task.started_at

  unfoldable pub get_healthy_marathon_instances_for_short_app_id :
      List MarathonTask → (app_id : Text) → ℕ
  unfolding starts_with
  get_healthy_marathon_instances_for_short_app_id tasks app_id =
      let tasks_for_app =
        select (λ (t : MarathonTask). starts_with t.app_id (b'/' ∷ app_id)) tasks in
      length (select is_healthy_and_old tasks_for_app)

  unfoldable pub send_event_if_under_replication :
      Monitored → (expected_count num_available : ℕ) → Result (Option Bool)
  unfolding compose_job_id is_under_replicated
  send_event_if_under_replication m expected_count num_available = do
    full_name ← compose_job_id m.service m.instance_name none none spacer
    send_event full_name
        (is_under_replicated num_available expected_count (get_replication_crit_percentage m))

  unfoldable pub check_healthy_marathon_tasks_for_service_instance :
      Monitored → (expected_count : ℕ) → Result (Option Bool)
  unfolding format_job_id get_healthy_marathon_instances_for_short_app_id
      send_event_if_under_replication
  check_healthy_marathon_tasks_for_service_instance m expected_count = do
    app_id ← format_job_id m.service m.instance_name none none
    tasks ← env.tasks
    send_event_if_under_replication m expected_count
        (get_healthy_marathon_instances_for_short_app_id tasks app_id)

  abbrev pub checked : Monitored → (expected_count : ℕ) → Option ℕ → Result (Option Bool)
  unfolding check_smartstack_replication_for_instance
      check_healthy_marathon_tasks_for_service_instance
  checked m expected_count (some port) = check_smartstack_replication_for_instance m expected_count
  checked m expected_count none = check_healthy_marathon_tasks_for_service_instance m expected_count

  abbrev pub unless_no_deployments : Monitored → Result ℕ → Result (Option Bool)
  unfolding check_smartstack_replication_for_instance
      check_healthy_marathon_tasks_for_service_instance
  unless_no_deployments m (raise no_deployments_available) = ok none
  unless_no_deployments m (raise e) = raise e
  unless_no_deployments m (ok expected_count) = m.proxy_port >>= checked m expected_count

  unfoldable pub check_service_replication : Monitored → Result (Option Bool)
  unfolding get_expected_instance_count_for_namespace check_smartstack_replication_for_instance
      check_healthy_marathon_tasks_for_service_instance
  check_service_replication m =
      unless_no_deployments m (get_expected_instance_count_for_namespace m.instance_name m.configs)

  -- The loop of main; the first check that raises ends it.
  unfoldable pub main : List Monitored → Result (List (Option Bool))
  unfolding check_service_replication
  main [] = ok []
  main (m ∷ ms) =
      let rest = main ms in
      check_service_replication m >>= λ event. rest >>= λ events. ok (event ∷ events)
