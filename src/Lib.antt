-- ===== src/Lib.antt =====
-- Verification library for paasta: what a service is to run, how a deployment of it on Marathon is
-- decided and carried out, how the native Mesos scheduler runs it instead, how tasks are drained, how
-- hosts are put into maintenance, how services are scaled, how stale apps are cleaned up, and the ids
-- by which the parts name apps and jobs.
--
-- The program's parts. generate_deployments_for_service.py reads from git tags which commit each
-- branch of a service is to run. setup_marathon_job.py reads the wanted config of a service's instance, sorts
-- the tasks of the apps that run for it, scales the new app, and under a lock does one round of a
-- bounce: a method of bounce_lib.py says whether to create the new app and which old tasks to drain,
-- the drain method of drain_lib.py drains them, and what is safe to kill is killed. The round is
-- repeated until the old apps are gone. Hosts that mesos_maintenance.py drains count as at risk, and
-- cleanup_maintenance.py takes back what was forgotten. autoscaling_service_lib.py sets how many
-- instances a service is to have. cleanup_marathon_jobs.py deletes the apps of services that are not
-- configured any more, and cleanup_chronos_jobs.py does so for the jobs of Chronos, where chronos_rerun.py
-- puts temporary ones. marathon_tools.py and utils.py hold the ids and the helpers.
-- autoscaling_cluster_lib.py sets how many instances a spot fleet request of the cluster has, by the
-- utilization that metastatus_lib.py sums up, and drains and terminates slaves where there are too many.
-- check_marathon_services_replication.py alerts where a service has fewer tasks than it should, by what
-- smartstack_tools.py reads of haproxy, or by Marathon.
-- native_mesos_scheduler.py is a Mesos framework of its own: callbacks start tasks from offers and
-- follow their states, and the crossover bounce says which tasks are drained and then killed.
--
-- Files, and the code they model:
-- - Prelude: Python lists, sets, dicts, texts and exceptions.
-- - Effects: statements that call other systems.
-- - JobId: compose_job_id, decompose_job_id and long_job_id_to_short_job_id of paasta_tools/utils.py,
--   format_job_id and deformat_job_id of paasta_tools/marathon_tools.py; JobId.Chronos: the ids of
--   paasta_tools/chronos_tools.py.
-- - Marathon: tasks, apps and the helpers of paasta_tools/marathon_tools.py that a bounce uses.
-- - Bounce: the bounce methods and get_happy_tasks of paasta_tools/bounce_lib.py; Bounce.Locks: its
--   locks, create_marathon_app, delete_marathon_app and kill_old_ids.
-- - Setup: drain_tasks_and_find_tasks_to_kill and do_bounce of paasta_tools/setup_marathon_job.py;
--   Setup.States: get_tasks_by_state_for_app and get_tasks_by_state; Setup.Deploy: undrain_tasks,
--   deploy_service and setup_service; Setup.Main: deploy_marathon_service and main.
-- - Maintenance: the hosts in maintenance as paasta_tools/mesos_maintenance.py finds them;
--   Maintenance.Schedule: build_maintenance_schedule_payload; Maintenance.Reservations:
--   reserve_all_resources, unreserve_all_resources, drain, undrain, down and up;
--   Maintenance.Cleanup: paasta_tools/cleanup_maintenance.py.
-- - Autoscaling: get_instances and limit_instance_count of paasta_tools/long_running_service_tools.py,
--   and the errors, the threshold policy and autoscale_marathon_instance of
--   paasta_tools/autoscaling/autoscaling_service_lib.py; Autoscaling.Services: its pass over all
--   services.
-- - Cleanup: cleanup_apps and delete_app of paasta_tools/cleanup_marathon_jobs.py.
-- - Chronos: paasta_tools/cleanup_chronos_jobs.py, and the lookups of paasta_tools/chronos_tools.py that
--   it makes; Chronos.Rerun: clone_job of paasta_tools/chronos_rerun.py.
-- - Metastatus: the resources by groups of slaves in paasta_tools/metrics/metastatus_lib.py;
--   Metastatus.Health: its checks of cpus, memory and disk.
-- - ClusterAutoscaling: paasta_tools/autoscaling/autoscaling_cluster_lib.py, the error of a utilization
--   and the capacity that follows; ClusterAutoscaling.Slaves: the slaves to choose from, with their
--   counts of paasta_tools/mesos_tools.py; ClusterAutoscaling.Downscale: the calls that scale a
--   request; ClusterAutoscaling.Resources: the pass over all resources.
-- - Smartstack: the backends that paasta_tools/smartstack_tools.py counts at each location;
--   Replication: the alerts of paasta_tools/check_marathon_services_replication.py.
-- - Deployments: get_latest_deployment_tag and get_desired_state of
--   paasta_tools/generate_deployments_for_service.py; Deployments.Mappings: get_deploy_group_mappings,
--   generate_deployments_for_service, and DeploymentsJson of paasta_tools/utils.py.
-- - InstanceConfig: the getters and checks of InstanceConfig in paasta_tools/utils.py;
--   InstanceConfig.Docker: what its parameters of docker run allow.
-- - Drain: the drain methods of paasta_tools/drain_lib.py; Drain.Hacheck and Drain.Http: two of them;
--   Drain.Contract: the abstract machine that the DrainMethod class describes; Drain.Registry:
--   get_drain_method and the choices of paasta_tools/long_running_service_tools.py.
-- - Scheduler: the state of PaastaScheduler in paasta_tools/native_mesos_scheduler.py and what is read
--   of it; Scheduler.Launch: resourceOffers, start_task and task_fits; Scheduler.Round:
--   kill_tasks_if_necessary; Scheduler.Handlers: registered, statusUpdate, periodic and the steps.
-- Theorems stand in the child modules that are named for what they show, examples in the Tests.
--
-- Choices of the model:
-- - A call of another system (Marathon, ZooKeeper, Mesos, a drain method) is an effect. An oracle
--   over the history of calls gives its answer or the exception it raises, so that a theorem for
--   every oracle covers every behaviour of these systems. The history outlives an exception.
-- - A task is a reference to a Python object: two handles of the same Mesos task are two tasks, as
--   they are in a Python set.
-- - Sets are lists of which only membership matters. Where the code iterates over a set, the order of
--   the list stands for Python's, and the theorems hold for every order.
-- - The margin factor of crossover is a fraction, and its product with the instances is exact, while
--   the code multiplies floats. So are utilization and setpoint, over one denominator.
-- - A metrics provider and a decision policy other than threshold are parameters of the autoscaling.
-- - `polls` is how often an app is looked for before the alarm of time_limit rings. The wait loops
--   are recursive on it, and running out of polls is the code's TimeoutException, so no fuel is added
--   to the model. An oracle that raises TimeoutException at an earlier call is an earlier alarm.
-- - A loop that removes from the list it iterates over carries the list and the index. Its fuel is the
--   length at the start, which is enough since the index grows by one a step and no list grows.
-- - The draining hosts are read once per deployment, as one list, where the code reads them per app.
-- - Log lines, the content of events for Sensu and the text of messages are not modelled.
-- - The loop of start_task has as much fuel as the offer has ports: each round takes one, so that the
--   loop has ended by its test when the fuel is used up. random.choice and uuid4 are parameters, of
--   which only that choice picks a member is assumed, and only where it is needed.
-- - The capacities of spot fleet requests are whole numbers of a unit, of which so many make an instance,
--   since weights may be fractions. The loop of a downscale has a number of rounds, since it need not
--   end: what it does holds for every number of rounds. `polls` is as above for its waits.
-- - Resources, times and delays are whole numbers. The sort key of the native scheduler, a tuple, is
--   one number in the same order.
-- - A regular expression is matched by hand. A name that the code puts into one may hold dots, which
--   match any character, and no other special character. The groups that the expression for a text of
--   hacheck finds are given with the response.
-- - Not modelled: Chronos jobs but for their ids, reruns and clean up, the
--   fields of a Mesos TaskInfo that start_task does not fill in, the making of urls, the command line,
--   the HTTP API and the requests to Mesos.
pub mod Prelude
pub mod Effects
pub mod JobId
pub mod Marathon
pub mod Bounce
pub mod Setup
pub mod Maintenance
pub mod Autoscaling
pub mod Cleanup
pub mod Deployments
pub mod InstanceConfig
pub mod Chronos
pub mod Metastatus
pub mod Smartstack
pub mod Replication
pub mod ClusterAutoscaling
pub mod Drain
pub mod Scheduler
