-- ===== src/Marathon.antt =====
-- paasta_tools/marathon_tools.py: the Marathon objects that a deployment handles, and the helpers
-- that read them or wrap a call of the Marathon client. Their theorems are in the child modules.
-- A task is a reference to a Python object, as two handles of one task are the same element of a
-- set; its attributes are read through `Objects`. Log lines are left out.
use paasta.Prelude.{
  ℕ, String, Text, Bool, true, Option, none, List, [], ◌∷◌, ◌++◌, map, string_eq, text_eq, contains,
  select, all_of, any_of, starts_with, lstrip, Result, ok, raise, Exception, does_not_exist_404,
  not_valid_422, if◌then◌else◌, length, leb, nat_beq,
}
use paasta.Effects.{Act, Oracle, call, pure, throw, try_except}
use paasta.JobId.{format_job_id, spacer}

abbrev pub Task : Type 0
Task = ℕ

pub record Objects : Type 0 where
  pub id : Task → String
  pub host : Task → String
  pub started_at : Task → Option ℕ
  pub alive : Task → List Bool

pub record App : Type 0 where
  pub id : Text
  pub tasks : List Task
  pub instances : ℕ
  pub health_checks : ℕ

-- The calls of other systems that a deployment makes.
pub data Effect : Type 0 where
  drain stop_draining is_draining is_safe_to_kill : Task → Effect
  start_zookeeper lock unlock stop_zookeeper : Text → Effect
  create_app delete_app app_running : Text → Effect
  scale_app : Text → ℕ → Effect
  kill_tasks : List String → Effect
  kill_one_task : Text → String → Effect
  reserve_all : List String → Effect
  send_event : Text → (critical : Bool) → Effect

-- Any or all of the results, and the default where there is none.
abbrev pub healthy_results : (require_all default_healthy : Bool) → List Bool → Bool
healthy_results require_all default_healthy [] = default_healthy
healthy_results require_all default_healthy (r ∷ rs) =
    if require_all then all_of (λ b. b) (r ∷ rs) else any_of (λ b. b) (r ∷ rs)

unfoldable pub is_task_healthy : Objects → (require_all default_healthy : Bool) → Task → Bool
is_task_healthy o require_all default_healthy task =
    healthy_results require_all default_healthy (o.alive task)

unfoldable pub get_num_at_risk_tasks : Objects → (draining_hosts : List String) → App → ℕ
get_num_at_risk_tasks o draining_hosts app =
    length (select (λ t. contains draining_hosts (o.host t)) app.tasks)

-- The ids of Marathon's apps without their leading slashes.
unfoldable pub list_all_marathon_app_ids : List App → List Text
unfolding lstrip
list_all_marathon_app_ids = map (λ a. lstrip b'/' a.id)

unfoldable pub is_app_id_running : Text → List App → Bool
unfolding list_all_marathon_app_ids
is_app_id_running app_id apps = contains (list_all_marathon_app_ids apps) (lstrip b'/' app_id)

unfoldable pub app_has_tasks : (tasks : List Task) (expected_tasks : ℕ) (exact : Bool) → Bool
app_has_tasks tasks expected_tasks exact =
    if exact then nat_beq (length tasks) expected_tasks else leb expected_tasks (length tasks)

abbrev matching : Result Text → List App → Result (List App)
matching (ok job_id) apps =
    ok (select (λ a. starts_with a.id (b'/' ∷ (job_id ++ spacer ∷ []))) apps)
matching (raise e) apps = raise e

unfoldable pub get_matching_apps : (service instance_name : Text) → List App → Result (List App)
unfolding format_job_id starts_with
get_matching_apps service instance_name apps =
    matching (format_job_id service instance_name none none) apps

module _ (oracle : Oracle Effect) where
  abbrev pub tolerate_not_valid : Exception → Act Effect Bool
  tolerate_not_valid not_valid_422 = pure true
  tolerate_not_valid e = throw e

  abbrev pub tolerate_missing : Exception → Act Effect Bool
  tolerate_missing not_valid_422 = pure true
  tolerate_missing does_not_exist_404 = pure true
  tolerate_missing e = throw e

  unfoldable pub kill_task : Text → String → Act Effect Bool
  unfolding call
  kill_task app_id task_id =
      try_except (call oracle (kill_one_task app_id task_id)) tolerate_missing

  unfoldable pub kill_given_tasks : List String → Act Effect Bool
  unfolding call
  kill_given_tasks [] = pure true
  kill_given_tasks (t ∷ ts) = try_except (call oracle (kill_tasks (t ∷ ts))) tolerate_not_valid
