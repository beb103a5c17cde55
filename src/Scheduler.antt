-- ===== src/Scheduler.antt =====
-- paasta_tools/native_mesos_scheduler.py: the scheduler of one service instance, which starts tasks
-- from offers, follows status updates, and drains and kills the tasks that it no longer wants.
-- The task ids are texts, resources are counted in whole units, and the answers of the Mesos driver
-- and of the drain method come from an oracle.
pub mod Launch
pub mod Round
pub mod Handlers
pub mod Tests
use paasta.Prelude.{
  ℕ, ◌+◌, ltb, String, Text, text_eq, Bool, true, false, ◌&&◌, ◌||◌, not, Option, none, some, List,
  [], ◌∷◌, ◌++◌, map, codes, Result, ok, raise, key_error, lookup, insert, without, starts_with,
  nat_beq, set_of, select, length, if◌then◌else◌,
}
use paasta.Effects.{Oracle}
use paasta.Effects.Stateful.{Prog, and_then, pure, throw, lift, read, update, ◌>>=◌, ◌>>◌}

-- MESOS_TASK_SPACER
abbrev pub mesos_task_spacer : ℕ
mesos_task_spacer = b'.'

-- The states of mesos_pb2 that the scheduler knows.
pub data TaskState : Type 0 where
  staging starting running killing finished failed killed lost error : TaskState

-- mesos_task_state in LIVE_TASK_STATES
abbrev pub is_live_state : TaskState → Bool
is_live_state staging = true
is_live_state starting = true
is_live_state running = true
is_live_state _ = false

abbrev pub is_running_state : TaskState → Bool
is_running_state running = true
is_running_state _ = false

-- MesosTaskParameters; `health` is never read.
pub record Params : Type 0 where
  pub mesos_task_state : TaskState
  pub is_draining : Bool
  pub is_healthy : Bool

abbrev pub TasksWithFlags : Type 0
TasksWithFlags = List (Text × Params)

-- What the scheduler reads of its service config. `base_name` is the name of base_task(...), or what
-- computing it raises.
pub record Config : Type 0 where
  pub base_name : Result Text
  pub desired_instances : ℕ
  pub cpus : ℕ
  pub mem : ℕ
  pub disk : ℕ

-- `reconcile_start_time` is none where it is float('inf').
pub record PaastaScheduler : Type 0 where
  pub tasks_with_flags : TasksWithFlags
  pub config : Config
  pub reconcile_start_time : Option ℕ
  pub reconcile_backoff : ℕ
  pub framework_id : Option Text

-- A task that is started: the fields of its TaskInfo that start_task fills in.
pub record TaskInfo : Type 0 where
  pub task_id : Text
  pub slave_id : Text
  pub host_port : ℕ

-- Calls of the Mesos driver and of the drain method.
pub data Call : Type 0 where
  reconcile_tasks : List Text → Call
  decline_offer : Text → Call
  accept_offers : Text → List TaskInfo → Call
  revive_offers : Call
  acknowledge_status_update : Text → TaskState → Call
  kill_task : Text → Call
  drain stop_draining is_safe_to_kill : Text → Call

-- The scheduler with the calls that it has made, the latest first, and the number of random draws.
pub record World : Type 0 where
  pub scheduler : PaastaScheduler
  pub sent : List Call
  pub drawn : ℕ

abbrev pub Handler : Type 0 → Type 0
Handler A = Prog World A

unfoldable pub ask : Oracle Call → Call → Handler Bool
ask oracle c w = (oracle w.sent c, record w { sent = c ∷ w.sent })

abbrev pub set_tasks : TasksWithFlags → World → World
set_tasks tasks w = record w { scheduler = record w.scheduler { tasks_with_flags = tasks } }

-- tid.startswith("%s." % name)
unfoldable pub is_task_new : Text → Text → Bool
is_task_new name tid = starts_with tid (name ++ mesos_task_spacer ∷ [])

-- The keys of a dict.
unfoldable pub keys : TasksWithFlags → List Text
keys [] = []
keys ((tid, params) ∷ d) = tid ∷ keys d

unfoldable pub get_new_tasks : Text → List Text → List Text
get_new_tasks name tasks = set_of (select (is_task_new name) tasks)

unfoldable pub get_old_tasks : Text → List Text → List Text
get_old_tasks name tasks = set_of (select (λ tid. not (is_task_new name tid)) tasks)

-- The loop of need_more_tasks.
unfoldable pub num_have : Text → TasksWithFlags → ℕ
unfolding is_task_new
num_have name [] = 0
num_have name ((tid, params) ∷ d) =
    let have = num_have name d in
    if is_task_new name tid && is_live_state params.mesos_task_state then have + 1 else have

unfoldable pub need_more_tasks : Text → Config → TasksWithFlags → Bool
unfolding num_have
need_more_tasks name config tasks = ltb (num_have name tasks) config.desired_instances

-- time.time() - self.reconcile_backoff < self.reconcile_start_time
unfoldable pub within_reconcile_backoff : ℕ → PaastaScheduler → Bool
within_reconcile_backoff now s = elim s.reconcile_start_time [
  | none ↦ true
  | some start ↦ ltb now (start + s.reconcile_backoff)
]

-- task.task_id.rsplit('.', 1)[0]; none where there is no dot
abbrev before_last_dot : Text → Option Text
before_last_dot [] = none
before_last_dot (c ∷ s) = elim (before_last_dot s) [
  | some t ↦ some (c ∷ t)
  | none ↦ if nat_beq c mesos_task_spacer then some [] else none
]

unfoldable pub version_of : Text → Text
version_of tid = elim (before_last_dot tid) [ some t ↦ t | none ↦ tid ]

-- d.setdefault(version, []).append(task_id)
abbrev pub listed : Option (List Text) → List Text
listed (some tids) = tids
listed none = []

abbrev pub append_at : Text → Text → List (Text × List Text) → List (Text × List Text)
append_at version tid d = insert version (listed (lookup version d) ++ tid ∷ []) d

abbrev pub group_loop : List (Text × List Text) → List Text → List (Text × List Text)
group_loop d [] = d
group_loop d (tid ∷ tids) = group_loop (append_at (version_of tid) tid d) tids

unfoldable pub group_tasks_by_version : List Text → List (Text × List Text)
unfolding version_of
group_tasks_by_version tids = group_loop [] tids
