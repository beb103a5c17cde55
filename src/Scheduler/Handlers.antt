-- ===== src/Scheduler/Handlers.antt =====
-- registered, statusUpdate and periodic of paasta_tools/native_mesos_scheduler.py, and the steps
-- that the callbacks of a scheduler make.
pub mod Ended
pub mod Tracked
pub mod Reached
use paasta.Prelude.{
  ℕ, Text, text_eq, Bool, true, false, ◌||◌, Option, none, some, List, [], ◌∷◌, Result, ok, raise,
  key_error, lookup, insert, without, if◌then◌else◌,
}
use paasta.Effects.{Oracle}
use paasta.Effects.Stateful.{Prog, and_then, pure, throw, lift, read, update, ◌>>=◌, ◌>>◌}
use paasta.Scheduler.{
  Call, reconcile_tasks, revive_offers, acknowledge_status_update, Config, Handler, Params,
  TaskState, staging, starting, running, killing, finished, failed, killed, lost, error,
  TasksWithFlags, World, ask, set_tasks, within_reconcile_backoff,
}
use paasta.Scheduler.Launch.{Offer, Random, resource_offers}
use paasta.Scheduler.Round.{kill_tasks_if_necessary}

-- The states on which statusUpdate forgets a task.
abbrev pub is_terminal : TaskState → Bool
is_terminal lost = true
is_terminal killed = true
is_terminal failed = true
is_terminal finished = true
is_terminal _ = false

abbrev pop_found : Text → TasksWithFlags → Option Params → Handler Bool
pop_found tid d none = throw key_error
pop_found tid d (some params) = update (set_tasks (without tid d))

-- self.tasks_with_flags.pop(task_id)
unfoldable pub pop_task : Text → Handler Bool
pop_task tid = read (λ w. w.scheduler.tasks_with_flags) >>= λ d. pop_found tid d (lookup tid d)

-- setdefault, and the state of the entry
unfoldable pub set_state : TaskState → Option Params → Params
set_state state (some params) = record params { mesos_task_state = state }
set_state state none = record { mesos_task_state = state; is_draining = false; is_healthy = false }

unfoldable pub record_state : Text → TaskState → Handler Bool
unfolding set_state
record_state tid state = read (λ w. w.scheduler.tasks_with_flags) >>= λ d.
    update (set_tasks (insert tid (set_state state (lookup tid d)) d))

abbrev pub set_framework_id : Text → World → World
set_framework_id id w = record w { scheduler = record w.scheduler { framework_id = some id } }

abbrev pub set_reconcile_start_time : ℕ → World → World
set_reconcile_start_time now w = record w {
  scheduler = record w.scheduler { reconcile_start_time = some now };
}

abbrev pub set_config : Config → World → World
set_config config w = record w { scheduler = record w.scheduler { config = config } }

abbrev pub load_config : Result Config → Handler Bool
load_config loaded = lift loaded >>= λ config. update (set_config config)

module _ (oracle : Oracle Call) where
  unfoldable pub registered : (now : ℕ) → Text → Handler Bool
  unfolding ask
  registered now framework_id =
      update (set_framework_id framework_id)
      >> update (set_reconcile_start_time now)
      >> ask oracle (reconcile_tasks [])

  unfoldable pub status_update : Text → TaskState → Handler Bool
  unfolding ask pop_task record_state kill_tasks_if_necessary
  status_update tid state =
      (if is_terminal state then pop_task tid else record_state tid state)
      >> ask oracle (acknowledge_status_update tid state)
      >> kill_tasks_if_necessary oracle

  abbrev pub revive_unless_within : ℕ → Handler Bool
  revive_unless_within now = read (λ w. within_reconcile_backoff now w.scheduler) >>= λ within.
      if within then pure true else ask oracle revive_offers

  -- `loaded` is what load_config reads and makes of the files, or what it raises.
  unfoldable pub periodic : (now : ℕ) → (loaded : Result Config) → Handler Bool
  unfolding ask kill_tasks_if_necessary
  periodic now loaded =
      revive_unless_within now >> load_config loaded >> kill_tasks_if_necessary oracle

  -- A callback of the driver or of the main loop, whether it returns or raises.
  pub data Step (random : Random) (w : World) : World → Type 0 where
    registers : (now : ℕ) (id : Text) → Step random w (registered now id w).1
    offers : (now : ℕ) (os : List Offer) → Step random w (resource_offers random oracle now os w).1
    updates : (tid : Text) (state : TaskState) → Step random w (status_update tid state w).1
    ticks : (now : ℕ) (loaded : Result Config) → Step random w (periodic now loaded w).1

  pub data Steps (random : Random) (w : World) : World → Type 0 where
    start : Steps random w w
    next : {v u : World} → Steps random w v → Step random v u → Steps random w u
