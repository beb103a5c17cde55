-- ===== src/Bounce.antt =====
-- paasta_tools/bounce_lib.py: the bounce methods, which decide what a deployment does next, the
-- tasks that count as happy, and the calls that create and delete a Marathon app under a lock.
-- A margin factor is a fraction: the code's float product is taken to be exact.
pub mod Safety
pub mod Locks
pub mod Happy
pub mod Tests
use paasta.Prelude.{
  ℕ, Eq, nat_eq, ◌+◌, ◌-◌, ◌*◌, ◌/◌, max, String, Text, text_eq, Bool, true, false, ◌&&◌, ◌||◌, not,
  Option, none, some, List, [], ◌∷◌, ◌++◌, map, contains, select, any_of, union, set_of, drop,
  length, ltb, leb, nat_beq, str_eq, Result, ok, raise, assertion_error, if◌then◌else◌,
}
use paasta.Marathon.{Task, Objects, App, is_task_healthy}

-- A dict from the ids of apps to sets of their tasks.
abbrev pub AppTasks : Type 0
AppTasks = List (Text × List Task)

unfoldable pub flatten_tasks : AppTasks → List Task
unfolding union
flatten_tasks [] = []
flatten_tasks ((app, tasks) ∷ d) = union tasks (flatten_tasks d)

pub record Actions : Type 0 where
  pub create_app : Bool
  pub tasks_to_drain : List Task

-- The keyword arguments of a bounce method; `instances` is that of the new config.
pub record Situation : Type 0 where
  pub instances : ℕ
  pub new_app_running : Bool
  pub happy_new_tasks : List Task
  pub old_happy : AppTasks
  pub old_unhappy : AppTasks
  pub margin_num : ℕ
  pub margin_den : ℕ

unfoldable pub brutal_bounce : Situation → Result Actions
brutal_bounce s = ok (record {
  create_app = not s.new_app_running;
  tasks_to_drain = union (flatten_tasks s.old_happy) (flatten_tasks s.old_unhappy);
})

unfoldable pub upthendown_bounce : Situation → Result Actions
upthendown_bounce s =
    if s.new_app_running && nat_beq (length s.happy_new_tasks) s.instances
    then ok (record {
      create_app = false;
      tasks_to_drain = union (flatten_tasks s.old_happy) (flatten_tasks s.old_unhappy);
    })
    else ok (record { create_app = not s.new_app_running; tasks_to_drain = [] })

-- int(math.ceil(instances * margin_factor))
unfoldable pub ceil_margin : ℕ → ℕ → ℕ → ℕ
ceil_margin instances num den = (instances * num + (den - 1)) / den

unfoldable pub needed_count : Situation → ℕ
unfolding ceil_margin
needed_count s = ceil_margin s.instances s.margin_num s.margin_den - length s.happy_new_tasks

-- The tasks of a dict, app by app.
unfoldable pub list_tasks : {A : Type 0} → List (Text × List A) → List A
list_tasks [] = []
list_tasks ((app, tasks) ∷ d) = tasks ++ list_tasks d

-- The old tasks but the first `needed` ones: first those of `old_app_live_happy_tasks`.
abbrev pub beyond_needed :
    {A : Type 0} ⦃e : Eq A⦄ → ℕ → List (Text × List A) → List (Text × List A) → List A
beyond_needed needed happy unhappy = set_of (drop needed (list_tasks happy ++ list_tasks unhappy))

unfoldable pub crossover_bounce : Situation → Result Actions
crossover_bounce s =
    if ltb 0 s.margin_num && leb s.margin_num s.margin_den
    then ok (record {
      create_app = not s.new_app_running;
      tasks_to_drain = beyond_needed (needed_count s) s.old_happy s.old_unhappy;
    })
    else raise assertion_error

abbrev is_empty : AppTasks → Bool
is_empty [] = true
is_empty (e ∷ d) = false

unfoldable pub downthenup_bounce : Situation → Result Actions
downthenup_bounce s = ok (record {
  create_app = is_empty s.old_happy && not s.new_app_running;
  tasks_to_drain = union (flatten_tasks s.old_happy) (flatten_tasks s.old_unhappy);
})

unfoldable pub down_bounce : Situation → Result Actions
down_bounce s = ok (record {
  create_app = false;
  tasks_to_drain = union (flatten_tasks s.old_happy) (flatten_tasks s.old_unhappy);
})

-- The registry of bounce methods.
pub data Method : Type 0 where
  brutal upthendown crossover downthenup down : Method

unfoldable pub bounce_func : Method → Situation → Result Actions
unfolding brutal_bounce upthendown_bounce crossover_bounce downthenup_bounce down_bounce
bounce_func brutal = brutal_bounce
bounce_func upthendown = upthendown_bounce
bounce_func crossover = crossover_bounce
bounce_func downthenup = downthenup_bounce
bounce_func down = down_bounce

-- get_bounce_method_func; none where the lookup raises a KeyError
unfoldable pub get_bounce_method_func : String → Option Method
get_bounce_method_func name =
    if str_eq name "brutal"
    then some brutal
    else if str_eq name "upthendown"
    then some upthendown
    else if str_eq name "crossover"
    then some crossover
    else if str_eq name "downthenup"
    then some downthenup
    else if str_eq name "down"
    then some down
    else none

-- What get_happy_tasks reads besides the app: the clock, the options, and for each location the
-- tasks that haproxy has registered on its first host (get_registered_marathon_tasks).
pub record HealthEnv : Type 0 where
  pub objects : Objects
  pub now : ℕ
  pub min_task_uptime : Option ℕ
  pub check_haproxy : Bool
  pub registered : List (List Task → List Task)

abbrev pub too_young : (now : ℕ) (min_task_uptime : Option ℕ) (started : ℕ) → Bool
too_young now none started = false
too_young now (some uptime) started = ltb now (started + uptime)

abbrev pub started_long_ago : HealthEnv → Option ℕ → Bool
started_long_ago env none = false
started_long_ago env (some started) = not (too_young env.now env.min_task_uptime started)

abbrev pub lacks_results : ℕ → List Bool → Bool
lacks_results checks [] = ltb 0 checks
lacks_results checks (r ∷ rs) = false

-- The body of the loop: whether a task is appended to `happy`.
unfoldable pub is_happy : HealthEnv → App → Task → Bool
unfolding is_task_healthy
is_happy env app task =
    started_long_ago env (env.objects.started_at task)
    && (not (lacks_results app.health_checks (env.objects.alive task))
        && is_task_healthy env.objects false true task)

unfoldable pub tasks_in_smartstack : List (List Task → List Task) → List Task → List Task
tasks_in_smartstack [] tasks = []
tasks_in_smartstack (r ∷ rs) tasks = r tasks ++ tasks_in_smartstack rs tasks

unfoldable pub get_happy_tasks : HealthEnv → App → List Task
unfolding is_happy tasks_in_smartstack
get_happy_tasks env app =
    select (is_happy env app)
      (if env.check_haproxy then tasks_in_smartstack env.registered app.tasks else app.tasks)
