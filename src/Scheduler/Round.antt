-- ===== src/Scheduler/Round.antt =====
-- kill_tasks_if_necessary of paasta_tools/native_mesos_scheduler.py and what it calls: which tasks
-- are drained, put back into service and killed, by the crossover bounce of
-- paasta_tools/bounce_lib.py.
pub mod Returning
pub mod Grouping
pub mod Planning
use paasta.Prelude.{
  sort_by, ℕ, nat_eq, ◌+◌, ◌-◌, ◌*◌, leb, Text, text_eq, Bool, true, false, ◌&&◌, not, Option, none,
  some, List, [], ◌∷◌, ◌++◌, map, Result, ok, raise, key_error, lookup, insert, diff, set_of,
  select, drop, length, contains, ◌>>=◌ as bind, if◌then◌else◌,
}
use paasta.Effects.{Oracle}
use paasta.Effects.Stateful.{Prog, and_then, pure, throw, compute, lift, read, update, ◌>>=◌, ◌>>◌}
use paasta.Bounce.{ceil_margin, beyond_needed, list_tasks}
use paasta.Scheduler.{
  Call, kill_task, drain, stop_draining, is_safe_to_kill, Config, Handler, Params, PaastaScheduler,
  TaskState, staging, starting, running, killing, finished, failed, killed, lost, error,
  TasksWithFlags, World, ask, get_new_tasks, get_old_tasks, group_tasks_by_version, is_live_state,
  is_running_state, is_task_new, keys, set_tasks,
}

-- self.tasks_with_flags[tid]
abbrev pub found_params : Option Params → Result Params
found_params (some params) = ok params
found_params none = raise key_error

unfoldable pub params_at : TasksWithFlags → Text → Result Params
params_at d tid = found_params (lookup tid d)

-- Whether the task runs and is not draining.
abbrev pub is_happy_task : Params → Bool
is_happy_task params = is_running_state params.mesos_task_state && not params.is_draining

unfoldable pub get_happy_tasks : TasksWithFlags → List Text → Result (List Text)
unfolding params_at
get_happy_tasks d [] = ok []
get_happy_tasks d (tid ∷ tids) =
    let rest = get_happy_tasks d tids in
    bind (params_at d tid)
      λ params. bind rest λ happy. ok (if is_happy_task params then tid ∷ happy else happy)

-- The argument `tasks` is not read.
unfoldable pub get_draining_tasks : TasksWithFlags → List Text
get_draining_tasks [] = []
get_draining_tasks ((tid, params) ∷ d) =
    let rest = get_draining_tasks d in if params.is_draining then tid ∷ rest else rest

abbrev pub state_score : TaskState → ℕ
state_score staging = 1
state_score starting = 2
state_score running = 3
state_score _ = 0

abbrev as_number : Bool → ℕ
as_number true = 1
as_number false = 0

-- The tuple (is_healthy, state_score, is_task_new) as one number in the same order: a score is below 4.
unfoldable pub healthiness_score : Text → Text → Params → ℕ
unfolding is_task_new
healthiness_score name tid params =
    as_number params.is_healthy * 8
    + state_score params.mesos_task_state * 2
    + as_number (is_task_new name tid)

-- sorted(..., reverse=True): descending, equal keys in their order before.
abbrev pub sort_by_score : List (ℕ × Text) → List (ℕ × Text)
sort_by_score = sort_by (λ x y. leb y.0 x.0)

unfoldable pub scored : TasksWithFlags → Text → List Text → Result (List (ℕ × Text))
unfolding healthiness_score params_at
scored d name [] = ok []
scored d name (tid ∷ tids) =
    let rest = scored d name tids in
    bind (params_at d tid)
      λ params. bind rest λ more. ok ((healthiness_score name tid params, tid) ∷ more)

unfoldable pub by_desirability : TasksWithFlags → Text → List Text → Result (List Text)
unfolding scored
by_desirability d name tids =
    bind (scored d name tids) λ xs. ok (map (λ (x : ℕ × Text). x.1) (sort_by_score xs))

-- What a round decides: the new tasks to put back into service, and the tasks to drain.
pub record Plan : Type 0 where
  pub tasks_to_undrain : List Text
  pub tasks_to_drain : List Text

-- crossover_bounce with instances = desired, and the default margin_factor of 1.
unfoldable pub crossover :
    ℕ → List Text → List (Text × List Text) → List (Text × List Text) → List Text
unfolding ceil_margin list_tasks set_of
crossover desired happy_new old_happy old_unhappy =
    beyond_needed (ceil_margin desired 1 1 - length happy_new) old_happy old_unhappy

unfoldable pub plan_round : Config → Text → TasksWithFlags → Result Plan
unfolding crossover get_happy_tasks by_desirability
plan_round config name d =
    let new_tasks = get_new_tasks name (keys d) in
    let old_tasks = get_old_tasks name (keys d) in
    bind (get_happy_tasks d new_tasks) λ happy_new_tasks.
      bind (by_desirability d name new_tasks) λ new_by_desirability.
        bind (get_happy_tasks d old_tasks) λ old_happy_tasks.
          let new_tasks_to_kill = drop config.desired_instances new_by_desirability in
          let old_draining_tasks = get_draining_tasks d in
          let old_unhappy_tasks = diff (diff old_tasks old_happy_tasks) old_draining_tasks in
          let to_drain =
            crossover config.desired_instances happy_new_tasks
              (group_tasks_by_version (old_happy_tasks ++ new_tasks_to_kill))
              (group_tasks_by_version old_unhappy_tasks) in
          ok (record { tasks_to_undrain = diff new_tasks to_drain; tasks_to_drain = to_drain })

-- self.tasks_with_flags[tid].<field> = ...
abbrev pub change_task : Text → (Params → Params) → Handler Bool
change_task tid change = read (λ w. w.scheduler.tasks_with_flags) >>= λ d.
    lift (params_at d tid) >>= λ params. update (set_tasks (insert tid (change params) d))

module _ (oracle : Oracle Call) where
  unfoldable pub undrain_task : Text → Handler Bool
  unfolding ask params_at
  undrain_task tid =
      ask oracle (stop_draining tid) >> change_task tid (λ p. record p { is_draining = false })

  unfoldable pub drain_task : Text → Handler Bool
  unfolding ask params_at
  drain_task tid = ask oracle (drain tid) >> change_task tid (λ p. record p { is_draining = true })

  unfoldable pub kill_one : Text → Handler Bool
  unfolding ask params_at
  kill_one tid =
      ask oracle (kill_task tid) >> change_task tid (λ p. record p { mesos_task_state = killing })

  abbrev pub for_each : List Text → (Text → Handler Bool) → Handler Bool
  for_each [] body = pure true
  for_each (tid ∷ tids) body = body tid >> for_each tids body

  unfoldable pub kill_if_safe : Text → Handler Bool
  unfolding kill_one ask
  kill_if_safe tid =
      ask oracle (is_safe_to_kill tid) >>= λ safe. if safe then kill_one tid else pure true

  abbrev pub kill_draining : Handler Bool
  kill_draining = read (λ w. get_draining_tasks w.scheduler.tasks_with_flags) >>= λ draining.
      for_each draining kill_if_safe

  -- The three loops of kill_tasks_if_necessary.
  abbrev pub carry_out : Plan → Handler Bool
  carry_out plan =
      for_each plan.tasks_to_undrain undrain_task
      >> for_each plan.tasks_to_drain drain_task
      >> kill_draining

  unfoldable pub kill_tasks_if_necessary : Handler Bool
  unfolding plan_round undrain_task drain_task kill_if_safe
  kill_tasks_if_necessary = compute (λ w. w.scheduler.config.base_name) >>= λ name.
      compute (λ w. plan_round w.scheduler.config name w.scheduler.tasks_with_flags) >>= carry_out
