-- ===== src/Bounce/Tests.antt =====
-- Bounce methods and calls under a lock at concrete inputs.
use paasta.Prelude.{
  not, any_of, nat_eq, ◌+◌, ◌-◌, ◌≤◌, ◌≡◌, ◌⊎◌, refl, codes, Bool, true, false, some, none, [], ◌∷◌,
  contains, length, ok, raise, timeout, arith, set_of, union,
}
use paasta.Effects.{Oracle}
use paasta.Marathon.{Objects, App, Effect, app_running, delete_app}
use paasta.Bounce.{
  Actions, Situation, crossover, crossover_bounce, upthendown_bounce, downthenup_bounce,
  ceil_margin, needed_count, list_tasks, flatten_tasks, HealthEnv, get_bounce_method_func,
}
use paasta.Bounce.Safety.{ceil_margin_bounds, old_tasks, crossover_keeps_margin, crossover_finishes}
use paasta.Bounce.Locks.{with_lock, wait_until, create_marathon_app, delete_marathon_app}

-- Two of four new tasks are happy, and five old tasks are left.
abbrev half_way : Situation
half_way = record {
  instances = 4;
  new_app_running = true;
  happy_new_tasks = 11 ∷ 12 ∷ [];
  old_happy = (codes "/old", 1 ∷ 2 ∷ 3 ∷ []) ∷ [];
  old_unhappy = (codes "/old", 4 ∷ 5 ∷ []) ∷ [];
  margin_num = 3;
  margin_den = 4;
}

abbrev drain_four : Actions
drain_four = record { create_app = false; tasks_to_drain = 2 ∷ 3 ∷ 4 ∷ 5 ∷ [] }

crossover_half_way : crossover_bounce half_way ≡ ok drain_four
unfolding crossover_bounce needed_count ceil_margin list_tasks set_of
crossover_half_way = refl

crossover_keeps_margin_example :
    (drain_four.tasks_to_drain ≡ []) ⊎ (ceil_margin 4 3 4 ≤ 2 + (length (old_tasks half_way) - 4))
crossover_keeps_margin_example = crossover_keeps_margin half_way drain_four crossover_half_way

abbrev all_new : Situation
all_new = record half_way { happy_new_tasks = 11 ∷ 12 ∷ 13 ∷ 14 ∷ [] }

abbrev drain_all : Actions
drain_all = record { create_app = false; tasks_to_drain = 1 ∷ 2 ∷ 3 ∷ 4 ∷ 5 ∷ [] }

crossover_all_new : crossover_bounce all_new ≡ ok drain_all
unfolding crossover_bounce needed_count ceil_margin list_tasks set_of
crossover_all_new = refl

crossover_finishes_example : contains drain_all.tasks_to_drain 3 ≡ contains (old_tasks all_new) 3
crossover_finishes_example = crossover_finishes all_new drain_all crossover_all_new margin_met 3
  where
    margin_met : ceil_margin 4 3 4 ≤ 4
    margin_met = (ceil_margin_bounds 4 3 4 (omega arith) (omega arith)).2

upthendown_all_new : upthendown_bounce all_new ≡ ok drain_all
unfolding upthendown_bounce flatten_tasks union
upthendown_all_new = refl

abbrev no_app_left : Situation
no_app_left = record half_way {
  new_app_running = false;
  happy_new_tasks = [];
  old_happy = [];
  old_unhappy = [];
}

abbrev create_only : Actions
create_only = record { create_app = true; tasks_to_drain = [] }

downthenup_no_app_left : downthenup_bounce no_app_left ≡ ok create_only
unfolding downthenup_bounce flatten_tasks union
downthenup_no_app_left = refl

abbrev objects : Objects
objects = record {
  id = λ t. "task";
  host = λ t. "host";
  started_at = λ t. some 50;
  alive = λ t. true ∷ [];
}

abbrev env : HealthEnv
env = record {
  objects = objects;
  now = 100;
  min_task_uptime = some 30;
  check_haproxy = false;
  registered = [];
}

abbrev app : App
app = record { id = codes "/new"; tasks = 1 ∷ 2 ∷ []; instances = 2; health_checks = 1 }

-- Every call succeeds and answers true.
abbrev agreeable : Oracle Effect
agreeable h e = ok true

abbrev is_deletion : Effect → Bool
is_deletion (delete_app id) = true
is_deletion e = false

-- The app is listed until it is deleted.
abbrev truthful : Oracle Effect
truthful h (app_running id) = ok (not (any_of is_deletion h))
truthful h e = ok true

create_marathon_app_returns : (create_marathon_app truthful 3 (codes "new") []).0 ≡ ok true
unfolding create_marathon_app with_lock wait_until
create_marathon_app_returns = refl

delete_marathon_app_returns : (delete_marathon_app truthful 3 (codes "new") []).0 ≡ ok true
unfolding delete_marathon_app with_lock wait_until
delete_marathon_app_returns = refl

-- An app that stays listed is not deleted within the time limit.
delete_times_out : (delete_marathon_app agreeable 3 (codes "old") []).0 ≡ raise timeout
unfolding delete_marathon_app with_lock wait_until
delete_times_out = refl

known_method : get_bounce_method_func "crossover" ≡ some crossover
unfolding get_bounce_method_func
known_method = refl

unknown_method : get_bounce_method_func "sideways" ≡ none
unfolding get_bounce_method_func
unknown_method = refl
