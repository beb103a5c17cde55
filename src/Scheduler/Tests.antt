-- ===== src/Scheduler/Tests.antt =====
-- A scheduler of three instances, run on small inputs.
use paasta.Prelude.{
  ℕ, nat_eq, ◌+◌, ◌≤◌, min, ◌≡◌, refl, Text, text_eq, codes, Bool, true, false, none, List, [], ◌∷◌,
  ok, lookup, insert, without, starts_with, text_beq, set_of, contains, contains-head, diff, length,
  arith,
}
use paasta.Effects.{Oracle}
use paasta.Scheduler.{
  Call, Config, Params, TaskState, World, finished, get_new_tasks, get_old_tasks, is_task_new, keys,
  running, staging, need_more_tasks, within_reconcile_backoff, group_tasks_by_version, version_of,
}
use paasta.Scheduler.Launch.{
  Offer, Random, can_launch, launch_task, offered, resource_offers, start_named, start_task,
}
use paasta.Scheduler.Launch.Loop.{Fits, Picks, start_task-Fits}
use paasta.Scheduler.Round.{Plan, get_draining_tasks, plan_round}
use paasta.Scheduler.Round.Planning.{
  happy_new, happy_old, new_tasks, old_tasks, round_finishes, round_keeps_service,
}
use paasta.Scheduler.Handlers.{
  Steps, registered, registers, offers, updates, start, next, status_update,
}
use paasta.Scheduler.Handlers.Ended.{Asked, NoneEnded}
use paasta.Scheduler.Handlers.Reached.{reached_kills_are_checked, reached_tracks_no_ended}

abbrev name : Text
name = codes "s.main.new"

abbrev config : Config
config = record { base_name = ok name; desired_instances = 3; cpus = 2; mem = 100; disk = 0 }

abbrev created : World
created = record {
  scheduler = record {
    tasks_with_flags = [];
    config = config;
    reconcile_start_time = none;
    reconcile_backoff = 30;
    framework_id = none;
  };
  sent = [];
  drawn = 0;
}

abbrev first_port : List ℕ → ℕ
first_port [] = 0
first_port (p ∷ ps) = p

abbrev random : Random
random = record { choice = λ n ports. first_port ports; uuid = λ n. (b'0' + n) ∷ [] }

random-Picks : Picks random
random-Picks n [] some_port = absurd (omega arith)
random-Picks n (p ∷ ps) some_port = contains-head p ps

-- Two cpus and 100 MB each: enough for two tasks.
abbrev offer : Offer
offer = record {
  id = codes "o1";
  slave_id = codes "slave";
  resources =
      record { name = "cpus"; value = 5; ranges = [] }
      ∷ record { name = "mem"; value = 1000; ranges = [] }
      ∷ record { name = "ports"; value = 0; ranges = (31000, 31003) ∷ [] }
      ∷ [];
}

abbrev agreeing : Oracle Call
agreeing h c = ok true

start_task_run :
    keys (start_task random offer created).1.scheduler.tasks_with_flags
    ≡ codes "s.main.new.0" ∷ codes "s.main.new.1" ∷ []
unfolding start_task keys set_of can_launch need_more_tasks launch_task lookup insert starts_with
    diff text_beq
start_task_run = refl

version_run : version_of (codes "s.main.new.0") ≡ name
unfolding version_of
version_run = refl

start_task-Fits_example :
    let first = offered random offer created in
    let l = start_named random offer name created in
    ((start_task random offer created).0 ≡ ok l.started)
    × ((start_task random offer created).1.scheduler.tasks_with_flags ≡ l.tasks)
    × Fits name config first l
    × (can_launch random config name (codes "slave") l ≡ false)
start_task-Fits_example = start_task-Fits random offer created name random-Picks refl

abbrev after_registered : World
after_registered = (registered agreeing 0 (codes "f") created).1

abbrev after_offers : World
after_offers = (resource_offers random agreeing 100 (offer ∷ []) after_registered).1

abbrev after_update : World
after_update = (status_update agreeing (codes "s.main.new.0") finished after_offers).1

abbrev three_steps : Steps agreeing random created after_update
three_steps =
    next (next (next start (registers 0 (codes "f"))) (offers 100 (offer ∷ [])))
      (updates (codes "s.main.new.0") finished)

after_update_run : keys after_update.scheduler.tasks_with_flags ≡ codes "s.main.new.1" ∷ []
unfolding keys registered resource_offers status_update lookup within_reconcile_backoff can_launch
    need_more_tasks launch_task insert starts_with diff text_beq get_new_tasks without get_old_tasks
    group_tasks_by_version get_draining_tasks
after_update_run = refl

reached_tracks_no_ended_example : NoneEnded after_update.scheduler.tasks_with_flags
reached_tracks_no_ended_example =
    reached_tracks_no_ended agreeing random created after_update (refl, refl) three_steps

reached_kills_are_checked_example : Asked agreeing after_update.sent
reached_kills_are_checked_example =
    reached_kills_are_checked agreeing random created after_update (refl, refl) three_steps

offers_returned :
    (resource_offers random agreeing 100 (offer ∷ offer ∷ []) after_registered).0 ≡ ok true
unfolding resource_offers registered within_reconcile_backoff set_of can_launch need_more_tasks
    launch_task lookup insert starts_with diff text_beq
offers_returned = refl

abbrev flags : TaskState → Bool → Params
flags state draining = record {
  mesos_task_state = state;
  is_draining = draining;
  is_healthy = false;
}

-- One new task runs and one starts; three old tasks run, and one of these drains.
abbrev bouncing : List (Text × Params)
bouncing =
    (codes "s.main.new.0", flags running false)
    ∷ (codes "s.main.new.1", flags staging false)
    ∷ (codes "s.main.old.0", flags running false)
    ∷ (codes "s.main.old.1", flags running false)
    ∷ (codes "s.main.old.2", flags running false)
    ∷ (codes "s.main.old.3", flags running true)
    ∷ []

few_new : length (new_tasks config name bouncing) ≤ 3
unfolding get_new_tasks keys set_of is_task_new starts_with text_beq
few_new = omega arith

round_keeps_service_example :
    (plan : Plan) × (plan_round config name bouncing ≡ ok plan)
    × ((t : Text)
        → contains (new_tasks config name bouncing) t ≡ true
        → contains plan.tasks_to_drain t ≡ false)
    × (min 3 (length (happy_new config name bouncing) + length (happy_old config name bouncing))
        ≤ length (happy_new config name bouncing)
          + length (diff (happy_old config name bouncing) plan.tasks_to_drain))
round_keeps_service_example = round_keeps_service config name bouncing few_new

abbrev one_wanted : Config
one_wanted = record config { desired_instances = 1 }

enough_new : 1 ≤ length (happy_new one_wanted name bouncing)
unfolding get_new_tasks keys lookup set_of is_task_new starts_with text_beq
enough_new = omega arith

round_finishes_example :
    (plan : Plan) × (plan_round one_wanted name bouncing ≡ ok plan)
    × ((t : Text)
        → contains (old_tasks one_wanted name bouncing) t ≡ true
        → contains (get_draining_tasks bouncing) t ≡ false
        → contains plan.tasks_to_drain t ≡ true)
round_finishes_example = round_finishes one_wanted name bouncing enough_new
