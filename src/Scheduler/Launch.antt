-- ===== src/Scheduler/Launch.antt =====
-- resourceOffers, start_task and task_fits of paasta_tools/native_mesos_scheduler.py: the tasks that
-- are started from an offer. `random.choice` and `uuid.uuid4` are parameters, indexed by the number
-- of draws made before.
pub mod Ports
pub mod Loop
pub mod Answers
use paasta.Prelude.{
  ℕ, nat_eq, zero, suc, ◌+◌, ◌-◌, ltb, leb, String, Text, text_eq, str_eq, Bool, true, false, ◌&&◌,
  not, Option, none, some, List, [], ◌∷◌, ◌++◌, Result, ok, raise, lookup, insert, diff, set_of,
  length, if◌then◌else◌,
}
use paasta.Effects.{Oracle}
use paasta.Effects.Stateful.{Prog, and_then, pure, throw, compute, read, update, ◌>>=◌, ◌>>◌}
use paasta.Scheduler.{
  Call, decline_offer, accept_offers, Config, Handler, Params, PaastaScheduler, TaskInfo,
  TasksWithFlags, World, ask, mesos_task_spacer, need_more_tasks, set_tasks, staging,
  within_reconcile_backoff,
}

-- A resource of an offer: a scalar, or ranges with both ends in.
pub record Resource : Type 0 where
  pub name : String
  pub value : ℕ
  pub ranges : List (ℕ × ℕ)

pub record Offer : Type 0 where
  pub id : Text
  pub slave_id : Text
  pub resources : List Resource

-- needed_resources; none where the name is no key of it
abbrev needed_resource : Config → String → Option ℕ
needed_resource config name =
    if str_eq name "cpus"
    then some config.cpus
    else if str_eq name "mem"
    then some config.mem
    else if str_eq name "disk"
    then some config.disk
    else none

abbrev too_small : Option ℕ → ℕ → Bool
too_small none value = false
too_small (some needed) value = ltb value needed

unfoldable pub fits_all : Config → List Resource → Bool
fits_all config [] = true
fits_all config (r ∷ rs) =
    let rest = fits_all config rs in
    if too_small (needed_resource config r.name) r.value then false else rest

unfoldable pub task_fits : Config → Offer → Bool
unfolding fits_all
task_fits config offer = fits_all config offer.resources

-- range(begin, begin + n)
abbrev range_from : ℕ → ℕ → List ℕ
range_from begin zero = []
range_from begin (suc n) = begin ∷ range_from (begin + 1) n

abbrev ports_of : List (ℕ × ℕ) → List ℕ
ports_of [] = []
ports_of ((begin, end) ∷ rs) = range_from begin (end + 1 - begin) ++ ports_of rs

-- The state of start_task's loops: what remains of the offer, and the tasks.
pub record Launch : Type 0 where
  pub cpus : ℕ
  pub mem : ℕ
  pub ports : List ℕ
  pub tasks : TasksWithFlags
  pub started : List TaskInfo
  pub drawn : ℕ

abbrev pub add_resource : Resource → Launch → Launch
add_resource r l =
    if str_eq r.name "cpus"
    then record l { cpus = l.cpus + r.value }
    else if str_eq r.name "mem"
    then record l { mem = l.mem + r.value }
    else if str_eq r.name "ports"
    then record l { ports = l.ports ++ ports_of r.ranges }
    else l

unfoldable pub add_resources : List Resource → Launch → Launch
add_resources [] l = l
add_resources (r ∷ rs) l = add_resources rs (add_resource r l)

-- d.setdefault(k, v)
unfoldable pub set_default : Text → Params → TasksWithFlags → TasksWithFlags
set_default tid params d = elim (lookup tid d) [ some old ↦ d | none ↦ insert tid params d ]

abbrev pub new_params : Params
new_params = record { mesos_task_state = staging; is_draining = false; is_healthy = false }

pub record Random : Type 0 where
  pub choice : ℕ → List ℕ → ℕ
  pub uuid : ℕ → Text

module _ (random : Random) where
  -- "%s.%s" % (t.name, uuid.uuid4().hex)
  abbrev pub new_task_id : Text → ℕ → Text
  new_task_id name n = name ++ mesos_task_spacer ∷ random.uuid n

  module _ (config : Config) (name : Text) (slave_id : Text) where
    -- The condition of the loop.
    unfoldable pub can_launch : Launch → Bool
    can_launch l =
        need_more_tasks name config l.tasks
        && (leb config.cpus l.cpus && (leb config.mem l.mem && leb 1 (length l.ports)))

    -- The body of the loop.
    unfoldable pub launch_task : Launch → Launch
    unfolding set_default
    launch_task l =
        let task_port = random.choice l.drawn l.ports in
        let tid = new_task_id name l.drawn in
        record {
          cpus = l.cpus - config.cpus;
          mem = l.mem - config.mem;
          ports = diff l.ports (task_port ∷ []);
          tasks = set_default tid new_params l.tasks;
          started =
              l.started
              ++ record { task_id = tid; slave_id = slave_id; host_port = task_port } ∷ [];
          drawn = l.drawn + 1;
        }

    -- The loop, with fuel.
    unfoldable pub launch_loop : ℕ → Launch → Launch
    launch_loop zero l = l
    launch_loop (suc fuel) l = elim (can_launch l) [
      | true ↦ launch_loop fuel (launch_task l)
      | false ↦ l
    ]

  abbrev pub unlaunched : World → Launch
  unlaunched w = record {
    cpus = 0;
    mem = 0;
    ports = [];
    tasks = w.scheduler.tasks_with_flags;
    started = [];
    drawn = w.drawn;
  }

  -- What the loop starts from: the resources of the offer, the ports as a set.
  unfoldable pub offered : Offer → World → Launch
  unfolding add_resources
  offered offer w =
      let l = add_resources offer.resources (unlaunched w) in record l { ports = set_of l.ports }

  -- The whole of start_task after base_task, with as much fuel as there are ports.
  unfoldable pub start_named : Offer → Text → World → Launch
  unfolding launch_loop offered
  start_named offer name w =
      let l = offered offer w in
      launch_loop w.scheduler.config name offer.slave_id (length l.ports) l

  abbrev pub take_launch : Launch → World → World
  take_launch l w = record w {
    scheduler = record w.scheduler { tasks_with_flags = l.tasks };
    drawn = l.drawn;
  }

  abbrev pub start_all : Offer → Text → Handler (List TaskInfo)
  start_all offer name =
      read (start_named offer name) >>= λ l. update (take_launch l) >> pure l.started

  unfoldable pub start_task : Offer → Handler (List TaskInfo)
  unfolding start_named
  start_task offer = compute (λ w. w.scheduler.config.base_name) >>= start_all offer

  module _ (oracle : Oracle Call) where
    abbrev pub decline_all : List Offer → Handler Bool
    decline_all [] = pure true
    decline_all (o ∷ os) = ask oracle (decline_offer o.id) >> decline_all os

    abbrev pub answer_offer : Offer → List TaskInfo → Handler Bool
    answer_offer o [] = ask oracle (decline_offer o.id)
    answer_offer o (t ∷ ts) = ask oracle (accept_offers o.id (t ∷ ts))

    abbrev pub use_offers : List Offer → Handler Bool
    use_offers [] = pure true
    use_offers (o ∷ os) = start_task o >>= answer_offer o >> use_offers os

    unfoldable pub resource_offers : (now : ℕ) → List Offer → Handler Bool
    unfolding start_task ask
    resource_offers now offers = read (λ w. within_reconcile_backoff now w.scheduler) >>= λ within.
        if within then decline_all offers else use_offers offers
