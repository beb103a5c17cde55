-- ===== src/Scheduler/Launch/Loop.antt =====
-- The loop of start_task.
use paasta.Prelude.{
  ℕ, nat_eq, zero, suc, ◌+◌, ◌-◌, ◌*◌, ◌≤◌, ◌<◌, max, ◌≡◌, refl, sym, ◌∙◌, inl, inr, Text, text_eq,
  true, false, none, List, [], ◌∷◌, ◌++◌, ok, lookup, insert, contains, contains-diff, no_repeats,
  and_parts, Bool-cases, Option-cases, length, length-append, arith,
}
use paasta.Scheduler.{World, Config, Params, TaskInfo, TasksWithFlags, num_have, need_more_tasks}
use paasta.Scheduler.Launch.{
  Launch, Offer, Random, Resource, add_resource, add_resources, offered, start_named, start_task,
  can_launch, launch_task, launch_loop, set_default, new_params, new_task_id,
}
use paasta.Scheduler.Launch.Ports.{
  length-diff_member, host_ports, host_ports-append, no_repeats-append, diff-Used,
}

-- random.choice picks one of the list.
abbrev pub Picks : Random → Type 0
Picks random = (n : ℕ) (xs : List ℕ) → 0 < length xs → contains xs (random.choice n xs) ≡ true

module _ (name : Text) where
  num_have-insert :
      (tid : Text) (params : Params) (d : TasksWithFlags)
      → lookup tid d ≡ none
      → num_have name (insert tid params d) ≤ num_have name d + 1
  unfolding num_have lookup insert
  num_have-insert tid params [] gone = ground arith
  num_have-insert tid params ((t, p) ∷ d) gone = ground (arith, num_have-insert tid params d)

  num_have-set_default :
      (tid : Text) (params : Params) (d : TasksWithFlags)
      → num_have name (set_default tid params d) ≤ num_have name d + 1
  unfolding set_default
  num_have-set_default tid params d = elim (Option-cases (lookup tid d)) [
    | inl gone ↦ rw (set_default, gone) (num_have-insert tid params d gone)
    | inr (old, there) ↦ rw (set_default, there) (omega arith)
  ]

  module _ (config : Config) (first : Launch) where
    -- What holds of the loop's state: what is left is what was offered less what the started tasks
    -- take, their ports are of the offer, one each, and no longer left, and no more new tasks live
    -- than are desired, or lived before.
    pub record Fits (l : Launch) : Type 0 where
      pub cpus_left : l.cpus + length l.started * config.cpus ≡ first.cpus
      pub mem_left : l.mem + length l.started * config.mem ≡ first.mem
      pub ports_apart : no_repeats (host_ports l.started) ≡ true
      pub ports_used :
          (p : ℕ)
          → contains (host_ports l.started) p ≡ true
          → (contains first.ports p ≡ true) × (contains l.ports p ≡ false)
      pub ports_left : (p : ℕ) → contains l.ports p ≡ true → contains first.ports p ≡ true
      pub live_bounded :
          num_have name l.tasks ≤ max config.desired_instances (num_have name first.tasks)

    module _ (random : Random) (slave_id : Text) (picks : Picks random) where
      abbrev Room : Launch → Type 0
      Room l =
          (num_have name l.tasks < config.desired_instances)
          × (config.cpus ≤ l.cpus)
          × (config.mem ≤ l.mem)
          × (0 < length l.ports)

      can_launch→Room : (l : Launch) → can_launch random config name slave_id l ≡ true → Room l
      unfolding can_launch need_more_tasks
      can_launch→Room l can = ground arith

      one_more :
          (left cost total : ℕ) (ts : List TaskInfo) (t : TaskInfo)
          → cost ≤ left
          → left + length ts * cost ≡ total
          → left - cost + length (ts ++ t ∷ []) * cost ≡ total
      one_more left cost total ts t enough before = rw (length-append ts (t ∷ [])) (omega arith)

      launch_task-Fits :
          (l : Launch)
          → can_launch random config name slave_id l ≡ true
          → Fits l
          → Fits (launch_task random config name slave_id l)
      unfolding launch_task
      launch_task-Fits l can f =
          let port = random.choice l.drawn l.ports in
          let (fewer, cpus, mem, some_port) = can_launch→Room l can in
          let tid = new_task_id random name l.drawn in
          let is_left : contains l.ports port ≡ true = picks l.drawn l.ports some_port in
          record {
            cpus_left = one_more l.cpus config.cpus first.cpus l.started _ cpus f.cpus_left;
            mem_left = one_more l.mem config.mem first.mem l.started _ mem f.mem_left;
            ports_apart = rw (host_ports-append l.started _) (
                no_repeats-append (host_ports l.started) port f.ports_apart
                  (elim (Bool-cases (contains (host_ports l.started) port)) [
                    | inl used ↦ cc (is_left, (f.ports_used port used).1)
                    | inr unused ↦ unused
                  ]));
            ports_used = rw (host_ports-append l.started _) (
                diff-Used first.ports l.ports (host_ports l.started) port
                  (f.ports_left port is_left) f.ports_used);
            ports_left = λ p m.
                f.ports_left p
                  (and_parts (contains l.ports p) _
                    (sym (contains-diff l.ports (port ∷ []) p) ∙ m)).0;
            live_bounded =
                omega (arith, num_have-set_default tid new_params l.tasks, f.live_bounded);
          }

      launch_loop-Fits :
          (fuel : ℕ) (l : Launch)
          → length l.ports ≤ fuel
          → Fits l
          → Fits (launch_loop random config name slave_id fuel l)
            × (can_launch random config name slave_id
                  (launch_loop random config name slave_id fuel l)
                ≡ false)
      unfolding launch_loop launch_task
      launch_loop-Fits zero l enough f = (
        f,
        elim (Bool-cases (can_launch random config name slave_id l)) [
          | inl can ↦ let (_, _, _, some_port) = can_launch→Room l can in absurd (omega arith)
          | inr stop ↦ stop
        ],
      )
      launch_loop-Fits (suc fuel) l enough f =
          elim (Bool-cases (can_launch random config name slave_id l)) [
            | inl can ↦
                rw (launch_loop, can)
                  (launch_loop-Fits fuel (launch_task random config name slave_id l)
                    (fewer_ports l can enough) (launch_task-Fits l can f))
            | inr stop ↦ rw (launch_loop, stop) (f, stop)
          ]
        where
          fewer_ports :
              (l : Launch)
              → can_launch random config name slave_id l ≡ true
              → length l.ports ≤ suc fuel
              → length (launch_task random config name slave_id l).ports ≤ fuel
          fewer_ports l can within =
              let (_, _, _, some_port) = can_launch→Room l can in
              omega (
                arith,
                length-diff_member (random.choice l.drawn l.ports) l.ports
                    (picks l.drawn l.ports some_port),
              )

started-add_resource : (r : Resource) (l : Launch) → (add_resource r l).started ≡ l.started
started-add_resource r l = ground arith

started-add_resources : (rs : List Resource) (l : Launch) → (add_resources rs l).started ≡ l.started
unfolding add_resources
started-add_resources [] l = refl
started-add_resources (r ∷ rs) l =
    started-add_resources rs (add_resource r l) ∙ started-add_resource r l

unlaunched-Fits :
    (name : Text) (config : Config) (first : Launch)
    → first.started ≡ []
    → Fits name config first first
unlaunched-Fits name config first none_yet = record {
  cpus_left = rw none_yet (omega arith);
  mem_left = rw none_yet (omega arith);
  ports_apart = rw none_yet refl;
  ports_used = λ p m. absurd (nothing p (rw none_yet at m));
  ports_left = λ p m. m;
  live_bounded = omega arith;
}
  where
    nothing : (p : ℕ) → contains (host_ports []) p ≡ true → ⊥
    nothing p m = cc

-- The tasks that start_task starts from an offer fit it: what is left of the cpus and of the memory,
-- with what the started tasks take, is what was offered, each has a port of the offer of its own,
-- and no more new tasks live than are desired, or lived before. The loop needs no more rounds than
-- the offer has ports: after that many its test is false.
pub start_task-Fits :
    (random : Random) (offer : Offer) (w : World) (name : Text)
    → Picks random
    → w.scheduler.config.base_name ≡ ok name
    → let first = offered random offer w in
      let l = start_named random offer name w in
      ((start_task random offer w).0 ≡ ok l.started)
      × ((start_task random offer w).1.scheduler.tasks_with_flags ≡ l.tasks)
      × Fits name w.scheduler.config first l
      × (can_launch random w.scheduler.config name offer.slave_id l ≡ false)
unfolding start_task start_named offered
start_task-Fits random offer w name picks named =
    let first = offered random offer w in
    let (fits, stopped) =
      launch_loop-Fits name w.scheduler.config first random offer.slave_id picks
        (length first.ports) first (omega arith)
        (unlaunched-Fits name w.scheduler.config first (started-add_resources offer.resources _)) in
    (rw named refl, rw named refl, fits, stopped)
