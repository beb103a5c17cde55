-- ===== src/Scheduler/Handlers/Tracked.antt =====
-- The state of the native scheduler between two callbacks.
use paasta.Prelude.{
  ◌≡◌, refl, ap, ◌∙◌, inl, inr, Text, text_eq, Bool, true, false, List, [], ◌∷◌, ok, lookup, insert,
  without, Bool-cases, Option-cases, Result-cases, if◌then◌else◌,
}
use paasta.Effects.{Oracle}
use paasta.Effects.Stateful.{
  ◌>>=◌, ◌>>◌, Keeps, Keeps-result, Keeps-bind, Keeps-seq, Keeps-compute, Keeps-read, compute, read,
}
use paasta.Scheduler.{
  Call, kill_task, is_safe_to_kill, Handler, Params, TaskState, TasksWithFlags, World, ask,
  set_tasks,
}
use paasta.Scheduler.Round.{
  Plan, plan_round, carry_out, kill_draining, change_task, drain_task, undrain_task, kill_one,
  kill_if_safe, kill_tasks_if_necessary, params_at, for_each,
}
use paasta.Scheduler.Handlers.{is_terminal, pop_task, record_state, set_state, status_update}
use paasta.Scheduler.Handlers.Ended.{
  harmless, safe, NoneEnded, is_kill, Asked, NoneEnded-insert, NoneEnded-without, set_state_is,
}

module _ (oracle : Oracle Call) where
  -- The invariant of the scheduler and of the calls it has made.
  pub record Live (w : World) : Type 0 where
    pub none_ended : NoneEnded w.scheduler.tasks_with_flags
    pub asked : Asked oracle w.sent

  set_tasks-Live : (w : World) (d : TasksWithFlags) → NoneEnded d → Live w → Live (set_tasks d w)
  set_tasks-Live w d ended l = record { none_ended = ended; asked = l.asked }

  change_task-Live :
      (tid : Text) (change : Params → Params)
      → ((p : Params)
          → is_terminal p.mesos_task_state ≡ false
          → is_terminal (change p).mesos_task_state ≡ false)
      → Keeps Live (change_task tid change)
  unfolding params_at
  change_task-Live tid change harmless_change = record {
    at = λ w live.
        let d = w.scheduler.tasks_with_flags in
        elim (Option-cases (lookup tid d)) [
          | inl gone ↦ rw gone live
          | inr (p, found) ↦ rw found (
              set_tasks-Live w (insert tid (change p) d)
                (NoneEnded-insert tid (change p) d (harmless_change p (live.none_ended tid p found))
                  live.none_ended)
                live)
        ];
  }

  pop_task-Live : (tid : Text) → Keeps Live (pop_task tid)
  unfolding pop_task
  pop_task-Live tid = record {
    at = λ w live.
        let d = w.scheduler.tasks_with_flags in
        elim (Option-cases (lookup tid d)) [
          | inl gone ↦ rw gone live
          | inr (p, found) ↦
              rw found
                (set_tasks-Live w (without tid d) (NoneEnded-without tid d live.none_ended) live)
        ];
  }

  record_state-Live :
      (tid : Text) (state : TaskState)
      → is_terminal state ≡ false
      → Keeps Live (record_state tid state)
  unfolding record_state
  record_state-Live tid state running_on = record {
    at = λ w live.
        let d = w.scheduler.tasks_with_flags in
        set_tasks-Live w (insert tid (set_state state (lookup tid d)) d)
          (NoneEnded-insert tid (set_state state (lookup tid d)) d
            (ap is_terminal (set_state_is state (lookup tid d)) ∙ running_on) live.none_ended)
          live;
  }

  pub ask-Live : (c : Call) → is_kill c ≡ false → Keeps Live (ask oracle c)
  unfolding ask
  ask-Live c gentle = record {
    at = λ w live. record { none_ended = live.none_ended; asked = harmless gentle live.asked };
  }

  for_each-Live :
      (body : Text → Handler Bool)
      → ((tid : Text) → Keeps Live (body tid))
      → (tids : List Text) → Keeps Live (for_each oracle tids body)
  for_each-Live body each [] = Keeps-result (ok true)
  for_each-Live body each (tid ∷ tids) =
      Keeps-seq (body tid) (for_each oracle tids body) (each tid) (for_each-Live body each tids)

  changed-Live :
      (c : Call) (tid : Text) (change : Params → Params)
      → is_kill c ≡ false
      → ((p : Params)
          → is_terminal p.mesos_task_state ≡ false
          → is_terminal (change p).mesos_task_state ≡ false)
      → Keeps Live (ask oracle c >> change_task tid change)
  changed-Live c tid change gentle harmless_change =
      Keeps-seq (ask oracle c) (change_task tid change) (ask-Live c gentle)
        (change_task-Live tid change harmless_change)

  -- The calls that ask for a task and then kill it.
  abbrev asking : Text → World → World
  asking tid w = record w { sent = is_safe_to_kill tid ∷ w.sent }

  abbrev killing_it : Text → World → World
  killing_it tid w = record w { sent = kill_task tid ∷ is_safe_to_kill tid ∷ w.sent }

  kill_one-Live :
      (tid : Text) (w : World)
      → oracle w.sent (is_safe_to_kill tid) ≡ ok true
      → Live w
      → Live (kill_one oracle tid (asking tid w)).1
  unfolding kill_one ask
  kill_one-Live tid w yes_safe live =
      let after : Live (killing_it tid w) = record {
        none_ended = live.none_ended;
        asked = safe yes_safe live.asked;
      } in
      elim (Result-cases (oracle (asking tid w).sent (kill_task tid))) [
        | inl (b, sent) ↦
            rw sent ((change_task-Live tid _ (λ p h. refl)).at (killing_it tid w) after)
        | inr (why, raised) ↦ rw raised after
      ]

  kill_if_safe-Live : (tid : Text) → Keeps Live (kill_if_safe oracle tid)
  unfolding kill_if_safe ask
  kill_if_safe-Live tid = record {
    at = λ w live.
        let asked_only : Live (asking tid w) = record {
          none_ended = live.none_ended;
          asked = harmless refl live.asked;
        } in
        elim (Result-cases (oracle w.sent (is_safe_to_kill tid))) [
          | inl (safe_now, answer) ↦ elim (Bool-cases safe_now) [
            | inl is_safe ↦ rw (answer, is_safe) (kill_one-Live tid w (answer ∙ ap ok is_safe) live)
            | inr unsafe ↦ rw (answer, unsafe) asked_only
          ]
          | inr (why, raised) ↦ rw raised asked_only
        ];
  }

  carry_out-Live : (plan : Plan) → Keeps Live (carry_out oracle plan)
  unfolding undrain_task drain_task
  carry_out-Live plan =
      Keeps-seq
        (for_each oracle plan.tasks_to_undrain (undrain_task oracle)
          >> for_each oracle plan.tasks_to_drain (drain_task oracle))
        (kill_draining oracle)
        (Keeps-seq (for_each oracle plan.tasks_to_undrain (undrain_task oracle))
          (for_each oracle plan.tasks_to_drain (drain_task oracle))
          (for_each-Live (undrain_task oracle) (λ tid. changed-Live _ tid _ refl (λ p h. h))
            plan.tasks_to_undrain)
          (for_each-Live (drain_task oracle) (λ tid. changed-Live _ tid _ refl (λ p h. h))
            plan.tasks_to_drain))
        (Keeps-bind (read _) (λ draining. for_each oracle draining (kill_if_safe oracle))
          (Keeps-read _)
          λ draining w'' e''. for_each-Live (kill_if_safe oracle) kill_if_safe-Live draining)

  pub kill_tasks_if_necessary-Live : Keeps Live (kill_tasks_if_necessary oracle)
  unfolding kill_tasks_if_necessary
  kill_tasks_if_necessary-Live =
      Keeps-bind (compute _)
        (λ name.
          compute (λ w. plan_round w.scheduler.config name w.scheduler.tasks_with_flags)
          >>= carry_out oracle)
        (Keeps-compute _)
        λ name w e.
          Keeps-bind (compute _) (carry_out oracle) (Keeps-compute _)
            λ plan w' e'. carry_out-Live plan

  pub status_update-Live :
      (tid : Text) (state : TaskState) → Keeps Live (status_update oracle tid state)
  unfolding status_update
  status_update-Live tid state =
      Keeps-seq _ (kill_tasks_if_necessary oracle)
        (Keeps-seq (if is_terminal state then pop_task tid else record_state tid state)
          (ask oracle _)
          (elim (Bool-cases (is_terminal state)) [
            | inl ended ↦ rw ended (pop_task-Live tid)
            | inr running_on ↦ rw running_on (record_state-Live tid state running_on)
          ])
          (ask-Live _ refl))
        kill_tasks_if_necessary-Live
