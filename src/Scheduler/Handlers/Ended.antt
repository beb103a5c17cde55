-- ===== src/Scheduler/Handlers/Ended.antt =====
-- The tracked tasks that have ended, and the calls that ask before they kill.
use paasta.Prelude.{
  ℕ, zero, suc, ◌≡◌, refl, sym, ◌∙◌, inl, inr, Text, text_eq, Bool, true, false, ◌==◌, Option, some,
  List, [], ◌∷◌, ok, lookup, lookup-insert, lookup-without, insert, without, Bool-cases,
  Option-cases, arith,
}
use paasta.Effects.{Oracle}
use paasta.Scheduler.{Call, kill_task, is_safe_to_kill, Config, Params, TaskState, TasksWithFlags}
use paasta.Scheduler.Launch.{
  Launch, Random, can_launch, launch_loop, launch_task, set_default, new_params, new_task_id,
}
use paasta.Scheduler.Handlers.{is_terminal, set_state}

-- No task is tracked in a state that a status update forgets tasks for.
abbrev pub NoneEnded : TasksWithFlags → Type 0
NoneEnded d =
    (tid : Text) (params : Params)
    → lookup tid d ≡ some params
    → is_terminal params.mesos_task_state ≡ false

abbrev pub is_kill : Call → Bool
is_kill (kill_task tid) = true
is_kill _ = false

-- Each task that was killed had been reported safe to kill by the call just before.
pub data Asked (oracle : Oracle Call) : List Call → Type 0 where
  nothing : Asked oracle []
  harmless : {c : Call} {h : List Call} → is_kill c ≡ false → Asked oracle h → Asked oracle (c ∷ h)
  safe :
      {tid : Text} {h : List Call}
      → oracle h (is_safe_to_kill tid) ≡ ok true
      → Asked oracle h
      → Asked oracle (kill_task tid ∷ is_safe_to_kill tid ∷ h)

pub NoneEnded-insert :
    (tid : Text) (params : Params) (d : TasksWithFlags)
    → is_terminal params.mesos_task_state ≡ false
    → NoneEnded d
    → NoneEnded (insert tid params d)
NoneEnded-insert tid params d live before t p found = elim (Bool-cases (tid == t)) [
  | inl same ↦ cc (live, rw same at (sym (lookup-insert tid t params d) ∙ found))
  | inr other ↦ before t p (rw other at (sym (lookup-insert tid t params d) ∙ found))
]

pub NoneEnded-without : (tid : Text) (d : TasksWithFlags) → NoneEnded d → NoneEnded (without tid d)
NoneEnded-without tid d before t p found = elim (Bool-cases (tid == t)) [
  | inl same ↦ cc (rw same at (sym (lookup-without tid t d) ∙ found))
  | inr other ↦ before t p (rw other at (sym (lookup-without tid t d) ∙ found))
]

pub set_state_is :
    (state : TaskState) (old : Option Params) → (set_state state old).mesos_task_state ≡ state
unfolding set_state
set_state_is state old = ground arith

set_default-NoneEnded :
    (tid : Text) (d : TasksWithFlags) → NoneEnded d → NoneEnded (set_default tid new_params d)
unfolding set_default
set_default-NoneEnded tid d live = elim (Option-cases (lookup tid d)) [
  | inl gone ↦ rw (set_default, gone) (NoneEnded-insert tid new_params d refl live)
  | inr (old, there) ↦ rw (set_default, there) live
]

pub launch_loop-NoneEnded :
    (random : Random) (config : Config) (name slave_id : Text) (fuel : ℕ) (l : Launch)
    → NoneEnded l.tasks
    → NoneEnded (launch_loop random config name slave_id fuel l).tasks
unfolding launch_loop launch_task
launch_loop-NoneEnded random config name slave_id zero l live = live
launch_loop-NoneEnded random config name slave_id (suc fuel) l live =
    elim (Bool-cases (can_launch random config name slave_id l)) [
      | inl can ↦
          rw (launch_loop, can)
            (launch_loop-NoneEnded random config name slave_id fuel _
              (set_default-NoneEnded (new_task_id random name l.drawn) l.tasks live))
      | inr stop ↦ rw (launch_loop, stop) live
    ]
