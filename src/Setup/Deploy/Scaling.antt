-- ===== src/Setup/Deploy/Scaling.antt =====
-- scale_down, where deploy_service finds the new app too large.
use paasta.Prelude.{
  ℕ, nat_eq, text_eq, ◌+◌, ◌-◌, ◌≤◌, ◌<◌, min, ◌≡◌, Text, some, set_of, take, length, length-drop,
  lookup, lookup-insert_self, arith,
}
use paasta.Marathon.{App}
use paasta.Setup.{OldTasks}
use paasta.Setup.States.{TasksByState}
use paasta.Setup.Deploy.{scale_down, num_tasks_to_scale}

-- How many tasks the app has by its states.
abbrev pub total : TasksByState → ℕ
total s = length s.happy + length s.unhappy + length s.draining + length s.at_risk

-- Of the happy tasks those stay that the excess over all the other tasks does not reach.
pub scale_down_keeps_happy :
    (id : Text) (s : TasksByState) (excess : ℕ) (old : OldTasks)
    → length (scale_down id s excess old).happy_new_tasks
      ≡ length s.happy - (excess - (length s.draining + length s.unhappy + length s.at_risk))
unfolding scale_down
scale_down_keeps_happy id s excess old = omega (arith, length-drop {0})

-- An app with more instances than wanted, each of whose tasks is in one state, keeps as many happy
-- tasks as are wanted, or all it has.
scale_down_keeps_wanted :
    (app : App) (s : TasksByState) (instances : ℕ) (old : OldTasks)
    → instances < app.instances
    → total s ≡ length app.tasks
    → min instances (length s.happy)
      ≤ length (scale_down app.id s (num_tasks_to_scale app instances) old).happy_new_tasks
unfolding num_tasks_to_scale
scale_down_keeps_wanted app s instances old more all =
    omega (
      arith,
      scale_down_keeps_happy app.id s (min (length app.tasks) app.instances - instances) old,
    )

-- What is moved to the old tasks of the app: the first tasks of each state, as many in all as the
-- excess, or all there are.
scale_down_moves :
    (id : Text) (s : TasksByState) (excess : ℕ) (old : OldTasks)
    → (nd nu nr nh : ℕ) × (nd + nu + nr + nh ≡ min excess (total s))
      × (lookup id (scale_down id s excess old).old.draining ≡ some (set_of (take nd s.draining)))
      × (lookup id (scale_down id s excess old).old.unhappy ≡ some (set_of (take nu s.unhappy)))
      × (lookup id (scale_down id s excess old).old.at_risk ≡ some (set_of (take nr s.at_risk)))
      × (lookup id (scale_down id s excess old).old.happy ≡ some (set_of (take nh s.happy)))
unfolding scale_down
scale_down_moves id s excess old =
    let nd = min (length s.draining) excess in
    let nu = min (length s.unhappy) (excess - nd) in
    let nr = min (length s.at_risk) (excess - nd - nu) in
    let nh = min (length s.happy) (excess - nd - nu - nr) in
    (
      nd,
      nu,
      nr,
      nh,
      omega arith,
      lookup-insert_self id (set_of (take nd s.draining)) old.draining,
      lookup-insert_self id (set_of (take nu s.unhappy)) old.unhappy,
      lookup-insert_self id (set_of (take nr s.at_risk)) old.at_risk,
      lookup-insert_self id (set_of (take nh s.happy)) old.happy,
    )
