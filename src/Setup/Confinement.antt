-- ===== src/Setup/Confinement.antt =====
-- The calls of do_bounce. deploy_service hands it dicts of tasks: those of the other apps and, where the
-- new app is too large, the new app's own surplus, under its own id.
use paasta.Prelude.{
  ℕ, nat_eq, text_eq, ◌≡◌, inl, inr, refl, ap, ◌∙◌, sym, Text, Bool, true, false, ◌||◌, ◌&&◌, not,
  List, [], ◌∷◌, ◌==◌, map, contains, contains-union, add, union, ok, Exception, ok_injective,
  or_left, or_right, or_cases, text_beq_iff, nat_beq_iff, not_valid_422, if◌then◌else◌,
}
use paasta.Effects.{Act, Oracle, call, pure}
use paasta.Effects.Confined.{
  Confined, Confined-call, Confined-result, Confined-if, Confined-try_except, Confined-bind,
  Confined-seq,
}
use paasta.Marathon.{
  Task, Objects, Effect, drain, is_safe_to_kill, start_zookeeper, lock, unlock, stop_zookeeper,
  create_app, delete_app, app_running, scale_app, kill_tasks, reserve_all, kill_given_tasks,
  tolerate_not_valid,
}
use paasta.Bounce.{Actions, Situation, Method, bounce_func, flatten_tasks}
use paasta.Bounce.Safety.{old_tasks, IsModest, bounce_func-IsModest}
use paasta.Bounce.Locks.Confined.{
  AllowsLocks, Confined-create_marathon_app, Confined-delete_marathon_app,
}
use paasta.Bounce.Locks.{kill_old_ids}
use paasta.Setup.{
  OldTasks, drain_loop, safe_loop, drain_tasks_and_find_tasks_to_kill, reserve_loop,
  find_apps_to_kill, maybe_create, maybe_remove, act_on, do_bounce,
}
use paasta.Setup.Draining.{drain_tasks_reasons}
use paasta.Setup.Removal.{find_apps_to_kill-Finished}

-- The tasks that a bounce is handed: those of its dicts, the new app's surplus included.
abbrev pub is_handed : Situation → OldTasks → Task → Bool
is_handed s old t =
    (contains (flatten_tasks old.draining) t || contains (flatten_tasks old.at_risk) t)
    || contains (old_tasks s) t

-- The calls that a bounce may make.
abbrev pub Allowed : Objects → Situation → OldTasks → (jobid : Text) → Effect → Type 0
Allowed o s old jobid (drain t) = is_handed s old t ≡ true
Allowed o s old jobid (is_safe_to_kill t) = is_handed s old t ≡ true
Allowed o s old jobid (kill_tasks ids) =
    (ts : List Task) × (ids ≡ map o.id ts)
    × ((t : Task) → contains ts t ≡ true → is_handed s old t ≡ true)
Allowed o s old jobid (reserve_all hosts) =
    (t : Task) × (hosts ≡ o.host t ∷ []) × (contains (flatten_tasks old.at_risk) t ≡ true)
Allowed o s old jobid (create_app app) = (app ≡ jobid) × (s.new_app_running ≡ false)
Allowed o s old jobid (scale_app app n) = ((app == (b'/' ∷ jobid)) ≡ false) × (n ≡ 0)
Allowed o s old jobid (delete_app app) = (app == (b'/' ∷ jobid)) ≡ false
Allowed o s old jobid (start_zookeeper name) = Unit {0}
Allowed o s old jobid (lock name) = Unit {0}
Allowed o s old jobid (unlock name) = Unit {0}
Allowed o s old jobid (stop_zookeeper name) = Unit {0}
Allowed o s old jobid (app_running app) = Unit {0}
Allowed o s old jobid _ = ⊥

module _ (oracle : Oracle Effect) (polls : ℕ) (o : Objects) (s : Situation) (old : OldTasks)
    (jobid : Text) where
  abbrev Good : {A : Type 0} → Act Effect A → Type 0
  Good m = Confined (Allowed o s old jobid) m

  allows : AllowsLocks (Allowed o s old jobid)
  allows = record {
    starts = λ name. tt;
    locks = λ name. tt;
    unlocks = λ name. tt;
    stops = λ name. tt;
    looks = λ app. tt;
  }

  maybe_create-Good :
      (b : Bool)
      → (b ≡ true → s.new_app_running ≡ false)
      → Good (maybe_create oracle polls o b jobid)
  maybe_create-Good true new =
      Confined-create_marathon_app oracle (Allowed o s old jobid) allows polls jobid
        (refl, new refl)
  maybe_create-Good false new = Confined-result _

  kill_old_ids-Good :
      (apps : List Text)
      → ((app : Text) → contains apps app ≡ true → (app == (b'/' ∷ jobid)) ≡ false)
      → Good (kill_old_ids oracle polls apps)
  unfolding kill_old_ids
  kill_old_ids-Good [] old_apps = Confined-result _
  kill_old_ids-Good (app ∷ apps) old_apps =
      Confined-seq _ _
        (Confined-try_except _ _
          (Confined-delete_marathon_app oracle (Allowed o s old jobid) allows polls app
            (is_not_new, refl) is_not_new)
          (λ x. Confined-result _))
        (kill_old_ids-Good apps (λ a m. old_apps a (or_right (a == app) m)))
    where
      is_not_new : (app == (b'/' ∷ jobid)) ≡ false
      is_not_new = old_apps app (or_left (contains apps app) ((text_beq_iff app app).1 refl))

  drain_loop-Good :
      (xs kill : List Task)
      → ((t : Task) → contains xs t ≡ true → is_handed s old t ≡ true)
      → Good (drain_loop oracle xs kill)
  unfolding drain_loop
  drain_loop-Good [] kill within = Confined-result (ok kill)
  drain_loop-Good (task ∷ xs) kill within =
      Confined-bind _ _
        (Confined-try_except _ _
          (Confined-seq _ _
            (Confined-call oracle (drain task)
              (within task (or_left (contains xs task) ((nat_beq_iff task task).1 refl))))
            (Confined-result (ok kill)))
          (λ x. Confined-result (ok (add task kill))))
        λ kill' h e. drain_loop-Good xs kill' (λ t m. within t (or_right (t == task) m))

  safe_loop-Good :
      (xs kill : List Task)
      → ((t : Task) → contains xs t ≡ true → is_handed s old t ≡ true)
      → Good (safe_loop oracle xs kill)
  unfolding safe_loop
  safe_loop-Good [] kill within = Confined-result (ok kill)
  safe_loop-Good (task ∷ xs) kill within =
      Confined-bind _ _
        (Confined-try_except _ _
          (Confined-bind _ _
            (Confined-call oracle (is_safe_to_kill task)
              (within task (or_left (contains xs task) ((nat_beq_iff task task).1 refl))))
            (λ a h e. Confined-result (ok (if a then add task kill else kill))))
          (λ x. Confined-result (ok (add task kill))))
        λ kill' h e. safe_loop-Good xs kill' (λ t m. within t (or_right (t == task) m))

  reserve_loop-Good :
      (xs killed : List Task)
      → ((t : Task) → contains xs t ≡ true → contains (flatten_tasks old.at_risk) t ≡ true)
      → Good (reserve_loop oracle o xs killed)
  unfolding reserve_loop
  reserve_loop-Good [] killed within = Confined-result (ok true)
  reserve_loop-Good (task ∷ xs) killed within =
      Confined-seq _ _
        (Confined-if (contains killed task) (call oracle (reserve_all (o.host task ∷ [])))
          (pure true)
          (λ _.
            Confined-call oracle (reserve_all (o.host task ∷ [])) (
              task,
              refl,
              within task (or_left (contains xs task) ((nat_beq_iff task task).1 refl)),
            ))
          (λ _. Confined-result (ok true)))
        (reserve_loop-Good xs killed (λ t m. within t (or_right (t == task) m)))

  kill_given_tasks-Good :
      (ts : List Task)
      → ((t : Task) → contains ts t ≡ true → is_handed s old t ≡ true)
      → Good (kill_given_tasks oracle (map o.id ts))
  unfolding kill_given_tasks
  kill_given_tasks-Good [] within = Confined-result (ok true)
  kill_given_tasks-Good (t ∷ ts) within =
      Confined-try_except _ _
        (Confined-call oracle (kill_tasks (map o.id (t ∷ ts))) (t ∷ ts, refl, within)) tolerated
    where
      tolerated : (x : Exception) → Good (tolerate_not_valid oracle x)
      tolerated not_valid_422 = Confined-result (ok true)
      tolerated x = Confined-result _

  maybe_remove-Good :
      (apps : List Text)
      → ((app : Text) → contains apps app ≡ true → (app == (b'/' ∷ jobid)) ≡ false)
      → Good (maybe_remove oracle polls o apps)
  maybe_remove-Good [] old_apps = Confined-result (ok true)
  maybe_remove-Good (app ∷ apps) old_apps = kill_old_ids-Good (app ∷ apps) old_apps

  module _ (a : Actions) (modest : IsModest s a) where
    widen :
        (t : Task)
        → ((contains (flatten_tasks old.draining) t || contains (flatten_tasks old.at_risk) t)
            || contains a.tasks_to_drain t)
          ≡ true
        → is_handed s old t ≡ true
    widen t m =
        elim (or_cases
          (contains (flatten_tasks old.draining) t || contains (flatten_tasks old.at_risk) t)
          (contains a.tasks_to_drain t) m) [
            | inl early ↦ or_left (contains (old_tasks s) t) early
            | inr asked ↦ or_right _ (modest.only_old t asked)
          ]

    within_all :
        (t : Task)
        → contains
            (union
              (union (flatten_tasks old.draining) (flatten_tasks old.at_risk))
              a.tasks_to_drain)
            t
          ≡ true
        → is_handed s old t ≡ true
    within_all t m = widen t (
        ap (λ b. b || contains a.tasks_to_drain t)
          (sym (contains-union (flatten_tasks old.draining) (flatten_tasks old.at_risk) t))
        ∙ sym (
            contains-union (union (flatten_tasks old.draining) (flatten_tasks old.at_risk))
              a.tasks_to_drain t)
        ∙ m)

    draining-Good : Good (
        drain_tasks_and_find_tasks_to_kill oracle a.tasks_to_drain
          (flatten_tasks old.draining)
          (flatten_tasks old.at_risk))
    unfolding drain_tasks_and_find_tasks_to_kill
    draining-Good =
        Confined-bind _ _ (drain_loop-Good _ [] within_all)
          (λ kill h e. safe_loop-Good _ kill within_all)

    killed_are_handed :
        (h : List Effect) (kill : List Task)
        → (drain_tasks_and_find_tasks_to_kill oracle a.tasks_to_drain
            (flatten_tasks old.draining)
            (flatten_tasks old.at_risk)
            h).0
          ≡ ok kill
        → (t : Task) → contains kill t ≡ true
        → is_handed s old t ≡ true
    killed_are_handed h kill e t m =
        let (killed, returned, reasons) =
          drain_tasks_reasons oracle a.tasks_to_drain (flatten_tasks old.draining)
            (flatten_tasks old.at_risk) h in
        widen t (reasons t (ap (λ l. contains l t) (ok_injective (sym returned ∙ e)) ∙ m)).0

    creates : (c r : Bool) → (c && not r) ≡ true → r ≡ false
    creates c false h = refl
    creates true true h = cc
    creates false true h = cc

    act_on-Good : Good (act_on oracle polls o a s.new_app_running old jobid)
    unfolding act_on
    act_on-Good =
        Confined-seq _ _
          (maybe_create-Good (a.create_app && not s.new_app_running)
            (creates a.create_app s.new_app_running))
          (Confined-bind _ _ draining-Good λ kill h e.
            Confined-seq _ _ (kill_given_tasks-Good kill (killed_are_handed h kill e)) (
              Confined-seq _ _ (reserve_loop-Good _ kill (λ t m. m)) (
                Confined-bind _ _ (Confined-result (find_apps_to_kill old jobid kill old.happy))
                  λ apps h' found. maybe_remove-Good apps (λ app m.
                    ((find_apps_to_kill-Finished old jobid kill old.happy apps app found).0
                      m).1.is_old))))

-- Whatever the bounce method, and whatever the other systems answer or raise, every call that
-- do_bounce makes is an allowed one: it drains, asks about and kills only tasks of the dicts that it is
-- handed, which hold the surplus of the new app, too, reserves only hosts of tasks handed as at risk,
-- scales to 0 and deletes only apps with another id than the new one's, and creates the new app only
-- where it does not run.
pub do_bounce-Confined :
    (oracle : Oracle Effect) (polls : ℕ) (o : Objects) (method : Method) (s : Situation)
    (old : OldTasks) (jobid : Text)
    → Confined (Allowed o s old jobid) (do_bounce oracle polls o (bounce_func method) s old jobid)
unfolding do_bounce
do_bounce-Confined oracle polls o method s old jobid =
    Confined-bind _ _ (Confined-result (bounce_func method s))
      λ a h e. act_on-Good oracle polls o s old jobid a (bounce_func-IsModest method s a e)
