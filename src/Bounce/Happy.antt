-- ===== src/Bounce/Happy.antt =====
-- Which tasks get_happy_tasks returns.
use paasta.Prelude.{
  ℕ, nat_eq, ◌+◌, ◌≤◌, ◌≡◌, ◌↔◌, refl, sym, ◌∙◌, Bool, true, false, ◌&&◌, Option, some, none, List,
  [], ◌∷◌, contains, contains-select, not, if◌then◌else◌, select, any_of, arith,
}
use mathlib.Core.Bool.{false≢true}
use paasta.Marathon.{Task, App, healthy_results}
use paasta.Bounce.{
  HealthEnv, started_long_ago, too_young, lacks_results, tasks_in_smartstack, is_happy,
  get_happy_tasks,
}

abbrev pub IsOldEnough : (now : ℕ) → Option ℕ → Option ℕ → Type 0
IsOldEnough now min_task_uptime none = ⊥
IsOldEnough now none (some started) = Unit {0}
IsOldEnough now (some uptime) (some started) = started + uptime ≤ now

abbrev pub IsPassing : (health_checks : ℕ) → List Bool → Type 0
IsPassing checks [] = checks ≡ 0
IsPassing checks (r ∷ rs) = any_of (λ b. b) (r ∷ rs) ≡ true

-- What makes a task happy: it has started, long enough ago if a minimum is set, and it has a
-- passing health check, or no result where the app defines no check.
abbrev pub IsHappy : HealthEnv → App → Task → Type 0
IsHappy env app task =
    IsOldEnough env.now env.min_task_uptime (env.objects.started_at task)
    × IsPassing app.health_checks (env.objects.alive task)

IsOldEnough-iff :
    (env : HealthEnv) (started : Option ℕ)
    → (started_long_ago env started ≡ true) ↔ IsOldEnough env.now env.min_task_uptime started
IsOldEnough-iff env none = (λ h. absurd (false≢true h), λ h. absurd h)
IsOldEnough-iff env (some started) = by_minimum env.min_task_uptime
  where
    by_minimum :
        (m : Option ℕ)
        → (not (too_young env.now m started) ≡ true) ↔ IsOldEnough env.now m (some started)
    by_minimum none = (λ h. tt, λ h. refl)
    by_minimum (some uptime) = ground arith

IsPassing-iff :
    (checks : ℕ) (alive : List Bool)
    → ((not (lacks_results checks alive) && healthy_results false true alive) ≡ true)
      ↔ IsPassing checks alive
IsPassing-iff checks [] = ground arith
IsPassing-iff checks (r ∷ rs) = (λ h. h, λ h. h)

and_iff : (a b : Bool) → ((a && b) ≡ true) ↔ ((a ≡ true) × (b ≡ true))
and_iff true b = (λ h. (refl, h), λ h. h.1)
and_iff false b = (λ h. cc, λ h. h.0)

is_happy_iff :
    (env : HealthEnv) (app : App) (task : Task)
    → (is_happy env app task ≡ true) ↔ IsHappy env app task
unfolding is_happy
is_happy_iff env app task = (
  λ h.
      let (old, pass) = (and_iff _ _).0 h in
      (
        (IsOldEnough-iff env (env.objects.started_at task)).0 old,
        (IsPassing-iff app.health_checks (env.objects.alive task)).0 pass,
      ),
  λ h. (and_iff _ _).1 (
    (IsOldEnough-iff env (env.objects.started_at task)).1 h.0,
    (IsPassing-iff app.health_checks (env.objects.alive task)).1 h.1,
  ),
)

-- Without the haproxy check, the happy tasks are exactly the app's tasks that are happy by
-- themselves. With it they are so among the tasks that haproxy has registered at some location.
contains-get_happy_tasks :
    (env : HealthEnv) (app : App) (task : Task)
    → (contains (get_happy_tasks env app) task ≡ true) ↔ (
        (contains
            (if env.check_haproxy then tasks_in_smartstack env.registered app.tasks else app.tasks)
            task
          ≡ true)
        × IsHappy env app task)
unfolding get_happy_tasks
contains-get_happy_tasks env app task =
    let pool =
      if env.check_haproxy then tasks_in_smartstack env.registered app.tasks else app.tasks in
    let chosen : contains (select (is_happy env app) pool) task
        ≡ (contains pool task && is_happy env app task) =
      contains-select (is_happy env app) pool task in
    (
      λ m.
          let (here, happy) = (and_iff _ _).0 (sym chosen ∙ m) in
          (here, (is_happy_iff env app task).0 happy),
      λ (here, happy). chosen ∙ (and_iff _ _).1 (here, (is_happy_iff env app task).1 happy),
    )
