-- ===== src/Setup/States/Partition.antt =====
-- The four sets that get_tasks_by_state_for_app sorts the tasks of an app into.
use paasta.Prelude.{
  ℕ, nat_eq, string_eq, ◌+◌, ◌≡◌, inl, inr, refl, ap, ◌∙◌, String, Bool, true, false, ◌||◌, List,
  [], ◌∷◌, ◌==◌, contains, contains-add, add, nat_beq_iff, arith, ok, Result-cases, Bool-cases,
  or_left, or_right,
}
use paasta.Effects.{Oracle}
use paasta.Marathon.{Task, App, Effect, is_draining}
use paasta.Bounce.{HealthEnv, get_happy_tasks}
use paasta.Setup.States.{TasksByState, no_tasks, place, sort_tasks, get_tasks_by_state_for_app}

abbrev pub bit : Bool → ℕ
bit true = 1
bit false = 0

-- In how many of the four sets a task is.
abbrev pub times_placed : TasksByState → Task → ℕ
times_placed s t =
    bit (contains s.happy t)
    + bit (contains s.unhappy t)
    + bit (contains s.draining t)
    + bit (contains s.at_risk t)

-- No task stands twice in the list.
abbrev pub Distinct : List Task → Type 0
Distinct [] = Unit {0}
Distinct (x ∷ xs) = (contains xs x ≡ false) × Distinct xs

bit-add :
    (task : Task) (xs : List Task) (t : Task)
    → contains xs task ≡ false
    → bit (contains (add task xs) t) ≡ bit (contains xs t) + bit (t == task)
bit-add task xs t new = ap bit (contains-add task xs t) ∙ step
  where
    at : (t == task) ≡ true → contains xs t ≡ false
    at same = ap (contains xs) ((nat_beq_iff t task).0 same) ∙ new

    step : bit ((t == task) || contains xs t) ≡ bit (contains xs t) + bit (t == task)
    step = elim (Bool-cases (t == task)) [
      | inl same ↦ rw (same, at same) refl
      | inr other ↦ rw other (omega arith)
    ]

bit_cons :
    (x : Task) (xs : List Task) (t : Task)
    → contains xs x ≡ false
    → bit (contains (x ∷ xs) t) ≡ bit (t == x) + bit (contains xs t)
bit_cons x xs t new = elim (Bool-cases (t == x)) [
  | inl same ↦ rw (same, ap (contains xs) ((nat_beq_iff t x).0 same) ∙ new) refl
  | inr other ↦ rw other (omega arith)
]

apart_bit :
    (x : Task) (xs : List Task) (y : Task)
    → contains xs x ≡ false
    → contains xs y ≡ true
    → bit (y == x) ≡ 0
apart_bit x xs y new m = elim (Bool-cases (y == x)) [
  | inl same ↦ cc (new, m, ap (contains xs) ((nat_beq_iff y x).0 same))
  | inr other ↦ rw other refl
]

bit_zero : (b : Bool) → bit b ≡ 0 → b ≡ false
bit_zero true h = absurd (omega arith)
bit_zero false h = refl

module _ (env : HealthEnv) (draining_hosts : List String) (happy_tasks : List Task) where
  times_placed-place :
      (task : Task) (d : Bool) (s : TasksByState) (t : Task)
      → times_placed s task ≡ 0
      → times_placed (place env draining_hosts happy_tasks task d s) t
        ≡ times_placed s t + bit (t == task)
  unfolding place
  times_placed-place task true s t new =
      omega (arith, bit-add task s.draining t (bit_zero (contains s.draining task) (omega arith)))
  times_placed-place task false s t new = elim (Bool-cases (contains happy_tasks task)) [
    | inl happy ↦ elim (Bool-cases (contains draining_hosts (env.objects.host task))) [
      | inl risky ↦
          rw (happy, risky)
            (omega
              (arith, bit-add task s.at_risk t (bit_zero (contains s.at_risk task) (omega arith))))
      | inr calm ↦
          rw (happy, calm)
            (omega (arith, bit-add task s.happy t (bit_zero (contains s.happy task) (omega arith))))
    ]
    | inr unhappy ↦
        rw unhappy (
          omega
            (arith, bit-add task s.unhappy t (bit_zero (contains s.unhappy task) (omega arith))))
  ]

module _ (oracle : Oracle Effect) (env : HealthEnv) (draining_hosts : List String)
    (happy_tasks : List Task) where
  times_placed-sort_tasks :
      (xs : List Task) (s s' : TasksByState) (h : List Effect) (t : Task)
      → Distinct xs
      → ((x : Task) → contains xs x ≡ true → times_placed s x ≡ 0)
      → (sort_tasks oracle env draining_hosts happy_tasks xs s h).0 ≡ ok s'
      → times_placed s' t ≡ times_placed s t + bit (contains xs t)
  unfolding sort_tasks
  times_placed-sort_tasks [] s s' h t distinct fresh e =
      let same : s' ≡ s = cc in rw same (omega arith)
  times_placed-sort_tasks (x ∷ xs) s s' h t distinct fresh e =
      elim (Result-cases (oracle h (is_draining x))) [
        | inr (y, fails) ↦ cc (rw fails at e)
        | inl (d, answer) ↦
            let s1 = place env draining_hosts happy_tasks x d s in
            let new : times_placed s x ≡ 0 =
              fresh x (or_left (contains xs x) ((nat_beq_iff x x).1 refl)) in
            let rest =
              times_placed-sort_tasks xs s1 s' (is_draining x ∷ h) t distinct.1
                (λ y m. omega (
                  arith,
                  times_placed-place env draining_hosts happy_tasks x d s y new,
                  apart_bit x xs y distinct.0 m,
                  fresh y (or_right (y == x) m),
                ))
                (rw answer at e) in
            omega (
              arith,
              rest,
              times_placed-place env draining_hosts happy_tasks x d s t new,
              bit_cons x xs t distinct.0,
            )
      ]

-- Where sorting returns, each task of the app is in exactly one of the four sets, and no other task
-- is in any, if the app lists no task twice.
pub times_placed-get_tasks_by_state_for_app :
    (oracle : Oracle Effect) (env : HealthEnv) (draining_hosts : List String) (app : App)
    (s : TasksByState) (h : List Effect) (t : Task)
    → Distinct app.tasks
    → (get_tasks_by_state_for_app oracle env draining_hosts app h).0 ≡ ok s
    → times_placed s t ≡ bit (contains app.tasks t)
unfolding get_tasks_by_state_for_app
times_placed-get_tasks_by_state_for_app oracle env hosts app s h t distinct e = omega (
  arith,
  times_placed-sort_tasks oracle env hosts (get_happy_tasks env app) app.tasks no_tasks s h t
      distinct (λ x m. refl) e,
)
