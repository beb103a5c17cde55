-- ===== src/Bounce/Safety.antt =====
-- What the bounce methods may and may not ask for.
use paasta.Prelude.{
  ℕ, suc, nat_eq, ◌+◌, ◌-◌, ◌*◌, ◌/◌, ◌≤◌, ◌<◌, ◌≡◌, ◌⊎◌, inl, inr, refl, sym, ap, ◌∙◌, Bool, true,
  false, ◌||◌, ◌&&◌, nat_beq, List, [], ◌∷◌, ◌++◌, contains, contains-append, contains-union,
  contains-set_of, contains-drop, is_subset, is_subset_of, union, set_of, drop, length, length-drop,
  ok, arith, Bool-cases,
}
use native.Mathlib.Decide.{dec_lt}
use native.Mathlib.Nat.{mul-le-mul_left, mul-le-mul_right}
use paasta.Marathon.{Task}
use paasta.Bounce.{
  AppTasks, Actions, Situation, Method, brutal, upthendown, crossover, downthenup, down,
  flatten_tasks, list_tasks, ceil_margin, needed_count, brutal_bounce, upthendown_bounce,
  crossover_bounce, downthenup_bounce, down_bounce, bounce_func,
}

-- The tasks of the old apps that are not draining, happy ones first.
abbrev pub old_tasks : Situation → List Task
old_tasks s = list_tasks s.old_happy ++ list_tasks s.old_unhappy

contains-flatten_tasks :
    (d : AppTasks) (t : Task) → contains (flatten_tasks d) t ≡ contains (list_tasks d) t
unfolding flatten_tasks list_tasks
contains-flatten_tasks [] t = refl
contains-flatten_tasks ((app, tasks) ∷ d) t =
    contains-union tasks (flatten_tasks d) t
    ∙ ap (λ b. contains tasks t || b) (contains-flatten_tasks d t)
    ∙ sym (contains-append tasks (list_tasks d) t)

contains-union_flatten :
    (s : Situation) (t : Task)
    → contains (union (flatten_tasks s.old_happy) (flatten_tasks s.old_unhappy)) t
      ≡ contains (old_tasks s) t
contains-union_flatten s t =
    contains-union (flatten_tasks s.old_happy) (flatten_tasks s.old_unhappy) t
    ∙ ap (λ b. b || contains (flatten_tasks s.old_unhappy) t) (contains-flatten_tasks s.old_happy t)
    ∙ ap (λ b. contains (list_tasks s.old_happy) t || b) (contains-flatten_tasks s.old_unhappy t)
    ∙ sym (contains-append (list_tasks s.old_happy) (list_tasks s.old_unhappy) t)

-- What a method asks for in a situation is fit to be done.
pub record IsModest (s : Situation) (a : Actions) : Type 0 where
  pub only_old : (t : Task) → contains a.tasks_to_drain t ≡ true → contains (old_tasks s) t ≡ true
  pub only_new : a.create_app ≡ true → s.new_app_running ≡ false

module _ (s : Situation) (a : Actions) where
  -- Draining all old tasks.
  drain_all-IsModest :
      a.tasks_to_drain ≡ union (flatten_tasks s.old_happy) (flatten_tasks s.old_unhappy)
      → (a.create_app ≡ true → s.new_app_running ≡ false)
      → IsModest s a
  drain_all-IsModest e c = record {
    only_old = λ t m. sym (contains-union_flatten s t) ∙ ap (λ l. contains l t) (sym e) ∙ m;
    only_new = c;
  }

  crossover-IsModest : crossover_bounce s ≡ ok a → IsModest s a
  unfolding crossover_bounce
  crossover-IsModest h =
      let drained : a.tasks_to_drain ≡ set_of (drop (needed_count s) (old_tasks s)) =
        ground arith in
      record {
        only_old = λ t m. contains-drop (needed_count s) (old_tasks s) t (
            sym (contains-set_of (drop (needed_count s) (old_tasks s)) t)
            ∙ ap (λ l. contains l t) (sym drained)
            ∙ m);
        only_new = ground arith;
      }

  brutal-IsModest : brutal_bounce s ≡ ok a → IsModest s a
  unfolding brutal_bounce
  brutal-IsModest h = drain_all-IsModest (ground arith) (ground arith)

  upthendown-IsModest : upthendown_bounce s ≡ ok a → IsModest s a
  unfolding upthendown_bounce
  upthendown-IsModest h =
      elim (Bool-cases (s.new_app_running && nat_beq (length s.happy_new_tasks) s.instances)) [
        | inl done ↦ drain_all-IsModest (ground arith) (ground arith)
        | inr waits ↦
            let idle : a.tasks_to_drain ≡ [] = ground arith in
            record { only_old = λ t m. cc (ap (λ l. contains l t) idle); only_new = ground arith }
      ]

  downthenup-IsModest : downthenup_bounce s ≡ ok a → IsModest s a
  unfolding downthenup_bounce
  downthenup-IsModest h = drain_all-IsModest (ground arith) (ground arith)

  down-IsModest : down_bounce s ≡ ok a → IsModest s a
  unfolding down_bounce
  down-IsModest h = drain_all-IsModest (ground arith) (ground arith)

pub bounce_func-IsModest :
    (m : Method) (s : Situation) (a : Actions) → bounce_func m s ≡ ok a → IsModest s a
bounce_func-IsModest brutal s a h = brutal-IsModest s a (unfold bounce_func in h)
bounce_func-IsModest upthendown s a h = upthendown-IsModest s a (unfold bounce_func in h)
bounce_func-IsModest crossover s a h = crossover-IsModest s a (unfold bounce_func in h)
bounce_func-IsModest downthenup s a h = downthenup-IsModest s a (unfold bounce_func in h)
bounce_func-IsModest down s a h = down-IsModest s a (unfold bounce_func in h)

-- Where a bounce method returns, it drains tasks of old apps only, and creates the new app only where it does not
-- run.
bounce_func_modest :
    (m : Method) (s : Situation) (a : Actions)
    → bounce_func m s ≡ ok a
    → (is_subset a.tasks_to_drain (old_tasks s) ≡ true)
      × ((a.create_app && s.new_app_running) ≡ false)
bounce_func_modest m s a h =
    let modest = bounce_func-IsModest m s a h in
    (
      is_subset_of a.tasks_to_drain (old_tasks s) modest.only_old,
      created a.create_app modest.only_new,
    )
  where
    created : (c : Bool) → (c ≡ true → s.new_app_running ≡ false) → (c && s.new_app_running) ≡ false
    created true new = new refl
    created false new = refl

length-set_of : (xs : List Task) → length (set_of xs) ≤ length xs
unfolding set_of
length-set_of [] = omega arith
length-set_of (x ∷ xs) = ground (arith, length-set_of xs)

crossover-eq-drop :
    (s : Situation) (a : Actions)
    → crossover_bounce s ≡ ok a
    → a.tasks_to_drain ≡ set_of (drop (needed_count s) (old_tasks s))
unfolding crossover_bounce
crossover-eq-drop s a h = ground arith

nil_of_length : (xs : List Task) → length xs ≤ 0 → xs ≡ []
nil_of_length [] h = refl
nil_of_length (x ∷ xs) h = absurd (omega arith)

-- crossover: with a margin between 0 and 1, the tasks wanted by the margin stay: either nothing is
-- drained, or the happy new tasks and the old tasks left are at least as many.
pub crossover_keeps_margin :
    (s : Situation) (a : Actions)
    → crossover_bounce s ≡ ok a
    → (a.tasks_to_drain ≡ [])
      ⊎ (ceil_margin s.instances s.margin_num s.margin_den
          ≤ length s.happy_new_tasks + (length (old_tasks s) - length a.tasks_to_drain))
crossover_keeps_margin s a h = kept (old_tasks s) drained
  where
    drained : a.tasks_to_drain ≡ set_of (drop (needed_count s) (old_tasks s))
    drained = crossover-eq-drop s a h

    wanted :
        ceil_margin s.instances s.margin_num s.margin_den
        ≤ length s.happy_new_tasks + needed_count s
    wanted = unfold needed_count in omega arith

    kept :
        (old : List Task)
        → a.tasks_to_drain ≡ set_of (drop (needed_count s) old)
        → (a.tasks_to_drain ≡ [])
          ⊎ (ceil_margin s.instances s.margin_num s.margin_den
              ≤ length s.happy_new_tasks + (length old - length a.tasks_to_drain))
    kept old e = elim (dec_lt (needed_count s) (length old)) [
      | yes more ↦ inr (
          omega (
            arith,
            length-set_of (drop (needed_count s) old),
            length-drop (needed_count s) old,
            ap (λ l. length l) e,
            wanted,
          ))
      | no fewer ↦ inl (
          nil_of_length a.tasks_to_drain (
            omega (
              arith,
              length-set_of (drop (needed_count s) old),
              length-drop (needed_count s) old,
              ap (λ l. length l) e,
            )))
    ]

-- crossover: once the margin's tasks are happy, every old task is drained.
pub crossover_finishes :
    (s : Situation) (a : Actions)
    → crossover_bounce s ≡ ok a
    → ceil_margin s.instances s.margin_num s.margin_den ≤ length s.happy_new_tasks
    → (t : Task) → contains a.tasks_to_drain t ≡ contains (old_tasks s) t
crossover_finishes s a h enough t =
    ap (λ l. contains l t) (crossover-eq-drop s a h)
    ∙ contains-set_of (drop (needed_count s) (old_tasks s)) t
    ∙ ap (λ n. contains (drop n (old_tasks s)) t) none_needed
  where
    none_needed : needed_count s ≡ 0
    none_needed = unfold needed_count in omega arith

le_of_mul : (k i d m n : ℕ) → n ≤ d → m ≡ i * n → k * d < m + d → k ≤ i
le_of_mul k i d m n le e h = elim (dec_lt i k) [
  | yes more ↦
      let above : suc i * d ≤ k * d = mul-le-mul_right d more in
      let fewer : i * n ≤ i * d = mul-le-mul_left i le in absurd (omega (arith, above, fewer))
  | no fewer ↦ omega arith
]

-- The margin's count is the least number of tasks that is no less than the fraction of the
-- instances, and never more than all of them.
pub ceil_margin_bounds :
    (instances num den : ℕ)
    → 0 < num
    → num ≤ den
    → (instances * num ≤ ceil_margin instances num den * den)
      × (ceil_margin instances num den * den < instances * num + den)
      × (ceil_margin instances num den ≤ instances)
unfolding ceil_margin
ceil_margin_bounds i n d pos le =
    let below : (i * n + (d - 1)) / d * d < i * n + d = grind arith in
    (grind arith, below, le_of_mul _ i d (i * n) n le refl below)
