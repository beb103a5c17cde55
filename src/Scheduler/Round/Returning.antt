-- ===== src/Scheduler/Round/Returning.antt =====
-- What kill_tasks_if_necessary looks up of the tracked tasks.
use paasta.Prelude.{
  length-sort_by, ℕ, suc, ◌≡◌, refl, sym, ap, ◌∙◌, inl, inr, Text, text_eq, Bool, true, false, ◌==◌,
  Option, none, some, List, [], ◌∷◌, map, ok, lookup, contains, contains-head, select, length,
  length-map, Bool-cases, or_cases, or_right,
}
use paasta.Scheduler.{Params, TasksWithFlags, keys}
use paasta.Scheduler.Round.{
  by_desirability, get_happy_tasks, healthiness_score, is_happy_task, params_at, scored,
  sort_by_score,
}

abbrev happy_entry : Option Params → Bool
happy_entry none = false
happy_entry (some params) = is_happy_task params

-- Whether the scheduler tracks the task as running and not draining.
abbrev pub happy_in : TasksWithFlags → Text → Bool
happy_in d tid = happy_entry (lookup tid d)

abbrev pub Tracked : TasksWithFlags → List Text → Type 0
Tracked d tids = (t : Text) → contains tids t ≡ true → contains (keys d) t ≡ true

lookup-keys :
    (d : TasksWithFlags) (t : Text)
    → contains (keys d) t ≡ true
    → (params : Params) × (lookup t d ≡ some params)
unfolding lookup keys
lookup-keys [] t m = cc
lookup-keys ((tid, params) ∷ d) t m = elim (Bool-cases (tid == t)) [
  | inl same ↦ (params, rw same refl)
  | inr other ↦ elim (or_cases (t == tid) (contains (keys d) t) m) [
    | inl same ↦ cc (other, (text_eq.beq_iff tid t).1 (sym ((text_eq.beq_iff t tid).0 same)))
    | inr later ↦ let (p, found) = lookup-keys d t later in (p, rw other found)
  ]
]

pub get_happy_tasks-returns :
    (d : TasksWithFlags) (tids : List Text)
    → Tracked d tids
    → get_happy_tasks d tids ≡ ok (select (happy_in d) tids)
unfolding get_happy_tasks params_at
get_happy_tasks-returns d [] tracked = refl
get_happy_tasks-returns d (tid ∷ tids) tracked =
    let (params, found) = lookup-keys d tid (tracked tid (contains-head tid tids)) in
    rw (found, get_happy_tasks-returns d tids (λ t m. tracked t (or_right (t == tid) m))) refl

scored-returns :
    (d : TasksWithFlags) (name : Text) (tids : List Text)
    → Tracked d tids
    → (xs : List (ℕ × Text)) × (scored d name tids ≡ ok xs) × (length xs ≡ length tids)
unfolding scored params_at
scored-returns d name [] tracked = ([], refl, refl)
scored-returns d name (tid ∷ tids) tracked =
    let (params, found) = lookup-keys d tid (tracked tid (contains-head tid tids)) in
    let (xs, returned, long) =
      scored-returns d name tids (λ t m. tracked t (or_right (t == tid) m)) in
    ((healthiness_score name tid params, tid) ∷ xs, rw (found, returned) refl, ap suc long)

pub by_desirability-returns :
    (d : TasksWithFlags) (name : Text) (tids : List Text)
    → Tracked d tids
    → (sorted : List Text) × (by_desirability d name tids ≡ ok sorted)
      × (length sorted ≡ length tids)
unfolding by_desirability
by_desirability-returns d name tids tracked =
    let (xs, returned, long) = scored-returns d name tids tracked in
    (
      map (λ (x : ℕ × Text). x.1) (sort_by_score xs),
      rw returned refl,
      length-map (λ (x : ℕ × Text). x.1) (sort_by_score xs) ∙ length-sort_by _ xs ∙ long,
    )
