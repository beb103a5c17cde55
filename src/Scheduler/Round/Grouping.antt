-- ===== src/Scheduler/Round/Grouping.antt =====
-- The grouping of tasks by version in kill_tasks_if_necessary.
use paasta.Prelude.{
  suc, ◌+◌, ◌≡◌, refl, ap, ◌∙◌, inl, inr, Text, text_eq, Bool, false, ◌||◌, ◌==◌, List, [], ◌∷◌,
  ◌++◌, lookup, insert, contains, contains-append, length, length-append, Bool-cases, arith,
}
use paasta.Bounce.{list_tasks}
use paasta.Scheduler.{append_at, group_loop, group_tasks_by_version, listed, version_of}

or_comm : (a b : Bool) → (a || b) ≡ (b || a)
or_comm a b = ground arith

or_swap : (a b c : Bool) → (a || (b || c)) ≡ ((b || a) || c)
or_swap a b c = ground arith

or_front : (a b c : Bool) → ((a || (b || false)) || c) ≡ (b || (a || c))
or_front a b c = ground arith

or_past : (a b c : Bool) → (a || (b || c)) ≡ (b || (a || c))
or_past a b c = ground arith

module _ (version tid : Text) (old : List Text) where
  length-insert_at :
      (d : List (Text × List Text))
      → listed (lookup version d) ≡ old
      → length (list_tasks (insert version (old ++ tid ∷ []) d)) ≡ suc (length (list_tasks d))
  unfolding list_tasks lookup insert
  length-insert_at [] h = rw (← h) refl
  length-insert_at ((v, tids) ∷ d) h = elim (Bool-cases (v == version)) [
    | inl same ↦
        rw
          (
            same,
            ← (rw same at h),
            length-append (tids ++ tid ∷ []) (list_tasks d),
            length-append tids (tid ∷ []),
            length-append tids (list_tasks d),
          )
          (omega arith)
    | inr other ↦
        rw
          (
            other,
            length-append tids (list_tasks (insert version (old ++ tid ∷ []) d)),
            length-append tids (list_tasks d),
          )
          (omega (arith, length-insert_at d (rw other at h)))
  ]

  contains-insert_at :
      (d : List (Text × List Text)) (t : Text)
      → listed (lookup version d) ≡ old
      → contains (list_tasks (insert version (old ++ tid ∷ []) d)) t
        ≡ ((t == tid) || contains (list_tasks d) t)
  unfolding list_tasks lookup insert
  contains-insert_at [] t h = rw (← h) refl
  contains-insert_at ((v, tids) ∷ d) t h = elim (Bool-cases (v == version)) [
    | inl same ↦
        rw
          (
            same,
            ← (rw same at h),
            contains-append (tids ++ tid ∷ []) (list_tasks d) t,
            contains-append tids (tid ∷ []) t,
            contains-append tids (list_tasks d) t,
          )
          (or_front (contains tids t) (t == tid) (contains (list_tasks d) t))
    | inr other ↦
        rw
          (
            other,
            contains-append tids (list_tasks (insert version (old ++ tid ∷ []) d)) t,
            contains-append tids (list_tasks d) t,
            contains-insert_at d t (rw other at h),
          )
          (or_past (contains tids t) (t == tid) (contains (list_tasks d) t))
  ]

length-group_loop :
    (tids : List Text) (d : List (Text × List Text))
    → length (list_tasks (group_loop d tids)) ≡ length tids + length (list_tasks d)
length-group_loop [] d = omega arith
length-group_loop (tid ∷ tids) d = omega (
  arith,
  length-group_loop tids (append_at (version_of tid) tid d),
  length-insert_at (version_of tid) tid _ d refl,
)

contains-group_loop :
    (tids : List Text) (d : List (Text × List Text)) (t : Text)
    → contains (list_tasks (group_loop d tids)) t ≡ (contains tids t || contains (list_tasks d) t)
contains-group_loop [] d t = refl
contains-group_loop (tid ∷ tids) d t =
    contains-group_loop tids (append_at (version_of tid) tid d) t
    ∙ ap (λ b. contains tids t || b) (contains-insert_at (version_of tid) tid _ d t refl)
    ∙ or_swap (contains tids t) (t == tid) (contains (list_tasks d) t)

pub length-group_tasks_by_version :
    (tids : List Text) → length (list_tasks (group_tasks_by_version tids)) ≡ length tids
unfolding group_tasks_by_version list_tasks
length-group_tasks_by_version tids = omega (arith, length-group_loop tids [])

pub contains-group_tasks_by_version :
    (tids : List Text) (t : Text)
    → contains (list_tasks (group_tasks_by_version tids)) t ≡ contains tids t
unfolding group_tasks_by_version list_tasks
contains-group_tasks_by_version tids t =
    contains-group_loop tids [] t ∙ or_comm (contains tids t) false
