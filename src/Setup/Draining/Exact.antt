-- ===== src/Setup/Draining/Exact.antt =====
-- Which tasks are killed where the drain method's answers do not change.
use paasta.Prelude.{
  nat_eq, ◌≡◌, inl, inr, refl, ap, ◌∙◌, Bool, true, false, ◌||◌, ◌&&◌, List, [], ◌∷◌, ◌==◌,
  contains, contains-add, contains-union, add, union, nat_beq_iff, Result, ok, raise, Result-cases,
  Bool-cases, arith, if◌then◌else◌,
}
use paasta.Effects.{Oracle}
use paasta.Marathon.{Task, Effect, drain, is_safe_to_kill}
use paasta.Setup.{drain_loop, safe_loop, drain_tasks_and_find_tasks_to_kill}

-- What a loop leaves that adds the tasks of a test, in turn.
collect : (Task → Bool) → (xs kill : List Task) → List Task
collect p [] kill = kill
collect p (task ∷ xs) kill = collect p xs (if p task then add task kill else kill)

contains-collect :
    (p : Task → Bool) (xs kill : List Task) (t : Task)
    → contains (collect p xs kill) t ≡ (contains kill t || (contains xs t && p t))
unfolding collect
contains-collect p [] kill t = ground arith
contains-collect p (task ∷ xs) kill t = elim (Bool-cases (p task)) [
  | inl chosen ↦ rw chosen (
      contains-collect p xs (add task kill) t
      ∙ ap (λ b. b || (contains xs t && p t)) (contains-add task kill t)
      ∙ joined (λ same. ap p ((nat_beq_iff t task).0 same) ∙ chosen))
  | inr left ↦
      rw left
        (contains-collect p xs kill t ∙ skipped (λ same. ap p ((nat_beq_iff t task).0 same) ∙ left))
]
  where
    joined :
        ((t == task) ≡ true → p t ≡ true)
        → (((t == task) || contains kill t) || (contains xs t && p t))
          ≡ (contains kill t || (((t == task) || contains xs t) && p t))
    joined h = table (t == task) (contains kill t) (contains xs t) (p t) h
      where
        table :
            (s k x q : Bool)
            → (s ≡ true → q ≡ true)
            → ((s || k) || (x && q)) ≡ (k || ((s || x) && q))
        table true k x q h' = rw (h' refl) (ground arith)
        table false k x q h' = refl

    skipped :
        ((t == task) ≡ true → p t ≡ false)
        → (contains kill t || (contains xs t && p t))
          ≡ (contains kill t || (((t == task) || contains xs t) && p t))
    skipped h = table (t == task) (contains kill t) (contains xs t) (p t) h
      where
        table : (s k x q : Bool) → (s ≡ true → q ≡ false) → (k || (x && q)) ≡ (k || ((s || x) && q))
        table true k x q h' = rw (h' refl) (ground arith)
        table false k x q h' = refl

abbrev pub raises : Result Bool → Bool
raises (ok b) = false
raises (raise e) = true

abbrev pub true_or_raises : Result Bool → Bool
true_or_raises (ok b) = b
true_or_raises (raise e) = true

-- A drain method whose answers do not depend on the calls made before.
module _ (answer : Effect → Result Bool) where
  abbrev pub steady : Oracle Effect
  steady h e = answer e

  drain_loop-steady :
      (xs kill : List Task) (h : List Effect)
      → (drain_loop steady xs kill h).0 ≡ ok (collect (λ t. raises (answer (drain t))) xs kill)
  unfolding drain_loop collect
  drain_loop-steady [] kill h = refl
  drain_loop-steady (task ∷ xs) kill h = elim (Result-cases (answer (drain task))) [
    | inl (b, e) ↦ rw e (drain_loop-steady xs kill (drain task ∷ h))
    | inr (x, e) ↦ rw e (drain_loop-steady xs (add task kill) (drain task ∷ h))
  ]

  safe_loop-steady :
      (xs kill : List Task) (h : List Effect)
      → (safe_loop steady xs kill h).0
        ≡ ok (collect (λ t. true_or_raises (answer (is_safe_to_kill t))) xs kill)
  unfolding safe_loop collect
  safe_loop-steady [] kill h = refl
  safe_loop-steady (task ∷ xs) kill h = elim (Result-cases (answer (is_safe_to_kill task))) [
    | inl (b, e) ↦
        rw e (safe_loop-steady xs (if b then add task kill else kill) (is_safe_to_kill task ∷ h))
    | inr (x, e) ↦ rw e (safe_loop-steady xs (add task kill) (is_safe_to_kill task ∷ h))
  ]

  -- With steady answers a task is killed exactly when it was to be drained, was draining or was at
  -- risk, and draining it raises, or it is safe to kill, or that check raises.
  pub drain_tasks_exact :
      (to_drain draining at_risk : List Task) (h : List Effect)
      → (killed : List Task) × ((drain_tasks_and_find_tasks_to_kill steady to_drain draining at_risk
            h).0
          ≡ ok killed)
        × ((t : Task)
            → contains killed t ≡ (
                ((contains draining t || contains at_risk t) || contains to_drain t)
                && (raises (answer (drain t)) || true_or_raises (answer (is_safe_to_kill t)))))
  unfolding drain_tasks_and_find_tasks_to_kill
  drain_tasks_exact to_drain draining at_risk h = (
    collect safe_now all (collect fails all []),
    rw (drain_loop-steady all [] h)
        (safe_loop-steady all (collect fails all []) (drain_loop steady all [] h).1),
    λ t.
        contains-collect safe_now all (collect fails all []) t
        ∙ ap (λ b. b || (contains all t && safe_now t)) (contains-collect fails all [] t)
        ∙ distribute (contains all t) (fails t) (safe_now t)
        ∙ ap (λ b. b && (fails t || safe_now t))
            (contains-union (union draining at_risk) to_drain t
              ∙ ap (λ b. b || contains to_drain t) (contains-union draining at_risk t)),
  )
    where
      all : List Task
      all = union (union draining at_risk) to_drain

      fails : Task → Bool
      fails t = raises (answer (drain t))

      safe_now : Task → Bool
      safe_now t = true_or_raises (answer (is_safe_to_kill t))

      distribute : (a b c : Bool) → ((a && b) || (a && c)) ≡ (a && (b || c))
      distribute true b c = refl
      distribute false b c = refl
