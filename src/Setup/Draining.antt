-- ===== src/Setup/Draining.antt =====
-- Why tasks are killed after draining.
pub mod Exact
use paasta.Prelude.{
  nat_eq, ◌≡◌, ◌⊎◌, inl, inr, refl, sym, ap, ◌∙◌, Bool, true, false, ◌||◌, ◌&&◌, List, [], ◌∷◌,
  ◌++◌, ◌==◌, contains, contains-add, contains-union, add, union, nat_beq_iff, Result, ok, raise,
  Exception, or_left, or_right, or_cases, ok_injective, Result-cases, Bool-cases, arith,
  if◌then◌else◌,
}
use mathlib.Core.List.{append_assoc}
use paasta.Effects.{Oracle}
use paasta.Marathon.{Task, Effect, drain, is_safe_to_kill}
use paasta.Setup.{drain_loop, safe_loop, drain_tasks_and_find_tasks_to_kill}

-- The call was made at the history, on the way to the last one.
abbrev pub Made : (last h : List Effect) → Effect → Type 0
Made last h effect = (later : List Effect) × (last ≡ later ++ effect ∷ h)

-- The last history continues an earlier one.
abbrev pub Continues : (last h : List Effect) → Type 0
Continues last h = (later : List Effect) × (last ≡ later ++ h)

Continues-Made : {last h : List Effect} {effect : Effect} → Made last h effect → Continues last h
Continues-Made {last} {h} {effect} (later, e) =
    (later ++ effect ∷ [], e ∙ sym (append_assoc later (effect ∷ []) h))

Made-later :
    {last middle h : List Effect} {effect : Effect}
    → Continues last middle
    → Made middle h effect
    → Made last h effect
Made-later (l2, e2) (l1, e1) = (l2 ++ l1, e2 ∙ ap (λ m. l2 ++ m) e1 ∙ sym (append_assoc l2 l1 _))

one_more : {last h : List Effect} {effect : Effect} → Continues last h → Continues (effect ∷ last) h
one_more {effect = effect} (later, e) = (effect ∷ later, ap (λ l. effect ∷ l) e)

module _ (oracle : Oracle Effect) where
  drain_loop-Continues :
      (xs kill : List Task) (h : List Effect) → Continues (drain_loop oracle xs kill h).1 h
  unfolding drain_loop
  drain_loop-Continues [] kill h = ([], refl)
  drain_loop-Continues (task ∷ xs) kill h = elim (Result-cases (oracle h (drain task))) [
    | inl (b, done) ↦ rw done (Continues-Made (drain_loop-Continues xs kill (drain task ∷ h)))
    | inr (e, fails) ↦
        rw fails (Continues-Made (drain_loop-Continues xs (add task kill) (drain task ∷ h)))
  ]

  safe_loop-Continues :
      (xs kill : List Task) (h : List Effect) → Continues (safe_loop oracle xs kill h).1 h
  unfolding safe_loop
  safe_loop-Continues [] kill h = ([], refl)
  safe_loop-Continues (task ∷ xs) kill h = elim (Result-cases (oracle h (is_safe_to_kill task))) [
    | inl (b, answer) ↦ rw answer (
        Continues-Made
          (safe_loop-Continues xs (if b then add task kill else kill) (is_safe_to_kill task ∷ h)))
    | inr (e, fails) ↦
        rw fails
          (Continues-Made (safe_loop-Continues xs (add task kill) (is_safe_to_kill task ∷ h)))
  ]

module _ (oracle : Oracle Effect) (start : List Effect) where
  -- Why a task may be killed, by the calls that were made from the history of the start to the last
  -- one: draining it raised, it was reported safe, or that check raised.
  pub data Reason (last : List Effect) (task : Task) : Type 0 where
    drain_raised :
        (h : List Effect) (e : Exception)
        → Continues h start
        → Made last h (drain task)
        → oracle h (drain task) ≡ raise e
        → Reason last task
    safe :
        (h : List Effect)
        → Continues h start
        → Made last h (is_safe_to_kill task)
        → oracle h (is_safe_to_kill task) ≡ ok true
        → Reason last task
    check_raised :
        (h : List Effect) (e : Exception)
        → Continues h start
        → Made last h (is_safe_to_kill task)
        → oracle h (is_safe_to_kill task) ≡ raise e
        → Reason last task

  Reason-later :
      {last middle : List Effect} {t : Task}
      → Continues last middle
      → Reason middle t
      → Reason last t
  Reason-later c (drain_raised h e from made fails) =
      drain_raised h e from (Made-later c made) fails
  Reason-later c (safe h from made answer) = safe h from (Made-later c made) answer
  Reason-later c (check_raised h e from made fails) =
      check_raised h e from (Made-later c made) fails

  -- The loop returns, and what it adds to `kill` is of its list and has a reason.
  pub record Adds (xs kill : List Task) (result : Result (List Task) × List Effect) : Type 0 where
    pub killed : List Task
    pub returned : result.0 ≡ ok killed
    pub added :
        (t : Task)
        → contains killed t ≡ true
        → (contains kill t ≡ true) ⊎ ((contains xs t ≡ true) × Reason result.1 t)

  Reason-of :
      {last : List Effect} (task t : Task) → (t == task) ≡ true → Reason last task → Reason last t
  Reason-of task t same r = rw ((nat_beq_iff t task).0 same) r

  weaken :
      (task : Task) (xs kill kill' : List Task) (result : Result (List Task) × List Effect)
      → ((t : Task)
          → contains kill' t ≡ true
          → (contains kill t ≡ true) ⊎ ((t == task ≡ true) × Reason result.1 t))
      → Adds xs kill' result
      → Adds (task ∷ xs) kill result
  weaken task xs kill kill' result grown a = record {
    killed = a.killed;
    returned = a.returned;
    added = λ t m. elim (a.added t m) [
      | inl old ↦ elim (grown t old) [
        | inl older ↦ inl older
        | inr (same, why) ↦ inr (or_left (contains xs t) same, why)
      ]
      | inr (later, why) ↦ inr (or_right (t == task) later, why)
    ];
  }

  grown_by :
      {last : List Effect} (task : Task) (kill : List Task)
      → Reason last task
      → (t : Task) → contains (add task kill) t ≡ true
      → (contains kill t ≡ true) ⊎ ((t == task ≡ true) × Reason last t)
  grown_by task kill why t m =
      elim (or_cases (t == task) (contains kill t) (sym (contains-add task kill t) ∙ m)) [
        | inl same ↦ inr (same, Reason-of task t same why)
        | inr old ↦ inl old
      ]

  drain_loop-Adds :
      (xs kill : List Task) (h : List Effect)
      → Continues h start
      → Adds xs kill (drain_loop oracle xs kill h)
  unfolding drain_loop
  drain_loop-Adds [] kill h from = record { killed = kill; returned = refl; added = λ t m. inl m }
  drain_loop-Adds (task ∷ xs) kill h from = elim (Result-cases (oracle h (drain task))) [
    | inl (b, done) ↦ rw done (
        weaken task xs kill kill _ (λ t m. inl m)
          (drain_loop-Adds xs kill (drain task ∷ h) (one_more from)))
    | inr (e, fails) ↦ rw fails (
        weaken task xs kill (add task kill) _
          (grown_by task kill (
            drain_raised h e from (drain_loop-Continues oracle xs (add task kill) (drain task ∷ h))
              fails))
          (drain_loop-Adds xs (add task kill) (drain task ∷ h) (one_more from)))
  ]

  safe_loop-Adds :
      (xs kill : List Task) (h : List Effect)
      → Continues h start
      → Adds xs kill (safe_loop oracle xs kill h)
  unfolding safe_loop
  safe_loop-Adds [] kill h from = record { killed = kill; returned = refl; added = λ t m. inl m }
  safe_loop-Adds (task ∷ xs) kill h from = elim (Result-cases (oracle h (is_safe_to_kill task))) [
    | inl (b, answer) ↦ elim (Bool-cases b) [
      | inl yes_safe ↦
          rw (answer, yes_safe)
            (weaken task xs kill (add task kill) _
              (grown_by task kill (
                safe h from
                  (safe_loop-Continues oracle xs (add task kill) (is_safe_to_kill task ∷ h))
                  (answer ∙ ap ok yes_safe)))
              (safe_loop-Adds xs (add task kill) (is_safe_to_kill task ∷ h) (one_more from)))
      | inr not_safe ↦
          rw (answer, not_safe)
            (weaken task xs kill kill _ (λ t m. inl m)
              (safe_loop-Adds xs kill (is_safe_to_kill task ∷ h) (one_more from)))
    ]
    | inr (e, fails) ↦ rw fails (
        weaken task xs kill (add task kill) _
          (grown_by task kill (
            check_raised h e from
              (safe_loop-Continues oracle xs (add task kill) (is_safe_to_kill task ∷ h)) fails))
          (safe_loop-Adds xs (add task kill) (is_safe_to_kill task ∷ h) (one_more from)))
  ]

pub drain_tasks_reasons :
    (oracle : Oracle Effect) (to_drain draining at_risk : List Task) (h : List Effect)
    → (killed : List Task) × ((drain_tasks_and_find_tasks_to_kill oracle to_drain draining at_risk
          h).0
        ≡ ok killed)
      × ((t : Task)
          → contains killed t ≡ true
          → (((contains draining t || contains at_risk t) || contains to_drain t) ≡ true)
            × Reason oracle h
                (drain_tasks_and_find_tasks_to_kill oracle to_drain draining at_risk h).1
                t)
unfolding drain_tasks_and_find_tasks_to_kill
drain_tasks_reasons oracle to_drain draining at_risk h =
    let all = union (union draining at_risk) to_drain in
    let first = drain_loop-Adds oracle h all [] h ([], refl) in
    let second =
      safe_loop-Adds oracle h all first.killed (drain_loop oracle all [] h).1
        (drain_loop-Continues oracle all [] h) in
    rw first.returned (
      second.killed,
      second.returned,
      λ t m. elim (second.added t m) [
        | inl early ↦ elim (first.added t early) [
          | inl never ↦ cc never
          | inr (listed, why) ↦ (
            all_contains t listed,
            Reason-later oracle h
                (safe_loop-Continues oracle all first.killed (drain_loop oracle all [] h).1) why,
          )
        ]
        | inr (listed, why) ↦ (all_contains t listed, why)
      ],
    )
  where
    all_contains :
        (t : Task)
        → contains (union (union draining at_risk) to_drain) t ≡ true
        → ((contains draining t || contains at_risk t) || contains to_drain t) ≡ true
    all_contains t m =
        ap (λ b. b || contains to_drain t) (sym (contains-union draining at_risk t))
        ∙ sym (contains-union (union draining at_risk) to_drain t)
        ∙ m

-- Whatever the drain method answers or raises, a killed task was to be drained, was draining or was
-- at risk, and in this round either draining it raised, or it was reported safe to kill, or that check
-- raised.
pub killed_has-Reason :
    (oracle : Oracle Effect) (to_drain draining at_risk killed : List Task) (h : List Effect)
    (t : Task)
    → (drain_tasks_and_find_tasks_to_kill oracle to_drain draining at_risk h).0 ≡ ok killed
    → contains killed t ≡ true
    → (((contains draining t || contains at_risk t) || contains to_drain t) ≡ true)
      × Reason oracle h (drain_tasks_and_find_tasks_to_kill oracle to_drain draining at_risk h).1 t
killed_has-Reason oracle to_drain draining at_risk killed h t e m =
    let (found, returned, reasons) = drain_tasks_reasons oracle to_drain draining at_risk h in
    reasons t (ap (λ l. contains l t) (ok_injective (sym returned ∙ e)) ∙ m)
