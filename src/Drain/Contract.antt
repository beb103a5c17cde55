-- ===== src/Drain/Contract.antt =====
-- What the DrainMethod class of paasta_tools/drain_lib.py asks of a drain method, as an abstract
-- state machine for each task, and the Test method.
use paasta.Prelude.{
  nat_eq, ◌≡◌, refl, sym, ap, ◌∙◌, inl, inr, Text, text_eq, Bool, true, false, ◌||◌, ◌&&◌, not,
  ◌==◌, beq_sym, List, [], ◌∷◌, Result, ok, contains, contains-add, contains-diff, contains-union,
  diff, Bool-cases, if◌then◌else◌, arith,
}
use mathlib.Core.Path.{fun_ext}
use paasta.Effects.Stateful.{Prog}
use paasta.Drain.{DrainMethod, DrainTask, World, test_drain_method}

-- A task takes traffic, is being drained, or is drained and may be killed.
pub data Phase : Type 0 where
  up downed safe : Phase

abbrev pub drained : Phase → Phase
drained up = downed
drained downed = downed
drained safe = safe

abbrev pub is_down : Phase → Bool
is_down up = false
is_down _ = true

abbrev pub is_safe : Phase → Bool
is_safe safe = true
is_safe _ = false

abbrev pub Phases : Type 0
Phases = Text → Phase

abbrev pub set_phase : Text → Phase → Phases → Phases
set_phase id p phases j = if id == j then p else phases j

-- The operations of a method, as the program calls them.
pub data Operation : Type 0 where
  drains stops asks_draining asks_safe : DrainTask → Operation

-- The abstract machine: what it answers, and the phases after.
abbrev pub answer_of : Operation → Phases → Bool
answer_of (drains t) phases = true
answer_of (stops t) phases = true
answer_of (asks_draining t) phases = is_down (phases t.id)
answer_of (asks_safe t) phases = is_safe (phases t.id)

abbrev pub phases_after : Operation → Phases → Phases
phases_after (drains t) phases = set_phase t.id (drained (phases t.id)) phases
phases_after (stops t) phases = set_phase t.id up phases
phases_after (asks_draining t) phases = phases
phases_after (asks_safe t) phases = phases

abbrev pub answers_of : List Operation → Phases → List (Result Bool)
answers_of [] phases = []
answers_of (o ∷ os) phases = ok (answer_of o phases) ∷ answers_of os (phases_after o phases)

-- The operation of a method that the program calls.
abbrev pub perform : DrainMethod → Operation → Prog World Bool
perform m (drains t) = m.drain t
perform m (stops t) = m.stop_draining t
perform m (asks_draining t) = m.is_draining t
perform m (asks_safe t) = m.is_safe_to_kill t

abbrev pub answers_in : DrainMethod → List Operation → World → List (Result Bool)
answers_in m [] w = []
answers_in m (o ∷ os) w = let (answer, after) = perform m o w in answer ∷ answers_in m os after

-- A view of the world as phases that each operation of the method goes along with.
pub record Implements (m : DrainMethod) (view : World → Phases) : Type 0 where
  pub answers : (o : Operation) (w : World) → (perform m o w).0 ≡ ok (answer_of o (view w))
  pub goes_along :
      (o : Operation) (w : World) (id : Text)
      → view (perform m o w).1 id ≡ phases_after o (view w) id

-- Any method that goes along with a view answers what the abstract machine answers, whatever
-- operations are called in whatever order.
answers_in-Implements :
    (m : DrainMethod) (view : World → Phases)
    → Implements m view
    → (os : List Operation) (w : World) → answers_in m os w ≡ answers_of os (view w)
answers_in-Implements m view i [] w = refl
answers_in-Implements m view i (o ∷ os) w =
    rw
      (
        i.answers o w,
        answers_in-Implements m view i os (perform m o w).1,
        fun_ext (i.goes_along o w),
      )
      refl

abbrev phase_of : (is_safe_to_kill is_downed : Bool) → Phase
phase_of true _ = safe
phase_of false true = downed
phase_of false false = up

-- The phase of a task for the Test method.
abbrev pub test_phase : World → Phases
test_phase w id = phase_of (contains w.safe_to_kill_task_ids id) (contains w.downed_task_ids id)

down_lem : (s d : Bool) → (d || s) ≡ is_down (phase_of s d)
down_lem s d = ground arith

safe_lem : (s d : Bool) → s ≡ is_safe (phase_of s d)
safe_lem s d = ground arith

stop_lem : (s d e : Bool) → phase_of (s && not e) (d && not e) ≡ (if e then up else phase_of s d)
stop_lem s d e = ground arith

or_false : (b : Bool) → (b || false) ≡ b
or_false b = ground arith

contains-diff_one :
    (xs : List Text) (a b : Text) → contains (diff xs (a ∷ [])) b ≡ (contains xs b && not (a == b))
contains-diff_one xs a b =
    contains-diff xs (a ∷ []) b ∙ ap (λ e. contains xs b && not e) (or_false (b == a) ∙ beq_sym b a)

test_answers :
    (o : Operation) (w : World)
    → (perform test_drain_method o w).0 ≡ ok (answer_of o (test_phase w))
unfolding test_drain_method
test_answers (drains t) w = refl
test_answers (stops t) w = refl
test_answers (asks_draining t) w =
    rw (contains-union w.downed_task_ids w.safe_to_kill_task_ids t.id)
      (ap ok (down_lem (contains w.safe_to_kill_task_ids t.id) (contains w.downed_task_ids t.id)))
test_answers (asks_safe t) w =
    ap ok (safe_lem (contains w.safe_to_kill_task_ids t.id) (contains w.downed_task_ids t.id))

same_member : (xs : List Text) (a b : Text) → (a == b) ≡ true → contains xs a ≡ contains xs b
same_member xs a b same = ap (contains xs) ((text_eq.beq_iff a b).0 same)

drained_down : (d : Bool) → downed ≡ drained (phase_of false d)
drained_down d = ground arith

test_goes_along :
    (o : Operation) (w : World) (id : Text)
    → test_phase (perform test_drain_method o w).1 id ≡ phases_after o (test_phase w) id
unfolding test_drain_method
test_goes_along (drains t) w id = elim (Bool-cases (contains w.safe_to_kill_task_ids t.id)) [
  | inl already ↦ elim (Bool-cases (t.id == id)) [
    | inl same ↦
        rw (already, same)
          (ap (λ s. phase_of s (contains w.downed_task_ids id))
            (sym (same_member w.safe_to_kill_task_ids t.id id same) ∙ already))
    | inr other ↦ rw (already, other) refl
  ]
  | inr not_yet ↦ elim (Bool-cases (t.id == id)) [
    | inl same ↦
        rw
          (
            not_yet,
            same,
            contains-add t.id w.downed_task_ids id,
            beq_sym id t.id,
            same,
            ← (same_member w.safe_to_kill_task_ids t.id id same),
            not_yet,
          )
          (drained_down (contains w.downed_task_ids t.id))
    | inr other ↦
        rw (not_yet, other, contains-add t.id w.downed_task_ids id, beq_sym id t.id, other) refl
  ]
]
test_goes_along (stops t) w id =
    rw
      (
        contains-diff_one w.downed_task_ids t.id id,
        contains-diff_one w.safe_to_kill_task_ids t.id id,
      )
      (stop_lem (contains w.safe_to_kill_task_ids id) (contains w.downed_task_ids id) (t.id == id))
test_goes_along (asks_draining t) w id = refl
test_goes_along (asks_safe t) w id = refl

-- The Test method implements the abstract machine: whatever operations are called in whatever order,
-- it answers what the machine answers, with the tasks that are downed or safe to kill as its phases.
pub test_drain_method_refines :
    (os : List Operation) (w : World)
    → answers_in test_drain_method os w ≡ answers_of os (test_phase w)
test_drain_method_refines =
    answers_in-Implements test_drain_method test_phase
      (record { answers = test_answers; goes_along = test_goes_along })
