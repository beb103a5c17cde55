-- ===== src/Prelude/Sorting.antt =====
-- sorted(xs, key=...): a stable sort by whether one value may stand before another.
use mathlib.Core.Path.{◌≡◌, refl, ap, ◌∙◌}
use mathlib.Core.Logic.{inl, inr}
use mathlib.Core.Bool.{Bool, true, false, ◌&&◌, ◌||◌}
use mathlib.Core.List.{List, [], ◌∷◌}
use native.Mathlib.Omega.{arith}
use Prim.Native.Nat.{suc}
use paasta.Prelude.Tests.{Eq, ◌==◌, if◌then◌else◌, Bool-cases, and_parts}
use paasta.Prelude.Lists.{length, all_of}
use paasta.Prelude.Sets.{contains}

module _ {ℓ} {A : Type ℓ} (before : A → A → Bool) where
  abbrev pub place : A → List A → List A
  place x [] = x ∷ []
  place x (y ∷ ys) = if before x y then x ∷ y ∷ ys else y ∷ place x ys

  abbrev pub sort_by : List A → List A
  sort_by [] = []
  sort_by (x ∷ xs) = place x (sort_by xs)

  length-place : (x : A) (xs : List A) → length (place x xs) ≡ suc (length xs)
  length-place x [] = refl
  length-place x (y ∷ ys) = elim (Bool-cases (before x y)) [
    | inl first ↦ rw first refl
    | inr after ↦ rw after (ap suc (length-place x ys))
  ]

  pub length-sort_by : (xs : List A) → length (sort_by xs) ≡ length xs
  length-sort_by [] = refl
  length-sort_by (x ∷ xs) = length-place x (sort_by xs) ∙ ap suc (length-sort_by xs)

  all_of-place : (p : A → Bool) (x : A) (xs : List A) → all_of p (place x xs) ≡ (p x && all_of p xs)
  all_of-place p x [] = refl
  all_of-place p x (y ∷ ys) = elim (Bool-cases (before x y)) [
    | inl first ↦ rw first refl
    | inr after ↦ rw (after, all_of-place p x ys) (swap (p x) (p y) (all_of p ys))
  ]
    where
      swap : (a b c : Bool) → (b && (a && c)) ≡ (a && (b && c))
      swap a b c = ground arith

  pub all_of-sort_by : (p : A → Bool) (xs : List A) → all_of p (sort_by xs) ≡ all_of p xs
  all_of-sort_by p [] = refl
  all_of-sort_by p (x ∷ xs) =
      all_of-place p x (sort_by xs) ∙ ap (λ b. p x && b) (all_of-sort_by p xs)

  contains-place :
      ⦃e : Eq A⦄ (x : A) (xs : List A) (a : A)
      → contains (place x xs) a ≡ ((a == x) || contains xs a)
  contains-place x [] a = refl
  contains-place x (y ∷ ys) a = elim (Bool-cases (before x y)) [
    | inl first ↦ rw first refl
    | inr after ↦ rw (after, contains-place x ys a) (swap (a == x) (a == y) (contains ys a))
  ]
    where
      swap : (b c d : Bool) → (c || (b || d)) ≡ (b || (c || d))
      swap b c d = ground arith

  pub contains-sort_by : ⦃e : Eq A⦄ (xs : List A) (a : A) → contains (sort_by xs) a ≡ contains xs a
  contains-sort_by [] a = refl
  contains-sort_by (x ∷ xs) a =
      contains-place x (sort_by xs) a ∙ ap (λ b. (a == x) || b) (contains-sort_by xs a)

-- Each value may stand before all that follow it.
abbrev pub IsSorted {ℓ} : {A : Type ℓ} → (A → A → Bool) → List A → Type 0
IsSorted before [] = Unit {0}
IsSorted before (x ∷ xs) = (all_of (before x) xs ≡ true) × IsSorted before xs

pub record IsOrder {ℓ} {A : Type ℓ} (before : A → A → Bool) : Type ℓ where
  pub total : (x y : A) → before x y ≡ false → before y x ≡ true
  pub trans : (x y z : A) → before x y ≡ true → before y z ≡ true → before x z ≡ true

module _ {ℓ} {A : Type ℓ} {before : A → A → Bool} (order : IsOrder before) where
  all_before :
      (x y : A) (ys : List A)
      → before x y ≡ true
      → all_of (before y) ys ≡ true
      → all_of (before x) ys ≡ true
  all_before x y [] xy below = refl
  all_before x y (z ∷ zs) xy below =
      let (yz, rest) = and_parts (before y z) _ below in
      rw (order.trans x y z xy yz) (all_before x y zs xy rest)

  place-IsSorted : (x : A) (xs : List A) → IsSorted before xs → IsSorted before (place before x xs)
  place-IsSorted x [] s = (refl, tt)
  place-IsSorted x (y ∷ ys) (below, s) = elim (Bool-cases (before x y)) [
    | inl first ↦ rw first (rw (first, all_before x y ys first below) refl, (below, s))
    | inr after ↦ rw after (
      rw (all_of-place before (before y) x ys, order.total x y after, below) refl,
      place-IsSorted x ys s,
    )
  ]

  pub sort_by-IsSorted : (xs : List A) → IsSorted before (sort_by before xs)
  sort_by-IsSorted [] = tt
  sort_by-IsSorted (x ∷ xs) = place-IsSorted x (sort_by before xs) (sort_by-IsSorted xs)
