-- ===== src/Prelude/Sets.antt =====
-- Python sets as lists: what matters of one is `contains`. Where the program iterates over a set
-- the list's order stands for Python's, so a theorem for every list holds for every order.
use Prim.Native.Nat.{ℕ, suc}
use mathlib.Core.Path.{◌≡◌, refl, sym, ap, ◌∙◌}
use mathlib.Core.Bool.{Bool, true, false, ◌&&◌, ◌||◌, not}
use mathlib.Core.List.{List, [], ◌∷◌, ◌++◌}
use native.Mathlib.Omega.{arith}
use mathlib.Core.Logic.{inl, inr}
use paasta.Prelude.Tests.{Eq, ◌==◌, if◌then◌else◌, Bool-cases, or_right, and_parts}
use paasta.Prelude.Lists.{length, take, drop, select, all_of, take-append-drop}

or_assoc : (a b c : Bool) → ((a || b) || c) ≡ (a || (b || c))
or_assoc true b c = refl
or_assoc false b c = refl

and_false : (b : Bool) → (b && false) ≡ false
and_false true = refl
and_false false = refl

or_without : (a b : Bool) → (a || (b && not a)) ≡ (a || b)
or_without true b = refl
or_without false true = refl
or_without false false = refl

or_true : (a : Bool) → (a || true) ≡ true
or_true true = refl
or_true false = refl

no_suc : {n : ℕ} → suc n ≡ 0 → ⊥
no_suc h = omega arith

module _ {ℓ} {A : Type ℓ} ⦃e : Eq A⦄ where
  -- a in xs
  abbrev pub contains : List A → A → Bool
  contains [] a = false
  contains (x ∷ xs) a = a == x || contains xs a

  -- xs.add(a)
  unfoldable pub add : A → List A → List A
  add a xs = if contains xs a then xs else a ∷ xs

  -- xs - ys
  unfoldable pub diff : List A → List A → List A
  diff xs ys = select (λ x. not (contains ys x)) xs

  -- xs | ys
  unfoldable pub union : List A → List A → List A
  unfolding diff
  union xs ys = xs ++ diff ys xs

  -- set(xs)
  unfoldable pub set_of : List A → List A
  unfolding add
  set_of [] = []
  set_of (x ∷ xs) = add x (set_of xs)

  -- No value is listed twice.
  abbrev pub no_repeats : List A → Bool
  no_repeats [] = true
  no_repeats (x ∷ xs) = not (contains xs x) && no_repeats xs

  -- xs <= ys and xs == ys, for sets
  unfoldable pub is_subset : List A → List A → Bool
  is_subset xs ys = all_of (contains ys) xs

  unfoldable pub set_eq : List A → List A → Bool
  unfolding is_subset
  set_eq xs ys = is_subset xs ys && is_subset ys xs

  pub contains-eq : (xs : List A) {a b : A} → (a == b) ≡ true → contains xs a ≡ contains xs b
  contains-eq xs {a} {b} h = ap (contains xs) ((e.beq_iff a b).0 h)

  pub contains-append :
      (xs ys : List A) (a : A) → contains (xs ++ ys) a ≡ (contains xs a || contains ys a)
  contains-append [] ys a = refl
  contains-append (x ∷ xs) ys a =
      ap (λ b. (a == x) || b) (contains-append xs ys a)
      ∙ sym (or_assoc (a == x) (contains xs a) (contains ys a))

  pub contains-add :
      (x : A) (xs : List A) (a : A) → contains (add x xs) a ≡ ((a == x) || contains xs a)
  unfolding add
  contains-add x xs a = elim (Bool-cases (contains xs x)) [
    | inl old ↦ elim (Bool-cases (a == x)) [
      | inl same ↦ rw (old, same) (contains-eq xs same ∙ old)
      | inr other ↦ rw (old, other) refl
    ]
    | inr new ↦ rw new refl
  ]

  pub contains-select :
      (p : A → Bool) (xs : List A) (a : A) → contains (select p xs) a ≡ (contains xs a && p a)
  contains-select p [] a = refl
  contains-select p (x ∷ xs) a = elim (Bool-cases (a == x)) [
    | inl same ↦
        let at : p a ≡ p x = ap p ((e.beq_iff a x).0 same) in
        elim (Bool-cases (p x)) [
          | inl kept ↦ rw (kept, same, at ∙ kept) refl
          | inr gone ↦
              let rest : (contains xs a && p a) ≡ false =
                rw (at ∙ gone) (and_false (contains xs a)) in
              rw (gone, same) (contains-select p xs a ∙ rest ∙ sym (at ∙ gone))
        ]
    | inr other ↦ elim (Bool-cases (p x)) [
      | inl kept ↦ rw (kept, other) (contains-select p xs a)
      | inr gone ↦ rw (gone, other) (contains-select p xs a)
    ]
  ]

  pub contains-diff :
      (xs ys : List A) (a : A) → contains (diff xs ys) a ≡ (contains xs a && not (contains ys a))
  unfolding diff
  contains-diff xs ys a = contains-select (λ x. not (contains ys x)) xs a

  pub contains-union :
      (xs ys : List A) (a : A) → contains (union xs ys) a ≡ (contains xs a || contains ys a)
  unfolding union
  contains-union xs ys a =
      contains-append xs (diff ys xs) a
      ∙ ap (λ b. contains xs a || b) (contains-diff ys xs a)
      ∙ or_without (contains xs a) (contains ys a)

  pub contains-set_of : (xs : List A) (a : A) → contains (set_of xs) a ≡ contains xs a
  unfolding set_of
  contains-set_of [] a = refl
  contains-set_of (x ∷ xs) a =
      contains-add x (set_of xs) a ∙ ap (λ b. (a == x) || b) (contains-set_of xs a)

  pub contains-head : (x : A) (xs : List A) → contains (x ∷ xs) x ≡ true
  contains-head x xs = ap (λ b. b || contains xs x) ((e.beq_iff x x).1 refl)

  pub is_subset→ :
      (xs ys : List A)
      → is_subset xs ys ≡ true
      → (a : A) → contains xs a ≡ true
      → contains ys a ≡ true
  unfolding is_subset
  is_subset→ (x ∷ xs) ys h a m = elim (Bool-cases (a == x)) [
    | inl same ↦ contains-eq ys same ∙ (and_parts (contains ys x) _ h).0
    | inr other ↦ is_subset→ xs ys (and_parts (contains ys x) _ h).1 a (rw other at m)
  ]
  is_subset→ [] ys h a m = cc

  pub is_subset_of :
      (xs ys : List A)
      → ((a : A) → contains xs a ≡ true → contains ys a ≡ true)
      → is_subset xs ys ≡ true
  unfolding is_subset
  is_subset_of [] ys h = refl
  is_subset_of (x ∷ xs) ys h =
      rw (h x (contains-head x xs)) (is_subset_of xs ys (λ a m. h a (or_right (a == x) m)))

  pub contains-take :
      (n : ℕ) (xs : List A) (a : A) → contains (take n xs) a ≡ true → contains xs a ≡ true
  contains-take n xs a m =
      rw (← take-append-drop n xs) (contains-append (take n xs) (drop n xs) a ∙ rw m refl)

  pub contains-drop :
      (n : ℕ) (xs : List A) (a : A) → contains (drop n xs) a ≡ true → contains xs a ≡ true
  contains-drop n xs a m =
      rw (← take-append-drop n xs)
        (contains-append (take n xs) (drop n xs) a ∙ rw m (or_true (contains (take n xs) a)))

  -- An empty difference is an inclusion: `0 == len(xs - ys)`.
  pub length-diff_zero :
      (xs ys : List A)
      → length (diff xs ys) ≡ 0
      → (a : A) → contains xs a ≡ true
      → contains ys a ≡ true
  unfolding diff
  length-diff_zero [] ys h a m = cc
  length-diff_zero (x ∷ xs) ys h a m = elim (Bool-cases (contains ys x)) [
    | inl in_ys ↦ elim (Bool-cases (a == x)) [
      | inl same ↦ contains-eq ys same ∙ in_ys
      | inr other ↦ length-diff_zero xs ys (rw in_ys at h) a (rw other at m)
    ]
    | inr out ↦ absurd (no_suc (rw out at h))
  ]

  pub length-diff_of_subset :
      (xs ys : List A) → ((a : A) → contains xs a ≡ true → contains ys a ≡ true) → diff xs ys ≡ []
  unfolding diff
  length-diff_of_subset [] ys h = refl
  length-diff_of_subset (x ∷ xs) ys h =
      rw (h x (contains-head x xs)) (length-diff_of_subset xs ys (λ a m. h a (or_right (a == x) m)))
