-- ===== src/Prelude/Counting.antt =====
-- Lists without repetitions, and how many of their members another list can hold.
use Prim.Native.Nat.{suc, ◌+◌, ◌≤◌}
use mathlib.Core.Path.{◌≡◌, refl, sym, ap, ◌∙◌}
use mathlib.Core.Logic.{inl, inr}
use mathlib.Core.Bool.{Bool, true, false, ◌||◌, not}
use mathlib.Core.List.{List, [], ◌∷◌}
use native.Mathlib.Omega.{arith}
use paasta.Prelude.Tests.{Eq, ◌==◌, Bool-cases, and_parts, or_right}
use paasta.Prelude.Lists.{length, select}
use paasta.Prelude.Sets.{
  add, contains, contains-head, contains-select, contains-eq, diff, no_repeats, set_of,
}

not_true→ : (b : Bool) → not b ≡ true → b ≡ false
not_true→ true h = cc
not_true→ false h = refl

module _ {ℓ} {A : Type ℓ} ⦃e : Eq A⦄ where
  pub no_repeats-set_of : (xs : List A) → no_repeats (set_of xs) ≡ true
  unfolding set_of add
  no_repeats-set_of [] = refl
  no_repeats-set_of (x ∷ xs) = elim (Bool-cases (contains (set_of xs) x)) [
    | inl old ↦ rw old (no_repeats-set_of xs)
    | inr new ↦ rw (new, new) (no_repeats-set_of xs)
  ]

  pub no_repeats-select :
      (p : A → Bool) (xs : List A) → no_repeats xs ≡ true → no_repeats (select p xs) ≡ true
  no_repeats-select p [] h = refl
  no_repeats-select p (x ∷ xs) h =
      let (new, rest) = and_parts (not (contains xs x)) _ h in
      elim (Bool-cases (p x)) [
        | inl kept ↦
            rw (kept, contains-select p xs x, not_true→ (contains xs x) new)
              (no_repeats-select p xs rest)
        | inr gone ↦ rw gone (no_repeats-select p xs rest)
      ]

  pub select_eq :
      (p q : A → Bool) (xs : List A)
      → ((a : A) → contains xs a ≡ true → p a ≡ q a)
      → select p xs ≡ select q xs
  select_eq p q [] h = refl
  select_eq p q (x ∷ xs) h =
      let here : p x ≡ q x = h x (contains-head x xs) in
      let rest = select_eq p q xs (λ a m. h a (or_right (a == x) m)) in
      elim (Bool-cases (q x)) [
        | inl kept ↦ rw (here, kept) (ap (λ l. x ∷ l) rest)
        | inr gone ↦ rw (here, gone) rest
      ]

  missing_differs :
      (y a : A) (xs : List A) → contains xs y ≡ false → contains xs a ≡ true → (a == y) ≡ false
  missing_differs y a xs out m = elim (Bool-cases (a == y)) [
    | inl same ↦ cc (contains-eq xs same, out, m)
    | inr other ↦ other
  ]

  -- One more value selects at most one more member.
  length-select_or :
      (y : A) (p : A → Bool) (xs : List A)
      → no_repeats xs ≡ true
      → length (select (λ a. (a == y) || p a) xs) ≤ suc (length (select p xs))
  length-select_or y p [] h = omega arith
  length-select_or y p (x ∷ xs) h =
      let (new, rest) = and_parts (not (contains xs x)) _ h in
      elim (Bool-cases (x == y)) [
        | inl same ↦
            let out : contains xs y ≡ false =
              sym (contains-eq xs same) ∙ not_true→ (contains xs x) new in
            rw
              (
                same,
                select_eq (λ a. (a == y) || p a) p xs λ a m. rw (missing_differs y a xs out m) refl,
              )
              (elim (Bool-cases (p x)) [
                | inl kept ↦ rw kept (omega arith)
                | inr gone ↦ rw gone (omega arith)
              ])
        | inr other ↦ elim (Bool-cases (p x)) [
          | inl kept ↦ rw (other, kept) (omega (arith, length-select_or y p xs rest))
          | inr gone ↦ rw (other, gone) (length-select_or y p xs rest)
        ]
      ]

  select_none : (xs : List A) → select (λ a. false) xs ≡ []
  select_none [] = refl
  select_none (x ∷ xs) = select_none xs

  -- A list without repetitions has no more members in another list than that is long.
  pub length-select_le :
      (xs ys : List A) → no_repeats xs ≡ true → length (select (contains ys) xs) ≤ length ys
  length-select_le xs [] h = rw (select_none xs) (omega arith)
  length-select_le xs (y ∷ ys) h =
      omega (arith, length-select_or y (contains ys) xs h, length-select_le xs ys h)

  pub length-diff_add :
      (xs ys : List A) → length (diff xs ys) + length (select (contains ys) xs) ≡ length xs
  unfolding diff
  length-diff_add [] ys = refl
  length-diff_add (x ∷ xs) ys = elim (Bool-cases (contains ys x)) [
    | inl there ↦ rw there (omega (arith, length-diff_add xs ys))
    | inr missing ↦ rw missing (omega (arith, length-diff_add xs ys))
  ]
