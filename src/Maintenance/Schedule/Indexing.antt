-- ===== src/Maintenance/Schedule/Indexing.antt =====
-- A list read and changed at an index, as the loops over a schedule do.
use paasta.Prelude.{
  ℕ, zero, suc, ◌≡◌, refl, ap, ◌≤◌, List, [], ◌∷◌, none, some, drop, length, arith,
}
use paasta.Maintenance.Schedule.{get_elem?, set_elem}

module _ {A : Type 0} where
  pub drop-get_elem? :
      (i : ℕ) (xs : List A) (x : A) → get_elem? i xs ≡ some x → drop i xs ≡ x ∷ drop (suc i) xs
  unfolding get_elem?
  drop-get_elem? i [] x h = cc
  drop-get_elem? zero (y ∷ xs) x h = cc
  drop-get_elem? (suc i) (y ∷ xs) x h = drop-get_elem? i xs x h

  pub drop-none : (i : ℕ) (xs : List A) → get_elem? i xs ≡ none → drop i xs ≡ []
  unfolding get_elem?
  drop-none zero [] h = refl
  drop-none (suc i) [] h = refl
  drop-none zero (y ∷ xs) h = cc
  drop-none (suc i) (y ∷ xs) h = drop-none i xs h

  pub drop-all : (i : ℕ) (xs : List A) → length xs ≤ i → drop i xs ≡ []
  drop-all zero [] h = refl
  drop-all (suc i) [] h = refl
  drop-all zero (y ∷ xs) h = absurd (omega arith)
  drop-all (suc i) (y ∷ xs) h = drop-all i xs (omega arith)

  pub set_elem-get_elem? :
      (i : ℕ) (x : A) (xs : List A) → get_elem? i xs ≡ some x → set_elem i x xs ≡ xs
  unfolding get_elem? set_elem
  set_elem-get_elem? i x [] h = refl
  set_elem-get_elem? zero x (y ∷ xs) h = cc
  set_elem-get_elem? (suc i) x (y ∷ xs) h = ap (λ l. y ∷ l) (set_elem-get_elem? i x xs h)
