-- ===== src/Prelude/Dict.antt =====
-- Python dicts with ordered entries: an association list without the order's meaning.
use mathlib.Core.Path.{◌≡◌, refl, ap, ◌∙◌}
use mathlib.Core.Option.{Option, none, some}
use mathlib.Core.Logic.{inl, inr}
use mathlib.Core.List.{List, [], ◌∷◌}
use native.Mathlib.Omega.{arith}
use paasta.Prelude.Tests.{Eq, ◌==◌, if◌then◌else◌, Bool-cases}

module _ {ℓ κ} {K : Type ℓ} {V : Type κ} ⦃e : Eq K⦄ where
  -- d.get(k); none where the key is missing
  unfoldable pub lookup : K → List (K × V) → Option V
  lookup k [] = none
  lookup k ((j, v) ∷ d) = if j == k then some v else lookup k d

  -- d.get(k, default)
  unfoldable pub get_or : K → V → List (K × V) → V
  unfolding lookup
  get_or k default d = elim (lookup k d) [ none ↦ default | some v ↦ v ]

  -- d[k] = v: the place of an old entry is kept
  unfoldable pub insert : K → V → List (K × V) → List (K × V)
  insert k v [] = (k, v) ∷ []
  insert k v ((j, w) ∷ d) = if j == k then (k, v) ∷ d else (j, w) ∷ insert k v d

  -- d.pop(k, None)
  unfoldable pub without : K → List (K × V) → List (K × V)
  without k [] = []
  without k ((j, w) ∷ d) = if j == k then without k d else (j, w) ∷ without k d

  pub lookup-insert :
      (k j : K) (v : V) (d : List (K × V))
      → lookup j (insert k v d) ≡ (if k == j then some v else lookup j d)
  unfolding lookup insert
  lookup-insert k j v [] = refl
  lookup-insert k j v ((i, w) ∷ d) = elim (Bool-cases (i == k)) [
    | inl same ↦ let eq : i ≡ k = (e.beq_iff i k).0 same in rw (same, eq) (again k j)
    | inr other ↦ elim (Bool-cases (i == j)) [
      | inl hit ↦
          let eq : i ≡ j = (e.beq_iff i j).0 hit in
          elim (Bool-cases (k == j)) [
            | inl kj ↦ ground (arith, e.beq_iff i k, e.beq_iff i j, e.beq_iff k j)
            | inr apart ↦ rw (other, hit, apart) refl
          ]
      | inr miss ↦ rw (other, miss) (lookup-insert k j v d)
    ]
  ]
    where
      again :
          (k j : K)
          → (if k == j then some v else lookup j d)
            ≡ (if k == j then some v else if k == j then some w else lookup j d)
      again k j = elim (Bool-cases (k == j)) [ inl y ↦ rw y refl | inr n ↦ rw n refl ]

  pub lookup-insert_self : (k : K) (v : V) (d : List (K × V)) → lookup k (insert k v d) ≡ some v
  lookup-insert_self k v d =
      lookup-insert k k v d ∙ ap (λ b. if b then some v else lookup k d) ((e.beq_iff k k).1 refl)

  pub lookup-without :
      (k j : K) (d : List (K × V)) → lookup j (without k d) ≡ (if k == j then none else lookup j d)
  unfolding lookup without
  lookup-without k j [] = elim (Bool-cases (k == j)) [ inl y ↦ rw y refl | inr n ↦ rw n refl ]
  lookup-without k j ((i, w) ∷ d) = elim (Bool-cases (i == k)) [
    | inl same ↦
        let eq : i ≡ k = (e.beq_iff i k).0 same in
        rw (same, eq)
          (lookup-without k j d
            ∙ elim (Bool-cases (k == j)) [ inl y ↦ rw y refl | inr n ↦ rw n refl ])
    | inr other ↦ elim (Bool-cases (i == j)) [
      | inl hit ↦
          let eq : i ≡ j = (e.beq_iff i j).0 hit in
          elim (Bool-cases (k == j)) [
            | inl kj ↦ ground (arith, e.beq_iff i k, e.beq_iff i j, e.beq_iff k j)
            | inr apart ↦ rw (other, hit, apart) refl
          ]
      | inr miss ↦ rw (other, miss) (lookup-without k j d)
    ]
  ]
