-- ===== src/Metastatus/Grouping.antt =====
-- group_slaves_by_key_func of paasta_tools/metrics/metastatus_lib.py.
use paasta.Prelude.{
  ◌≡◌, refl, sym, ap, ◌∙◌, inl, inr, Text, text_eq, text_leb, text_leb_antisym, text_leb_total,
  text_leb_trans, text_leb_refl, ◌==◌, Bool, true, false, Option, none, some, List, [], ◌∷◌, ◌++◌,
  map, select, lookup, insert, sort_by, place, IsSorted, IsOrder, sort_by-IsSorted, and_parts,
  all_of, Result, ok, raise, ok_injective, >>=-eq-ok, Bool-cases, if◌then◌else◌,
}
use mathlib.Core.List.{append-nil, append_assoc}
use mathlib.Core.Path.{subst}
use paasta.Metastatus.{
  Slave, by_key, dict_from, group_by, group_slaves_by_key_func, join_run, with_keys,
}

pub eq_of_beq : (j k : Text) → (j == k) ≡ true → j ≡ k
eq_of_beq j k h = (text_eq.beq_iff j k).0 h

abbrev pub nonempty {ℓ} : {A : Type ℓ} → List A → Option (List A)
nonempty [] = none
nonempty (x ∷ xs) = some (x ∷ xs)

nonempty-eq-some {ℓ} : {A : Type ℓ} (xs ys : List A) → some ys ≡ nonempty xs → ys ≡ xs
nonempty-eq-some [] ys e = cc
nonempty-eq-some (x ∷ xs) ys e = cc

module _ {A : Type 0} where
  abbrev pub at_key : Text → Text × A → Bool
  at_key k x = x.0 == k

  abbrev pub members : Text → List (Text × A) → List A
  members k xs = map (λ (x : Text × A). x.1) (select (at_key k) xs)

  abbrev keys_leb : Text × A → Text × A → Bool
  keys_leb x y = text_leb x.0 y.0

  keys_leb-IsOrder : IsOrder keys_leb
  keys_leb-IsOrder = record {
    total = λ x y h. text_leb_total x.0 y.0 h;
    trans = λ x y z xy yz. text_leb_trans x.0 y.0 z.0 xy yz;
  }

  select-place :
      (k : Text) (x : Text × A) (xs : List (Text × A))
      → select (at_key k) (place keys_leb x xs) ≡ select (at_key k) (x ∷ xs)
  select-place k x [] = refl
  select-place k x (y ∷ ys) = elim (Bool-cases (keys_leb x y)) [
    | inl first ↦ rw first refl
    | inr after ↦ elim (Bool-cases (at_key k y)) [
      | inr other ↦ rw (after, other, select-place k x ys) refl
      | inl mine ↦ elim (Bool-cases (at_key k x)) [
        | inr apart ↦ rw (after, mine, select-place k x ys, apart) refl
        | inl both ↦
            let same : x.0 ≡ y.0 = eq_of_beq x.0 k both ∙ sym (eq_of_beq y.0 k mine) in
            cc (after, ap (λ t. text_leb t y.0) same, text_leb_refl y.0)
      ]
    ]
  ]

  members-sort_by :
      (k : Text) (xs : List (Text × A)) → members k (sort_by keys_leb xs) ≡ members k xs
  members-sort_by k xs = ap (map (λ (x : Text × A). x.1)) (sorted xs)
    where
      sorted :
          (xs : List (Text × A)) → select (at_key k) (sort_by keys_leb xs) ≡ select (at_key k) xs
      sorted [] = refl
      sorted (x ∷ xs) =
          select-place k x (sort_by keys_leb xs)
          ∙ ap (λ l. if at_key k x then x ∷ l else l) (sorted xs)

  -- No value after one with another, larger key has the key.
  members-eq-nil :
      (k : Text) (y : Text × A) (ys : List (Text × A))
      → text_leb k y.0 ≡ true
      → (y.0 == k) ≡ false
      → all_of (keys_leb y) ys ≡ true
      → members k ys ≡ []
  members-eq-nil k y [] ky apart below = refl
  members-eq-nil k y (z ∷ zs) ky apart below =
      let (yz, rest) = and_parts (keys_leb y z) _ below in
      elim (Bool-cases (z.0 == k)) [
        | inr other ↦ rw other (members-eq-nil k y zs ky apart rest)
        | inl mine ↦
            let yk : text_leb y.0 k ≡ true = rw (← eq_of_beq z.0 k mine) yz in
            let same : y.0 ≡ k = text_leb_antisym y.0 k yk ky in
            cc (apart, (text_eq.beq_iff y.0 k).1 same)
      ]

  -- The first run has the key of the first value.
  group_by-cons :
      (y : Text × A) (ys : List (Text × A))
      → (l : List A) × (rest : List (Text × List A)) × (group_by (y ∷ ys) ≡ (y.0, l) ∷ rest)
  group_by-cons y ys = first (group_by ys)
    where
      first :
          (runs : List (Text × List A))
          → (l : List A) × (rest : List (Text × List A)) × (join_run y runs ≡ (y.0, l) ∷ rest)
      first [] = (y.1 ∷ [], [], refl)
      first ((j, zs) ∷ runs) = elim (Bool-cases (j == y.0)) [
        | inl same ↦ (y.1 ∷ zs, runs, rw (same, eq_of_beq j y.0 same) refl)
        | inr other ↦ (y.1 ∷ [], (j, zs) ∷ runs, rw other refl)
      ]

  lookup-join_run_same :
      (k : Text) (x : Text × A) (j : Text) (l : List A) (rest : List (Text × List A))
      (xs : List (Text × A))
      → (j == x.0) ≡ true
      → lookup k ((j, l) ∷ rest) ≡ nonempty (members k xs)
      → lookup k (join_run x ((j, l) ∷ rest)) ≡ nonempty (members k (x ∷ xs))
  unfolding lookup
  lookup-join_run_same k x j l rest xs same ih =
      let jx = eq_of_beq j x.0 same in
      elim (Bool-cases (x.0 == k)) [
        | inl mine ↦
            let here : (j == k) ≡ true = rw jx mine in
            rw (same, here, mine)
              (ap (λ m. some (x.1 ∷ m)) (nonempty-eq-some (members k xs) l (rw here at ih)))
        | inr other ↦
            let apart : (j == k) ≡ false = rw jx other in rw (same, apart, other) (rw apart at ih)
      ]

  lookup-join_run_new :
      (k : Text) (x : Text × A) (j : Text) (l : List A) (rest : List (Text × List A))
      (xs : List (Text × A))
      → (j == x.0) ≡ false
      → members x.0 xs ≡ []
      → lookup k ((j, l) ∷ rest) ≡ nonempty (members k xs)
      → lookup k (join_run x ((j, l) ∷ rest)) ≡ nonempty (members k (x ∷ xs))
  unfolding lookup
  lookup-join_run_new k x j l rest xs new none_left ih = elim (Bool-cases (x.0 == k)) [
    | inl mine ↦
        rw (new, mine)
          (ap (λ m. some (x.1 ∷ m))
            (sym (ap (λ t. members t xs) (sym (eq_of_beq x.0 k mine)) ∙ none_left)))
    | inr other ↦ rw (new, other) ih
  ]

  later_apart :
      (x y : Text × A) (ys : List (Text × A))
      → (y.0 == x.0) ≡ false
      → IsSorted keys_leb (x ∷ y ∷ ys)
      → members x.0 (y ∷ ys) ≡ []
  later_apart x y ys new (below, (below_y, s)) =
      rw new (members-eq-nil x.0 y ys (and_parts (keys_leb x y) _ below).0 new below_y)

  pub lookup-group_by :
      (k : Text) (xs : List (Text × A))
      → IsSorted keys_leb xs
      → lookup k (group_by xs) ≡ nonempty (members k xs)
  unfolding lookup
  lookup-group_by k [] s = refl
  lookup-group_by k (x ∷ []) s = elim (Bool-cases (x.0 == k)) [
    | inl mine ↦ rw mine refl
    | inr other ↦ rw other refl
  ]
  lookup-group_by k (x ∷ y ∷ ys) (below, s) =
      let (l, rest, grouped) = group_by-cons y ys in
      let ih = rw grouped at (lookup-group_by k (y ∷ ys) s) in
      elim (Bool-cases (y.0 == x.0)) [
        | inl same ↦ rw grouped (lookup-join_run_same k x y.0 l rest (y ∷ ys) same ih)
        | inr new ↦
            rw grouped (
              lookup-join_run_new k x y.0 l rest (y ∷ ys) new (later_apart x y ys new (below, s))
                ih)
      ]

-- No key stands twice.
abbrev pub Distinct : {V : Type 0} → List (Text × V) → Type 0
unfolding lookup
Distinct [] = Unit {0}
Distinct ((k, v) ∷ d) = (lookup k d ≡ none) × Distinct d

module _ {V : Type 0} where
  insert-new :
      (k : Text) (v : V) (d r : List (Text × V))
      → Distinct (d ++ (k, v) ∷ r)
      → insert k v d ≡ d ++ (k, v) ∷ []
  unfolding lookup insert
  insert-new k v [] r h = refl
  insert-new k v ((j, w) ∷ d) r (fresh, h) = elim (Bool-cases (j == k)) [
    | inl same ↦ cc (found d (rw (eq_of_beq j k same) at fresh))
    | inr other ↦ rw other (ap (λ l. (j, w) ∷ l) (insert-new k v d r h))
  ]
    where
      found : (d : List (Text × V)) → lookup k (d ++ (k, v) ∷ r) ≡ none → some v ≡ none
      found [] e = rw ((text_eq.beq_iff k k).1 refl) at e
      found ((i, u) ∷ d) e = elim (Bool-cases (i == k)) [
        | inl hit ↦ cc (rw hit at e)
        | inr miss ↦ found d (rw miss at e)
      ]

  pub dict_from-Distinct :
      (d pairs : List (Text × V)) → Distinct (d ++ pairs) → dict_from d pairs ≡ d ++ pairs
  dict_from-Distinct d [] h = sym (append-nil d)
  dict_from-Distinct d ((k, v) ∷ r) h =
      let regroup = append_assoc d ((k, v) ∷ []) r in
      rw (insert-new k v d r h)
        (dict_from-Distinct (d ++ (k, v) ∷ []) r (subst Distinct (sym regroup) h) ∙ regroup)

pub group_by-Distinct :
    {A : Type 0} (xs : List (Text × A))
    → IsSorted (λ (x y : Text × A). text_leb x.0 y.0) xs
    → Distinct (group_by xs)
unfolding lookup
group_by-Distinct [] s = tt
group_by-Distinct (x ∷ []) s = (refl, tt)
group_by-Distinct (x ∷ y ∷ ys) (below, s) =
    let (l, rest, grouped) = group_by-cons y ys in
    let (fresh, apart) = rw grouped at (group_by-Distinct (y ∷ ys) s) in
    elim (Bool-cases (y.0 == x.0)) [
      | inl same ↦ rw (grouped, same) (fresh, apart)
      | inr new ↦
          let unseen =
            lookup-group_by x.0 (y ∷ ys) s ∙ ap nonempty (later_apart x y ys new (below, s)) in
          rw (grouped, new) (rw grouped at unseen, (fresh, apart))
    ]

-- Whether the key function gives the slave the key.
abbrev pub has_key : Text → Result Text → Bool
has_key k (ok j) = j == k
has_key k (raise e) = false

members-with_keys :
    (key_func : Slave → Result Text) (k : Text) (slaves : List Slave) (keyed : List (Text × Slave))
    → with_keys key_func slaves ≡ ok keyed
    → members k keyed ≡ select (λ s. has_key k (key_func s)) slaves
unfolding with_keys
members-with_keys key_func k [] keyed e = ap (members k) (sym (ok_injective e))
members-with_keys key_func k (s ∷ slaves) keyed e =
    let (key, here, rest) = >>=-eq-ok (key_func s) _ e in
    let (more, there, joined) = >>=-eq-ok (with_keys key_func slaves) _ rest in
    let ih = members-with_keys key_func k slaves more there in
    ap (members k) (sym (ok_injective joined)) ∙ elim (Bool-cases (key == k)) [
      | inl mine ↦ rw (here, mine) (ap (λ l. s ∷ l) ih)
      | inr other ↦ rw (here, other) ih
    ]

pub grouped_dict :
    (keyed : List (Text × Slave))
    → dict_from [] (group_by (sort_by by_key keyed)) ≡ group_by (sort_by by_key keyed)
grouped_dict keyed =
    dict_from-Distinct [] (group_by (sort_by by_key keyed))
      (group_by-Distinct (sort_by by_key keyed) (sort_by-IsSorted keys_leb-IsOrder keyed))

-- Where each slave has a key, a key is in the dict exactly where a slave has it, and is there with all
-- slaves that have it, in the order given.
pub lookup-group_slaves_by_key_func :
    (key_func : Slave → Result Text) (slaves : List Slave) (groups : List (Text × List Slave))
    (k : Text)
    → group_slaves_by_key_func key_func slaves ≡ ok groups
    → lookup k groups ≡ nonempty (select (λ s. has_key k (key_func s)) slaves)
unfolding group_slaves_by_key_func
lookup-group_slaves_by_key_func key_func slaves groups k e =
    let (keyed, with_them, made) = >>=-eq-ok (with_keys key_func slaves) _ e in
    ap (lookup k) (sym (ok_injective made) ∙ grouped_dict keyed)
    ∙ lookup-group_by k (sort_by by_key keyed) (sort_by-IsSorted keys_leb-IsOrder keyed)
    ∙ ap nonempty (members-sort_by k keyed ∙ members-with_keys key_func k slaves keyed with_them)
