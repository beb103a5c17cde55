-- ===== src/ClusterAutoscaling/Delta.antt =====
-- The capacity that get_spot_fleet_delta aims for.
use paasta.Prelude.{
  ℕ, zero, suc, ◌+◌, ◌-◌, ◌*◌, ◌≤◌, ◌<◌, ◌≡◌, min, max, ◌⊎◌, inl, inr, ℤ, pos, negsuc, shift, arith,
}
use native.Mathlib.Nat.{
  lt-div-mul-add, div-mul-le_self, mul-le-mul_right, le_of_mul-le-mul_right, le_of_mul-le-mul_left,
  one-le-mul, lt_of_mul-lt-mul_left,
}
use paasta.ClusterAutoscaling.{
  Fraction, Resource, ceil_div, error_num, error_of, get_spot_fleet_delta, ideal_capacity, ideal_of,
  least_capacity, most_capacity,
}

ceil_div_bounds : (a b : ℕ) → 0 < b → (a ≤ ceil_div a b * b) × (ceil_div a b * b < a + b)
ceil_div_bounds a b h =
    let low = div-mul-le_self (a + (b - 1)) b in
    let high = lt-div-mul-add {a = a + (b - 1)} h in (omega arith, omega arith)

min_cases : (a b : ℕ) → (min a b ≡ a) ⊎ (min a b ≡ b)
min_cases a b = omega arith

max_cases : (a b : ℕ) → (max a b ≡ a) ⊎ (max a b ≡ b)
max_cases a b = omega arith

pub regroup : (q d u : ℕ) → q * (d * u) ≡ d * (q * u)
regroup q d u = grind arith

-- Less is free than the target leaves: free < 1 - target.
abbrev pub OverTarget : (target_percent : ℕ) → ℤ → ℕ → Type 0
OverTarget target_percent (pos f) den = 100 * f + target_percent * den < 100 * den
OverTarget target_percent (negsuc f) den = target_percent * den < 100 * den + 100 * suc f

-- At least as much is free as the target leaves.
abbrev pub WithinTarget : (target_percent : ℕ) → ℤ → ℕ → Type 0
WithinTarget target_percent (pos f) den = 100 * den ≤ 100 * f + target_percent * den
WithinTarget target_percent (negsuc f) den = 100 * den + 100 * suc f ≤ target_percent * den

factor_over :
    (target_percent : ℕ) (num : ℤ) (den : ℕ)
    → OverTarget target_percent num den
    → (n : ℕ) × (shift (100 * den) (error_num target_percent num den) ≡ pos n) × (100 * den ≤ n)
factor_over p (pos f) den h =
    (100 * den + (100 * den - (100 * f + p * den)), ground arith, omega arith)
factor_over p (negsuc f) den h =
    (100 * den + (100 * den + 100 * suc f - p * den), ground arith, omega arith)

-- A number that is at most the bound, or below 0.
abbrev AtMost : ℕ → ℤ → Type 0
AtMost bound (pos n) = n ≤ bound
AtMost bound (negsuc n) = Unit {0}

factor_within :
    (target_percent : ℕ) (num : ℤ) (den : ℕ)
    → WithinTarget target_percent num den
    → AtMost (100 * den) (shift (100 * den) (error_num target_percent num den))
factor_within p (pos f) den h = ground arith
factor_within p (negsuc f) den h = ground arith

factor_pos : (a q k : ℕ) → 0 < a → a ≤ q * k → 1 ≤ q
factor_pos a zero k h le = absurd (omega arith)
factor_pos a (suc q) k h le = omega arith

module _ (unit : ℕ) (some_unit : 0 < unit) where
  least-le-most : (c : ℕ) → least_capacity unit c ≤ most_capacity unit c
  least-le-most c =
      let low = div-mul-le_self (c * 4) (5 * unit) in
      let high = (ceil_div_bounds (c * 6) (5 * unit) (omega arith)).0 in
      let ordered : least_capacity unit c * (5 * unit) ≤ most_capacity unit c * (5 * unit) =
        omega (arith, low, high) in
      le_of_mul-le-mul_right ordered (omega arith)

  most_pos : (c : ℕ) → 0 < c → 1 ≤ most_capacity unit c
  most_pos c h =
      let high = (ceil_div_bounds (c * 6) (5 * unit) (omega arith)).0 in
      factor_pos _ (most_capacity unit c) (5 * unit) (omega arith) high

  at_most_most :
      (resource : Resource) (c : ℕ) (error : Fraction)
      → get_spot_fleet_delta unit resource c error ≤ most_capacity unit c
  unfolding get_spot_fleet_delta
  at_most_most resource c error = omega arith

  -- The target is at most the maximum, and at most a fifth above the current capacity, rounded up. It is
  -- at least a fifth below the current capacity, rounded down, or the maximum; and where the maximum and
  -- the current capacity are not 0, it is at least 1.
  pub get_spot_fleet_delta_bounds :
      (resource : Resource) (current_capacity : ℕ) (error : Fraction)
      → (get_spot_fleet_delta unit resource current_capacity error ≤ resource.max_capacity)
        × (get_spot_fleet_delta unit resource current_capacity error * (5 * unit)
            < current_capacity * 6 + 5 * unit)
        × (min (least_capacity unit current_capacity) resource.max_capacity
            ≤ get_spot_fleet_delta unit resource current_capacity error)
        × (0 < current_capacity
            → 0 < resource.max_capacity
            → 1 ≤ get_spot_fleet_delta unit resource current_capacity error)
  unfolding get_spot_fleet_delta
  get_spot_fleet_delta_bounds resource c error =
      let high = (ceil_div_bounds (c * 6) (5 * unit) (omega arith)).1 in
      let ordered = least-le-most c in
      (
        omega arith,
        omega (arith, mul-le-mul_right (5 * unit) (at_most_most resource c error), high),
        omega (arith, ordered),
        λ some_capacity some_max. omega (arith, most_pos c some_capacity),
      )

  -- Whether a count of instances makes at least, or less than one instance more than, the capacity.
  module _ (c : ℕ) where
    min_reaches : (a b : ℕ) → c ≤ a * unit → c ≤ b * unit → c ≤ min a b * unit
    min_reaches a b ha hb = elim (min_cases a b) [ inl e ↦ rw e ha | inr e ↦ rw e hb ]

    larger_reaches : (a b : ℕ) → a ≤ b → c ≤ a * unit → c ≤ b * unit
    larger_reaches a b le h = omega (arith, h, mul-le-mul_right unit le)

    smaller_stays : (a b : ℕ) → a ≤ b → b * unit < c + unit → a * unit < c + unit
    smaller_stays a b le h = omega (arith, h, mul-le-mul_right unit le)

    max_stays : (a b : ℕ) → a * unit < c + unit → b * unit < c + unit → max a b * unit < c + unit
    max_stays a b ha hb = elim (max_cases a b) [ inl e ↦ rw e ha | inr e ↦ rw e hb ]

    ideal_reaches : (n den : ℕ) → 0 < den → den ≤ n → c ≤ ceil_div (n * c) (den * unit) * unit
    ideal_reaches n den h le =
        let high = (ceil_div_bounds (n * c) (den * unit) (one-le-mul h some_unit)).0 in
        let scaled = mul-le-mul_right c le in
        le_of_mul-le-mul_left {k = den}
          (omega (arith, regroup (ceil_div (n * c) (den * unit)) den unit)) h

    ideal_stays : (n den : ℕ) → 0 < den → n ≤ den → ceil_div (n * c) (den * unit) * unit < c + unit
    ideal_stays n den h le =
        let high = (ceil_div_bounds (n * c) (den * unit) (one-le-mul h some_unit)).1 in
        let scaled = mul-le-mul_right c le in
        lt_of_mul-lt-mul_left den
          (rw (← regroup (ceil_div (n * c) (den * unit)) den unit) (grind arith))

    ideal_of_stays :
        (z : ℤ) (den : ℕ) → 0 < den → AtMost den z → ideal_of unit c z den * unit < c + unit
    ideal_of_stays (pos n) den h le = ideal_stays n den h le
    ideal_of_stays (negsuc n) den h le = omega arith

    most_reaches : c ≤ most_capacity unit c * unit
    most_reaches =
        let high = (ceil_div_bounds (c * 6) (5 * unit) (omega arith)).0 in
        omega (arith, regroup (most_capacity unit c) 5 unit)

    least_stays : least_capacity unit c * unit < c + unit
    least_stays =
        let low = div-mul-le_self (c * 4) (5 * unit) in
        omega (arith, regroup (least_capacity unit c) 5 unit)

    -- A pool with less free than its target leaves is not made smaller, where the maximum allows for what
    -- there is. A pool with at least as much free as its target leaves is made no larger than its current
    -- capacity, rounded up, where the minimum is not larger either.
    pub get_spot_fleet_delta_follows :
        (resource : Resource) (target_percent : ℕ) (free : Fraction)
        → 0 < c
        → 0 < free.den
        → (OverTarget target_percent free.num free.den
            → c ≤ resource.max_capacity * unit
            → c ≤ get_spot_fleet_delta unit resource c (error_of target_percent free) * unit)
          × (WithinTarget target_percent free.num free.den
              → resource.min_capacity * unit < c + unit
              → get_spot_fleet_delta unit resource c (error_of target_percent free) * unit
                < c + unit)
    unfolding get_spot_fleet_delta ideal_capacity error_of
    get_spot_fleet_delta_follows resource p free some_capacity h = (
      λ over room.
          let (n, factor, large) = factor_over p free.num free.den over in
          let ideal = ideal_reaches n (100 * free.den) (omega arith) large in
          min_reaches _ _
            (min_reaches _ _
              (larger_reaches (ideal_of unit c (pos n) (100 * free.den)) _ (rw factor (omega arith))
                ideal)
              most_reaches)
            room,
      λ within small.
          let ideal =
            ideal_of_stays _ (100 * free.den) (omega arith)
              (factor_within p free.num free.den within) in
          smaller_stays _
            (max
              (max (max resource.min_capacity (least_capacity unit c)) (
                ideal_of unit c (shift (100 * free.den) (error_num p free.num free.den))
                  (100 * free.den)))
              1)
            (omega arith)
            (max_stays _ _ (max_stays _ _ (max_stays _ _ small least_stays) ideal) (omega arith)),
    )
