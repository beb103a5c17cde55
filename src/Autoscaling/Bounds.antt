-- ===== src/Autoscaling/Bounds.antt =====
-- The decisions of autoscaling_service_lib.py and the limits of long_running_service_tools.py.
use paasta.Prelude.{
  Option-cases, ℕ, zero, suc, ◌≡◌, refl, sym, ap, ◌∙◌, ◌≤◌, ◌<◌, ◌-◌, ◌*◌, max, ℤ, pos, negsuc,
  minus, shift, ltb, ltb→lt, nat_beq, true, false, not, Option, some, Result, ok, ok_injective,
  Bool-cases, inl, inr, arith, >>=-eq-ok,
}
use mathlib.Core.Path.{subst}
use paasta.Effects.Confined.{
  Confined, Confined-call, Confined-result, Confined-if, Confined-bind, Confined-seq,
}
use paasta.Effects.{Oracle}
use paasta.Autoscaling.{
  default_to, at_most, Config, Error, within, under, over, Request, delayed, stayed, scaled,
  set_instances, get_min_instances, limit_instance_count, get_instances, get_error_from_utilization,
  autoscaling_amount, threshold_decision_policy, new_instance_count, autoscale_marathon_instance,
}

-- The limited count is at least the minimum, and at most the maximum where this is no less than the
-- minimum. A count between the two is kept.
limit_instance_count_bounds :
    (config : Config) (z : ℤ) (hi : ℕ)
    → config.max_instances ≡ some hi
    → (get_min_instances config ≤ limit_instance_count config z)
      × (limit_instance_count config z ≤ max (get_min_instances config) hi)
      × ((n : ℕ)
          → z ≡ pos n
          → get_min_instances config ≤ n
          → n ≤ hi
          → limit_instance_count config z ≡ n)
unfolding limit_instance_count
limit_instance_count_bounds config (pos n) hi e =
    rw e (omega arith, omega arith, λ k same lo le. ground arith)
limit_instance_count_bounds config (negsuc n) hi e =
    rw e (omega arith, omega arith, λ k same lo le. cc)

not_less : (a b : ℕ) → ltb a b ≡ false → b ≤ a
not_less a b h = ground arith

-- The error is below 0 exactly where one instance less would still meet the setpoint, above 0 exactly
-- where the utilization exceeds the setpoint, and 0 between.
pub data Meaning (u s n : ℕ) : Error → Type 0 where
  spare : {num den : ℕ} → 0 < num → u * n < s * (n - 1) → Meaning u s n (under num den)
  loaded : {num den : ℕ} → 0 < num → s < u → Meaning u s n (over num den)
  fine : s * (n - 1) ≤ u * n → u ≤ s → Meaning u s n within

get_error_from_utilization-Meaning :
    (u s den n : ℕ) (error : Error)
    → get_error_from_utilization u s den n ≡ ok error
    → Meaning u s n error
unfolding get_error_from_utilization
get_error_from_utilization-Meaning u s den zero error e = cc
get_error_from_utilization-Meaning u s den (suc n) error e =
    elim (Bool-cases (ltb (u * suc n) (s * n))) [
      | inl less ↦
          subst (Meaning u s (suc n)) (ok_injective (rw less at e)) (spare (gap less) (short less))
      | inr no_less ↦ elim (Bool-cases (ltb s u)) [
        | inl more ↦
            subst (Meaning u s (suc n)) (ok_injective (rw (no_less, more) at e))
              (loaded (ground arith) (ground arith))
        | inr no_more ↦
            subst (Meaning u s (suc n)) (ok_injective (rw (no_less, no_more) at e))
              (fine (meets no_less) (ground arith))
      ]
    ]
  where
    gap : ltb (u * suc n) (s * n) ≡ true → 0 < s * n - u * suc n
    gap less = let lt = ltb→lt (u * suc n) (s * n) less in omega arith

    before : n ≡ suc n - 1
    before = omega arith

    short : ltb (u * suc n) (s * n) ≡ true → u * suc n < s * (suc n - 1)
    short less = subst (λ k. u * suc n < s * k) before (ltb→lt (u * suc n) (s * n) less)

    meets : ltb (u * suc n) (s * n) ≡ false → s * (suc n - 1) ≤ u * suc n
    meets no_less = subst (λ k. s * k ≤ u * suc n) before (not_less (u * suc n) (s * n) no_less)

amount_below_20 : (n : ℕ) → n < 20 → autoscaling_amount n ≡ 1
unfolding autoscaling_amount
amount_below_20 n small = omega arith

-- Below 20 instances, a threshold decision that takes instances away leaves enough for the load that
-- they carry now to stay within the setpoint.
pub threshold_scale_down_is_safe :
    (u s den n k : ℕ) (error : Error)
    → n < 20
    → get_error_from_utilization u s den n ≡ ok error
    → threshold_decision_policy n error ≡ negsuc k
    → u * n ≤ s * (n - suc k)
unfolding threshold_decision_policy
threshold_scale_down_is_safe u s den n k error small e down =
    safe error (get_error_from_utilization-Meaning u s den n error e) down
  where
    safe :
        (error : Error)
        → Meaning u s n error
        → threshold_decision_policy n error ≡ negsuc k
        → u * n ≤ s * (n - suc k)
    safe (under num d) (spare p less) down' =
        let one : minus (pos 0) 1 ≡ negsuc k =
          ap (minus (pos 0)) (sym (amount_below_20 n small)) ∙ down' in
        let zero_more : k ≡ 0 = cc in
        let same : n - 1 ≡ n - suc k = omega arith in
        let lt : u * n < s * (n - suc k) = subst (λ m. u * n < s * m) same less in omega arith
    safe (over num d) (loaded p more) down' = cc
    safe within (fine a b) down' = cc

-- A request to set the instances of the config's instance within its limits.
abbrev pub SetsWithin : Config → Request → Type 0
SetsWithin config (set_instances id n) =
    (id ≡ config.id)
    × (get_min_instances config ≤ n)
    × (n ≤ max (get_min_instances config) (default_to 0 config.max_instances))
SetsWithin config _ = ⊥

limit_instance_count_within :
    (config : Config) (z : ℤ)
    → (get_min_instances config ≤ limit_instance_count config z)
      × (limit_instance_count config z
          ≤ max (get_min_instances config) (default_to 0 config.max_instances))
unfolding limit_instance_count
limit_instance_count_within config z = elim (Option-cases config.max_instances) [
  | inl no_max ↦ rw no_max (omega arith, omega arith)
  | inr (hi, some_max) ↦ rw some_max (bounds hi z)
]
  where
    bounds :
        (hi : ℕ) (z : ℤ)
        → (get_min_instances config
            ≤ max (get_min_instances config) (default_to 0 (at_most (some hi) z)))
          × (max (get_min_instances config) (default_to 0 (at_most (some hi) z))
              ≤ max (get_min_instances config) hi)
    bounds hi (pos n) = (omega arith, omega arith)
    bounds hi (negsuc n) = (omega arith, omega arith)

new_instance_count_within :
    (config : Config) (utilization : Result ℕ) (den : ℕ) (policy : ℕ → Error → Result ℤ)
    (current n : ℕ)
    → new_instance_count config utilization den policy current ≡ ok n
    → (get_min_instances config ≤ n)
      × (n ≤ max (get_min_instances config) (default_to 0 config.max_instances))
unfolding new_instance_count
new_instance_count_within config utilization den policy current n e =
    let (u, read, e1) = >>=-eq-ok utilization _ e in
    let (error, found, e2) =
      >>=-eq-ok (get_error_from_utilization u config.setpoint den current) _ e1 in
    let (amount, decided, e3) = >>=-eq-ok (policy current error) _ e2 in
    subst
      (λ k.
        (get_min_instances config ≤ k)
        × (k ≤ max (get_min_instances config) (default_to 0 config.max_instances)))
      (ok_injective e3) (limit_instance_count_within config (shift current amount))

-- Whatever the decision policy and the metrics say, an instance's own count is set, and only within
-- its limits.
pub autoscale_marathon_instance-Confined :
    (oracle : Oracle Request) (policy : ℕ → Error → Result ℤ) (config : Config)
    (zk_instances : Result (Option ℤ)) (marathon_tasks : ℕ) (utilization : Result ℕ) (den : ℕ)
    → Confined (SetsWithin config) (
        autoscale_marathon_instance oracle policy config zk_instances marathon_tasks utilization
          den)
unfolding autoscale_marathon_instance
autoscale_marathon_instance-Confined oracle policy config zk tasks utilization den =
    Confined-bind _ _ (Confined-result (get_instances config zk)) λ current h e.
      Confined-if (not (nat_beq tasks current)) _ _ (λ differs. Confined-result (ok delayed))
        λ same.
          Confined-bind _ _
            (Confined-result (new_instance_count config utilization den policy current))
            λ n h' e'.
              Confined-if (not (nat_beq n current)) _ _
                (λ changes.
                  Confined-seq _ _
                    (Confined-call oracle (set_instances config.id n) (
                      let (low, high) =
                        new_instance_count_within config utilization den policy current n e' in
                      (refl, low, high)))
                    (Confined-result (ok (scaled n))))
                (λ stays. Confined-result (ok stayed))
