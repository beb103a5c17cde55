-- ===== src/ClusterAutoscaling/Resources/Targets.antt =====
-- What spotfleet_metrics_provider answers.
use paasta.Prelude.{
  ℕ, ◌*◌, ◌≤◌, ◌<◌, ◌≡◌, refl, ap, ◌∙◌, inl, inr, max, nat_beq, Text, Bool, ◌&&◌, Option, none,
  some, List, length, Exception, request_not_found, Result, ok, raise, ok_injective, Result-cases,
  Bool-cases, arith,
}
use native.Mathlib.Nat.{div-eq_of_lt, div-mul-le_self, mul-le-mul_right}
use mathlib.Core.Path.{subst}
use paasta.ClusterAutoscaling.Delta.{get_spot_fleet_delta_bounds}
use paasta.Effects.{Act, Oracle, Outcome, Outcome-bind, >>=-eq-ok, pure, caught, ◌>>◌}
use paasta.Metastatus.{MesosTask, Slave}
use paasta.ClusterAutoscaling.{
  Fraction, Resource, Sfr, SfrState, active, cancelled, cancelled_running, cancelled_terminating,
  get_pool_slaves, get_spot_fleet_delta, ideal_capacity, is_aws_launching_sfr_instances,
  least_capacity, modifying, submitted, unexpected,
}
use paasta.ClusterAutoscaling.Slaves.{RunningTask}
use paasta.ClusterAutoscaling.Delta.{regroup}
use paasta.ClusterAutoscaling.Downscale.{
  Call, ask, describe_fleet, get_sfr, is_active, is_cancelled_running, lifted, not_found,
  state_summary,
}
use paasta.ClusterAutoscaling.Resources.{
  by_request, by_state, capacity_for, cancelled_capacity, cleanup_cancelled_sfr_config,
  get_sfr_slaves, is_positive, measured_capacity, minus_one, no_change, pool_error,
  spotfleet_metrics_provider, without_minimum, zero_of_one,
}

-- Where only one instance or a fifth less is left, the last instance goes, too.
zero_of_one-fits :
    (unit c least target : ℕ)
    → least * unit ≤ c
    → target ≤ max least 1
    → zero_of_one target * unit ≤ c
zero_of_one-fits unit c least target fits le = elim (Bool-cases (nat_beq target 1)) [
  | inl one ↦ rw one (omega arith)
  | inr other ↦
      let at_least : target ≤ least = ground arith in
      rw other (omega (arith, mul-le-mul_right unit at_least))
]

zero_of_one-le : (target bound : ℕ) → target ≤ bound → zero_of_one target ≤ bound
zero_of_one-le target bound le = ground arith

least-fits : (unit c : ℕ) → least_capacity unit c * unit ≤ c
least-fits unit c =
    let low = div-mul-le_self (c * 4) (5 * unit) in
    omega (arith, regroup (least_capacity unit c) 5 unit)

some_injective : {A : Type 0} {x y : A} → some x ≡ some y → x ≡ y
some_injective e = cc

answers : (P : ℕ × ℕ → Type 0) (r : ℕ × ℕ) → P r → Outcome {E = Call} P (pure r)
answers P r p h a e = subst P (ok_injective e) p

module _ (oracle : Oracle Call) (request : List Call → Result Sfr)
    (mesos : List Call → Result (List Slave × List RunningTask)) (polls : ℕ) (dry_run : Bool)
    (unit : ℕ) (fleet : List Call → Result (List Text × List Text))
    (state : List Call → Result (List Slave × List MesosTask)) (resource : Resource)
    (target_percent : ℕ) (some_unit : 0 < unit) where
  -- No more than the maximum; and for a request that is cancelled and running, no more than there is.
  abbrev pub Fits : SfrState → ℕ × ℕ → Type 0
  Fits s capacity =
      (capacity.1 ≤ resource.max_capacity)
      × (s ≡ cancelled_running → capacity.1 * unit ≤ capacity.0)

  no_change-Fits : (s : SfrState) → Fits s no_change
  no_change-Fits s = (omega arith, λ c. omega arith)

  ideal-minus_one : (c : ℕ) → ideal_capacity unit c minus_one ≡ 0
  unfolding ideal_capacity
  ideal-minus_one c = div-eq_of_lt (omega arith)

  least_or_one :
      (c : ℕ)
      → (get_spot_fleet_delta unit (without_minimum resource) c minus_one ≤ resource.max_capacity)
        × (get_spot_fleet_delta unit (without_minimum resource) c minus_one
            ≤ max (least_capacity unit c) 1)
  unfolding get_spot_fleet_delta
  least_or_one c = rw (ideal-minus_one c) (omega arith)

  cancelled_capacity-Fits :
      (s : SfrState) (c : ℕ) (error : Fraction)
      → Fits s (
          cancelled_capacity oracle request mesos polls dry_run unit fleet state resource
            target_percent c error)
  unfolding cancelled_capacity
  cancelled_capacity-Fits s c error = elim (Bool-cases (is_positive error.num)) [
    | inl positive ↦ rw positive (no_change-Fits s)
    | inr other ↦
        let target = get_spot_fleet_delta unit (without_minimum resource) c minus_one in
        let (below_max, small) = least_or_one c in
        rw other (
          zero_of_one-le target resource.max_capacity below_max,
          λ gone. zero_of_one-fits unit c (least_capacity unit c) target (least-fits unit c) small,
        )
  ]

  capacity_for-Fits :
      (sfr : Sfr) (all_slaves : List Slave) (tasks : List MesosTask) (error : Fraction)
      → Outcome (Fits sfr.state) (
          capacity_for oracle request mesos polls dry_run unit fleet state resource target_percent
            sfr all_slaves tasks error)
  unfolding capacity_for
  capacity_for-Fits sfr all_slaves tasks error h a e =
      elim (Bool-cases (is_aws_launching_sfr_instances sfr && is_active sfr.state)) [
        | inl waiting ↦
            subst (Fits sfr.state) (ok_injective (rw waiting at e)) (no_change-Fits sfr.state)
        | inr settled ↦ elim (Bool-cases (is_cancelled_running sfr.state)) [
          | inl gone ↦
              let (found, got, second, same) =
                >>=-eq-ok
                  (lifted (
                    pool_error oracle request mesos polls dry_run unit fleet state resource
                      target_percent (get_pool_slaves resource.pool all_slaves) all_slaves tasks
                      none))
                  _ h (rw (settled, gone) at e) in
              subst (Fits sfr.state) (ok_injective second)
                (cancelled_capacity-Fits sfr.state sfr.fulfilled_capacity found)
          | inr other ↦ subst (Fits sfr.state) (ok_injective (rw (settled, other) at e)) (
            (get_spot_fleet_delta_bounds unit some_unit resource sfr.fulfilled_capacity error).0,
            λ gone. cc (other, ap is_cancelled_running gone),
          )
        ]
      ]

  -- What the part of the provider for an active request answers, whatever EC2 and Mesos do.
  measured_capacity-Fits :
      (sfr : Sfr)
      → Outcome (Fits sfr.state) (
          measured_capacity oracle request mesos polls dry_run unit fleet state resource
            target_percent sfr)
  unfolding measured_capacity
  measured_capacity-Fits sfr h a e =
      let (instances, i, e1, s1) = >>=-eq-ok (ask fleet (describe_fleet resource.id)) _ h e in
      let (mesos_state, m, e2, s2) = >>=-eq-ok (ask state state_summary) _ _ e1 in
      let (slaves, s, e3, s3) =
        >>=-eq-ok (lifted (get_sfr_slaves instances.1 resource.pool mesos_state.0)) _ _ e2 in
      let (error, r, e4, s4) =
        >>=-eq-ok
          (lifted (
            pool_error oracle request mesos polls dry_run unit fleet state resource target_percent
              slaves mesos_state.0 mesos_state.1 (some (length instances.0))))
          _ _ e3 in
      capacity_for-Fits sfr mesos_state.0 mesos_state.1 error _ a e4

  cleaned-Fits :
      (s : SfrState)
      → Outcome (Fits s) (
          cleanup_cancelled_sfr_config oracle request mesos polls dry_run unit fleet state
            resource.id
          >> pure no_change)
  cleaned-Fits s =
      Outcome-bind (Fits s)
        (cleanup_cancelled_sfr_config oracle request mesos polls dry_run unit fleet state
          resource.id)
        (λ b. pure no_change) λ b. answers (Fits s) no_change (no_change-Fits s)

  moved : {s t : SfrState} (m : Act Call (ℕ × ℕ)) → s ≡ t → Outcome (Fits s) m → Outcome (Fits t) m
  moved m e fits = subst (λ u. Outcome (Fits u) m) e fits

  by_state-Fits :
      (s : SfrState) (sfr : Sfr)
      → sfr.state ≡ s
      → Outcome (Fits s) (
          by_state oracle request mesos polls dry_run unit fleet state resource target_percent s
            sfr)
  unfolding by_state
  by_state-Fits cancelled sfr e = cleaned-Fits cancelled
  by_state-Fits cancelled_running sfr e =
      moved
        (measured_capacity oracle request mesos polls dry_run unit fleet state resource
          target_percent sfr)
        e (measured_capacity-Fits sfr)
  by_state-Fits active sfr e =
      moved
        (measured_capacity oracle request mesos polls dry_run unit fleet state resource
          target_percent sfr)
        e (measured_capacity-Fits sfr)
  by_state-Fits submitted sfr e = answers (Fits submitted) no_change (no_change-Fits submitted)
  by_state-Fits modifying sfr e = answers (Fits modifying) no_change (no_change-Fits modifying)
  by_state-Fits cancelled_terminating sfr e =
      answers (Fits cancelled_terminating) no_change (no_change-Fits cancelled_terminating)
  by_state-Fits unexpected sfr e = λ h a raised. cc

  -- A request that is found is one that EC2 has answered.
  get_sfr-eq-some :
      (id : Text) (h : List Call) (sfr : Sfr)
      → (get_sfr oracle request mesos polls dry_run id h).0 ≡ ok (some sfr)
      → (h' : List Call) × (request h' ≡ ok sfr)
  unfolding get_sfr
  get_sfr-eq-some id h sfr e = elim (Result-cases (request h)) [
    | inl (s, answered) ↦ (h, answered ∙ ap ok (some_injective (ok_injective (rw answered at e))))
    | inr (x, failed) ↦ absurd (not_some x _ (rw failed at e))
  ]
    where
      not_some :
          (x : Exception) (h' : List Call)
          → (caught (raise x) (not_found oracle request mesos polls dry_run) h').0 ≡ ok (some sfr)
          → ⊥
      not_some request_not_found h' e' = cc
      not_some x h' e' = cc

  -- The target that the provider answers is at most the maximum; and if all answers of EC2 are that the
  -- request is cancelled and running, it is at most the current capacity.
  pub spotfleet_metrics_provider-Fits :
      (h : List Call) (capacity : ℕ × ℕ)
      → (spotfleet_metrics_provider oracle request mesos polls dry_run unit fleet state resource
          target_percent h).0
        ≡ ok capacity
      → (capacity.1 ≤ resource.max_capacity)
        × (((h' : List Call) (sfr : Sfr) → request h' ≡ ok sfr → sfr.state ≡ cancelled_running)
            → capacity.1 * unit ≤ capacity.0)
  unfolding spotfleet_metrics_provider by_request
  spotfleet_metrics_provider-Fits h capacity e =
      let (found, got, second, same) =
        >>=-eq-ok (get_sfr oracle request mesos polls dry_run resource.id)
          (by_request oracle request mesos polls dry_run unit fleet state resource target_percent) h
          e in
      by_found found got second
    where
      by_found :
          (found : Option Sfr)
          → (get_sfr oracle request mesos polls dry_run resource.id h).0 ≡ ok found
          → (by_request oracle request mesos polls dry_run unit fleet state resource target_percent
              found
              (get_sfr oracle request mesos polls dry_run resource.id h).1).0
            ≡ ok capacity
          → (capacity.1 ≤ resource.max_capacity)
            × (((h' : List Call) (sfr : Sfr) → request h' ≡ ok sfr → sfr.state ≡ cancelled_running)
                → capacity.1 * unit ≤ capacity.0)
      by_found none got second =
          let (below, small) = cleaned-Fits cancelled_running _ capacity second in
          (below, λ all. small refl)
      by_found (some sfr) got second =
          let (below, small) = by_state-Fits sfr.state sfr refl _ capacity second in
          let (h', answered) = get_sfr-eq-some resource.id h sfr got in
          (below, λ all. small (all h' sfr answered))
