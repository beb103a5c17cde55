-- ===== src/Replication/Alerts.antt =====
-- What an alert of the replication check says of the instances that are there.
use paasta.Prelude.{
  ℕ, zero, suc, ◌+◌, ◌-◌, ◌*◌, ◌/◌, ◌≤◌, ◌<◌, ◌≡◌, ◌≢◌, ◌⊎◌, refl, ap, inl, inr, ◌==◌, length, Text,
  text_eq, Bool, true, false, some, List, [], ◌∷◌, ◌++◌, any_of, get_or, Bool-cases, ok, >>=-eq-ok,
  arith,
}
use native.Mathlib.Nat.{lt-div-mul-add, div-mul-le_self, mul-le-mul_right}
use paasta.JobId.{compose_job_id, spacer}
use paasta.Smartstack.{get_smartstack_replication_for_attribute}
use paasta.Replication.{
  Environment, Monitored, send_event, check_smartstack_replication_for_instance,
  get_replication_crit_percentage, is_under_replicated, location_under, smartstack_critical,
}

-- What is available at a location, and at all of them.
abbrev pub at_location : Text → Text × List (Text × ℕ) → ℕ
unfolding get_or
at_location full_name location = get_or full_name 0 location.1

abbrev pub available : Text → List (Text × List (Text × ℕ)) → ℕ
unfolding get_or
available full_name [] = 0
available full_name (l ∷ ls) = at_location full_name l + available full_name ls

enough :
    (num expected threshold : ℕ)
    → is_under_replicated num expected threshold ≡ false
    → threshold * expected ≤ num * 100
unfolding is_under_replicated
enough num zero threshold h = omega arith
enough num (suc e) threshold h = ground arith

too_few :
    (num expected threshold : ℕ)
    → threshold ≤ 100
    → is_under_replicated num expected threshold ≡ true
    → num * 100 < threshold * expected
unfolding is_under_replicated
too_few num zero threshold small h = absurd (ground arith)
too_few num (suc e) threshold small h = ground arith

module _ (full_name : Text) (threshold : ℕ) where
  enough_everywhere :
      (per_location : ℕ) (info : List (Text × List (Text × ℕ)))
      → any_of (location_under full_name per_location threshold) info ≡ false
      → threshold * per_location * length info ≤ 100 * available full_name info
  unfolding is_under_replicated get_or
  enough_everywhere per_location [] h = omega arith
  enough_everywhere per_location (l ∷ ls) h =
      elim (Bool-cases (location_under full_name per_location threshold l)) [
        | inl short ↦ cc (rw short at h)
        | inr fine ↦
            let here = enough (at_location full_name l) per_location threshold fine in
            let rest = enough_everywhere per_location ls (rw fine at h) in grind arith
      ]

  short_somewhere :
      (per_location : ℕ) (info : List (Text × List (Text × ℕ)))
      → threshold ≤ 100
      → any_of (location_under full_name per_location threshold) info ≡ true
      → (before after : List (Text × List (Text × ℕ))) × (l : Text × List (Text × ℕ)) × (info
          ≡ before ++ l ∷ after)
        × (at_location full_name l * 100 < threshold * per_location)
  unfolding is_under_replicated get_or
  short_somewhere per_location [] small h = cc
  short_somewhere per_location (l ∷ ls) small h =
      elim (Bool-cases (location_under full_name per_location threshold l)) [
        | inl short ↦
            ([], ls, l, refl, too_few (at_location full_name l) per_location threshold small short)
        | inr fine ↦
            let (before, after, k, e, less) =
              short_somewhere per_location ls small (rw fine at h) in
            (l ∷ before, after, k, ap (λ r. l ∷ r) e, less)
      ]

-- With a threshold of at most 100%: where the replication of an instance at some locations is not
-- critical, all of them together have at least the threshold's share of the expected instances, but for
-- at most that share of one instance for each location but one. Where it is critical, there is no
-- location, or one has less than the threshold's share of the instances that fall to each.
pub smartstack_critical_shares :
    (full_name : Text) (expected threshold : ℕ) (info : List (Text × List (Text × ℕ)))
    → threshold ≤ 100
    → (smartstack_critical full_name expected threshold info ≡ false
        → threshold * expected ≤ 100 * available full_name info + threshold * (length info - 1))
      × (smartstack_critical full_name expected threshold info ≡ true
          → (info ≡ [])
            ⊎ ((before after : List (Text × List (Text × ℕ))) × (l : Text × List (Text × ℕ)) × (info
                  ≡ before ++ l ∷ after)
                × (100 * at_location full_name l * length info < threshold * expected)))
unfolding smartstack_critical is_under_replicated get_or
smartstack_critical_shares full_name expected threshold [] small = (λ h. cc, λ h. inl refl)
smartstack_critical_shares full_name expected threshold (x ∷ xs) small =
    let n = length (x ∷ xs) in
    let q = expected / n in
    (
      λ fine.
          let share = enough_everywhere full_name threshold q (x ∷ xs) fine in
          let below : expected < q * n + n = lt-div-mul-add {a = expected} {b = n} (omega arith) in
          whole q (length xs) (available full_name (x ∷ xs)) below share,
      λ short.
          let (before, after, l, e, less) =
            short_somewhere full_name threshold q (x ∷ xs) small short in
          inr (
            before,
            after,
            l,
            e,
            part q (length xs) (at_location full_name l) (div-mul-le_self expected n) less,
          ),
    )
  where
    whole :
        (q m a : ℕ)
        → expected < q * suc m + suc m
        → threshold * q * suc m ≤ 100 * a
        → threshold * expected ≤ 100 * a + threshold * (suc m - 1)
    whole q m a below share =
        let scaled = mul-le-mul_right threshold below in
        let less_one : suc m - 1 ≡ m = omega arith in rw less_one (grind arith)

    part :
        (q m a : ℕ)
        → q * suc m ≤ expected
        → a * 100 < threshold * q
        → 100 * a * suc m < threshold * expected
    part q m a le less =
        let more = mul-le-mul_right (suc m) less in
        let scaled = mul-le-mul_right threshold le in grind arith

-- Fewer instances than locations leave none for each.
none_each : (q m e : ℕ) → q * suc m ≤ e → e < suc m → q ≡ 0
none_each zero m e le few = refl
none_each (suc q) m e le few = absurd (grind arith)

few_expected :
    (full_name : Text) (expected threshold : ℕ) (info : List (Text × List (Text × ℕ)))
    → threshold ≤ 100
    → expected < length info
    → smartstack_critical full_name expected threshold info ≡ false
unfolding smartstack_critical is_under_replicated get_or
few_expected full_name expected threshold [] small few = absurd (omega arith)
few_expected full_name expected threshold (x ∷ xs) small few =
    let q = expected / suc (length xs) in
    elim (Bool-cases (any_of (location_under full_name q threshold) (x ∷ xs))) [
      | inr fine ↦ fine
      | inl critical ↦
          let (before, after, l, e, less) =
            short_somewhere full_name threshold q (x ∷ xs) small critical in
          let nothing =
            none_each q (length xs) expected (div-mul-le_self expected (suc (length xs))) few in
          absurd (omega (arith, less, ap (λ k. threshold * k) nothing))
    ]

-- An event is sent as it is decided.
pub event_sent :
    (env : Environment) (full_name : Text) (critical : Bool) {answer : Bool}
    → send_event env full_name critical ≡ ok (some answer)
    → critical ≡ answer
event_sent env full_name critical e =
    let (b, sent, same) = >>=-eq-ok (env.send full_name critical) (λ _. ok (some critical)) e in cc

-- Where fewer instances are expected than there are locations, the check of an instance in
-- smartstack, with a threshold of at most 100%, sends no critical event, whatever is available.
pub check_smartstack_misses_few :
    (env : Environment) (m : Monitored) (expected : ℕ) {info : List (Text × List (Text × ℕ))}
    → get_smartstack_replication_for_attribute env.haproxy m.discover
        (m.service ++ spacer ∷ m.instance_name)
        m.monitoring_blacklist
        env.slaves
      ≡ ok info
    → get_replication_crit_percentage m ≤ 100
    → expected < length info
    → check_smartstack_replication_for_instance env m expected ≢ ok (some true)
unfolding check_smartstack_replication_for_instance compose_job_id
check_smartstack_misses_few env m expected {info} loaded small few alerted =
    let full_name = m.service ++ spacer ∷ m.instance_name in
    let (r, registered, rest) = >>=-eq-ok m.registration _ alerted in
    elim (Bool-cases (r == full_name)) [
      | inr other ↦ cc (rw other at rest)
      | inl same ↦
          let critical = event_sent env full_name _ (rw (same, loaded) at rest) in
          cc (
            critical,
            few_expected full_name expected (get_replication_crit_percentage m) info small few,
          )
    ]
