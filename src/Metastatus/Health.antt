-- ===== src/Metastatus/Health.antt =====
-- The checks of paasta_tools/metrics/metastatus_lib.py: what counts as healthy. Messages are left out.
-- A percentage is rounded to hundredths of a percent, exactly, halves up.
use paasta.Prelude.{
  ℕ, ◌+◌, ◌*◌, ◌/◌, ◌≤◌, ◌<◌, ◌≡◌, refl, inl, inr, ltb, nat_beq, text_eq, Bool, true, false, List,
  map, Bool-cases, Result, ok, raise, zero_division_error, if◌then◌else◌, arith,
}
use native.Mathlib.Nat.{lt-div-mul-add, div-mul-le_self, mul-le-mul_right}
use paasta.Metastatus.{Slave, ResourceInfo, reserved_on, sum_of}

-- The metrics of a master.
pub record Metrics : Type 0 where
  pub cpus_total : ℕ
  pub cpus_used : ℕ
  pub mem_total : ℕ
  pub mem_used : ℕ
  pub disk_total : ℕ
  pub disk_used : ℕ
  pub frameworks_connected : ℕ
  pub frameworks_disconnected : ℕ
  pub frameworks_inactive : ℕ

-- round(used / float(total) * 100.0, 2), in hundredths
unfoldable pub percent_used : (total used : ℕ) → Result ℕ
percent_used total used =
    if nat_beq total 0 then raise zero_division_error else ok ((used * 20000 + total) / (2 * total))

-- (100 - percent_used) > threshold
unfoldable pub check_threshold : (percent_used threshold : ℕ) → Bool
check_threshold percent_used threshold = ltb (threshold * 100 + percent_used) 10000

abbrev pub health_of : ℕ → Result ℕ → Bool
health_of threshold (raise e) = false
health_of threshold (ok percent) = check_threshold percent threshold

abbrev pub reserved_of : List Slave → ResourceInfo
reserved_of slaves = sum_of (map reserved_on slaves)

unfoldable pub get_mesos_cpu_status : Metrics → List Slave → ℕ × ℕ
get_mesos_cpu_status metrics slaves =
    (metrics.cpus_total, metrics.cpus_used + (reserved_of slaves).cpus)

unfoldable pub assert_cpu_health : Metrics → List Slave → (threshold : ℕ) → Bool
unfolding get_mesos_cpu_status percent_used check_threshold
assert_cpu_health metrics slaves threshold =
    let (total, used) = get_mesos_cpu_status metrics slaves in
    health_of threshold (percent_used total used)

-- The division of both sides by 1024 leaves their quotient.
unfoldable pub assert_memory_health : Metrics → List Slave → (threshold : ℕ) → Bool
unfolding percent_used check_threshold
assert_memory_health metrics slaves threshold =
    health_of threshold
      (percent_used metrics.mem_total (metrics.mem_used + (reserved_of slaves).mem))

unfoldable pub assert_disk_health : Metrics → List Slave → (threshold : ℕ) → Bool
unfolding percent_used check_threshold
assert_disk_health metrics slaves threshold =
    health_of threshold
      (percent_used metrics.disk_total (metrics.disk_used + (reserved_of slaves).disk))

-- Used hundredths of a percent, rounded, against the exact fraction.
module _ (total used threshold : ℕ) (some_total : 0 < total) where
  percent_bounds :
      (q : ℕ)
      → q ≡ (used * 20000 + total) / (2 * total)
      → (q * (2 * total) ≤ used * 20000 + total)
        × (used * 20000 + total < q * (2 * total) + 2 * total)
  percent_bounds q e = (rw e (div-mul-le_self _ (2 * total)), rw e (lt-div-mul-add (omega arith)))

  -- A check passes only if more than the threshold is free, and fails only if at most that is free, but
  -- for half a hundredth of a percent.
  pub health_bounds :
      (health_of threshold (percent_used total used) ≡ true
        → 100 * used + threshold * total < 100 * total)
      × (health_of threshold (percent_used total used) ≡ false
          → 200 * 100 * total ≤ 200 * (100 * used + threshold * total) + total)
  unfolding percent_used check_threshold
  health_bounds = (
    λ passed. healthy ((used * 20000 + total) / (2 * total)) refl (rw there at passed),
    λ failed. unhealthy ((used * 20000 + total) / (2 * total)) refl (rw there at failed),
  )
    where
      there : nat_beq total 0 ≡ false
      there = ground arith

      healthy :
          (q : ℕ)
          → q ≡ (used * 20000 + total) / (2 * total)
          → ltb (threshold * 100 + q) 10000 ≡ true
          → 100 * used + threshold * total < 100 * total
      healthy q e passed =
          let below : threshold * 100 + q + 1 ≤ 10000 = ground arith in
          let scaled = mul-le-mul_right (2 * total) below in
          let (low, high) = percent_bounds q e in grind arith

      unhealthy :
          (q : ℕ)
          → q ≡ (used * 20000 + total) / (2 * total)
          → ltb (threshold * 100 + q) 10000 ≡ false
          → 200 * 100 * total ≤ 200 * (100 * used + threshold * total) + total
      unhealthy q e failed =
          let above : 10000 ≤ threshold * 100 + q = ground arith in
          let scaled = mul-le-mul_right (2 * total) above in
          let (low, high) = percent_bounds q e in grind arith

-- Where the master counts some cpus, the check of cpus passes only if more than the threshold is neither
-- used nor reserved. It fails only if at most the threshold is, but for half a hundredth of a percent
-- that rounding may add. With no cpus at all it fails.
pub assert_cpu_health_bounds :
    (metrics : Metrics) (slaves : List Slave) (threshold : ℕ)
    → let used = metrics.cpus_used + (reserved_of slaves).cpus in
      (assert_cpu_health metrics slaves threshold ≡ true
        → 100 * used + threshold * metrics.cpus_total < 100 * metrics.cpus_total)
      × (assert_cpu_health metrics slaves threshold ≡ false
          → 200 * 100 * metrics.cpus_total
            ≤ 200 * (100 * used + threshold * metrics.cpus_total) + metrics.cpus_total)
unfolding assert_cpu_health get_mesos_cpu_status percent_used
assert_cpu_health_bounds metrics slaves threshold =
    let used = metrics.cpus_used + (reserved_of slaves).cpus in
    elim (Bool-cases (nat_beq metrics.cpus_total 0)) [
      | inl nothing ↦ (
        λ passed. cc (rw nothing at passed),
        λ failed.
            let none_there : metrics.cpus_total ≡ 0 = ground arith in omega (arith, none_there),
      )
      | inr something ↦ health_bounds metrics.cpus_total used threshold (ground arith)
    ]
