-- ===== src/ClusterAutoscaling.antt =====
-- paasta_tools/autoscaling/autoscaling_cluster_lib.py: how many instances a spot fleet request is to
-- have, and which slaves are drained and terminated for it. Capacities are counted in units, of which
-- `unit` make one of the whole numbers that AWS takes: weights may be fractions.
pub mod Slaves
pub mod Delta
pub mod Downscale
pub mod Resources
pub mod Tests
use paasta.Prelude.{
  ℕ, suc, ◌+◌, ◌-◌, ◌*◌, ◌/◌, ltb, leb, nat_beq, min, max, ℤ, pos, negsuc, minus, shift, length,
  Text, text_eq, ◌==◌, Bool, true, false, ◌&&◌, ◌||◌, not, Option, none, some, List, [], ◌∷◌, map,
  select, contains, lookup, get_or, codes, Exception, Result, ok, raise, type_error, key_error,
  zero_division_error, cluster_autoscaling_error, ◌>>=◌, if◌then◌else◌,
}
use paasta.Metastatus.{
  Free, MesosTask, ResourceInfo, Slave, Utilization, found, get_resource_utilization_by_grouping,
  key_func_for_present,
}

pub data SfrState : Type 0 where
  submitted active cancelled cancelled_running cancelled_terminating modifying unexpected : SfrState

-- A spot fleet request, its capacities in units.
pub record Sfr : Type 0 where
  pub state : SfrState
  pub fulfilled_capacity : ℕ
  pub target_capacity : ℕ

-- A resource of the system's config.
pub record Resource : Type 0 where
  pub id : Text
  pub is_spot_fleet_request : Bool
  pub pool : Text
  pub min_capacity : ℕ
  pub max_capacity : ℕ

-- An instance as EC2 describes it; a terminated one has no address.
pub record InstanceDescription : Type 0 where
  pub instance_id : Text
  pub private_ip_address : Option Text
  pub instance_type : Text

unfoldable pub is_aws_launching_sfr_instances : Sfr → Bool
is_aws_launching_sfr_instances sfr = ltb sfr.fulfilled_capacity sfr.target_capacity

-- The pool of a slave. Slaves have different ids, so that a dict of them by id is a list.
unfoldable pub pool_of : Slave → Text
unfolding get_or
pool_of slave = get_or (codes "pool") (codes "default") slave.attributes

unfoldable pub get_pool_slaves : (pool : Text) → List Slave → List Slave
unfolding pool_of
get_pool_slaves pool slaves = select (λ s. pool_of s == pool) slaves

-- float(free) / float(total), as a fraction: what is free may be less than nothing.
pub record Fraction : Type 0 where
  pub num : ℤ
  pub den : ℕ

abbrev pub times : ℤ → ℕ → ℤ
times (pos a) n = pos (a * n)
times (negsuc a) n = minus (pos 0) (suc a * n)

-- a <= b
abbrev pub leb_ℤ : ℤ → ℤ → Bool
leb_ℤ (pos a) (pos b) = leb a b
leb_ℤ (pos a) (negsuc b) = false
leb_ℤ (negsuc a) (pos b) = true
leb_ℤ (negsuc a) (negsuc b) = leb b a

abbrev pub lesser : Fraction → Fraction → Fraction
lesser x y = if leb_ℤ (times x.num y.den) (times y.num x.den) then x else y

abbrev pub ratio : ℤ → ℕ → Result Fraction
ratio free total =
    if nat_beq total 0 then raise zero_division_error else ok (record { num = free; den = total })

-- The least fraction of a resource of the pool that is free.
unfoldable pub least_free : Utilization → Result Fraction
least_free u = do
  cpus ← ratio u.free.cpus u.total.cpus
  disk ← ratio u.free.disk u.total.disk
  mem ← ratio u.free.mem u.total.mem
  ok (lesser (lesser cpus disk) mem)

abbrev pub error_num : (target_percent : ℕ) → ℤ → ℕ → ℤ
error_num target_percent (pos f) t = minus (pos (100 * t)) (100 * f + target_percent * t)
error_num target_percent (negsuc f) t = minus (pos (100 * t + 100 * suc f)) (target_percent * t)

-- 1.0 - free - target_utilization, for a target in percent
unfoldable pub error_of : (target_percent : ℕ) → Fraction → Fraction
error_of target_percent free = record {
  num = error_num target_percent free.num free.den;
  den = 100 * free.den;
}

-- More than 30% of the instances are missing in Mesos.
abbrev pub too_few_slaves : (current_instances : ℕ) → Option ℕ → Bool
too_few_slaves current_instances none = false
too_few_slaves current_instances (some desired) = ltb (current_instances * 10) (desired * 7)

abbrev pub no_instances : Option ℕ → Bool
no_instances none = false
no_instances (some desired) = nat_beq desired 0

abbrev pub pool_utilization : Text → List (Text × Utilization) → Result Utilization
pool_utilization pool groups = elim (lookup pool groups) [ none ↦ raise key_error | some u ↦ ok u ]

unfoldable pub get_mesos_utilization_error :
    (pool : Text) (target_percent : ℕ) (slaves : List Slave) (all_slaves : List Slave)
    (tasks : List MesosTask) (desired_instances : Option ℕ)
    → Result Fraction
unfolding get_resource_utilization_by_grouping key_func_for_present lookup least_free error_of
get_mesos_utilization_error pool target_percent slaves all_slaves tasks desired_instances =
    if no_instances desired_instances || too_few_slaves (length slaves) desired_instances
    then raise cluster_autoscaling_error
    else (do
      groups ←
          get_resource_utilization_by_grouping (key_func_for_present (codes "pool")) all_slaves
            tasks
      utilization ← pool_utilization pool groups
      free ← least_free utilization
      ok (error_of target_percent free))

-- ceil(a / b)
abbrev pub ceil_div : ℕ → ℕ → ℕ
ceil_div a b = (a + (b - 1)) / b

module _ (unit : ℕ) where
  -- ceil((1 + error) * current_capacity); what is below 0 counts as 0, which the limits exceed.
  abbrev pub ideal_of : (current_capacity : ℕ) → ℤ → ℕ → ℕ
  ideal_of current_capacity (pos n) den = ceil_div (n * current_capacity) (den * unit)
  ideal_of current_capacity (negsuc n) den = 0

  unfoldable pub ideal_capacity : (current_capacity : ℕ) → Fraction → ℕ
  ideal_capacity current_capacity error =
      ideal_of current_capacity (shift error.den error.num) error.den

  -- floor(current_capacity * 0.8) and ceil(current_capacity * 1.2)
  abbrev pub least_capacity : ℕ → ℕ
  least_capacity current_capacity = current_capacity * 4 / (5 * unit)

  abbrev pub most_capacity : ℕ → ℕ
  most_capacity current_capacity = ceil_div (current_capacity * 6) (5 * unit)

  unfoldable pub get_spot_fleet_delta : Resource → (current_capacity : ℕ) → Fraction → ℕ
  unfolding ideal_capacity
  get_spot_fleet_delta resource current_capacity error =
      min
        (min
          (max
            (max (max resource.min_capacity (least_capacity current_capacity))
              (ideal_capacity current_capacity error))
            1)
          (most_capacity current_capacity))
        resource.max_capacity
