-- ===== src/Autoscaling.antt =====
-- paasta_tools/autoscaling/autoscaling_service_lib.py, and the numbers of instances of
-- paasta_tools/long_running_service_tools.py: how many instances a service is to have.
-- Utilization and setpoint are fractions over one denominator: the code's float arithmetic is taken
-- to be exact. A metrics provider and a decision policy other than `threshold` are parameters.
pub mod Services
pub mod Bounds
pub mod Tests
use paasta.Prelude.{
  ℕ, zero, suc, ◌+◌, ◌-◌, ◌*◌, ◌/◌, min, max, ℤ, pos, negsuc, minus, shift, ltb, nat_beq, Text,
  Bool, true, false, ◌&&◌, not, Option, none, some, List, Result, ok, raise, zero_division_error,
  ◌>>=◌, if◌then◌else◌,
}
use paasta.Effects.{Act, Oracle, call, pure, throw, and_then, ◌>>=◌ as ◌>>>=◌}

-- What is read of an instance's config.
pub record Config : Type 0 where
  pub id : Text
  pub min_instances : Option ℕ
  pub max_instances : Option ℕ
  pub instances : Option ℕ
  pub desired_start : Bool
  pub is_bespoke : Bool
  pub setpoint : ℕ

abbrev pub default_to : ℕ → Option ℕ → ℕ
default_to d none = d
default_to d (some n) = n

unfoldable pub get_min_instances : Config → ℕ
get_min_instances config = default_to 1 config.min_instances

-- The lesser of a limit and a number; None is less than every number.
abbrev pub at_most : Option ℕ → ℤ → Option ℕ
at_most none z = none
at_most (some hi) (pos n) = some (min hi n)
at_most (some hi) (negsuc n) = none

-- max(min_instances, min(max_instances, instances)): what is below 0 or None is below the minimum.
unfoldable pub limit_instance_count : Config → ℤ → ℕ
unfolding get_min_instances
limit_instance_count config z =
    max (get_min_instances config) (default_to 0 (at_most config.max_instances z))

-- The number of instances in ZooKeeper is none where it has no node.
abbrev limited_instances : Config → ℕ → Result (Option ℤ) → Result ℕ
limited_instances config hi (ok none) = ok hi
limited_instances config hi (ok (some z)) = ok (limit_instance_count config z)
limited_instances config hi (raise e) = raise e

unfoldable pub get_instances : Config → (zk_instances : Result (Option ℤ)) → Result ℕ
unfolding limit_instance_count
get_instances config zk_instances = elim config.max_instances [
  | none ↦ ok (default_to 1 config.instances)
  | some hi ↦ limited_instances config hi zk_instances
]

unfoldable pub get_desired_instances : Config → (zk_instances : Result (Option ℤ)) → Result ℕ
unfolding get_instances
get_desired_instances config zk_instances =
    if config.desired_start then get_instances config zk_instances else ok 0

-- How far the utilization is below or above the thresholds, as a fraction.
pub data Error : Type 0 where
  within : Error
  under over : (num den : ℕ) → Error

-- The lower threshold is setpoint * (current_instances - 1) / current_instances.
unfoldable pub get_error_from_utilization :
    (utilization setpoint den current_instances : ℕ) → Result Error
get_error_from_utilization utilization setpoint den zero = raise zero_division_error
get_error_from_utilization utilization setpoint den (suc n) =
    if ltb (utilization * suc n) (setpoint * n)
    then ok (under (setpoint * n - utilization * suc n) (suc n * den))
    else if ltb setpoint utilization
    then ok (over (utilization - setpoint) den)
    else ok within

-- max(1, int(current_instances * 0.1))
unfoldable pub autoscaling_amount : ℕ → ℕ
autoscaling_amount current_instances = max 1 (current_instances / 10)

unfoldable pub threshold_decision_policy : (current_instances : ℕ) → Error → ℤ
unfolding autoscaling_amount
threshold_decision_policy current_instances within = pos 0
threshold_decision_policy current_instances (over num den) =
    pos (autoscaling_amount current_instances)
threshold_decision_policy current_instances (under num den) =
    minus (pos 0) (autoscaling_amount current_instances)

-- The number that humanize_error prints, a percentage.
unfoldable pub humanize_error : Error → ℕ
humanize_error within = 0
humanize_error (under num den) = num * 100 / den
humanize_error (over num den) = (num * 100 + (den - 1)) / den

pub data Request : Type 0 where
  start_zookeeper lock unlock stop_zookeeper : Request
  set_instances : (id : Text) → ℕ → Request

pub data Decision : Type 0 where
  delayed stayed : Decision
  scaled : ℕ → Decision

abbrev pub returned : Result ℕ → List Request → Result ℕ × List Request
returned r h = (r, h)

-- The new count of instances, for a metrics provider's answer and a decision policy.
unfoldable pub new_instance_count :
    Config
    → (utilization : Result ℕ) → (den : ℕ) → (policy : ℕ → Error → Result ℤ) → (current : ℕ)
    → Result ℕ
unfolding get_error_from_utilization limit_instance_count
new_instance_count config utilization den policy current = do
  u ← utilization
  error ← get_error_from_utilization u config.setpoint den current
  amount ← policy current error
  ok (limit_instance_count config (shift current amount))

module _ (oracle : Oracle Request) (policy : ℕ → Error → Result ℤ) where
  unfoldable pub autoscale_marathon_instance :
      Config
      → (zk_instances : Result (Option ℤ)) → (marathon_tasks : ℕ) → (utilization : Result ℕ)
      → (den : ℕ) → Act Request Decision
  unfolding call get_instances new_instance_count
  autoscale_marathon_instance config zk_instances marathon_tasks utilization den =
      returned (get_instances config zk_instances) >>>= λ current.
      if not (nat_beq marathon_tasks current)
      then pure delayed
      else (returned (new_instance_count config utilization den policy current) >>>= λ count.
          if not (nat_beq count current)
          then (call oracle (set_instances config.id count) >>>= λ b. pure (scaled count))
          else pure stayed)
