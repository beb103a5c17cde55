-- ===== src/Prelude/Outcome.antt =====
-- Python exceptions as values.
use mathlib.Core.Path.{◌≡◌, refl}
use mathlib.Core.Logic.{◌⊎◌, inl, inr}

pub data Exception : Type 0 where
  key_error value_error type_error assertion_error zero_division_error : Exception
  timeout lock_timeout lock_held http_error index_error io_error other : Exception
  not_valid_422 does_not_exist_404 : Exception
  invalid_job_name invalid_instance_config no_deployments_available no_configuration
        attribute_error :
      Exception
  invalid_healthcheck_mode invalid_smartstack_mode : Exception
  no_data dont_kill_everything status_code_not_acceptable : Exception
  client_error request_not_found instance_not_found dry_run_operation : Exception
  fail_set_spot_capacity cluster_autoscaling_error no_slaves_available : Exception

pub data Result {ℓ} (A : Type ℓ) : Type ℓ where
  ok : A → Result A
  raise : Exception → Result A

pub ok_injective {ℓ} : {A : Type ℓ} {x y : A} → ok x ≡ ok y → x ≡ y
ok_injective same = cc

-- To split on a computed result and keep the equation.
pub Result-cases {ℓ} :
    {A : Type ℓ} (outcome : Result A)
    → ((x : A) × (outcome ≡ ok x)) ⊎ ((why : Exception) × (outcome ≡ raise why))
Result-cases (raise why) = inr (why, refl)
Result-cases (ok x) = inl (x, refl)

module _ {ℓ κ} {A : Type ℓ} {B : Type κ} where
  infixl 5 ◌>>=◌
  abbrev pub ◌>>=◌ : Result A → (A → Result B) → Result B
  raise why >>= next = raise why
  ok x >>= next = next x

  -- Inversion of a bind that succeeds.
  pub >>=-eq-ok :
      (first : Result A) (next : A → Result B) {y : B}
      → (first >>= next) ≡ ok y
      → (x : A) × (first ≡ ok x) × (next x ≡ ok y)
  >>=-eq-ok (raise why) next returned = cc
  >>=-eq-ok (ok x) next returned = (x, refl, returned)
