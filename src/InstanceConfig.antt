-- ===== src/InstanceConfig.antt =====
-- InstanceConfig of paasta_tools/utils.py: what the other parts read of the config of an instance. A
-- config is a dict of which each key is a field here, none where the key is missing; of values that are
-- None only those of the amounts are modelled. Numbers of cpus and of megabytes are counted in
-- thousandths, and the code's float arithmetic is taken to be exact.
pub mod Docker
pub mod Tests
use paasta.Prelude.{
  sort_by, text_leb, ℕ, ◌+◌, ◌*◌, ◌/◌, Text, text_eq, codes, Bool, true, false, not, Option, none,
  some, List, [], ◌∷◌, ◌++◌, map, Result, ok, raise, invalid_instance_config, type_error, lookup,
  insert, ◌>>=◌, if◌then◌else◌,
}
use paasta.JobId.{spacer}
use paasta.Deployments.{DesiredState, start}
use paasta.Deployments.Mappings.{Mapping}

-- A value that should be a number of cpus, or an amount.
pub data Amount : Type 0 where
  nothing : Amount
  thousandths : ℕ → Amount
  no_number : Text → Amount

pub record Ulimit : Type 0 where
  pub soft : Option ℕ
  pub hard : Option ℕ

pub record InstanceConfig : Type 0 where
  pub service : Text
  pub instance : Text
  pub cluster : Text
  pub branch_dict : Option Mapping
  pub deploy_group : Option Text
  pub mem : Option Amount
  pub cpus : Option Amount
  pub disk : Option Amount
  pub cfs_period_us : Option ℕ
  pub cpu_burst_pct : Option ℕ
  pub ulimit : List (Text × Ulimit)
  pub cap_add : List Text
  pub cmd : Option Text
  pub args : Option (List Text)
  pub env : List (Text × Text)
  pub pool : Option Text
  pub net : Option Text

abbrev pub or_default {ℓ} : {A : Type ℓ} → A → Option A → A
or_default d none = d
or_default d (some x) = x

-- SPACER.join((cluster, instance))
unfoldable pub get_paasta_branch : Text → Text → Text
get_paasta_branch cluster instance = cluster ++ spacer ∷ instance

unfoldable pub get_branch : InstanceConfig → Text
unfolding get_paasta_branch
get_branch c = get_paasta_branch c.cluster c.instance

unfoldable pub get_deploy_group : InstanceConfig → Text
unfolding get_branch
get_deploy_group c = or_default (get_branch c) c.deploy_group

unfoldable pub get_mem : InstanceConfig → Amount
get_mem c = or_default (thousandths 1024000) c.mem

unfoldable pub get_cpus : InstanceConfig → Amount
get_cpus c = or_default (thousandths 250) c.cpus

unfoldable pub get_disk : InstanceConfig → Amount
get_disk c = or_default (thousandths 1024000) c.disk

-- DEFAULT_CPU_PERIOD
unfoldable pub get_cpu_period : InstanceConfig → ℕ
get_cpu_period c = or_default 100000 c.cfs_period_us

-- Arithmetic on an amount raises where it is no number.
abbrev pub number_of : Amount → Result ℕ
number_of (thousandths n) = ok n
number_of nothing = raise type_error
number_of (no_number s) = raise type_error

-- int(math.ceil(mem))
unfoldable pub get_mem_swap : InstanceConfig → Result ℕ
unfolding get_mem
get_mem_swap c = number_of (get_mem c) >>= λ mem. ok ((mem + 999) / 1000)

-- int of cpus * cfs_period_us * (100 + cpu_burst_pct) / 100; DEFAULT_CPU_BURST_PCT is 900
unfoldable pub get_cpu_quota : InstanceConfig → Result ℕ
unfolding get_cpus get_cpu_period
get_cpu_quota c = number_of (get_cpus c) >>= λ cpus.
    ok (cpus * get_cpu_period c * (100 + or_default 900 c.cpu_burst_pct) / 100000)

-- The parameters of docker run, their values as numbers.
pub data DockerParameter : Type 0 where
  memory_swap cpu_period cpu_quota : ℕ → DockerParameter
  ulimit_param : Text → ℕ → Option ℕ → DockerParameter
  cap_add_param : Text → DockerParameter

-- sorted(d.items())
abbrev pub sort_by_key : List (Text × Ulimit) → List (Text × Ulimit)
sort_by_key = sort_by (λ x y. text_leb x.0 y.0)

abbrev pub ulimit_with : Text → Option ℕ → Option ℕ → Result DockerParameter
ulimit_with key none hard = raise invalid_instance_config
ulimit_with key (some soft) hard = ok (ulimit_param key soft hard)

abbrev pub ulimit_of : Text → Ulimit → Result DockerParameter
ulimit_of key val = ulimit_with key val.soft val.hard

unfoldable pub ulimits_of : List (Text × Ulimit) → Result (List DockerParameter)
ulimits_of [] = ok []
ulimits_of ((key, val) ∷ rest) =
    let more = ulimits_of rest in ulimit_of key val >>= λ p. more >>= λ ps. ok (p ∷ ps)

unfoldable pub get_ulimit : InstanceConfig → Result (List DockerParameter)
unfolding ulimits_of
get_ulimit c = ulimits_of (sort_by_key c.ulimit)

unfoldable pub get_cap_add : InstanceConfig → List DockerParameter
get_cap_add c = map cap_add_param c.cap_add

unfoldable pub format_docker_parameters : InstanceConfig → Result (List DockerParameter)
unfolding get_mem_swap get_cpu_quota get_ulimit get_cap_add
format_docker_parameters c = get_mem_swap c >>= λ swap. get_cpu_quota c >>= λ quota.
    get_ulimit c >>= λ ulimits. ok (
      memory_swap swap
      ∷ cpu_period (get_cpu_period c)
      ∷ cpu_quota quota
      ∷ (ulimits ++ get_cap_add c))

abbrev image_of : Option Mapping → Text
image_of none = []
image_of (some b) = b.docker_image

unfoldable pub get_docker_image : InstanceConfig → Text
get_docker_image c = image_of c.branch_dict

abbrev state_of : Option Mapping → DesiredState
state_of none = start
state_of (some b) = b.desired_state

unfoldable pub instance_desired_state : InstanceConfig → DesiredState
instance_desired_state c = state_of c.branch_dict

abbrev bounce_of : Option Mapping → Option Text
bounce_of none = none
bounce_of (some b) = b.force_bounce

unfoldable pub get_force_bounce : InstanceConfig → Option Text
get_force_bounce c = bounce_of c.branch_dict

-- d.update(e)
unfoldable pub update_env : List (Text × Text) → List (Text × Text) → List (Text × Text)
unfolding insert
update_env d [] = d
update_env d ((k, v) ∷ e) = update_env (insert k v d) e

unfoldable pub get_env_dictionary : InstanceConfig → List (Text × Text)
unfolding update_env get_docker_image
get_env_dictionary c =
    update_env
      ((codes "PAASTA_SERVICE", c.service)
        ∷ (codes "PAASTA_INSTANCE", c.instance)
        ∷ (codes "PAASTA_CLUSTER", c.cluster)
        ∷ (codes "PAASTA_DOCKER_IMAGE", get_docker_image c)
        ∷ [])
      c.env

abbrev args_of : Option Text → Option (List Text) → Result (Option (List Text))
args_of none none = ok (some [])
args_of none (some args) = ok (some args)
args_of (some cmd) none = ok none
args_of (some cmd) (some args) = raise invalid_instance_config

unfoldable pub get_args : InstanceConfig → Result (Option (List Text))
get_args c = args_of c.cmd c.args

unfoldable pub get_pool : InstanceConfig → Text
get_pool c = or_default (codes "default") c.pool

unfoldable pub get_net : InstanceConfig → Text
get_net c = or_default (codes "bridge") c.net

-- The check of an amount; a message is the name of its parameter.
abbrev is_amount : Amount → Bool
is_amount nothing = true
is_amount (thousandths n) = true
is_amount (no_number s) = false

pub data Param : Type 0 where
  cpus mem disk other_param : Param

unfoldable pub check : InstanceConfig → Param → Bool
unfolding get_cpus get_mem
check c cpus = is_amount (get_cpus c)
check c mem = is_amount (get_mem c)
check c _ = false

unfoldable pub validate_each : InstanceConfig → List Param → List Param
unfolding check
validate_each c [] = []
validate_each c (p ∷ ps) = let rest = validate_each c ps in if check c p then rest else p ∷ rest

-- The parameters for which validate has a message.
unfoldable pub validate : InstanceConfig → List Param
unfolding validate_each
validate c = validate_each c (cpus ∷ mem ∷ [])
