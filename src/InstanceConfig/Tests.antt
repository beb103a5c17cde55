-- ===== src/InstanceConfig/Tests.antt =====
-- The config of an instance with little of it given.
use paasta.Prelude.{
  ◌≡◌, refl, text_eq, text_beq, codes, none, some, List, [], ◌∷◌, lookup, ok, raise,
  invalid_instance_config,
}
use paasta.InstanceConfig.{
  DockerParameter, InstanceConfig, cap_add_param, cpu_period, cpu_quota, cpus,
  format_docker_parameters, get_args, get_deploy_group, get_env_dictionary, memory_swap, no_number,
  thousandths, ulimit_param, validate,
}
use paasta.InstanceConfig.Docker.{Allows, format_docker_parameters-Allows}

abbrev small : InstanceConfig
small = record {
  service = codes "s";
  instance = codes "main";
  cluster = codes "c";
  branch_dict = none;
  deploy_group = none;
  mem = some (thousandths 500500);
  cpus = none;
  disk = none;
  cfs_period_us = none;
  cpu_burst_pct = some 0;
  ulimit =
      (codes "nofile", record { soft = some 1024; hard = none })
      ∷ (codes "nice", record { soft = some 20; hard = some 30 })
      ∷ [];
  cap_add = codes "IPC_LOCK" ∷ [];
  cmd = some (codes "run");
  args = none;
  env = (codes "PAASTA_CLUSTER", codes "mine") ∷ [];
  pool = none;
  net = none;
}

abbrev parameters : List DockerParameter
parameters =
    memory_swap 501
    ∷ cpu_period 100000
    ∷ cpu_quota 25000
    ∷ ulimit_param (codes "nice") 20 (some 30)
    ∷ ulimit_param (codes "nofile") 1024 none
    ∷ cap_add_param (codes "IPC_LOCK")
    ∷ []

parameters_run : format_docker_parameters small ≡ ok parameters
unfolding format_docker_parameters
parameters_run = refl

format_docker_parameters-Allows_example : Allows small parameters
format_docker_parameters-Allows_example =
    format_docker_parameters-Allows small parameters parameters_run

missing_soft_run :
    format_docker_parameters
      (record small { ulimit = (codes "nice", record { soft = none; hard = none }) ∷ [] })
    ≡ raise invalid_instance_config
unfolding format_docker_parameters
missing_soft_run = refl

group_run : get_deploy_group small ≡ codes "c.main"
unfolding get_deploy_group
group_run = refl

cluster_run : lookup (codes "PAASTA_CLUSTER") (get_env_dictionary small) ≡ some (codes "mine")
unfolding get_env_dictionary lookup text_beq
cluster_run = refl

both_run : get_args (record small { args = some [] }) ≡ raise invalid_instance_config
unfolding get_args
both_run = refl

validate_run : validate (record small { cpus = some (no_number (codes "many")) }) ≡ cpus ∷ []
unfolding validate
validate_run = refl
