-- ===== src/InstanceConfig/Docker.antt =====
-- What the parameters of docker run allow a container.
use paasta.Prelude.{
  all_of-sort_by, ℕ, ◌+◌, ◌*◌, ◌/◌, ◌≤◌, ◌<◌, ◌≡◌, refl, sym, ap, ◌∙◌, Text, text_eq, Bool, true,
  false, Option, none, some, List, [], ◌∷◌, ◌++◌, ok, ok_injective, all_of, >>=-eq-ok, arith,
}
use paasta.InstanceConfig.{
  Amount, DockerParameter, InstanceConfig, Ulimit, cpu_period, cpu_quota, format_docker_parameters,
  get_cap_add, get_cpu_period, get_cpu_quota, get_cpus, get_mem, get_mem_swap, get_ulimit,
  memory_swap, no_number, nothing, number_of, or_default, sort_by_key, thousandths, ulimit_of,
  ulimit_with, ulimits_of,
}

abbrev is_some : Option ℕ → Bool
is_some none = false
is_some (some n) = true

abbrev has_soft : Text × Ulimit → Bool
has_soft entry = is_some entry.1.soft

number_of-eq-ok : (a : Amount) (n : ℕ) → number_of a ≡ ok n → a ≡ thousandths n
number_of-eq-ok nothing n e = cc
number_of-eq-ok (thousandths m) n e = ap thousandths (ok_injective e)
number_of-eq-ok (no_number s) n e = cc

ulimit_with-soft :
    (key : Text) (soft hard : Option ℕ) (p : DockerParameter)
    → ulimit_with key soft hard ≡ ok p
    → is_some soft ≡ true
ulimit_with-soft key none hard p e = cc
ulimit_with-soft key (some n) hard p e = refl

ulimits_of-all_soft :
    (xs : List (Text × Ulimit)) (ps : List DockerParameter)
    → ulimits_of xs ≡ ok ps
    → all_of has_soft xs ≡ true
unfolding ulimits_of
ulimits_of-all_soft [] ps e = refl
ulimits_of-all_soft ((key, val) ∷ xs) ps e =
    let (p, here, rest) = >>=-eq-ok (ulimit_of key val) _ e in
    let (more, others, joined) = >>=-eq-ok (ulimits_of xs) _ rest in
    rw (ulimit_with-soft key val.soft val.hard p here) (ulimits_of-all_soft xs more others)

quota_covers : (x burst : ℕ) → x < (x * (100 + burst) / 100000 + 1) * 1000
quota_covers x burst = omega arith

-- What a container is allowed: swap is the least whole number of megabytes no less than its memory, the
-- quota of a period is no less than its cpus are in that time, but for rounding down, and each ulimit
-- that is configured has a soft limit.
pub record Allows (c : InstanceConfig) (parameters : List DockerParameter) : Type 0 where
  pub mem : ℕ
  pub cpus : ℕ
  pub swap : ℕ
  pub quota : ℕ
  pub ulimits : List DockerParameter
  pub mem_is : get_mem c ≡ thousandths mem
  pub cpus_is : get_cpus c ≡ thousandths cpus
  pub parameters_are :
      parameters
      ≡ memory_swap swap
        ∷ cpu_period (get_cpu_period c)
        ∷ cpu_quota quota
        ∷ (ulimits ++ get_cap_add c)
  pub swap_covers : mem ≤ swap * 1000
  pub swap_is_least : swap * 1000 < mem + 1000
  pub quota_suffices : cpus * get_cpu_period c < (quota + 1) * 1000
  pub all_soft : all_of has_soft c.ulimit ≡ true

-- Where format_docker_parameters returns, memory and cpus are numbers, and the parameters allow what is
-- configured.
pub format_docker_parameters-Allows :
    (c : InstanceConfig) (ps : List DockerParameter)
    → format_docker_parameters c ≡ ok ps
    → Allows c ps
unfolding format_docker_parameters get_mem_swap get_cpu_quota get_ulimit
format_docker_parameters-Allows c ps e =
    let (swap, swapped, after_swap) = >>=-eq-ok (get_mem_swap c) _ e in
    let (quota, quoted, after_quota) = >>=-eq-ok (get_cpu_quota c) _ after_swap in
    let (ulimits, limited, joined) = >>=-eq-ok (get_ulimit c) _ after_quota in
    let (mem, mem_number, rounded) = >>=-eq-ok (number_of (get_mem c)) _ swapped in
    let (cpus, cpus_number, multiplied) = >>=-eq-ok (number_of (get_cpus c)) _ quoted in
    let swap_eq : (mem + 999) / 1000 ≡ swap = ok_injective rounded in
    record {
      mem = mem;
      cpus = cpus;
      swap = swap;
      quota = quota;
      ulimits = ulimits;
      mem_is = number_of-eq-ok (get_mem c) mem mem_number;
      cpus_is = number_of-eq-ok (get_cpus c) cpus cpus_number;
      parameters_are = sym (ok_injective joined);
      swap_covers = omega arith;
      swap_is_least = omega arith;
      quota_suffices =
          rw (← (ok_injective multiplied))
            (quota_covers (cpus * get_cpu_period c) (or_default 900 c.cpu_burst_pct));
      all_soft =
          sym (all_of-sort_by _ has_soft c.ulimit)
          ∙ ulimits_of-all_soft (sort_by_key c.ulimit) ulimits limited;
    }
