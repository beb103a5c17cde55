-- ===== src/Metastatus.antt =====
-- paasta_tools/metrics/metastatus_lib.py: the resources of a cluster by groups of slaves. Amounts are
-- whole numbers.
pub mod Grouping
pub mod Totals
pub mod Health
pub mod Tests
use paasta.Prelude.{
  ℕ, ◌+◌, ltb, length, Text, text_eq, text_leb, ◌==◌, codes, Bool, true, false, ℤ, pos, minus,
  Option, none, some, List, [], ◌∷◌, map, select, contains, lookup, get_or, insert, sort_by, Result,
  ok, raise, value_error, key_error, ◌>>=◌, if◌then◌else◌,
}

-- What filter_mesos_state_metrics leaves.
pub record ResourceInfo : Type 0 where
  pub cpus : ℕ
  pub disk : ℕ
  pub mem : ℕ

pub record Slave : Type 0 where
  pub id : Text
  pub pid : Text
  pub hostname : Text
  pub attributes : List (Text × Text)
  pub resources : ResourceInfo
  pub reserved_resources : List (Text × ResourceInfo)

pub record MesosTask : Type 0 where
  pub slave_id : Text
  pub resources : ResourceInfo

-- Counter.update
abbrev pub added : ResourceInfo → ResourceInfo → ResourceInfo
added a b = record { cpus = a.cpus + b.cpus; disk = a.disk + b.disk; mem = a.mem + b.mem }

abbrev pub no_resources : ResourceInfo
no_resources = record { cpus = 0; disk = 0; mem = 0 }

abbrev pub sum_of : List ResourceInfo → ResourceInfo
sum_of [] = no_resources
sum_of (r ∷ rs) = added r (sum_of rs)

abbrev pub reserved_on : Slave → ResourceInfo
reserved_on slave = sum_of (map (λ (r : Text × ResourceInfo). r.1) slave.reserved_resources)

-- What is free may be less than nothing.
pub record Free : Type 0 where
  pub cpus : ℤ
  pub disk : ℤ
  pub mem : ℤ

pub record Utilization : Type 0 where
  pub free : Free
  pub total : ResourceInfo

abbrev pub total_of : List Slave → ResourceInfo
total_of slaves = sum_of (map (λ (s : Slave). s.resources) slaves)

-- What is subtracted from the total: the tasks' resources, and those that are reserved.
abbrev pub used_of : List Slave → List MesosTask → ResourceInfo
used_of slaves tasks =
    added (sum_of (map (λ (t : MesosTask). t.resources) tasks)) (sum_of (map reserved_on slaves))

unfoldable pub calculate_resource_utilization_for_slaves : List Slave → List MesosTask → Utilization
calculate_resource_utilization_for_slaves slaves tasks =
    let total = total_of slaves in
    let used = used_of slaves tasks in
    record {
      free = record {
        cpus = minus (pos total.cpus) used.cpus;
        disk = minus (pos total.disk) used.disk;
        mem = minus (pos total.mem) used.mem;
      };
      total = total;
    }

unfoldable pub filter_tasks_for_slaves : List Slave → List MesosTask → List MesosTask
filter_tasks_for_slaves slaves tasks =
    let slave_ids = map (λ (s : Slave). s.id) slaves in
    select (λ (t : MesosTask). contains slave_ids t.slave_id) tasks

-- slave['attributes'].get(attribute, 'unknown')
unfoldable pub key_func_for_attribute : Text → Slave → Result Text
unfolding get_or
key_func_for_attribute attribute slave = ok (get_or attribute (codes "unknown") slave.attributes)

-- lambda slave: slave['attributes'][attribute]
abbrev pub found : Option Text → Result Text
found none = raise key_error
found (some v) = ok v

unfoldable pub key_func_for_present : Text → Slave → Result Text
unfolding lookup
key_func_for_present attribute slave = found (lookup attribute slave.attributes)

module _ {A : Type 0} where
  -- itertools.groupby, of values with their keys
  abbrev pub join_run : Text × A → List (Text × List A) → List (Text × List A)
  join_run (k, x) [] = (k, x ∷ []) ∷ []
  join_run (k, x) ((j, ys) ∷ runs) =
      if j == k then (j, x ∷ ys) ∷ runs else (k, x ∷ []) ∷ (j, ys) ∷ runs

  abbrev pub group_by : List (Text × A) → List (Text × List A)
  group_by [] = []
  group_by (x ∷ xs) = join_run x (group_by xs)

-- {k: v for k, v in pairs}, from the entries so far
abbrev pub dict_from : {V : Type 0} → List (Text × V) → List (Text × V) → List (Text × V)
dict_from d [] = d
dict_from d ((k, v) ∷ pairs) = dict_from (insert k v d) pairs

-- The keys that sorted() computes, each with its slave.
unfoldable pub with_keys : (Slave → Result Text) → List Slave → Result (List (Text × Slave))
with_keys key_func [] = ok []
with_keys key_func (slave ∷ slaves) =
    let rest = with_keys key_func slaves in
    key_func slave >>= λ key. rest >>= λ keyed. ok ((key, slave) ∷ keyed)

abbrev pub by_key : Text × Slave → Text × Slave → Bool
by_key x y = text_leb x.0 y.0

unfoldable pub group_slaves_by_key_func :
    (Slave → Result Text) → List Slave → Result (List (Text × List Slave))
unfolding with_keys insert
group_slaves_by_key_func key_func slaves =
    with_keys key_func slaves >>= λ keyed. ok (dict_from [] (group_by (sort_by by_key keyed)))

abbrev pub utilizations : List MesosTask → List (Text × List Slave) → List (Text × Utilization)
utilizations tasks groups =
    map
      (λ (g : Text × List Slave).
        (g.0, calculate_resource_utilization_for_slaves g.1 (filter_tasks_for_slaves g.1 tasks)))
      groups

unfoldable pub has_registered_slaves : List Slave → Bool
has_registered_slaves slaves = ltb 0 (length slaves)

unfoldable pub get_resource_utilization_by_grouping :
    (Slave → Result Text) → List Slave → List MesosTask → Result (List (Text × Utilization))
unfolding has_registered_slaves group_slaves_by_key_func calculate_resource_utilization_for_slaves
    filter_tasks_for_slaves
get_resource_utilization_by_grouping grouping_func slaves tasks =
    if has_registered_slaves slaves
    then (group_slaves_by_key_func grouping_func slaves >>= λ groups.
        ok (utilizations tasks groups))
    else raise value_error
