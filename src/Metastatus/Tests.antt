-- ===== src/Metastatus/Tests.antt =====
-- Three slaves in two habitats.
use paasta.Prelude.{
  ◌≡◌, refl, ℕ, ◌+◌, ◌*◌, ◌≤◌, ◌<◌, Text, text_eq, text_beq, codes, true, false, List, [], ◌∷◌, map,
  select, lookup, insert, Result, ok,
}
use paasta.Metastatus.{
  MesosTask, ResourceInfo, Slave, Utilization, calculate_resource_utilization_for_slaves,
  filter_tasks_for_slaves, get_resource_utilization_by_grouping, group_slaves_by_key_func,
  key_func_for_attribute, sum_of, total_of,
}
use paasta.Metastatus.Grouping.{has_key, lookup-group_slaves_by_key_func, nonempty}
use paasta.Metastatus.Totals.{totals-get_resource_utilization_by_grouping}
use paasta.Metastatus.Health.{Metrics, assert_cpu_health, assert_cpu_health_bounds, reserved_of}

abbrev cpus : ℕ → ResourceInfo
cpus n = record { cpus = n; disk = 100; mem = 200 }

abbrev slave : Text → Text → ℕ → Slave
slave id habitat n = record {
  id = id;
  pid = codes "slave(1)@10.0.0.1:5051";
  hostname = id;
  attributes = (codes "habitat", habitat) ∷ [];
  resources = cpus n;
  reserved_resources = (codes "maintenance", cpus 1) ∷ [];
}

abbrev slaves : List Slave
slaves =
    slave (codes "a") (codes "west") 4
    ∷ slave (codes "b") (codes "east") 8
    ∷ slave (codes "c") (codes "west") 2
    ∷ []

abbrev tasks : List MesosTask
tasks = record { slave_id = codes "c"; resources = cpus 1 } ∷ []

abbrev by_habitat : Slave → Result Text
by_habitat = key_func_for_attribute (codes "habitat")

abbrev groups : List (Text × List Slave)
groups =
    (codes "east", slave (codes "b") (codes "east") 8 ∷ [])
    ∷ (codes "west", slave (codes "a") (codes "west") 4 ∷ slave (codes "c") (codes "west") 2 ∷ [])
    ∷ []

grouped : group_slaves_by_key_func by_habitat slaves ≡ ok groups
unfolding group_slaves_by_key_func key_func_for_attribute insert text_beq
grouped = refl

lookup-group_slaves_by_key_func_example :
    lookup (codes "west") groups
    ≡ nonempty (select (λ s. has_key (codes "west") (by_habitat s)) slaves)
lookup-group_slaves_by_key_func_example =
    lookup-group_slaves_by_key_func by_habitat slaves groups (codes "west") grouped

abbrev of_group : List Slave → Utilization
unfolding calculate_resource_utilization_for_slaves filter_tasks_for_slaves
of_group members =
    calculate_resource_utilization_for_slaves members (filter_tasks_for_slaves members tasks)

abbrev usage : List (Text × Utilization)
unfolding of_group
usage = map (λ (g : Text × List Slave). (g.0, of_group g.1)) groups

usage_run : get_resource_utilization_by_grouping by_habitat slaves tasks ≡ ok usage
unfolding get_resource_utilization_by_grouping group_slaves_by_key_func key_func_for_attribute
    insert text_beq of_group
usage_run = refl

totals-get_resource_utilization_by_grouping_example :
    sum_of (map (λ (u : Text × Utilization). u.1.total) usage) ≡ total_of slaves
totals-get_resource_utilization_by_grouping_example =
    totals-get_resource_utilization_by_grouping by_habitat slaves tasks usage usage_run

abbrev metrics : Metrics
metrics = record {
  cpus_total = 14;
  cpus_used = 1;
  mem_total = 600;
  mem_used = 200;
  disk_total = 300;
  disk_used = 100;
  frameworks_connected = 2;
  frameworks_disconnected = 0;
  frameworks_inactive = 0;
}

cpus_are_healthy : assert_cpu_health metrics slaves 10 ≡ true
unfolding assert_cpu_health
cpus_are_healthy = refl

assert_cpu_health_bounds_example :
    let used = metrics.cpus_used + (reserved_of slaves).cpus in
    (assert_cpu_health metrics slaves 10 ≡ true
      → 100 * used + 10 * metrics.cpus_total < 100 * metrics.cpus_total)
    × (assert_cpu_health metrics slaves 10 ≡ false
        → 200 * 100 * metrics.cpus_total
          ≤ 200 * (100 * used + 10 * metrics.cpus_total) + metrics.cpus_total)
assert_cpu_health_bounds_example = assert_cpu_health_bounds metrics slaves 10
