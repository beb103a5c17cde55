-- ===== src/ClusterAutoscaling/Slaves.antt =====
-- The slaves that may be terminated, and in which order: filter_sfr_slaves and sort_slaves_to_kill of
-- autoscaling_cluster_lib.py, with get_mesos_task_count_by_slave and slave_pid_to_ip of
-- paasta_tools/mesos_tools.py.
use paasta.Prelude.{
  ℕ, nat_eq, ltb, leb, nat_beq, length, Text, text_eq, ◌==◌, Bool, false, ◌&&◌, ◌||◌, Option, none,
  some, List, [], ◌∷◌, map, select, contains, lookup, sort_by, Result, ok, raise, type_error,
  key_error, attribute_error, ◌>>=◌, if◌then◌else◌,
}
use paasta.Metastatus.{Slave}
use paasta.ClusterAutoscaling.{InstanceDescription, get_pool_slaves}

abbrev is_digit : ℕ → Bool
is_digit c = leb b'0' c && leb c b'9'

abbrev is_ip_char : ℕ → Bool
is_ip_char c = is_digit c || nat_beq c b'.'

abbrev taken_while : (ℕ → Bool) → Text → Text
taken_while p [] = []
taken_while p (c ∷ t) = if p c then c ∷ taken_while p t else []

abbrev dropped_while : (ℕ → Bool) → Text → Text
dropped_while p [] = []
dropped_while p (c ∷ t) = if p c then dropped_while p t else c ∷ t

abbrev starts_with_port : Text → Bool
starts_with_port (c ∷ d ∷ t) = nat_beq c b':' && is_digit d
starts_with_port _ = false

-- `([\d\.]+):\d+` at the start of the text
abbrev ip_at : Text → Option Text
ip_at t =
    let ip = taken_while is_ip_char t in
    if ltb 0 (length ip) && starts_with_port (dropped_while is_ip_char t) then some ip else none

abbrev or_else : Option Text → Option Text → Option Text
or_else none o = o
or_else (some t) o = some t

-- The first '@' that an address follows.
abbrev find_ip : Text → Option Text
find_ip [] = none
find_ip (c ∷ t) = if nat_beq c b'@' then or_else (ip_at t) (find_ip t) else find_ip t

abbrev matched : Option Text → Result Text
matched none = raise attribute_error
matched (some ip) = ok ip

-- `.+?@([\d\.]+):\d+`
unfoldable pub slave_pid_to_ip : Text → Result Text
slave_pid_to_ip [] = raise attribute_error
slave_pid_to_ip (c ∷ t) = matched (find_ip t)

-- SlaveTaskCount
pub record SlaveTaskCount : Type 0 where
  pub slave : Slave
  pub count : ℕ
  pub chronos_count : ℕ

-- A running task: its slave, and whether its framework is Chronos.
pub record RunningTask : Type 0 where
  pub slave_id : Text
  pub is_chronos : Bool

abbrev tasks_on : Text → List RunningTask → List RunningTask
tasks_on id tasks = select (λ (t : RunningTask). t.slave_id == id) tasks

abbrev pub count_on : Text → List RunningTask → ℕ
count_on id tasks = length (tasks_on id tasks)

abbrev pub chronos_count_on : Text → List RunningTask → ℕ
chronos_count_on id tasks = length (select (λ (t : RunningTask). t.is_chronos) (tasks_on id tasks))

abbrev pub counted : List RunningTask → Slave → SlaveTaskCount
counted tasks slave = record {
  slave = slave;
  count = count_on slave.id tasks;
  chronos_count = chronos_count_on slave.id tasks;
}

-- get_mesos_task_count_by_slave for a pool; the empty text stands for all pools.
unfoldable pub task_count_by_pool :
    (pool : Text) → List Slave → List RunningTask → List SlaveTaskCount
unfolding get_pool_slaves
task_count_by_pool [] slaves tasks = map (counted tasks) slaves
task_count_by_pool (c ∷ pool) slaves tasks = map (counted tasks) (get_pool_slaves (c ∷ pool) slaves)

-- A slave that may be terminated, with its counts and the weight of its instance.
pub record Candidate : Type 0 where
  pub id : Text
  pub hostname : Text
  pub ip : Text
  pub instance_id : Text
  pub instance_weight : ℕ
  pub count : ℕ
  pub chronos_count : ℕ

-- get_mesos_task_count_by_slave for a list of slaves, which sets their counts.
unfoldable pub task_count_by_slave :
    (mesos_slaves : List Text) → List RunningTask → List Candidate → Result (List Candidate)
task_count_by_slave mesos_slaves tasks [] = ok []
task_count_by_slave mesos_slaves tasks (s ∷ slaves) =
    let rest = task_count_by_slave mesos_slaves tasks slaves in
    if contains mesos_slaves s.id
    then (rest >>= λ more. ok (
        record s { count = count_on s.id tasks; chronos_count = chronos_count_on s.id tasks }
        ∷ more))
    else raise key_error

-- (chronos_count, count) <= (chronos_count, count)
abbrev pub kill_first : Candidate → Candidate → Bool
kill_first x y =
    ltb x.chronos_count y.chronos_count
    || (nat_beq x.chronos_count y.chronos_count && leb x.count y.count)

unfoldable pub sort_slaves_to_kill : List Candidate → List Candidate
sort_slaves_to_kill slaves = sort_by kill_first slaves

abbrev has_ip : Text → Option Text → Result Bool
has_ip ip none = raise key_error
has_ip ip (some private_ip) = ok (private_ip == ip)

abbrev get_instances : Text → List InstanceDescription → Result (List InstanceDescription)
get_instances ip [] = ok []
get_instances ip (d ∷ descriptions) =
    let rest = get_instances ip descriptions in
    has_ip ip d.private_ip_address >>= λ here. rest >>= λ more. ok (if here then d ∷ more else more)

-- None is what describe_instances answers where an instance is not found.
unfoldable pub get_instances_from_ip :
    Text → Option (List InstanceDescription) → Result (List InstanceDescription)
get_instances_from_ip ip none = raise type_error
get_instances_from_ip ip (some descriptions) = get_instances ip descriptions

-- The slaves whose address is one of the request's.
unfoldable pub slaves_in_sfr :
    (sfr_ips : List Text) → List SlaveTaskCount → Result (List (Text × SlaveTaskCount))
unfolding slave_pid_to_ip
slaves_in_sfr sfr_ips [] = ok []
slaves_in_sfr sfr_ips (s ∷ slaves) =
    let rest = slaves_in_sfr sfr_ips slaves in
    slave_pid_to_ip s.slave.pid >>= λ ip.
    rest >>= λ more. ok (if contains sfr_ips ip then (ip, s) ∷ more else more)

-- A slave with no instance, or with more than one, is left out.
abbrev only_one : List InstanceDescription → Option InstanceDescription
only_one (d ∷ []) = some d
only_one _ = none

abbrev weight_of : List (Text × ℕ) → Text → Result ℕ
weight_of weights instance_type = elim (lookup instance_type weights) [
  | none ↦ raise key_error
  | some weight ↦ ok weight
]

abbrev with_instance :
    List (Text × ℕ)
    → Text × SlaveTaskCount
    → Option InstanceDescription
    → Result (List Candidate)
    → Result (List Candidate)
with_instance weights (ip, s) none rest = rest
with_instance weights (ip, s) (some d) rest = weight_of weights d.instance_type >>= λ weight.
    rest >>= λ more. ok (
      record {
        id = s.slave.id;
        hostname = s.slave.hostname;
        ip = ip;
        instance_id = d.instance_id;
        instance_weight = weight;
        count = s.count;
        chronos_count = s.chronos_count;
      }
      ∷ more)

unfoldable pub with_instances :
    List (Text × ℕ)
    → Option (List InstanceDescription)
    → List (Text × SlaveTaskCount)
    → Result (List Candidate)
unfolding get_instances_from_ip lookup
with_instances weights descriptions [] = ok []
with_instances weights descriptions ((ip, s) ∷ slaves) =
    let rest = with_instances weights descriptions slaves in
    get_instances_from_ip ip descriptions >>= λ instances.
    with_instance weights (ip, s) (only_one instances) rest

unfoldable pub filter_sfr_slaves :
    (sfr_ips : List Text) (weights : List (Text × ℕ))
    (descriptions : Option (List InstanceDescription))
    → List SlaveTaskCount
    → Result (List Candidate)
unfolding slaves_in_sfr with_instances
filter_sfr_slaves sfr_ips weights descriptions slaves_list =
    slaves_in_sfr sfr_ips slaves_list >>= λ sfr_slaves.
    with_instances weights descriptions sfr_slaves
