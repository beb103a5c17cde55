-- ===== src/ClusterAutoscaling/Tests.antt =====
-- A spot fleet request with two slaves, whose weights are counted in tenths.
use paasta.Prelude.{
  ◌≡◌, refl, ℕ, ◌+◌, ◌*◌, ◌≤◌, ◌<◌, ◌⊎◌, pos, Text, text_eq, text_beq, codes, true, false, some,
  List, [], ◌∷◌, Exception, http_error, Result, ok, raise, insert, arith,
}
use paasta.Effects.{Oracle}
use paasta.Effects.Confined.{Confined}
use paasta.Metastatus.{MesosTask, Slave}
use paasta.ClusterAutoscaling.{
  Fraction, Resource, Sfr, active, cancelled_running, error_of, get_spot_fleet_delta,
}
use paasta.ClusterAutoscaling.Delta.{OverTarget, WithinTarget, get_spot_fleet_delta_follows}
use paasta.ClusterAutoscaling.Slaves.{
  Candidate, RunningTask, slave_pid_to_ip, sort_slaves_to_kill, task_count_by_slave,
}
use paasta.ClusterAutoscaling.Downscale.{
  Call, describe_request, downscale_spot_fleet_request, drain, floor_div,
  gracefully_terminate_slave, is_fail_set, is_safe_to_kill, modify_request,
  set_spot_fleet_request_capacity, state_summary, terminate, undrain, whole,
}
use paasta.ClusterAutoscaling.Downscale.Modest.{
  Spares, downscale_spot_fleet_request-Spares, ids_of, weights_of,
}
use paasta.ClusterAutoscaling.Downscale.Undrained.{gracefully_terminate_slave-undrains, latest}
use paasta.ClusterAutoscaling.Downscale.Ends.{downscale_retries_one_slave, repeated}
use paasta.ClusterAutoscaling.Resources.{spotfleet_metrics_provider}
use paasta.ClusterAutoscaling.Resources.Targets.{spotfleet_metrics_provider-Fits}

ip_of_pid : slave_pid_to_ip (codes "slave(1)@10.40.31.172:5051") ≡ ok (codes "10.40.31.172")
unfolding slave_pid_to_ip
ip_of_pid = refl

abbrev resource : Resource
resource = record {
  id = codes "sfr-1";
  is_spot_fleet_request = true;
  pool = codes "default";
  min_capacity = 2;
  max_capacity = 20;
}

abbrev candidate : Text → ℕ → ℕ → Candidate
candidate id weight tasks = record {
  id = id;
  hostname = id;
  ip = codes "10.0.0.1";
  instance_id = codes "i-1";
  instance_weight = weight;
  count = tasks;
  chronos_count = 0;
}

abbrev busy : Candidate
busy = candidate (codes "busy") 15 7

abbrev idle : Candidate
idle = candidate (codes "idle") 25 1

abbrev slaves : List Candidate
slaves = busy ∷ idle ∷ []

abbrev willing : Oracle Call
willing h c = ok true

-- No host can be drained.
abbrev undrainable : Oracle Call
undrainable h (drain hostname ip) = raise http_error
undrainable h c = ok true

abbrev is_active_request : List Call → Result Sfr
is_active_request h =
    ok (record { state = active; fulfilled_capacity = 100; target_capacity = 100 })

abbrev is_cancelled_request : List Call → Result Sfr
is_cancelled_request h =
    ok (record { state = cancelled_running; fulfilled_capacity = 100; target_capacity = 100 })

abbrev mesos_slave : Text → Slave
mesos_slave id = record {
  id = id;
  pid = codes "slave(1)@10.0.0.1:5051";
  hostname = id;
  attributes = (codes "pool", codes "default") ∷ [];
  resources = record { cpus = 10; disk = 100; mem = 100 };
  reserved_resources = [];
}

abbrev mesos : List Call → Result (List Slave × List RunningTask)
mesos h = ok (mesos_slave (codes "busy") ∷ mesos_slave (codes "idle") ∷ [], [])

idle_first : sort_slaves_to_kill slaves ≡ idle ∷ busy ∷ []
unfolding sort_slaves_to_kill
idle_first = refl

-- From 10 instances to 6: the idle slave goes, and the other one, too, since 6 are left.
abbrev both_killed : List Call
both_killed =
    state_summary
    ∷ undrain (codes "busy") (codes "10.0.0.1")
    ∷ terminate (codes "i-1") false
    ∷ is_safe_to_kill (codes "busy")
    ∷ modify_request (codes "sfr-1") (whole (pos 6))
    ∷ describe_request (codes "sfr-1")
    ∷ drain (codes "busy") (codes "10.0.0.1")
    ∷ state_summary
    ∷ undrain (codes "idle") (codes "10.0.0.1")
    ∷ terminate (codes "i-1") false
    ∷ is_safe_to_kill (codes "idle")
    ∷ modify_request (codes "sfr-1") (whole (pos 7))
    ∷ describe_request (codes "sfr-1")
    ∷ drain (codes "idle") (codes "10.0.0.1")
    ∷ []

downscale_run :
    downscale_spot_fleet_request willing is_active_request mesos 3 false 10 resource 5 6 0
      (pos 100)
      slaves
      []
    ≡ (ok true, both_killed)
unfolding downscale_spot_fleet_request text_beq task_count_by_slave
downscale_run = refl

downscale_spot_fleet_request-Spares_example :
    Confined (Spares 10 6 100 (ids_of slaves) (weights_of slaves)) (
      downscale_spot_fleet_request willing is_active_request mesos 3 false 10 resource 5 6 0
        (pos 100)
        slaves)
downscale_spot_fleet_request-Spares_example =
    downscale_spot_fleet_request-Spares willing is_active_request mesos 3 false 10 resource 5 6 100
      slaves (omega arith) (omega arith)

gracefully_terminate_slave-undrains_example :
    let set =
      set_spot_fleet_request_capacity willing is_active_request mesos 3 false resource.id
        (whole (floor_div (pos 75) 10)) in
    let done =
      gracefully_terminate_slave willing is_active_request mesos 3 false 10 resource idle
        (pos 100)
        (pos 75)
        [] in
    let drained = drain idle.hostname idle.ip ∷ [] in
    ((e : Exception) × ((set drained).0 ≡ raise e)
      × (is_fail_set e ≡ false)
      × (done ≡ (raise e, (set drained).1)))
    ⊎ (latest done.1 ≡ some (undrain idle.hostname idle.ip))
gracefully_terminate_slave-undrains_example =
    gracefully_terminate_slave-undrains willing is_active_request mesos 3 10 resource idle (pos 100)
      (pos 75) [] true refl

downscale_retries_one_slave_example :
    downscale_spot_fleet_request undrainable is_active_request mesos 3 false 10 resource 1000 6 0
      (pos 100)
      slaves
      []
    ≡ (ok false, repeated 1000 (drain idle.hostname idle.ip) [])
downscale_retries_one_slave_example =
    downscale_retries_one_slave undrainable is_active_request mesos 3 10 resource 1000 6 (pos 100)
      slaves (busy ∷ []) idle [] idle_first (λ h. refl)

-- A tenth is free, with a target of 80%.
abbrev tenth_free : Fraction
tenth_free = record { num = pos 1; den = 10 }

delta_run : get_spot_fleet_delta 10 resource 100 (error_of 80 tenth_free) ≡ 11
unfolding get_spot_fleet_delta error_of
delta_run = refl

get_spot_fleet_delta_follows_example :
    (OverTarget 80 (pos 1) 10
      → 100 ≤ 20 * 10
      → 100 ≤ get_spot_fleet_delta 10 resource 100 (error_of 80 tenth_free) * 10)
    × (WithinTarget 80 (pos 1) 10
        → 2 * 10 < 100 + 10
        → get_spot_fleet_delta 10 resource 100 (error_of 80 tenth_free) * 10 < 100 + 10)
get_spot_fleet_delta_follows_example =
    get_spot_fleet_delta_follows 10 (omega arith) 100 resource 80 tenth_free (omega arith)
      (omega arith)

abbrev fleet : List Call → Result (List Text × List Text)
fleet h = ok (codes "i-1" ∷ codes "i-2" ∷ [], codes "10.0.0.1" ∷ [])

-- Nothing runs.
abbrev state : List Call → Result (List Slave × List MesosTask)
state h = ok (mesos_slave (codes "busy") ∷ mesos_slave (codes "idle") ∷ [], [])

provider_run :
    (spotfleet_metrics_provider willing is_cancelled_request mesos 3 false 10 fleet state resource
      80 []).0
    ≡ ok (100, 8)
unfolding spotfleet_metrics_provider text_beq insert
provider_run = refl

spotfleet_metrics_provider-Fits_example :
    (8 ≤ 20)
    × (((h' : List Call) (sfr : Sfr)
          → is_cancelled_request h' ≡ ok sfr
          → sfr.state ≡ cancelled_running)
        → 8 * 10 ≤ 100)
spotfleet_metrics_provider-Fits_example =
    spotfleet_metrics_provider-Fits willing is_cancelled_request mesos 3 false 10 fleet state
      resource 80 (omega arith) [] (100, 8) provider_run
