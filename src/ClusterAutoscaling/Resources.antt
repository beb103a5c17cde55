-- ===== src/ClusterAutoscaling/Resources.antt =====
-- autoscale_local_cluster, autoscale_cluster_resource and spotfleet_metrics_provider of
-- autoscaling_cluster_lib.py: the pass over the resources of a cluster.
pub mod Targets
use paasta.Prelude.{
  ℕ, ◌+◌, ◌*◌, nat_beq, ℤ, pos, negsuc, zero, suc, length, Text, text_eq, ◌==◌, Bool, true, false,
  ◌&&◌, ◌||◌, not, Option, none, some, List, [], ◌∷◌, map, contains, sort_by, Exception,
  cluster_autoscaling_error, Result, ok, raise, ◌>>=◌ as ◌>>>=◌, if◌then◌else◌,
}
use paasta.Effects.{Act, Oracle, call, pure, throw, try_except, caught, and_then, ◌>>=◌, ◌>>◌}
use paasta.Metastatus.{MesosTask, Slave}
use paasta.ClusterAutoscaling.{
  Fraction, InstanceDescription, Resource, Sfr, SfrState, active, cancelled, cancelled_running,
  cancelled_terminating, modifying, submitted, unexpected, get_mesos_utilization_error,
  get_pool_slaves, get_spot_fleet_delta, is_aws_launching_sfr_instances, pool_of,
}
use paasta.ClusterAutoscaling.Slaves.{RunningTask, slave_pid_to_ip}
use paasta.ClusterAutoscaling.Downscale.{
  Call, ask, describe_fleet, find_config, get_sfr, is_active, is_cancelled_running, lifted,
  remove_config, scale_aws_spot_fleet_request, state_summary,
}

-- The slaves of a pool that are instances of the request.
unfoldable pub get_sfr_slaves :
    (instance_ips : List Text) (pool : Text) → List Slave → Result (List Slave)
unfolding slave_pid_to_ip pool_of
get_sfr_slaves instance_ips pool [] = ok []
get_sfr_slaves instance_ips pool (s ∷ slaves) =
    let rest = get_sfr_slaves instance_ips pool slaves in
    slave_pid_to_ip s.pid >>>= λ ip.
    rest >>>= λ more. ok (if contains instance_ips ip && pool_of s == pool then s ∷ more else more)

abbrev pub is_positive : ℤ → Bool
is_positive (pos zero) = false
is_positive (pos (suc n)) = true
is_positive (negsuc n) = false

-- The error -1, which asks for no capacity at all.
abbrev pub minus_one : Fraction
minus_one = record { num = negsuc 0; den = 1 }

abbrev pub zero_of_one : ℕ → ℕ
zero_of_one target = if nat_beq target 1 then 0 else target

abbrev pub without_minimum : Resource → Resource
without_minimum resource = record resource { min_capacity = 0 }

abbrev pub no_change : ℕ × ℕ
no_change = (0, 0)

abbrev pub is_cancelled : SfrState → Bool
is_cancelled cancelled = true
is_cancelled cancelled_running = true
is_cancelled s = false

abbrev pub is_gone : Option Sfr → Bool
is_gone none = true
is_gone (some sfr) = is_cancelled sfr.state

-- sorted(..., key=cancelled, reverse=True): stable, so that cancelled resources come first.
abbrev pub cancelled_first : Resource × Bool → Resource × Bool → Bool
cancelled_first x y = x.1 || not y.1

-- The answers: of EC2 on a request, on its active instances and their addresses, and on the instances
-- to choose from; of Mesos with its running tasks, and with the resources of all tasks.
module _ (oracle : Oracle Call) (request : List Call → Result Sfr)
    (mesos : List Call → Result (List Slave × List RunningTask)) (polls : ℕ) (dry_run : Bool)
    (unit : ℕ) (fleet : List Call → Result (List Text × List Text))
    (state : List Call → Result (List Slave × List MesosTask)) where
  unfoldable pub cleanup_cancelled_sfr_config : Text → Act Call Bool
  unfolding call
  cleanup_cancelled_sfr_config id = call oracle (find_config id) >>= λ is_there.
      if is_there && not dry_run then call oracle (remove_config id) else pure true

  module _ (resource : Resource) (target_percent : ℕ) where
    abbrev pub pool_error : List Slave → List Slave → List MesosTask → Option ℕ → Result Fraction
    pool_error slaves all_slaves tasks desired =
        get_mesos_utilization_error resource.pool target_percent slaves all_slaves tasks desired

    -- The capacities for a request that is cancelled and running: it is only made smaller.
    unfoldable pub cancelled_capacity : ℕ → Fraction → ℕ × ℕ
    unfolding get_spot_fleet_delta
    cancelled_capacity current error = if is_positive error.num then no_change else (
      current,
      zero_of_one (get_spot_fleet_delta unit (without_minimum resource) current minus_one),
    )

    -- What follows from the error of the utilization.
    unfoldable pub capacity_for :
        Sfr → List Slave → List MesosTask → (error : Fraction) → Act Call (ℕ × ℕ)
    unfolding get_pool_slaves get_mesos_utilization_error is_aws_launching_sfr_instances
        get_spot_fleet_delta cancelled_capacity
    capacity_for sfr all_slaves tasks error =
        if is_aws_launching_sfr_instances sfr && is_active sfr.state
        then pure no_change
        else if is_cancelled_running sfr.state
        then (lifted (pool_error (get_pool_slaves resource.pool all_slaves) all_slaves tasks none)
            >>= λ error_of_pool. pure (cancelled_capacity sfr.fulfilled_capacity error_of_pool))
        else pure (
          sfr.fulfilled_capacity,
          get_spot_fleet_delta unit resource sfr.fulfilled_capacity error,
        )

    -- The part of the metrics provider for a request that is active, or cancelled and running.
    unfoldable pub measured_capacity : Sfr → Act Call (ℕ × ℕ)
    unfolding get_sfr_slaves get_mesos_utilization_error capacity_for
    measured_capacity sfr = ask fleet (describe_fleet resource.id) >>= λ instances.
        ask state state_summary >>= λ mesos_state.
        lifted (get_sfr_slaves instances.1 resource.pool mesos_state.0) >>= λ slaves.
        lifted (pool_error slaves mesos_state.0 mesos_state.1 (some (length instances.0)))
        >>= λ error. capacity_for sfr mesos_state.0 mesos_state.1 error

    unfoldable pub by_state : SfrState → Sfr → Act Call (ℕ × ℕ)
    unfolding measured_capacity cleanup_cancelled_sfr_config
    by_state cancelled sfr = cleanup_cancelled_sfr_config resource.id >> pure no_change
    by_state cancelled_running sfr = measured_capacity sfr
    by_state active sfr = measured_capacity sfr
    by_state submitted sfr = pure no_change
    by_state modifying sfr = pure no_change
    by_state cancelled_terminating sfr = pure no_change
    by_state unexpected sfr = throw cluster_autoscaling_error

    unfoldable pub by_request : Option Sfr → Act Call (ℕ × ℕ)
    unfolding by_state cleanup_cancelled_sfr_config
    by_request none = cleanup_cancelled_sfr_config resource.id >> pure no_change
    by_request (some sfr) = by_state sfr.state sfr

    -- The current capacity in units, and the target in whole instances.
    unfoldable pub spotfleet_metrics_provider : Act Call (ℕ × ℕ)
    unfolding get_sfr by_request
    spotfleet_metrics_provider =
        get_sfr oracle request mesos polls dry_run resource.id >>= by_request

  unfoldable pub is_resource_cancelled : Resource → Act Call Bool
  unfolding get_sfr
  is_resource_cancelled resource =
      if resource.is_spot_fleet_request
      then (get_sfr oracle request mesos polls dry_run resource.id >>= λ sfr. pure (is_gone sfr))
      else pure false

  module _
      (instances : List Call
        → Result (List Text × List (Text × ℕ) × Option (List InstanceDescription)))
      (rounds : ℕ) (target_percent : Text → ℕ) where
    abbrev pub log_autoscaling_error : Exception → Act Call Bool
    log_autoscaling_error cluster_autoscaling_error = pure true
    log_autoscaling_error e = throw e

    -- Only spot fleet requests have a metrics provider.
    unfoldable pub autoscale_cluster_resource : Resource → Act Call Bool
    unfolding spotfleet_metrics_provider scale_aws_spot_fleet_request
    autoscale_cluster_resource resource =
        if resource.is_spot_fleet_request
        then try_except
            (spotfleet_metrics_provider resource (target_percent resource.pool) >>= λ capacity.
              scale_aws_spot_fleet_request oracle request mesos polls dry_run unit resource
                instances rounds capacity.0 capacity.1)
            log_autoscaling_error
        else pure true

    unfoldable pub with_cancelled : List Resource → Act Call (List (Resource × Bool))
    unfolding is_resource_cancelled
    with_cancelled [] = pure []
    with_cancelled (r ∷ resources) = is_resource_cancelled r >>= λ is_cancelled.
        with_cancelled resources >>= λ more. pure ((r, is_cancelled) ∷ more)

    unfoldable pub autoscale_each : List (Resource × Bool) → Act Call Bool
    unfolding autoscale_cluster_resource
    autoscale_each [] = pure true
    autoscale_each ((r, is_cancelled) ∷ resources) =
        autoscale_cluster_resource r >> autoscale_each resources

    unfoldable pub autoscale_local_cluster : List Resource → Act Call Bool
    unfolding with_cancelled autoscale_each
    autoscale_local_cluster resources =
        with_cancelled resources >>= λ marked. autoscale_each (sort_by cancelled_first marked)
