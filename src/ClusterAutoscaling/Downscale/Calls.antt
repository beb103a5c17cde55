-- ===== src/ClusterAutoscaling/Downscale/Calls.antt =====
-- Which calls the parts of a downscale make, one rule for each part.
use paasta.Prelude.{
  ℕ, zero, suc, nat_eq, ℤ, Text, text_eq, Bool, true, false, ◌||◌, not, Option, none, some, List,
  Exception, timeout, fail_set_spot_capacity, request_not_found, dry_run_operation, Result, ok,
  raise,
}
use paasta.Effects.{Oracle}
use paasta.Effects.Confined.{
  Confined, Confined-call, Confined-result, Confined-if, Confined-bind, Confined-seq,
  Confined-try_except, Confined-try_finally, more, same,
}
use paasta.Metastatus.{Slave}
use paasta.ClusterAutoscaling.{Resource, Sfr}
use paasta.ClusterAutoscaling.Slaves.{Candidate, RunningTask}
use paasta.ClusterAutoscaling.Downscale.{
  Amount, Call, ask, describe_request, drain, drain_slave, fail_on_timeout, float, floor_div,
  get_sfr, gracefully_terminate_slave, ignore_dry_run, is_client_error, is_fail_set,
  is_safe_to_kill, modify_request, not_found, set_spot_fleet_request_capacity, state_of, terminate,
  terminate_anyway, terminate_ids, terminate_when_safe, undrain, undrain_slave, wait_and_terminate,
  wait_for_active, whole, is_active, is_cancelled_running, is_empty,
}

module _ (oracle : Oracle Call) (request : List Call → Result Sfr)
    (mesos : List Call → Result (List Slave × List RunningTask)) (polls : ℕ) (dry_run : Bool)
    (P : Call → Type 0) where
  pub Confined-ask :
      {A : Type 0} (answer : List Call → Result A) (c : Call) → P c → Confined P (ask answer c)
  Confined-ask answer c p = record { at = λ h. more p same }

  module _ (id : Text) (described : P (describe_request id)) where
    get_sfr-Confined : Confined P (get_sfr oracle request mesos polls dry_run id)
    unfolding get_sfr
    get_sfr-Confined =
        Confined-try_except _ _
          (Confined-bind _ _ (Confined-ask request (describe_request id) described)
            (λ sfr h e. Confined-result (ok (some sfr))))
          failed
      where
        failed : (x : Exception) → Confined P (not_found oracle request mesos polls dry_run x)
        failed request_not_found = Confined-result (ok none)
        failed x = Confined-result (raise x)

    wait_for_active-Confined :
        (n : ℕ) → Confined P (wait_for_active oracle request mesos polls dry_run n id)
    unfolding wait_for_active
    wait_for_active-Confined zero = Confined-result (raise timeout)
    wait_for_active-Confined (suc n) =
        Confined-bind _ _ (Confined-bind _ _ get_sfr-Confined (λ sfr h e. known sfr)) (λ state h e.
          Confined-if (is_active state) _ _ (λ running. Confined-result (ok true))
            (λ other.
              Confined-if (is_cancelled_running state) _ _ (λ cancelled. Confined-result (ok false))
                (λ waiting. wait_for_active-Confined n)))
      where
        known : (sfr : Option Sfr) → Confined P (state_of oracle request mesos polls dry_run sfr)
        known none = Confined-result _
        known (some sfr) = Confined-result (ok sfr.state)

    set_spot_fleet_request_capacity-Confined :
        (capacity : Amount)
        → P (modify_request id capacity)
        → Confined P
            (set_spot_fleet_request_capacity oracle request mesos polls dry_run id capacity)
    unfolding set_spot_fleet_request_capacity
    set_spot_fleet_request_capacity-Confined capacity p =
        Confined-bind _ _ (Confined-try_except _ _ (wait_for_active-Confined polls) timed_out)
          (λ found h e.
            Confined-if (not found || dry_run) _ _ (λ skipped. Confined-result (ok true))
              (λ wanted.
                Confined-try_except _ _ (Confined-call oracle (modify_request id capacity) p) (λ x.
                  Confined-if (is_client_error x) _ _
                    (λ refused. Confined-result (raise fail_set_spot_capacity))
                    (λ other. Confined-result (raise x)))))
      where
        timed_out :
            (x : Exception) → Confined P (fail_on_timeout oracle request mesos polls dry_run x)
        timed_out timeout = Confined-result (raise fail_set_spot_capacity)
        timed_out x = Confined-result (raise x)

  module _ (slave : Candidate) (asked : P (is_safe_to_kill slave.hostname))
      (killed : P (terminate slave.instance_id dry_run))
      (killed_anyway : P (terminate_ids slave.instance_id dry_run)) where
    ignore_dry_run-Confined :
        (x : Exception) → Confined P (ignore_dry_run oracle request mesos polls dry_run x)
    ignore_dry_run-Confined dry_run_operation = Confined-result (ok true)
    ignore_dry_run-Confined x = Confined-result (raise x)

    terminate_when_safe-Confined :
        (n : ℕ) → Confined P (terminate_when_safe oracle request mesos polls dry_run n slave)
    unfolding terminate_when_safe
    terminate_when_safe-Confined zero = Confined-result (raise timeout)
    terminate_when_safe-Confined (suc n) =
        Confined-if (is_empty slave.instance_id) _ _ (λ no_instance. terminate_when_safe-Confined n)
          (λ some_instance.
            Confined-bind _ _ (Confined-call oracle (is_safe_to_kill slave.hostname) asked)
              (λ is_safe h e.
                Confined-if (is_safe || dry_run) _ _
                  (λ now.
                    Confined-try_except _ _
                      (Confined-call oracle (terminate slave.instance_id dry_run) killed)
                      ignore_dry_run-Confined)
                  (λ later. terminate_when_safe-Confined n)))

    wait_and_terminate-Confined :
        Confined P (wait_and_terminate oracle request mesos polls dry_run slave)
    unfolding wait_and_terminate
    wait_and_terminate-Confined =
        Confined-try_except _ _ (terminate_when_safe-Confined polls) timed_out
      where
        timed_out :
            (x : Exception)
            → Confined P (terminate_anyway oracle request mesos polls dry_run slave x)
        timed_out timeout =
            Confined-try_except _ _
              (Confined-call oracle (terminate_ids slave.instance_id dry_run) killed_anyway)
              ignore_dry_run-Confined
        timed_out x = Confined-result (raise x)

    module _ (unit : ℕ) (resource : Resource) (described : P (describe_request resource.id))
        (drained : P (drain slave.hostname slave.ip))
        (undrained : P (undrain slave.hostname slave.ip)) where
      undrain_slave-Confined :
          Confined P (undrain_slave oracle request mesos polls dry_run unit resource slave)
      unfolding undrain_slave
      undrain_slave-Confined =
          Confined-if dry_run _ _ (λ dry. Confined-result (ok true))
            (λ wet. Confined-call oracle (undrain slave.hostname slave.ip) undrained)

      drain_slave-Confined :
          Confined P (drain_slave oracle request mesos polls dry_run unit resource slave)
      unfolding drain_slave
      drain_slave-Confined =
          Confined-if dry_run _ _ (λ dry. Confined-result (ok true))
            (λ wet. Confined-call oracle (drain slave.hostname slave.ip) drained)

      pub gracefully_terminate_slave-Confined :
          (current new : ℤ)
          → P (modify_request resource.id (whole (floor_div new unit)))
          → P (modify_request resource.id (float current))
          → Confined P (
              gracefully_terminate_slave oracle request mesos polls dry_run unit resource slave
                current new)
      unfolding gracefully_terminate_slave
      gracefully_terminate_slave-Confined current new lowered restored =
          Confined-seq _ _
            (Confined-seq _ _ drain_slave-Confined (
              Confined-try_except _ _
                (set_spot_fleet_request_capacity-Confined resource.id described _ lowered)
                (λ x.
                  Confined-if (is_fail_set x) _ _
                    (λ failed. Confined-seq _ _ undrain_slave-Confined (Confined-result (raise x)))
                    (λ other. Confined-result (raise x)))))
            (Confined-try_finally _ _
              (Confined-try_except _ _ wait_and_terminate-Confined (λ x.
                Confined-if (is_client_error x) _ _
                  (λ refused.
                    set_spot_fleet_request_capacity-Confined resource.id described _ restored)
                  (λ other. Confined-result (raise x))))
              undrain_slave-Confined)
