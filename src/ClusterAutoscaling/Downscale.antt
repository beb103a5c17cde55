-- ===== src/ClusterAutoscaling/Downscale.antt =====
-- Scaling of a spot fleet request: set_spot_fleet_request_capacity, wait_and_terminate,
-- gracefully_terminate_slave, downscale_spot_fleet_request and scale_aws_spot_fleet_request of
-- autoscaling_cluster_lib.py. The times of a maintenance window are left out.
pub mod Undrained
pub mod Calls
pub mod Modest
pub mod Ends
use paasta.Prelude.{
  ℕ, zero, suc, ◌+◌, ◌-◌, ◌*◌, ◌/◌, ltb, length, nat_beq, ℤ, pos, negsuc, minus, Text, text_eq,
  ◌==◌, Bool, true, false, ◌&&◌, ◌||◌, not, Option, none, some, List, [], ◌∷◌, map, Exception,
  http_error, timeout, type_error, client_error, request_not_found, instance_not_found,
  dry_run_operation, fail_set_spot_capacity, Result, ok, raise, if◌then◌else◌,
}
use mathlib.Core.List.{reverse}
use paasta.Effects.{
  Act, Oracle, call, pure, throw, try_except, try_finally, caught, and_then, ◌>>=◌, ◌>>◌,
}
use paasta.Metastatus.{Slave}
use paasta.ClusterAutoscaling.{
  Resource, Sfr, SfrState, active, cancelled_running, InstanceDescription,
}
use paasta.ClusterAutoscaling.Slaves.{
  Candidate, RunningTask, SlaveTaskCount, filter_sfr_slaves, sort_slaves_to_kill,
  task_count_by_pool, task_count_by_slave,
}

-- A capacity as AWS is asked for it: a whole number, or a float in units.
pub data Amount : Type 0 where
  whole : ℤ → Amount
  float : ℤ → Amount

pub data Call : Type 0 where
  drain undrain : (hostname ip : Text) → Call
  describe_request : (id : Text) → Call
  modify_request : (id : Text) → Amount → Call
  is_safe_to_kill : (hostname : Text) → Call
  terminate : (instance_id : Text) → (dry_run : Bool) → Call
  -- The id is passed as the list of ids.
  terminate_ids : (instance_id : Text) → (dry_run : Bool) → Call
  state_summary describe_instances : Call
  describe_fleet find_config remove_config : (id : Text) → Call

-- floor(c)
abbrev pub floor_div : ℤ → ℕ → ℤ
floor_div (pos a) unit = pos (a / unit)
floor_div (negsuc a) unit = negsuc (a / unit)

-- capacity < target, for a target of whole instances
abbrev pub is_below : (unit : ℕ) → ℤ → (target_capacity : ℕ) → Bool
is_below unit (pos a) target_capacity = ltb a (target_capacity * unit)
is_below unit (negsuc a) target_capacity = true

abbrev pub is_client_error : Exception → Bool
is_client_error client_error = true
is_client_error request_not_found = true
is_client_error instance_not_found = true
is_client_error dry_run_operation = true
is_client_error e = false

abbrev pub is_fail_set : Exception → Bool
is_fail_set fail_set_spot_capacity = true
is_fail_set e = false

abbrev pub is_active : SfrState → Bool
is_active active = true
is_active s = false

abbrev pub is_cancelled_running : SfrState → Bool
is_cancelled_running cancelled_running = true
is_cancelled_running s = false

abbrev pub is_empty : Text → Bool
is_empty [] = true
is_empty (c ∷ t) = false

-- An answer that is more than a truth value.
abbrev pub ask : {A : Type 0} → (List Call → Result A) → Call → Act Call A
ask answer c h = (answer h, c ∷ h)

abbrev pub lifted : {A : Type 0} → Result A → Act Call A
lifted r h = (r, h)

-- An exception as a value.
abbrev pub attempt : {A : Type 0} → Act Call A → Act Call (Result A)
attempt m h = let (result, after) = m h in (ok result, after)

-- What AWS and Mesos answer. `polls` is how often a state is looked at before the alarm rings.
module _ (oracle : Oracle Call) (request : List Call → Result Sfr)
    (mesos : List Call → Result (List Slave × List RunningTask)) (polls : ℕ) (dry_run : Bool) where
  abbrev pub not_found : Exception → Act Call (Option Sfr)
  not_found request_not_found = pure none
  not_found e = throw e

  -- None where the request does not exist.
  unfoldable pub get_sfr : Text → Act Call (Option Sfr)
  get_sfr id = try_except (ask request (describe_request id) >>= λ sfr. pure (some sfr)) not_found

  abbrev pub state_of : Option Sfr → Act Call SfrState
  state_of none = throw type_error
  state_of (some sfr) = pure sfr.state

  -- Whether the request is active; it is not if it is cancelled and running.
  unfoldable pub wait_for_active : ℕ → Text → Act Call Bool
  unfolding get_sfr
  wait_for_active zero id = throw timeout
  wait_for_active (suc n) id =
      let again = wait_for_active n id in
      get_sfr id >>= state_of >>= λ state.
      if is_active state
      then pure true
      else if is_cancelled_running state
      then pure false
      else again

  abbrev pub fail_on_timeout : Exception → Act Call Bool
  fail_on_timeout timeout = throw fail_set_spot_capacity
  fail_on_timeout e = throw e

  abbrev pub fail_on_client_error : Exception → Act Call Bool
  fail_on_client_error e = if is_client_error e then throw fail_set_spot_capacity else throw e

  unfoldable pub set_spot_fleet_request_capacity : Text → Amount → Act Call Bool
  unfolding wait_for_active call
  set_spot_fleet_request_capacity id capacity =
      try_except (wait_for_active polls id) fail_on_timeout >>= λ is_active.
      if not is_active || dry_run
      then pure true
      else try_except (call oracle (modify_request id capacity)) fail_on_client_error

  abbrev pub ignore_dry_run : Exception → Act Call Bool
  ignore_dry_run dry_run_operation = pure true
  ignore_dry_run e = throw e

  -- The loop of wait_and_terminate.
  unfoldable pub terminate_when_safe : ℕ → Candidate → Act Call Bool
  unfolding call
  terminate_when_safe zero slave = throw timeout
  terminate_when_safe (suc n) slave =
      let again = terminate_when_safe n slave in
      if is_empty slave.instance_id
      then again
      else (call oracle (is_safe_to_kill slave.hostname) >>= λ is_safe.
          if is_safe || dry_run
          then try_except (call oracle (terminate slave.instance_id dry_run)) ignore_dry_run
          else again)

  abbrev pub terminate_anyway : Candidate → Exception → Act Call Bool
  unfolding call
  terminate_anyway slave timeout =
      try_except (call oracle (terminate_ids slave.instance_id dry_run)) ignore_dry_run
  terminate_anyway slave e = throw e

  unfoldable pub wait_and_terminate : Candidate → Act Call Bool
  unfolding terminate_when_safe call terminate_anyway
  wait_and_terminate slave = try_except (terminate_when_safe polls slave) (terminate_anyway slave)

  module _ (unit : ℕ) (resource : Resource) where
    unfoldable pub drain_slave : Candidate → Act Call Bool
    unfolding call
    drain_slave slave = if dry_run then pure true else call oracle (drain slave.hostname slave.ip)

    unfoldable pub undrain_slave : Candidate → Act Call Bool
    unfolding call
    undrain_slave slave =
        if dry_run then pure true else call oracle (undrain slave.hostname slave.ip)

    abbrev pub undrain_if_failed : Candidate → Exception → Act Call Bool
    undrain_if_failed slave e = if is_fail_set e then undrain_slave slave >> throw e else throw e

    abbrev pub restore_on_client_error : ℤ → Exception → Act Call Bool
    restore_on_client_error current_capacity e =
        if is_client_error e
        then set_spot_fleet_request_capacity resource.id (float current_capacity)
        else throw e

    unfoldable pub gracefully_terminate_slave :
        Candidate → (current_capacity new_capacity : ℤ) → Act Call Bool
    unfolding drain_slave undrain_slave set_spot_fleet_request_capacity wait_and_terminate
    gracefully_terminate_slave slave current_capacity new_capacity =
        drain_slave slave
        >> try_except
            (set_spot_fleet_request_capacity resource.id (whole (floor_div new_capacity unit)))
            (undrain_if_failed slave)
        >> try_finally
            (try_except (wait_and_terminate slave) (restore_on_client_error current_capacity))
            (undrain_slave slave)

    -- get_mesos_task_count_by_slave with the state read before it
    abbrev pub recounted : List Candidate → Act Call (List Candidate)
    recounted slaves = ask mesos state_summary >>= λ state.
        lifted (task_count_by_slave (map (λ (s : Slave). s.id) state.0) state.1 slaves)

    -- After an attempt: `again` on a HTTPError, out of the loop on FailSetSpotCapacity.
    abbrev pub after_attempt : Result Bool → (again next : Act Call Bool) → Act Call Bool
    after_attempt (ok b) again next = next
    after_attempt (raise http_error) again next = again
    after_attempt (raise fail_set_spot_capacity) again next = pure true
    after_attempt (raise e) again next = throw e

    -- The loop, for so many rounds; false where the rounds are used up.
    unfoldable pub downscale_spot_fleet_request :
        (rounds : ℕ) (target_capacity killed_slaves : ℕ) (current_capacity : ℤ)
        → List Candidate
        → Act Call Bool
    unfolding gracefully_terminate_slave sort_slaves_to_kill
    downscale_spot_fleet_request zero target killed current slaves = pure false
    downscale_spot_fleet_request (suc n) target killed current slaves =
        elim (sort_slaves_to_kill slaves) [
          | [] ↦ pure true
          | s ∷ rest ↦
              let new_capacity = minus current s.instance_weight in
              let again = downscale_spot_fleet_request n target killed current slaves in
              if is_below unit new_capacity target && not (nat_beq killed 0)
              then pure true
              else (attempt (gracefully_terminate_slave s current new_capacity) >>= λ result.
                  after_attempt result again (
                    recounted (reverse rest) >>= λ slaves'.
                    downscale_spot_fleet_request n target (suc killed) new_capacity slaves'))
        ]

    -- The sum of the weights.
    abbrev pub killable_capacity : List Candidate → ℕ
    killable_capacity [] = 0
    killable_capacity (s ∷ slaves) = s.instance_weight + killable_capacity slaves

    -- The addresses and weights of the request's instances, and their descriptions.
    module _
        (instances : List Call
          → Result (List Text × List (Text × ℕ) × Option (List InstanceDescription))) where
      unfoldable pub slaves_to_choose_from : Act Call (List Candidate)
      unfolding task_count_by_pool filter_sfr_slaves
      slaves_to_choose_from = ask mesos state_summary >>= λ state.
          ask instances describe_instances
          >>= λ (found : List Text × List (Text × ℕ) × Option (List InstanceDescription)). lifted (
              filter_sfr_slaves found.0 found.1 found.2
                (task_count_by_pool resource.pool state.0 state.1))

      -- The current capacity is in units, the target in whole instances.
      unfoldable pub scale_aws_spot_fleet_request : (rounds current target : ℕ) → Act Call Bool
      unfolding slaves_to_choose_from downscale_spot_fleet_request set_spot_fleet_request_capacity
      scale_aws_spot_fleet_request rounds current target =
          if nat_beq (target * unit) current
          then pure true
          else if ltb current (target * unit)
          then set_spot_fleet_request_capacity resource.id (whole (pos target))
          else (slaves_to_choose_from >>= λ filtered_slaves.
              if ltb (killable_capacity filtered_slaves) (current - target * unit)
              then pure true
              else downscale_spot_fleet_request rounds target 0 (pos current) filtered_slaves)
