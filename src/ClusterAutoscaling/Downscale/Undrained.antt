-- ===== src/ClusterAutoscaling/Downscale/Undrained.antt =====
-- The calls of gracefully_terminate_slave once a slave is drained.
use paasta.Prelude.{
  ℕ, ◌≡◌, refl, ◌⊎◌, inl, inr, ℤ, Bool, false, Option, none, some, List, [], ◌∷◌, Exception, Result,
  ok, raise, Bool-cases, Result-cases,
}
use paasta.Effects.{Act, Oracle, call, try_except, try_finally, ◌>>◌}
use paasta.Metastatus.{Slave}
use paasta.ClusterAutoscaling.{Resource, Sfr}
use paasta.ClusterAutoscaling.Slaves.{Candidate, RunningTask}
use paasta.ClusterAutoscaling.Downscale.{
  Call, drain, undrain, whole, floor_div, drain_slave, gracefully_terminate_slave, is_fail_set,
  restore_on_client_error, set_spot_fleet_request_capacity, undrain_if_failed, undrain_slave,
  wait_and_terminate,
}

abbrev pub latest : List Call → Option Call
latest [] = none
latest (c ∷ h) = some c

module _ (oracle : Oracle Call) (request : List Call → Result Sfr)
    (mesos : List Call → Result (List Slave × List RunningTask)) (polls : ℕ) (unit : ℕ)
    (resource : Resource) (slave : Candidate) where
  abbrev pub undrain_it : Call
  undrain_it = undrain slave.hostname slave.ip

  -- What the action raised, with no call after it.
  abbrev pub Escapes : Act Call Bool → List Call → Act Call Bool → Type 0
  Escapes m h whole_action =
      (e : Exception) × ((m h).0 ≡ raise e)
      × (is_fail_set e ≡ false)
      × (whole_action h ≡ (raise e, (m h).1))

  abbrev guarded : Act Call Bool → Act Call Bool → Act Call Bool
  guarded m body =
      try_except m (undrain_if_failed oracle request mesos polls false unit resource slave)
      >> try_finally body (undrain_slave oracle request mesos polls false unit resource slave)

  guarded-undrains :
      (m body : Act Call Bool) (h : List Call)
      → Escapes m h (guarded m body) ⊎ (latest (guarded m body h).1 ≡ some undrain_it)
  unfolding undrain_slave call
  guarded-undrains m body h = elim (Result-cases (m h).0) [
    | inl (b, returned) ↦ inr (rw returned refl)
    | inr (e, raised) ↦ elim (Bool-cases (is_fail_set e)) [
      | inl failed ↦ elim (Result-cases (oracle (m h).1 undrain_it)) [
        | inl (b, answered) ↦ inr (rw (raised, failed, answered) refl)
        | inr (x, failing) ↦ inr (rw (raised, failed, failing) refl)
      ]
      | inr other ↦ inl (e, raised, other, rw (raised, other) refl)
    ]
  ]

  -- Once a slave is drained, and not in a dry run, the last call is to undrain it, whether the slave was
  -- terminated or not, unless setting the capacity raises anything but FailSetSpotCapacity: that is
  -- raised with no further call.
  pub gracefully_terminate_slave-undrains :
      (current_capacity new_capacity : ℤ) (h : List Call) (b : Bool)
      → oracle h (drain slave.hostname slave.ip) ≡ ok b
      → let set =
          set_spot_fleet_request_capacity oracle request mesos polls false resource.id
            (whole (floor_div new_capacity unit)) in
        let done =
          gracefully_terminate_slave oracle request mesos polls false unit resource slave
            current_capacity new_capacity h in
        let drained = drain slave.hostname slave.ip ∷ h in
        ((e : Exception) × ((set drained).0 ≡ raise e)
          × (is_fail_set e ≡ false)
          × (done ≡ (raise e, (set drained).1)))
        ⊎ (latest done.1 ≡ some undrain_it)
  unfolding gracefully_terminate_slave drain_slave call
  gracefully_terminate_slave-undrains current new h b answered = rw answered (
      guarded-undrains
        (set_spot_fleet_request_capacity oracle request mesos polls false resource.id
          (whole (floor_div new unit)))
        (try_except (wait_and_terminate oracle request mesos polls false slave)
          (restore_on_client_error oracle request mesos polls false unit resource current))
        (drain slave.hostname slave.ip ∷ h))
