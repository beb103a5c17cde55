-- ===== src/ClusterAutoscaling/Downscale/Ends.antt =====
-- The rounds of downscale_spot_fleet_request after a HTTPError.
use paasta.Prelude.{
  ℕ, zero, suc, ◌≡◌, refl, sym, ap, ◌∙◌, ℤ, minus, Bool, true, false, ◌&&◌, List, ◌∷◌, all_of,
  http_error, Result, ok, raise, sort_by-IsSorted, IsOrder, length, length-sort_by, all_of-sort_by,
  arith,
}
use paasta.Effects.{Oracle, call}
use paasta.Metastatus.{Slave}
use paasta.ClusterAutoscaling.{Resource, Sfr}
use paasta.ClusterAutoscaling.Slaves.{Candidate, RunningTask, kill_first, sort_slaves_to_kill}
use paasta.ClusterAutoscaling.Downscale.{
  Call, downscale_spot_fleet_request, drain, drain_slave, gracefully_terminate_slave, is_below,
}

-- The history after so many times the same call.
abbrev pub repeated : ℕ → Call → List Call → List Call
repeated zero c h = h
repeated (suc n) c h = repeated n c (c ∷ h)

module _ (oracle : Oracle Call) (request : List Call → Result Sfr)
    (mesos : List Call → Result (List Slave × List RunningTask)) (polls unit : ℕ)
    (resource : Resource) where
  -- Where the slave to kill first can never be drained, a downscale tries it in each round, and does
  -- nothing else: it neither ends nor goes on to the next slave.
  pub downscale_retries_one_slave :
      (rounds target : ℕ) (current : ℤ) (slaves rest : List Candidate) (s : Candidate)
      (h : List Call)
      → sort_slaves_to_kill slaves ≡ s ∷ rest
      → ((h' : List Call) → oracle h' (drain s.hostname s.ip) ≡ raise http_error)
      → downscale_spot_fleet_request oracle request mesos polls false unit resource rounds target 0
          current slaves h
        ≡ (ok false, repeated rounds (drain s.hostname s.ip) h)
  unfolding downscale_spot_fleet_request gracefully_terminate_slave drain_slave call
  downscale_retries_one_slave zero target current slaves rest s h sorted fails = refl
  downscale_retries_one_slave (suc n) target current slaves rest s h sorted fails =
      rw
        (
          sorted,
          downscale_spot_fleet_request,
          and_false (is_below unit (minus current s.instance_weight) target),
          fails h,
        )
        (downscale_retries_one_slave n target current slaves rest s (drain s.hostname s.ip ∷ h)
          sorted fails)
    where
      and_false : (b : Bool) → (b && false) ≡ false
      and_false b = ground arith

kill_first-IsOrder : IsOrder kill_first
kill_first-IsOrder = record { total = λ x y h. total x y h; trans = λ x y z p q. trans x y z p q }
  where
    total : (x y : Candidate) → kill_first x y ≡ false → kill_first y x ≡ true
    total x y h = ground arith

    trans :
        (x y z : Candidate) → kill_first x y ≡ true → kill_first y z ≡ true → kill_first x z ≡ true
    trans x y z p q = ground arith

-- No slave to choose from stands before the one that is killed first, and all others are still to choose
-- from.
pub sort_slaves_to_kill-Least :
    (slaves rest : List Candidate) (s : Candidate)
    → sort_slaves_to_kill slaves ≡ s ∷ rest
    → (all_of (kill_first s) slaves ≡ true) × (suc (length rest) ≡ length slaves)
unfolding sort_slaves_to_kill
sort_slaves_to_kill-Least slaves rest s sorted =
    let (below, s_sorted) = rw sorted at (sort_by-IsSorted kill_first-IsOrder slaves) in
    (
      sym (all_of-sort_by kill_first (kill_first s) slaves)
          ∙ ap (all_of (kill_first s)) sorted
          ∙ rw (reflexive s, below) refl,
      sym (ap length sorted) ∙ length-sort_by kill_first slaves,
    )
  where
    reflexive : (x : Candidate) → kill_first x x ≡ true
    reflexive x = ground arith
