-- ===== src/Maintenance/Cleanup.antt =====
-- paasta_tools/cleanup_maintenance.py: what is left over of maintenance is cleaned up. Each step reads
-- Mesos anew, so each has a moment of its own.
pub mod Draining
use paasta.Prelude.{
  ℕ, nat_eq, text_eq, Text, Bool, true, false, List, [], ◌∷◌, map, diff, set_of, Result, ok, raise,
  ◌>>=◌,
}
use paasta.Effects.{Act, Oracle, pure, throw, and_then, ◌>>=◌ as ◌>>>=◌, ◌>>◌}
use paasta.Maintenance.{
  Schedule, Status, get_draining_hosts, get_hosts_forgotten_draining, get_hosts_forgotten_down,
  seconds_to_nanoseconds,
}
use paasta.Maintenance.Reservations.{
  Slave, Request, returned, undrain_hosts, up, reserve_all_resources, unreserve_all_resources,
}

-- What a step reads: the maintenance status and schedule, the slaves of Mesos' state (for
-- reservations and for get_slaves) and the clock.
pub record Moment : Type 0 where
  pub status : Status
  pub schedule : Result Schedule
  pub state : Result (List Slave)
  pub slaves : Result (List Slave)
  pub now : ℕ

-- `if hosts: act(hosts)`
abbrev pub if_any : (List Text → Act Request Bool) → List Text → Act Request Bool
if_any act [] = pure true
if_any act (host ∷ hosts) = act (host ∷ hosts)

-- list(set(hostnames) - set(draining_hosts))
unfoldable pub non_draining_hosts : Moment → Result (List Text)
unfolding get_draining_hosts diff set_of
non_draining_hosts at = do
  slaves ← at.slaves
  draining ← get_draining_hosts at.status
  ok (diff (set_of (map (λ slave. slave.hostname) slaves)) (set_of draining))

module _ (oracle : Oracle Request) (resolve : Text → Result Text) where
  unfoldable pub cleanup_forgotten_draining : Moment → Act Request Bool
  unfolding get_hosts_forgotten_draining seconds_to_nanoseconds
  cleanup_forgotten_draining at =
      returned
        (get_hosts_forgotten_draining at.status at.schedule at.now (seconds_to_nanoseconds 600))
      >>>= λ hosts. if_any (undrain_hosts oracle resolve at.state at.schedule) hosts

  unfoldable pub cleanup_forgotten_down : Moment → Act Request Bool
  unfolding get_hosts_forgotten_down seconds_to_nanoseconds
  cleanup_forgotten_down at =
      returned (get_hosts_forgotten_down at.status at.schedule at.now (seconds_to_nanoseconds 600))
      >>>= λ hosts. if_any (up oracle resolve) hosts

module _ (oracle : Oracle Request) where
  unfoldable pub unreserve_all_resources_on_non_draining_hosts : Moment → Act Request Bool
  unfolding non_draining_hosts
  unreserve_all_resources_on_non_draining_hosts at = returned (non_draining_hosts at) >>>= λ hosts.
      if_any (unreserve_all_resources oracle at.state) hosts

  unfoldable pub reserve_all_resources_on_draining_hosts : Moment → Act Request Bool
  unfolding get_draining_hosts
  reserve_all_resources_on_draining_hosts at = returned (get_draining_hosts at.status) >>>= λ hosts.
      if_any (reserve_all_resources oracle at.state) hosts

-- main, whose result is None
unfoldable pub cleanup :
    (oracle : Oracle Request) (resolve : Text → Result Text) (first second third fourth : Moment)
    → Act Request Bool
cleanup oracle resolve first second third fourth =
    cleanup_forgotten_draining oracle resolve first
    >> cleanup_forgotten_down oracle resolve second
    >> unreserve_all_resources_on_non_draining_hosts oracle third
    >> reserve_all_resources_on_draining_hosts oracle fourth
