-- ===== src/Maintenance/Tests.antt =====
-- Maintenance at concrete inputs.
use paasta.Prelude.{
  ap, ℕ, nat_eq, text_eq, text_beq, ◌==◌, ◌≡◌, ◌≤◌, refl, arith, Text, codes, true, none, some,
  List, [], ◌∷◌, contains, set_of, add, Result, ok, Bool-cases, inl, inr,
}
use paasta.JobId.{split}
use paasta.Effects.{Oracle}
use paasta.Maintenance.{
  Machine, Window, Schedule, Status, nested, get_draining_hosts, get_hosts_with_state,
  get_hosts_past_maintenance_start, get_hosts_past_maintenance_end, get_hosts_forgotten_draining,
  intersection, windows_of,
}
use paasta.Maintenance.Schedule.{
  machine_eq, get_machine_ids, hostnames_to_components, get_elem?, set_elem, remove, purge_ids,
  purge_windows, purge_schedule, build_drain_payload, build_undrain_payload,
}
use paasta.Maintenance.Schedule.Kept.{bookings, others, undrain_keeps_others}
use paasta.Maintenance.Schedule.Undrained.{times_booked}
use paasta.Maintenance.Reservations.{
  Amounts, Slave, Request, known_slaves, components_to_hosts, reserve_each, reserve_all_resources,
  drain_hosts,
}
use paasta.Maintenance.Cleanup.{Moment}
use paasta.Maintenance.Cleanup.Draining.{ArePlain}

abbrev resolve : Text → Result Text
resolve host = ok (b'1' ∷ host)

abbrev machine : Text → Machine
machine host = record { hostname = host; ip = some (b'1' ∷ host) }

abbrev old_window : Window
old_window = record {
  machine_ids = machine (codes "a") ∷ machine (codes "b") ∷ machine (codes "c") ∷ [];
  start = 10;
  duration = 5;
}

abbrev schedule : Schedule
schedule = some (old_window ∷ [])

abbrev without_a : List Window
without_a =
    record {
      machine_ids = machine (codes "b") ∷ machine (codes "c") ∷ [];
      start = 10;
      duration = 5;
    }
    ∷ []

undrain_a : build_undrain_payload resolve (ok schedule) (codes "a" ∷ []) ≡ ok without_a
unfolding build_undrain_payload get_machine_ids hostnames_to_components split purge_schedule
    purge_windows purge_ids get_elem? set_elem remove text_beq
undrain_a = refl

machine_a : get_machine_ids resolve (codes "a" ∷ []) ≡ ok (machine (codes "a") ∷ [])
unfolding get_machine_ids hostnames_to_components split
machine_a = refl

-- Of two adjacent machines that are undrained, the second keeps its window.
undrain_skips_b :
    build_undrain_payload resolve (ok schedule) (codes "a" ∷ codes "b" ∷ []) ≡ ok without_a
unfolding build_undrain_payload get_machine_ids hostnames_to_components split purge_schedule
    purge_windows purge_ids get_elem? set_elem remove text_beq
undrain_skips_b = refl

undrain_keeps_others_example :
    bookings (others (machine (codes "a") ∷ [])) without_a
    ≡ bookings (others (machine (codes "a") ∷ [])) (windows_of schedule)
undrain_keeps_others_example =
    undrain_keeps_others resolve schedule (codes "a" ∷ []) (machine (codes "a") ∷ []) without_a
      machine_a undrain_a

a_booked_once : times_booked (machine (codes "a")) (windows_of schedule) ≤ 1
unfolding text_beq
a_booked_once = omega arith

abbrev status : Status
status = record { draining_machines = ok (some (nested (codes "a") ∷ [])); down_machines = ok none }

past_end_100 :
    get_hosts_past_maintenance_end (ok (some without_a)) 100 10 ≡ ok (codes "b" ∷ codes "c" ∷ [])
unfolding get_hosts_past_maintenance_end
past_end_100 = refl

forgotten_a : get_hosts_forgotten_draining status (ok schedule) 100 10 ≡ ok (codes "a" ∷ [])
unfolding get_hosts_forgotten_draining get_draining_hosts get_hosts_with_state
    get_hosts_past_maintenance_start intersection set_of add text_beq
forgotten_a = refl

abbrev amounts : ℕ → Amounts
amounts n = record { disk = n; mem = n; cpus = n }

abbrev slave : Slave
slave = record {
  id = codes "s1";
  hostname = codes "a";
  resources = amounts 8;
  used_resources = amounts 3;
  reserved_resources = (codes "maintenance", amounts 2) ∷ [];
}

abbrev agree : Oracle Request
agree h r = ok true

drain_a :
    (drain_hosts agree resolve (ok (slave ∷ [])) (ok schedule) (codes "a" ∷ []) 20 3 []).0 ≡ ok true
unfolding drain_hosts reserve_all_resources reserve_each known_slaves components_to_hosts
    build_drain_payload get_machine_ids hostnames_to_components split text_beq
drain_a = refl

abbrev moment : Moment
moment = record {
  status = status;
  schedule = ok schedule;
  state = ok (slave ∷ []);
  slaves = ok (slave ∷ []);
  now = 100;
}

a_draining : get_draining_hosts status ≡ ok (codes "a" ∷ [])
unfolding get_draining_hosts get_hosts_with_state
a_draining = refl

a_is_plain : ArePlain (codes "a" ∷ [])
a_is_plain host m = elim (Bool-cases (host == codes "a")) [
  | inl same ↦ ap (λ s. contains s b'|') ((text_eq.beq_iff host (codes "a")).0 same)
  | inr other ↦ cc (rw other at m)
]
