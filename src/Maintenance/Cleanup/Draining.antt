-- ===== src/Maintenance/Cleanup/Draining.antt =====
-- Two steps of the clean up of paasta_tools/cleanup_maintenance.py, each taken by itself: the one that
-- unreserves hosts and the one that reserves them. The step for forgotten drains is not covered here.
use paasta.Prelude.{
  ◌==◌, nat_eq, text_eq, text_beq, ◌≡◌, refl, sym, ap, ◌∙◌, Text, Bool, true, false, not, none,
  List, [], ◌∷◌, map, contains, diff, set_of, select, all_of, contains-diff, contains-set_of,
  and_parts, Bool-cases, inl, inr, Result, ok, raise, ok_injective, or_right, or_left,
}
use paasta.JobId.{split}
use paasta.JobId.Splitting.{split-none}
use paasta.Effects.{Act, Oracle}
use paasta.Effects.Confined.{Confined, Confined-call, Confined-result, Confined-bind, Confined-seq}
use paasta.Maintenance.{Machine, get_draining_hosts}
use paasta.Maintenance.Schedule.{hostnames_to_components}
use paasta.Maintenance.Reservations.{
  Slave, Request, reserve, unreserve, components_to_hosts, known_slaves, unreserve_each,
  reserve_each, unreserve_all_resources, reserve_all_resources,
}
use paasta.Maintenance.Cleanup.{
  Moment, if_any, non_draining_hosts, unreserve_all_resources_on_non_draining_hosts,
  reserve_all_resources_on_draining_hosts,
}

-- No hostname holds a `|`.
abbrev pub ArePlain : List Text → Type 0
ArePlain hosts = (host : Text) → contains hosts host ≡ true → contains host b'|' ≡ false

hostnames_to_components-plain :
    (hosts : List Text)
    → ArePlain hosts
    → (cs : List Machine) × (hostnames_to_components none hosts ≡ ok cs)
      × (components_to_hosts cs ≡ hosts)
unfolding hostnames_to_components components_to_hosts text_beq
hostnames_to_components-plain [] plain = ([], refl, refl)
hostnames_to_components-plain (host ∷ hosts) plain =
    let (cs, found, names) =
      hostnames_to_components-plain hosts (λ h m. plain h (or_right (h == host) m)) in
    let here : split b'|' host ≡ host ∷ [] =
      split-none b'|' host
        (plain host (or_left (contains hosts host) ((text_eq.beq_iff host host).1 refl))) in
    (record { hostname = host; ip = none } ∷ cs, rw (here, found) refl, ap (λ l. host ∷ l) names)

all_of-select : (p : Slave → Bool) (xs : List Slave) → all_of p (select p xs) ≡ true
all_of-select p [] = refl
all_of-select p (x ∷ xs) = elim (Bool-cases (p x)) [
  | inl kept ↦ rw (kept, kept) (all_of-select p xs)
  | inr gone ↦ rw gone (all_of-select p xs)
]

-- The known slaves of plain hosts are slaves of these hosts.
known_slaves-all_of :
    (state : Result (List Slave)) (hosts : List Text) (ks : List Slave)
    → ArePlain hosts
    → known_slaves state hosts ≡ ok ks
    → all_of (λ s. contains hosts s.hostname) ks ≡ true
unfolding known_slaves
known_slaves-all_of (raise x) hosts ks plain e = cc
known_slaves-all_of (ok slaves) hosts ks plain e =
    let (cs, found, names) = hostnames_to_components-plain hosts plain in
    let chosen : select (λ s. contains (components_to_hosts cs) s.hostname) slaves ≡ ks =
      ok_injective (rw found at e) in
    ap (all_of (λ s. contains hosts s.hostname)) (sym chosen)
    ∙ ap (λ l. all_of (λ s. contains hosts s.hostname) (select (λ s. contains l s.hostname) slaves))
        names
    ∙ all_of-select (λ s. contains hosts s.hostname) slaves

-- An unreservation on a host that passes the test, and a reservation on one.
abbrev pub OnlyUnreserves : (Text → Bool) → Request → Type 0
OnlyUnreserves p (unreserve slave_id resources) =
    (slave : Slave) × (slave_id ≡ slave.id) × (p slave.hostname ≡ true)
OnlyUnreserves p _ = ⊥

abbrev pub OnlyReserves : (Text → Bool) → Request → Type 0
OnlyReserves p (reserve slave_id resources) =
    (slave : Slave) × (slave_id ≡ slave.id) × (p slave.hostname ≡ true)
OnlyReserves p _ = ⊥

module _ (oracle : Oracle Request) (p : Text → Bool) where
  unreserve_each-Confined :
      (slaves : List Slave)
      → all_of (λ s. p s.hostname) slaves ≡ true
      → Confined (OnlyUnreserves p) (unreserve_each oracle slaves)
  unfolding unreserve_each
  unreserve_each-Confined [] every = Confined-result (ok true)
  unreserve_each-Confined (s ∷ slaves) every =
      let (here, rest) = and_parts (p s.hostname) _ every in
      Confined-seq _ _ (Confined-call oracle _ (s, refl, here))
        (unreserve_each-Confined slaves rest)

  reserve_each-Confined :
      (slaves : List Slave)
      → all_of (λ s. p s.hostname) slaves ≡ true
      → Confined (OnlyReserves p) (reserve_each oracle slaves)
  unfolding reserve_each
  reserve_each-Confined [] every = Confined-result (ok true)
  reserve_each-Confined (s ∷ slaves) every =
      let (here, rest) = and_parts (p s.hostname) _ every in
      Confined-seq _ _ (Confined-call oracle _ (s, refl, here)) (reserve_each-Confined slaves rest)

all_of-weaker :
    (p q : Text → Bool) (slaves : List Slave)
    → ((host : Text) → p host ≡ true → q host ≡ true)
    → all_of (λ s. p s.hostname) slaves ≡ true
    → all_of (λ s. q s.hostname) slaves ≡ true
all_of-weaker p q [] weaker every = refl
all_of-weaker p q (s ∷ slaves) weaker every =
    let (here, rest) = and_parts (p s.hostname) _ every in
    rw (weaker s.hostname here) (all_of-weaker p q slaves weaker rest)

if_any-Confined :
    {P : Request → Type 0} (act : List Text → Act Request Bool) (hosts : List Text)
    → Confined P (act hosts)
    → Confined P (if_any act hosts)
if_any-Confined act [] c = Confined-result (ok true)
if_any-Confined act (host ∷ hosts) c = c

module _ (oracle : Oracle Request) (at : Moment) (slaves : List Slave) (draining : List Text) where
  non_draining_hosts-eq :
      at.slaves ≡ ok slaves
      → get_draining_hosts at.status ≡ ok draining
      → non_draining_hosts at ≡ ok (diff (set_of (map (λ s. s.hostname) slaves)) (set_of draining))
  unfolding non_draining_hosts
  non_draining_hosts-eq hs hd = rw (hs, hd) refl

  not_draining :
      (hosts : List Text) (host : Text)
      → contains (diff (set_of hosts) (set_of draining)) host ≡ true
      → (contains hosts host ≡ true) × (not (contains draining host) ≡ true)
  not_draining hosts host m =
      let (one, other) =
        and_parts (contains (set_of hosts) host) (not (contains (set_of draining) host))
          (sym (contains-diff (set_of hosts) (set_of draining) host) ∙ m) in
      (sym (contains-set_of hosts host) ∙ one, ap not (sym (contains-set_of draining host)) ∙ other)

  -- Where no slave's hostname holds a `|`, the clean up takes reservations off slaves of hosts only
  -- that are not draining.
  unreserves_on_non_draining_hosts :
      at.slaves ≡ ok slaves
      → get_draining_hosts at.status ≡ ok draining
      → ArePlain (map (λ s. s.hostname) slaves)
      → Confined
          (OnlyUnreserves (λ host. not (contains draining host)))
          (unreserve_all_resources_on_non_draining_hosts oracle at)
  unfolding unreserve_all_resources_on_non_draining_hosts unreserve_all_resources
  unreserves_on_non_draining_hosts hs hd plain =
      Confined-bind _ _ (Confined-result (non_draining_hosts at)) λ hosts h e.
        let same : hosts ≡ diff (set_of (map (λ s. s.hostname) slaves)) (set_of draining) =
          ok_injective (sym e ∙ non_draining_hosts-eq hs hd) in
        let split_of : (host : Text)
            → contains hosts host ≡ true
            → (contains (map (λ s. s.hostname) slaves) host ≡ true)
              × (not (contains draining host) ≡ true) =
          λ host m. not_draining _ host (ap (λ l. contains l host) (sym same) ∙ m) in
        if_any-Confined (unreserve_all_resources oracle at.state) hosts (
          Confined-bind _ _ (Confined-result (known_slaves at.state hosts)) λ ks h' e'.
            unreserve_each-Confined oracle _ ks (
              all_of-weaker (contains hosts) _ ks (λ host m. (split_of host m).1)
                (known_slaves-all_of at.state hosts ks (λ host m. plain host (split_of host m).0)
                  e')))

  -- Where no draining host's name holds a `|`, the clean up reserves on slaves of draining hosts
  -- only.
  reserves_on_draining_hosts :
      get_draining_hosts at.status ≡ ok draining
      → ArePlain draining
      → Confined
          (OnlyReserves (contains draining))
          (reserve_all_resources_on_draining_hosts oracle at)
  unfolding reserve_all_resources_on_draining_hosts reserve_all_resources
  reserves_on_draining_hosts hd plain =
      Confined-bind _ _ (Confined-result (get_draining_hosts at.status)) λ hosts h e.
        let same : hosts ≡ draining = ok_injective (sym e ∙ hd) in
        if_any-Confined (reserve_all_resources oracle at.state) hosts (
          Confined-bind _ _ (Confined-result (known_slaves at.state hosts)) λ ks h' e'.
            reserve_each-Confined oracle _ ks (
              all_of-weaker (contains hosts) _ ks
                (λ host m. ap (λ l. contains l host) (sym same) ∙ m)
                (known_slaves-all_of at.state hosts ks
                  (λ host m. plain host (ap (λ l. contains l host) (sym same) ∙ m)) e')))
