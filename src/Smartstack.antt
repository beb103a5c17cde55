-- ===== src/Smartstack.antt =====
-- paasta_tools/smartstack_tools.py, with what it calls of mesos_tools.py: how many instances of a
-- service the haproxies of a cluster send requests to, at each location. The haproxy of a host, which
-- retrieve_haproxy_csv reads, is a parameter.
use paasta.Prelude.{
  ℕ, length, Text, text_eq, codes, starts_with, ◌==◌, Bool, true, false, ◌&&◌, ◌||◌, not, Option,
  none, some, List, [], ◌∷◌, map, select, contains, all_of, lookup, get_or, sort_by, Result, ok,
  raise, index_error, no_slaves_available, ◌>>=◌,
}
use paasta.Metastatus.{Slave, by_key, group_by}

-- A line of haproxy's table of servers.
pub record Backend : Type 0 where
  pub pxname : Text
  pub svname : Text
  pub status : Text

abbrev pub is_at : Text → Option Text → Bool
is_at location none = false
is_at location (some v) = v == location

unfoldable pub slave_passes_blacklist : Slave → List (Text × Text) → Bool
unfolding lookup
slave_passes_blacklist slave blacklist =
    all_of (λ (b : Text × Text). not (is_at b.1 (lookup b.0 slave.attributes))) blacklist

-- With the whitelist empty, as here.
unfoldable pub filter_mesos_slaves_by_blacklist : List Slave → List (Text × Text) → List Slave
unfolding slave_passes_blacklist
filter_mesos_slaves_by_blacklist slaves blacklist =
    select (λ s. slave_passes_blacklist s blacklist) slaves

-- `if key`
abbrev pub named : Text × List Slave → Bool
named ([], hosts) = false
named (c ∷ k, hosts) = true

-- A missing attribute counts as an empty one: both sort first, and both groups are left out.
unfoldable pub get_mesos_slaves_grouped_by_attribute :
    List Slave → (attribute : Text) → List (Text × List Slave)
unfolding get_or
get_mesos_slaves_grouped_by_attribute slaves attribute =
    select named (
      group_by (sort_by by_key (map (λ (s : Slave). (get_or attribute [] s.attributes, s)) slaves)))

unfoldable pub backend_is_up : Backend → Bool
unfolding starts_with
backend_is_up backend = starts_with backend.status (codes "UP")

abbrev pub is_fictional : Backend → Bool
is_fictional b = b.svname == codes "FRONTEND" || b.svname == codes "BACKEND"

unfoldable pub get_multiple_backends : (services : List Text) → List Backend → List Backend
get_multiple_backends services reader =
    select (λ (b : Backend). contains services b.pxname && not (is_fictional b)) reader

-- How many of the backends of each service are up.
unfoldable pub get_replication_for_services :
    (services : List Text) → List Backend → List (Text × ℕ)
unfolding get_multiple_backends backend_is_up
get_replication_for_services services reader =
    let up = select backend_is_up (get_multiple_backends services reader) in
    map (λ sn. (sn, length (select (λ (b : Backend). b.pxname == sn) up))) services

abbrev pub first_host : List Slave → Result Text
first_host [] = raise index_error
first_host (s ∷ slaves) = ok s.hostname

module _ (haproxy : (synapse_host : Text) → Result (List Backend)) where
  -- The replication that the first host of each location sees.
  unfoldable pub replication_by_location :
      (full_name : Text) → List (Text × List Slave) → Result (List (Text × List (Text × ℕ)))
  unfolding get_replication_for_services
  replication_by_location full_name [] = ok []
  replication_by_location full_name ((value, hosts) ∷ groups) =
      let rest = replication_by_location full_name groups in
      (do
        synapse_host ← first_host hosts
        reader ← haproxy synapse_host
        others ← rest
        ok ((value, get_replication_for_services (full_name ∷ []) reader) ∷ others))

  abbrev pub replication_on :
      (full_name attribute : Text) → List Slave → Result (List (Text × List (Text × ℕ)))
  unfolding get_mesos_slaves_grouped_by_attribute replication_by_location
  replication_on full_name attribute [] = raise no_slaves_available
  replication_on full_name attribute (s ∷ slaves) =
      replication_by_location full_name
        (get_mesos_slaves_grouped_by_attribute (s ∷ slaves) attribute)

  unfoldable pub get_smartstack_replication_for_attribute :
      (attribute full_name : Text) (blacklist : List (Text × Text))
      → (get_slaves : Result (List Slave)) → Result (List (Text × List (Text × ℕ)))
  unfolding filter_mesos_slaves_by_blacklist get_mesos_slaves_grouped_by_attribute
      replication_by_location
  get_smartstack_replication_for_attribute attribute full_name blacklist get_slaves =
      get_slaves >>= λ slaves.
      replication_on full_name attribute (filter_mesos_slaves_by_blacklist slaves blacklist)
