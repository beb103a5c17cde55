-- ===== src/Maintenance/Reservations.antt =====
-- The requests of mesos_maintenance.py that change Mesos: reserve_all_resources,
-- unreserve_all_resources, drain, undrain, down and up.
-- What a step reads of Mesos is a parameter. A request is an effect whose answer or exception the
-- oracle gives. Amounts are whole numbers of a smallest unit. An HTTPError is raised again as one,
-- with another text, so those handlers are left out.
pub mod Totals
use paasta.Prelude.{
  ℤ, pos, minus, ℕ, suc, nat_eq, text_eq, text_beq, ◌+◌, ◌-◌, leb, Text, Bool, true, false, Option,
  none, some, List, [], ◌∷◌, ◌++◌, map, contains, select, Result, ok, raise, ◌>>=◌, if◌then◌else◌,
}
use paasta.Effects.{Act, Oracle, call, pure, throw, and_then, ◌>>=◌ as ◌>>>=◌}
use paasta.Maintenance.{Machine, Window, Schedule}
use paasta.Maintenance.Schedule.{
  hostnames_to_components, get_machine_ids, build_drain_payload, build_undrain_payload,
}

pub record Amounts : Type 0 where
  pub disk : ℕ
  pub mem : ℕ
  pub cpus : ℕ

pub data Kind : Type 0 where
  disk mem cpus : Kind

abbrev pub amount : Kind → Amounts → ℕ
amount disk a = a.disk
amount mem a = a.mem
amount cpus a = a.cpus

-- A slave of Mesos' state, with what each role has reserved on it.
pub record Slave : Type 0 where
  pub id : Text
  pub hostname : Text
  pub resources : Amounts
  pub used_resources : Amounts
  pub reserved_resources : List (Text × Amounts)

pub record Resource : Type 0 where
  pub name : Kind
  pub amount : ℤ

pub data Request : Type 0 where
  reserve unreserve : (slave_id : Text) → List Resource → Request
  post_schedule : List Window → Request
  machine_down machine_up : List Machine → Request

unfoldable pub components_to_hosts : List Machine → List Text
components_to_hosts components = map (λ c. c.hostname) components

abbrev pub minus_reserved : Kind → ℤ → List (Text × Amounts) → ℤ
minus_reserved kind free [] = free
minus_reserved kind free ((role, reserved) ∷ roles) =
    minus_reserved kind (minus free (amount kind reserved)) roles

-- The total, less what is used and what each role has reserved.
unfoldable pub free_resource : Slave → Kind → ℤ
free_resource slave kind =
    minus_reserved kind
      (minus (pos (amount kind slave.resources)) (amount kind slave.used_resources))
      slave.reserved_resources

abbrev pub free_resources : Slave → List Resource
free_resources slave =
    map (λ kind. record { name = kind; amount = free_resource slave kind }) (disk ∷ mem ∷ cpus ∷ [])

-- What each role has reserved, role by role.
unfoldable pub reserved_amounts : List (Text × Amounts) → List Resource
reserved_amounts [] = []
reserved_amounts ((role, reserved) ∷ roles) =
    map (λ kind. record { name = kind; amount = pos (amount kind reserved) })
      (disk ∷ mem ∷ cpus ∷ [])
    ++ reserved_amounts roles

-- The slaves of the hosts.
unfoldable pub known_slaves : Result (List Slave) → List Text → Result (List Slave)
unfolding hostnames_to_components components_to_hosts
known_slaves state hostnames = do
  slaves ← state
  components ← hostnames_to_components none hostnames
  ok (select (λ slave. contains (components_to_hosts components) slave.hostname) slaves)

abbrev pub returned {ℓ} : {A : Type ℓ} → Result A → List Request → Result A × List Request
returned r h = (r, h)

module _ (oracle : Oracle Request) where
  unfoldable pub reserve_each : List Slave → Act Request Bool
  unfolding call free_resource
  reserve_each [] = pure true
  reserve_each (slave ∷ slaves) =
      call oracle (reserve slave.id (free_resources slave)) >>>= λ _. reserve_each slaves

  unfoldable pub unreserve_each : List Slave → Act Request Bool
  unfolding call reserved_amounts
  unreserve_each [] = pure true
  unreserve_each (slave ∷ slaves) =
      call oracle (unreserve slave.id (reserved_amounts slave.reserved_resources)) >>>= λ _.
      unreserve_each slaves

  unfoldable pub reserve_all_resources : Result (List Slave) → List Text → Act Request Bool
  unfolding known_slaves
  reserve_all_resources state hostnames =
      returned (known_slaves state hostnames) >>>= λ slaves. reserve_each slaves

  unfoldable pub unreserve_all_resources : Result (List Slave) → List Text → Act Request Bool
  unfolding known_slaves
  unreserve_all_resources state hostnames =
      returned (known_slaves state hostnames) >>>= λ slaves. unreserve_each slaves

  module _ (resolve : Text → Result Text) (state : Result (List Slave))
      (schedule : Result Schedule) where
    unfoldable pub drain_hosts : List Text → (start duration : ℕ) → Act Request Bool
    unfolding call build_drain_payload
    drain_hosts hostnames start duration = reserve_all_resources state hostnames >>>= λ _.
        returned (build_drain_payload resolve schedule hostnames start duration) >>>= λ windows.
        call oracle (post_schedule windows)

    unfoldable pub undrain_hosts : List Text → Act Request Bool
    unfolding call build_undrain_payload
    undrain_hosts hostnames = unreserve_all_resources state hostnames >>>= λ _.
        returned (build_undrain_payload resolve schedule hostnames) >>>= λ windows.
        call oracle (post_schedule windows)

  unfoldable pub down : (resolve : Text → Result Text) → List Text → Act Request Bool
  unfolding call get_machine_ids
  down resolve hostnames =
      returned (get_machine_ids resolve hostnames) >>>= λ ids. call oracle (machine_down ids)

  unfoldable pub up : (resolve : Text → Result Text) → List Text → Act Request Bool
  unfolding call get_machine_ids
  up resolve hostnames =
      returned (get_machine_ids resolve hostnames) >>>= λ ids. call oracle (machine_up ids)
