-- ===== src/Maintenance/Schedule.antt =====
-- build_maintenance_schedule_payload of mesos_maintenance.py, and the helpers it calls. DNS is a
-- parameter.
-- The code removes from the lists that its loops iterate over. An iterator of a Python list is an
-- index that ends at the length of the moment, so the loops here carry the index and the list. The
-- fuel is the length at the start: the index grows by one a step and no list grows.
pub mod Indexing
pub mod Kept
pub mod Undrained
use paasta.Prelude.{
  ℕ, zero, suc, nat_eq, text_eq, text_beq, text_beq_iff, nat_beq_iff, ◌≡◌, ◌↔◌, refl, ap, ◌+◌, Eq,
  ◌==◌, Text, Bool, true, false, ◌&&◌, not, Option, none, some, List, [], ◌∷◌, ◌++◌, contains,
  length, nat_beq, Bool-cases, inl, inr, arith, and_parts, Result, ok, raise, value_error, ◌>>=◌,
  if◌then◌else◌,
}
use paasta.JobId.{split}
use paasta.Maintenance.{Machine, Window, Schedule}

-- Dicts of the JSON are equal where their values are.
abbrev pub ip_beq : Option Text → Option Text → Bool
ip_beq none none = true
ip_beq (some a) (some b) = text_beq a b
ip_beq _ _ = false

abbrev pub machine_beq : Machine → Machine → Bool
machine_beq m n = text_beq m.hostname n.hostname && ip_beq m.ip n.ip

abbrev pub machines_beq : List Machine → List Machine → Bool
machines_beq [] [] = true
machines_beq (m ∷ ms) (n ∷ ns) = machine_beq m n && machines_beq ms ns
machines_beq _ _ = false

abbrev pub window_beq : Window → Window → Bool
window_beq v w =
    machines_beq v.machine_ids w.machine_ids
    && (nat_beq v.start w.start && nat_beq v.duration w.duration)

ip_beq_iff : (a b : Option Text) → (ip_beq a b ≡ true) ↔ (a ≡ b)
ip_beq_iff none none = ground arith
ip_beq_iff (some a) (some b) = ground (arith, text_beq_iff a b)
ip_beq_iff none (some b) = ground arith
ip_beq_iff (some a) none = ground arith

pub machine_beq_iff : (m n : Machine) → (machine_beq m n ≡ true) ↔ (m ≡ n)
machine_beq_iff m n = ground (arith, text_beq_iff m.hostname n.hostname, ip_beq_iff m.ip n.ip)

machines_beq_iff : (ms ns : List Machine) → (machines_beq ms ns ≡ true) ↔ (ms ≡ ns)
machines_beq_iff [] [] = ground arith
machines_beq_iff (m ∷ ms) (n ∷ ns) = ground (arith, machine_beq_iff m n, machines_beq_iff ms ns)
machines_beq_iff [] (n ∷ ns) = ground arith
machines_beq_iff (m ∷ ms) [] = ground arith

pub window_beq_iff : (v w : Window) → (window_beq v w ≡ true) ↔ (v ≡ w)
window_beq_iff v w = ground (arith, machines_beq_iff v.machine_ids w.machine_ids)

instance abbrev pub machine_eq : Eq Machine
machine_eq = record { beq = machine_beq; beq_iff = machine_beq_iff }

instance abbrev pub window_eq : Eq Window
window_eq = record { beq = window_beq; beq_iff = window_beq_iff }

-- A 'host' or 'host|ip' entry; without a `|` the ip is what DNS says, if asked.
abbrev component : Option (Text → Result Text) → Text → List Text → Result Machine
component resolve entry (host ∷ ip ∷ []) = ok (record { hostname = host; ip = some ip })
component none entry (host ∷ []) = ok (record { hostname = entry; ip = none })
component (some resolve) entry (host ∷ []) = do
  ip ← resolve entry
  ok (record { hostname = entry; ip = some ip })
component resolve entry _ = raise value_error

unfoldable pub hostnames_to_components :
    Option (Text → Result Text) → List Text → Result (List Machine)
unfolding split
hostnames_to_components resolve [] = ok []
hostnames_to_components resolve (entry ∷ entries) = do
  c ← component resolve entry (split b'|' entry)
  cs ← hostnames_to_components resolve entries
  ok (c ∷ cs)

-- A component and a machine id have the same two entries.
unfoldable pub get_machine_ids : (resolve : Text → Result Text) → List Text → Result (List Machine)
unfolding hostnames_to_components
get_machine_ids resolve hostnames = hostnames_to_components (some resolve) hostnames

module _ {ℓ} {A : Type ℓ} where
  -- xs[i], for an i of the list
  unfoldable pub get_elem? : ℕ → List A → Option A
  get_elem? i [] = none
  get_elem? zero (x ∷ xs) = some x
  get_elem? (suc i) (x ∷ xs) = get_elem? i xs

  -- xs[i] = a
  unfoldable pub set_elem : ℕ → A → List A → List A
  set_elem i a [] = []
  set_elem zero a (x ∷ xs) = a ∷ xs
  set_elem (suc i) a (x ∷ xs) = x ∷ set_elem i a xs

-- xs.remove(a), for an a of the list: the first that equals it
unfoldable pub remove {ℓ} : {A : Type ℓ} ⦃e : Eq A⦄ → A → List A → List A
remove a [] = []
remove a (x ∷ xs) = if x == a then xs else x ∷ remove a xs

-- The inner loop, over the machine ids of one window, from an index on.
unfoldable pub purge_ids : (machine_ids : List Machine) → (fuel i : ℕ) → List Machine → List Machine
unfolding get_elem? remove
purge_ids machine_ids zero i ids = ids
purge_ids machine_ids (suc fuel) i ids = elim (get_elem? i ids) [
  | none ↦ ids
  | some m ↦
      purge_ids machine_ids fuel (suc i) (if contains machine_ids m then remove m ids else ids)
]

-- The window as it is after the inner loop.
abbrev pub purged : (machine_ids : List Machine) → Window → Window
purged machine_ids w = record w {
  machine_ids = purge_ids machine_ids (length w.machine_ids) zero w.machine_ids;
}

-- A window is removed once its list of ids is emptied, which also ends the inner loop.
abbrev pub emptied : (before after : List Machine) → Bool
emptied (m ∷ ms) [] = true
emptied before after = false

abbrev pub drop_emptied : (before after : Window) → List Window → List Window
drop_emptied before after ws =
    if emptied before.machine_ids after.machine_ids then remove after ws else ws

-- The outer loop, over the windows, from an index on.
unfoldable pub purge_windows :
    (machine_ids : List Machine) → (fuel i : ℕ) → List Window → List Window
unfolding get_elem? set_elem purge_ids remove
purge_windows machine_ids zero i ws = ws
purge_windows machine_ids (suc fuel) i ws = elim (get_elem? i ws) [
  | none ↦ ws
  | some w ↦
      purge_windows machine_ids fuel (suc i)
        (drop_emptied w (purged machine_ids w) (set_elem i (purged machine_ids w) ws))
]

unfoldable pub purge_schedule : (machine_ids : List Machine) → Schedule → List Window
unfolding purge_windows
purge_schedule machine_ids none = []
purge_schedule machine_ids (some ws) = purge_windows machine_ids (length ws) zero ws

-- build_maintenance_schedule_payload with drain=True, from the start on and for the duration, and
-- with drain=False. The result is the value of 'windows'.
module _ (resolve : Text → Result Text) (schedule : Result Schedule) (hosts : List Text) where
  unfoldable pub build_drain_payload : (start duration : ℕ) → Result (List Window)
  unfolding get_machine_ids purge_schedule
  build_drain_payload start duration = do
    s ← schedule
    ids ← get_machine_ids resolve hosts
    ok (
        purge_schedule ids s
        ++ record { machine_ids = ids; start = start; duration = duration } ∷ [])

  unfoldable pub build_undrain_payload : Result (List Window)
  unfolding get_machine_ids purge_schedule
  build_undrain_payload = do
    s ← schedule
    ids ← get_machine_ids resolve hosts
    ok (purge_schedule ids s)
