-- ===== src/Maintenance.antt =====
-- paasta_tools/mesos_maintenance.py and paasta_tools/cleanup_maintenance.py: hosts that are drained
-- or taken down for maintenance, and the windows in which that happens. Here: what Mesos reports, and
-- which hosts it says are draining, down, past a window's start or end, or forgotten.
-- An answer of Mesos is a parameter, an HTTPError or the decoded JSON. Log lines are left out.
pub mod Schedule
pub mod Hosts
pub mod Reservations
pub mod Cleanup
pub mod Tests
use paasta.Prelude.{
  ℕ, nat_eq, text_eq, text_beq, ◌+◌, ◌-◌, ◌*◌, ◌==◌, Text, Bool, true, false, ◌&&◌, ◌||◌, Option,
  none, some, List, [], ◌∷◌, ◌++◌, map, contains, select, set_of, nat_beq, ltb, Result, ok, raise,
  key_error, index_error, ◌>>=◌, if◌then◌else◌,
}

-- A machine id of the schedule.
pub record Machine : Type 0 where
  pub hostname : Text
  pub ip : Option Text

-- A window, with its times in nanoseconds.
pub record Window : Type 0 where
  pub machine_ids : List Machine
  pub start : ℕ
  pub duration : ℕ

-- The schedule that Mesos returns: the empty dict, or one with windows.
abbrev pub Schedule : Type 0
Schedule = Option (List Window)

-- A machine of a maintenance status: its hostname under 'id', or directly.
pub data Listed : Type 0 where
  nested flat : Text → Listed

-- machine['id']['hostname'], and machine['hostname']
abbrev nested_name : Listed → Result Text
nested_name (nested h) = ok h
nested_name (flat h) = raise key_error

abbrev flat_name : Listed → Result Text
flat_name (nested h) = raise key_error
flat_name (flat h) = ok h

abbrev names_by : (Listed → Result Text) → List Listed → Result (List Text)
names_by name [] = ok []
names_by name (machine ∷ machines) = do h ← name machine; hs ← names_by name machines; ok (h ∷ hs)

-- For the machines of the state, none where the status is empty or lacks the state. The first
-- machine says how all are listed; a state with an empty list raises.
unfoldable pub get_hosts_with_state : Result (Option (List Listed)) → Result (List Text)
get_hosts_with_state (raise e) = raise e
get_hosts_with_state (ok none) = ok []
get_hosts_with_state (ok (some [])) = raise index_error
get_hosts_with_state (ok (some (nested h ∷ machines))) = names_by nested_name (nested h ∷ machines)
get_hosts_with_state (ok (some (flat h ∷ machines))) = names_by flat_name (flat h ∷ machines)

-- What the status reports: its draining and its down machines.
pub record Status : Type 0 where
  pub draining_machines : Result (Option (List Listed))
  pub down_machines : Result (Option (List Listed))

unfoldable pub get_draining_hosts : Status → Result (List Text)
unfolding get_hosts_with_state
get_draining_hosts status = get_hosts_with_state status.draining_machines

unfoldable pub get_down_hosts : Status → Result (List Text)
unfolding get_hosts_with_state
get_down_hosts status = get_hosts_with_state status.down_machines

unfoldable pub is_host_draining : Status → Text → Result Bool
is_host_draining status hostname = do
  hosts ← get_draining_hosts status
  ok (contains hosts hostname)

unfoldable pub is_host_down : Status → Text → Result Bool
is_host_down status hostname = do hosts ← get_down_hosts status; ok (contains hosts hostname)

unfoldable pub seconds_to_nanoseconds : ℕ → ℕ
seconds_to_nanoseconds seconds = seconds * 1000000000

abbrev pub hostnames : Window → List Text
hostnames w = map (λ m. m.hostname) w.machine_ids

-- The hosts of the windows that pass the test, window by window.
abbrev pub hosts_where : (Window → Bool) → List Window → List Text
hosts_where p [] = []
hosts_where p (w ∷ ws) = if p w then hostnames w ++ hosts_where p ws else hosts_where p ws

abbrev pub has_started : (current_time : ℕ) → Window → Bool
has_started current_time w = ltb w.start current_time

abbrev pub has_ended : (current_time : ℕ) → Window → Bool
has_ended current_time w = ltb (w.start + w.duration) current_time

abbrev pub windows_of : Schedule → List Window
windows_of none = []
windows_of (some ws) = ws

-- A clock before the grace leaves a negative time in the code, and 0 here: no window starts before
-- either.
unfoldable pub get_hosts_past_maintenance_start :
    Result Schedule → (now grace : ℕ) → Result (List Text)
get_hosts_past_maintenance_start schedule now grace = do
  s ← schedule
  ok (hosts_where (has_started (now - grace)) (windows_of s))

unfoldable pub get_hosts_past_maintenance_end :
    Result Schedule → (now grace : ℕ) → Result (List Text)
get_hosts_past_maintenance_end schedule now grace = do
  s ← schedule
  ok (hosts_where (has_ended (now - grace)) (windows_of s))

-- list(set(xs).intersection(ys))
unfoldable pub intersection : List Text → List Text → List Text
intersection xs ys = select (contains ys) (set_of xs)

unfoldable pub get_hosts_forgotten_draining :
    Status → Result Schedule → (now grace : ℕ) → Result (List Text)
unfolding get_draining_hosts get_hosts_past_maintenance_start intersection
get_hosts_forgotten_draining status schedule now grace = do
  draining_hosts ← get_draining_hosts status
  past ← get_hosts_past_maintenance_start schedule now grace
  ok (intersection draining_hosts past)

unfoldable pub get_hosts_forgotten_down :
    Status → Result Schedule → (now grace : ℕ) → Result (List Text)
unfolding get_down_hosts get_hosts_past_maintenance_end intersection
get_hosts_forgotten_down status schedule now grace = do
  down_hosts ← get_down_hosts status
  past ← get_hosts_past_maintenance_end schedule now grace
  ok (intersection down_hosts past)

-- The number of tasks that run on the host is a parameter. It is asked for only where the host is
-- draining.
unfoldable pub is_host_drained : Status → Result ℕ → Text → Result Bool
unfolding is_host_draining
is_host_drained status running hostname = do
  draining ← is_host_draining status hostname
  if draining then (do n ← running; ok (nat_beq n 0)) else ok false

unfoldable pub is_host_past_maintenance_start : Result Schedule → (now : ℕ) → Text → Result Bool
unfolding get_hosts_past_maintenance_start
is_host_past_maintenance_start schedule now hostname = do
  hosts ← get_hosts_past_maintenance_start schedule now 0
  ok (contains hosts hostname)

unfoldable pub is_host_past_maintenance_end : Result Schedule → (now : ℕ) → Text → Result Bool
unfolding get_hosts_past_maintenance_end
is_host_past_maintenance_end schedule now hostname = do
  hosts ← get_hosts_past_maintenance_end schedule now 0
  ok (contains hosts hostname)

-- is_safe_to_kill of paasta_tools/paasta_maintenance.py
unfoldable pub is_safe_to_kill :
    Status → Result ℕ → Result Schedule → (now : ℕ) → Text → Result Bool
unfolding is_host_drained is_host_past_maintenance_start
is_safe_to_kill status running schedule now hostname = do
  drained ← is_host_drained status running hostname
  if drained then ok true else is_host_past_maintenance_start schedule now hostname
