-- ===== src/Replication/Tests.antt =====
-- The replication check on small inputs.
use paasta.Prelude.{
  ℕ, ◌+◌, ◌*◌, ◌-◌, ◌≤◌, ◌<◌, ◌≡◌, ◌≢◌, ◌⊎◌, refl, Text, codes, true, false, none, some, List, [],
  ◌∷◌, ◌++◌, length, ok, if◌then◌else◌, ◌==◌, text_eq, text_beq, arith,
}
use paasta.Metastatus.{Slave, no_resources}
use paasta.Smartstack.{Backend, get_smartstack_replication_for_attribute}
use paasta.Replication.{
  Environment, Monitored, check_healthy_marathon_tasks_for_service_instance,
  check_service_replication, check_smartstack_replication_for_instance, main, smartstack_critical,
}
use paasta.Replication.Alerts.{
  at_location, available, check_smartstack_misses_few, smartstack_critical_shares,
}
use paasta.Replication.Names.{check_healthy_marathon_tasks_misses, renamed}

abbrev slave_in : Text → Text → Slave
slave_in region host = record {
  id = host;
  pid = [];
  hostname = host;
  attributes = (codes "region", region) ∷ [];
  resources = no_resources;
  reserved_resources = [];
}

abbrev backend : Text → Text → Backend
backend svname status = record { pxname = codes "web.main"; svname = svname; status = status }

abbrev env : Environment
env = record {
  slaves = ok (
      slave_in (codes "west") (codes "a")
      ∷ slave_in (codes "east") (codes "b")
      ∷ slave_in [] (codes "c")
      ∷ []);
  haproxy = λ host.
      if host == codes "a"
      then ok (
          backend (codes "BACKEND") (codes "UP")
          ∷ backend (codes "x") (codes "UP 1/2")
          ∷ backend (codes "y") (codes "DOWN")
          ∷ [])
      else ok [];
  tasks = ok (
      record { app_id = codes "/web.main2.g.c"; started_at = some 10; alive = [] }
      ∷ record { app_id = codes "/web.main.g.c"; started_at = some 100; alive = true ∷ [] }
      ∷ []);
  now = 150;
  send = λ name critical. ok true;
}

abbrev web : Monitored
web = record {
  service = codes "web";
  instance_name = codes "main";
  configs = ok (codes "main", ok 4) ∷ ok (codes "other", ok 7) ∷ [];
  registration = ok (codes "web.main");
  proxy_port = ok (some 20000);
  replication_threshold = none;
  monitoring_blacklist = [];
  discover = codes "region";
}

abbrev info : List (Text × List (Text × ℕ))
info = (codes "east", (codes "web.main", 0) ∷ []) ∷ (codes "west", (codes "web.main", 1) ∷ []) ∷ []

loaded :
    get_smartstack_replication_for_attribute env.haproxy
      (codes "region")
      (codes "web.main")
      []
      env.slaves
    ≡ ok info
unfolding get_smartstack_replication_for_attribute text_beq
loaded = refl

alerts : check_service_replication env web ≡ ok (some true)
unfolding check_service_replication text_beq
alerts = refl

main_ends : main env (web ∷ web ∷ []) ≡ ok (some true ∷ some true ∷ [])
unfolding main text_beq
main_ends = refl

smartstack_critical_shares_example :
    (smartstack_critical (codes "web.main") 4 50 info ≡ false
      → 50 * 4 ≤ 100 * available (codes "web.main") info + 50 * (length info - 1))
    × (smartstack_critical (codes "web.main") 4 50 info ≡ true
        → (info ≡ [])
          ⊎ ((before after : List (Text × List (Text × ℕ))) × (l : Text × List (Text × ℕ)) × (info
                ≡ before ++ l ∷ after)
              × (100 * at_location (codes "web.main") l * length info < 50 * 4)))
smartstack_critical_shares_example =
    smartstack_critical_shares (codes "web.main") 4 50 info (omega arith)

check_smartstack_misses_few_example :
    check_smartstack_replication_for_instance env web 1 ≢ ok (some true)
check_smartstack_misses_few_example =
    check_smartstack_misses_few env web 1 loaded (omega arith) (omega arith)

well :
    check_healthy_marathon_tasks_for_service_instance env (renamed web (codes "main2")) 1
    ≡ ok (some false)
unfolding check_healthy_marathon_tasks_for_service_instance text_beq
well = refl

check_healthy_marathon_tasks_misses_example :
    check_healthy_marathon_tasks_for_service_instance env web 1 ≢ ok (some true)
check_healthy_marathon_tasks_misses_example =
    check_healthy_marathon_tasks_misses env web (codes "2") 1 well
