-- ===== src/Cleanup/Tests.antt =====
-- A clean up of Marathon at concrete inputs.
use paasta.Prelude.{
  nat_eq, text_eq, ◌≡◌, ◌<◌, ◌*◌, length, refl, arith, Text, codes, true, false, List, [], ◌∷◌, ok,
  raise, lock_timeout, lock_held, text_beq, lstrip,
}
use paasta.Effects.{Oracle, call}
use paasta.Effects.Confined.{Confined}
use paasta.Marathon.{App, Effect, list_all_marathon_app_ids}
use paasta.JobId.{
  split, compose_job_id, decompose_job_id, underscores_to_dashes, dashes_to_underscores,
  format_job_id, deformat_job_id,
}
use paasta.Bounce.Locks.{with_lock}
use paasta.Cleanup.{
  running_apps, apps_to_kill, above_kill_threshold, delete_stale_app, delete_each, cleanup_apps,
}
use paasta.Cleanup.Removals.{RemovesStale, cleanup_apps-Confined}

abbrev app : Text → App
app id = record { id = id; tasks = []; instances = 1; health_checks = 0 }

abbrev apps : List App
apps = app (codes "/web.main.g1.c1") ∷ app (codes "/old.main.g1.c1") ∷ []

abbrev valid_services : List (Text × Text)
valid_services = (codes "web", codes "main") ∷ []

abbrev agree : Oracle Effect
agree h e = ok true

cleanup_apps-Confined_example :
    Confined
      (RemovesStale valid_services (running_apps (list_all_marathon_app_ids apps)))
      (cleanup_apps agree 5 valid_services apps 1 2 false)
cleanup_apps-Confined_example = cleanup_apps-Confined agree 5 valid_services apps 1 2 false

all_too_many :
    1 * length (running_apps (list_all_marathon_app_ids apps))
    < length (apps_to_kill [] (running_apps (list_all_marathon_app_ids apps))) * 2
unfolding running_apps apps_to_kill list_all_marathon_app_ids lstrip deformat_job_id
    decompose_job_id dashes_to_underscores split
all_too_many = omega arith

-- A lock that cannot be had.
abbrev locked : Oracle Effect
locked h (Effect.lock name) = raise lock_timeout
locked h e = ok true

-- A held lock ends the clean up, as it is no IOError.
held_lock_ends_cleanup :
    (cleanup_apps locked 5 valid_services apps 1 2 false []).0 ≡ raise lock_held
unfolding cleanup_apps running_apps apps_to_kill above_kill_threshold list_all_marathon_app_ids
    lstrip deformat_job_id decompose_job_id dashes_to_underscores split text_beq delete_each
    format_job_id compose_job_id underscores_to_dashes delete_stale_app with_lock call
held_lock_ends_cleanup = refl
