-- ===== src/Cleanup/Removals.antt =====
-- What a clean up of Marathon removes.
use paasta.Prelude.{
  ℕ, text_eq, ◌≡◌, refl, ap, ◌∙◌, Text, Bool, true, false, not, none, List, [], ◌∷◌, Bool-cases,
  inl, inr, Exception, io_error, dont_kill_everything, ok, raise,
}
use paasta.Effects.{Oracle}
use paasta.Effects.Confined.{
  Confined, Confined-result, Confined-if, Confined-bind, Confined-seq, Confined-try_except,
}
use paasta.Marathon.{
  App, Effect, scale_app, delete_app, start_zookeeper, lock, unlock, stop_zookeeper, app_running,
  list_all_marathon_app_ids,
}
use paasta.JobId.{JobParts, spacer, compose_job_id, format_job_id, deformat_job_id}
use paasta.Bounce.Locks.{with_lock, delete_marathon_app}
use paasta.Bounce.Locks.Confined.{AllowsLocks, Confined-with_lock, Confined-delete_marathon_app}
use paasta.Cleanup.{
  lifted, running_apps, is_valid, apps_to_kill, skip_io_error, delete_stale_app, delete_each,
  cleanup_apps,
}

-- The job is one of the list.
pub data Among (parts : JobParts) : List JobParts → Type 0 where
  here : {p : JobParts} {rest : List JobParts} → parts ≡ p → Among parts (p ∷ rest)
  later : {p : JobParts} {rest : List JobParts} → Among parts rest → Among parts (p ∷ rest)

-- The id is that of a running job whose service and instance are not configured.
pub record IsStale (valid_services : List (Text × Text)) (running : List JobParts) (app_id : Text)
    : Type 0 where
  pub parts : JobParts
  pub runs : Among parts running
  pub not_valid : is_valid valid_services parts ≡ false
  pub named : format_job_id parts.0 parts.1 parts.2 parts.3 ≡ ok app_id

-- The calls of a clean up: it scales to 0 and deletes stale apps only.
abbrev pub RemovesStale : List (Text × Text) → List JobParts → Effect → Type 0
RemovesStale valid running (scale_app app_id n) = IsStale valid running app_id × (n ≡ 0)
RemovesStale valid running (delete_app app_id) = IsStale valid running app_id
RemovesStale valid running (start_zookeeper name) = Unit {0}
RemovesStale valid running (lock name) = Unit {0}
RemovesStale valid running (unlock name) = Unit {0}
RemovesStale valid running (stop_zookeeper name) = Unit {0}
RemovesStale valid running (app_running app) = Unit {0}
RemovesStale valid running _ = ⊥

not-true : (b : Bool) → not b ≡ true → b ≡ false
not-true true h = cc
not-true false h = refl

-- Every job that is to be killed runs and is not configured.
Among-apps_to_kill :
    (valid : List (Text × Text)) (running : List JobParts) (parts : JobParts)
    → Among parts (apps_to_kill valid running)
    → Among parts running × (is_valid valid parts ≡ false)
unfolding apps_to_kill
Among-apps_to_kill valid [] parts m = elim m [ ]
Among-apps_to_kill valid (p ∷ running) parts m = elim (Bool-cases (is_valid valid p)) [
  | inl valid_one ↦
      let (found, stale) = Among-apps_to_kill valid running parts (rw valid_one at m) in
      (later found, stale)
  | inr stale ↦ found stale (rw stale at m) (Among-apps_to_kill valid running parts)
]
  where
    found :
        is_valid valid p ≡ false
        → Among parts (p ∷ apps_to_kill valid running)
        → (Among parts (apps_to_kill valid running)
            → Among parts running × (is_valid valid parts ≡ false))
        → Among parts (p ∷ running) × (is_valid valid parts ≡ false)
    found stale (here same) ih = (here same, ap (is_valid valid) same ∙ stale)
    found stale (later m') ih = let (f, s) = ih m' in (later f, s)

module _ (oracle : Oracle Effect) (polls : ℕ) (valid : List (Text × Text))
    (running : List JobParts) where
  allows : AllowsLocks (RemovesStale valid running)
  allows = record {
    starts = λ name. tt;
    locks = λ name. tt;
    unlocks = λ name. tt;
    stops = λ name. tt;
    looks = λ app. tt;
  }

  delete_stale_app-Confined :
      (app_id : Text)
      → IsStale valid running app_id
      → Confined (RemovesStale valid running) (delete_stale_app oracle polls app_id)
  unfolding delete_stale_app
  delete_stale_app-Confined app_id stale =
      Confined-bind _ _ (Confined-result (deformat_job_id app_id)) λ parts h e.
        Confined-try_except _ _
          (Confined-bind (lifted (compose_job_id parts.0 parts.1 none none spacer))
            (λ short. with_lock oracle short (delete_marathon_app oracle polls app_id))
            (Confined-result (compose_job_id parts.0 parts.1 none none spacer))
            λ short h' e'. Confined-with_lock oracle (RemovesStale valid running) allows short _ (
              Confined-delete_marathon_app oracle (RemovesStale valid running) allows polls app_id
                (stale, refl) stale))
          skipped
    where
      skipped :
          (x : Exception) → Confined (RemovesStale valid running) (skip_io_error oracle polls x)
      skipped io_error = Confined-result (ok true)
      skipped x = Confined-result (raise x)

  delete_each-Confined :
      (apps : List JobParts)
      → ((parts : JobParts)
          → Among parts apps
          → Among parts running × (is_valid valid parts ≡ false))
      → Confined (RemovesStale valid running) (delete_each oracle polls apps)
  unfolding delete_each
  delete_each-Confined [] stale = Confined-result (ok true)
  delete_each-Confined (parts ∷ apps) stale =
      let (runs, not_valid) = stale parts (here refl) in
      Confined-seq _ _
        (Confined-bind _ _ (Confined-result (format_job_id parts.0 parts.1 parts.2 parts.3))
          λ app_id h e.
            delete_stale_app-Confined app_id
              (record { parts = parts; runs = runs; not_valid = not_valid; named = e }))
        (delete_each-Confined apps (λ p m. stale p (later m)))

-- Whatever the other systems answer or raise, a clean up scales down and deletes apps only that run
-- under the id of a job whose service and instance are not configured.
pub cleanup_apps-Confined :
    (oracle : Oracle Effect) (polls : ℕ) (valid : List (Text × Text)) (apps : List App)
    (num den : ℕ) (force : Bool)
    → Confined
        (RemovesStale valid (running_apps (list_all_marathon_app_ids apps)))
        (cleanup_apps oracle polls valid apps num den force)
unfolding cleanup_apps
cleanup_apps-Confined oracle polls valid apps num den force =
    Confined-if _ _ _ (λ too_many. Confined-result (raise dont_kill_everything))
      λ few.
        delete_each-Confined oracle polls valid (running_apps (list_all_marathon_app_ids apps)) _
          (Among-apps_to_kill valid (running_apps (list_all_marathon_app_ids apps)))
