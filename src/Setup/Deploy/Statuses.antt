-- ===== src/Setup/Deploy/Statuses.antt =====
-- The statuses that deploy_service returns, and the exceptions that leave it.
use paasta.Prelude.{
  ℕ, nat_eq, text_eq, ◌≡◌, ◌≢◌, ◌↔◌, refl, String, Bool, Option, some, none, List, ◌∷◌, Result, ok,
  raise, lock_held, ok_injective, arith,
}
use paasta.Effects.{Oracle, pure, caught, Outcome, Outcome-bind, Outcome-if}
use mathlib.Core.Path.{subst}
use paasta.Marathon.{App, Effect, get_matching_apps}
use paasta.Setup.{lift}
use paasta.Setup.States.{get_tasks_by_state}
use paasta.Bounce.Locks.{with_lock}
use paasta.Bounce.{HealthEnv, Method}
use paasta.Setup.Deploy.{
  Message, deployed, already_bounced, unknown_bounce_method, unknown_drain_method, Request, Status,
  Scaled, no_docker_image, prepare_new_app, deploy_service, setup_service, bounce_under_lock,
  deploy_prepared, deploy_with_drain_method, deploy_apps, already_being_bounced,
}

-- A status is 0 exactly where the message says that the service is deployed.
abbrev pub IsConsistent : Status → Type 0
IsConsistent (n, m) = (n ≡ 0) ↔ (m ≡ deployed)

not_held :
    (r : Result Status) (h : List Effect) → (caught r already_being_bounced h).0 ≢ raise lock_held
not_held (ok st) h = λ e. cc
not_held (raise lock_held) h = λ e. cc
not_held (raise x) h = λ e. cc

IsConsistent-deployed : IsConsistent (0, deployed)
IsConsistent-deployed = (λ e. refl, λ e. refl)

IsConsistent-failed : (m : Message) → m ≢ deployed → IsConsistent (1, m)
IsConsistent-failed m h = (λ e. absurd (omega arith), λ e. absurd (h e))

caught-IsConsistent :
    (r : Result Status) (h : List Effect) (st : Status)
    → ((a : Status) → r ≡ ok a → IsConsistent a)
    → (caught r already_being_bounced h).0 ≡ ok st
    → IsConsistent st
caught-IsConsistent (ok a) h st c e = c st e
caught-IsConsistent (raise lock_held) h st c e =
    subst IsConsistent (ok_injective e) (IsConsistent-failed already_bounced (λ x. cc))
caught-IsConsistent (raise x) h st c e = cc

module _ (oracle : Oracle Effect) (env : HealthEnv) (draining_hosts : List String) (polls : ℕ) where
  -- A bounce whose lock is held by another, or that meets a held lock while it creates an app, is
  -- reported with status 1: no LockHeldException leaves it.
  bounce_under_lock_catches :
      (method : Option Method) (req : Request) (running : Bool) (scaled : Scaled) (h : List Effect)
      → (bounce_under_lock oracle env draining_hosts polls method req running scaled h).0
        ≢ raise lock_held
  unfolding bounce_under_lock
  bounce_under_lock_catches none req running scaled h = λ e. cc
  bounce_under_lock_catches (some method) req running scaled h = not_held _ _

  bounce_under_lock-IsConsistent :
      (method : Option Method) (req : Request) (running : Bool) (scaled : Scaled)
      → Outcome IsConsistent
          (bounce_under_lock oracle env draining_hosts polls method req running scaled)
  unfolding bounce_under_lock
  bounce_under_lock-IsConsistent none req running scaled h st e =
      subst IsConsistent (ok_injective e) (IsConsistent-failed unknown_bounce_method (λ x. cc))
  bounce_under_lock-IsConsistent (some method) req running scaled h st e =
      caught-IsConsistent _ _ st
        (λ a first.
          Outcome-bind IsConsistent (with_lock oracle req.short_id _) (λ _. pure (0, deployed))
            (λ b h' x same. subst IsConsistent (ok_injective same) IsConsistent-deployed) h a first)
        e

  deploy_prepared-IsConsistent :
      (new_app other_apps : List App) (req : Request)
      → Outcome IsConsistent
          (deploy_prepared oracle env draining_hosts polls new_app other_apps req)
  unfolding deploy_prepared
  deploy_prepared-IsConsistent new_app other_apps req =
      Outcome-bind IsConsistent (get_tasks_by_state oracle env draining_hosts other_apps) _ λ old.
        Outcome-bind IsConsistent
          (prepare_new_app oracle env draining_hosts new_app req.instances old) _
          λ prepared. bounce_under_lock-IsConsistent _ req prepared.0 prepared.1

  deploy_apps-IsConsistent :
      (new_app other_apps : List App) (req : Request)
      → Outcome IsConsistent (deploy_apps oracle env draining_hosts polls new_app other_apps req)
  unfolding deploy_apps deploy_with_drain_method
  deploy_apps-IsConsistent (app ∷ another ∷ more) other_apps req = λ h st e. cc
  deploy_apps-IsConsistent new_app other_apps req =
      Outcome-if IsConsistent req.drain_method_known _ _
        (deploy_prepared-IsConsistent _ other_apps req)
        (λ h st e.
          subst IsConsistent (ok_injective e) (IsConsistent-failed unknown_drain_method (λ x. cc)))

  setup_service-IsConsistent :
      (req : Option Request)
      → Outcome IsConsistent (setup_service oracle env draining_hosts polls req)
  unfolding setup_service deploy_service
  setup_service-IsConsistent none =
      λ h st e. subst IsConsistent (ok_injective e) (IsConsistent-failed no_docker_image (λ x. cc))
  setup_service-IsConsistent (some req) =
      Outcome-bind IsConsistent
        (lift (get_matching_apps req.service req.instance_name req.marathon_apps)) _
        λ apps. deploy_apps-IsConsistent _ _ req

-- Where a deployment returns, its status is 0 exactly where its message is that of success.
setup_service_status :
    (oracle : Oracle Effect) (env : HealthEnv) (draining_hosts : List String) (polls : ℕ)
    (req : Option Request) (h : List Effect) (st : Status)
    → (setup_service oracle env draining_hosts polls req h).0 ≡ ok st
    → (st.0 ≡ 0) ↔ (st.1 ≡ deployed)
setup_service_status oracle env draining_hosts polls req h st e =
    setup_service-IsConsistent oracle env draining_hosts polls req h st e
