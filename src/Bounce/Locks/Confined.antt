-- ===== src/Bounce/Locks/Confined.antt =====
-- What the calls under a lock are confined to.
use paasta.Prelude.{ℕ, zero, suc, Text, Bool, true, false, ok, Exception, lock_timeout}
use paasta.Effects.{Act, Oracle, pure}
use paasta.Effects.Confined.{
  Confined, Confined-call, Confined-result, Confined-if, Confined-bind, Confined-seq,
  Confined-try_except, Confined-try_finally,
}
use paasta.Marathon.{
  Effect, start_zookeeper, lock, unlock, stop_zookeeper, app_running, create_app, delete_app,
  scale_app,
}
use paasta.Bounce.Locks.{
  same, with_lock, wait_until, lock_failed, create_marathon_app, delete_marathon_app,
}

-- The calls of a lock and the looks for an app are allowed.
pub record AllowsLocks (P : Effect → Type 0) : Type 0 where
  pub starts : (name : Text) → P (start_zookeeper name)
  pub locks : (name : Text) → P (lock name)
  pub unlocks : (name : Text) → P (unlock name)
  pub stops : (name : Text) → P (stop_zookeeper name)
  pub looks : (app : Text) → P (app_running app)

module _ (oracle : Oracle Effect) (P : Effect → Type 0) (allows : AllowsLocks P) where
  pub Confined-with_lock :
      (name : Text) (body : Act Effect Bool)
      → Confined P body
      → Confined P (with_lock oracle name body)
  unfolding with_lock
  Confined-with_lock name body good =
      Confined-seq _ _ (Confined-call oracle (start_zookeeper name) (allows.starts name)) (
        Confined-try_finally _ _
          (Confined-seq _ _
            (Confined-try_except _ _
              (Confined-seq _ _ (Confined-call oracle (lock name) (allows.locks name)) good)
              handled)
            (Confined-call oracle (unlock name) (allows.unlocks name)))
          (Confined-call oracle (stop_zookeeper name) (allows.stops name)))
    where
      handled : (x : Exception) → Confined P (lock_failed oracle x)
      handled lock_timeout = Confined-result _
      handled x = Confined-result _

  pub Confined-wait_until :
      (wanted : Bool) (n : ℕ) (app : Text) → Confined P (wait_until oracle wanted n app)
  unfolding wait_until
  Confined-wait_until wanted zero app = Confined-result _
  Confined-wait_until wanted (suc n) app =
      Confined-bind _ _ (Confined-call oracle (app_running app) (allows.looks app)) λ a h e.
        Confined-if (same a wanted) (pure true) (wait_until oracle wanted n app)
          (λ _. Confined-result (ok true)) (λ _. Confined-wait_until wanted n app)

  pub Confined-create_marathon_app :
      (polls : ℕ) (app : Text)
      → P (create_app app)
      → Confined P (create_marathon_app oracle polls app)
  unfolding create_marathon_app
  Confined-create_marathon_app polls app creates = Confined-with_lock _ _ (
      Confined-seq _ _ (Confined-call oracle (create_app app) creates)
        (Confined-wait_until true polls app))

  pub Confined-delete_marathon_app :
      (polls : ℕ) (app : Text)
      → P (scale_app app 0)
      → P (delete_app app)
      → Confined P (delete_marathon_app oracle polls app)
  unfolding delete_marathon_app
  Confined-delete_marathon_app polls app scales deletes = Confined-with_lock _ _ (
      Confined-seq _ _ (Confined-call oracle (scale_app app 0) scales) (
        Confined-seq _ _ (Confined-call oracle (delete_app app) deletes)
          (Confined-wait_until false polls app)))
