-- ===== src/Bounce/Locks/Sessions.antt =====
-- The calls to Marathon and ZooKeeper under a lock.
use paasta.Prelude.{
  ℕ, zero, suc, Text, ◌≡◌, ◌⊎◌, inl, inr, refl, ap, ◌∙◌, sym, Bool, true, false, Option, some, none,
  List, [], ◌∷◌, Result, ok, Result-cases, Bool-cases, lock_timeout, lock_held,
}
use paasta.Effects.{
  Act, Oracle, call, try_except, try_finally, >>=-eq-ok, try_finally-eq-ok, try_except-eq-ok,
  Reraises, ◌>>◌,
}
use paasta.Marathon.{
  Effect, start_zookeeper, lock, unlock, stop_zookeeper, create_app, delete_app, app_running,
  scale_app,
}
use paasta.Bounce.Locks.{
  create_app_lock_name, lock_failed, same, with_lock, wait_until, create_marathon_app,
  delete_marathon_app, kill_old_ids,
}

abbrev pub latest : List Effect → Option Effect
latest [] = none
latest (e ∷ h) = some e

same_eq : (a b : Bool) → same a b ≡ true → a ≡ b
same_eq true b h = sym h
same_eq false true h = cc
same_eq false false h = refl

module _ (oracle : Oracle Effect) where
  -- Once a session is started it is stopped at the end, whether or not the lock is had and whatever
  -- the body does.
  with_lock-stops :
      (name : Text) (body : Act Effect Bool) (h : List Effect) {b : Bool}
      → oracle h (start_zookeeper name) ≡ ok b
      → latest (with_lock oracle name body h).1 ≡ some (stop_zookeeper name)
  unfolding with_lock
  with_lock-stops name body h started = rw started refl

  -- The call was made and answered so.
  abbrev pub Answered : Effect → Bool → List Effect → Type 0
  Answered e b [] = ⊥
  Answered e b (x ∷ h) = ((x ≡ e) × (oracle h e ≡ ok b)) ⊎ Answered e b h

  wait_until-Answered :
      (wanted : Bool) (polls : ℕ) (app_id : Text) (h : List Effect) {r : Bool}
      → (wait_until oracle wanted polls app_id h).0 ≡ ok r
      → Answered (app_running app_id) wanted (wait_until oracle wanted polls app_id h).1
  unfolding wait_until call
  wait_until-Answered wanted zero app_id h e = cc
  wait_until-Answered wanted (suc polls) app_id h e =
      elim (Result-cases (oracle h (app_running app_id))) [
        | inr (x, fails) ↦ cc (rw fails at e)
        | inl (b, answer) ↦ elim (Bool-cases (same b wanted)) [
          | inl yes_same ↦
              rw (answer, yes_same) (inl (refl, answer ∙ ap ok (same_eq b wanted yes_same)))
          | inr differs ↦
              let later = rw (answer, differs) at e in
              rw (answer, differs)
                (wait_until-Answered wanted polls app_id (app_running app_id ∷ h) later)
        ]
      ]

  lock_failed-Reraises : Reraises (lock_failed oracle)
  lock_failed-Reraises lock_timeout h = (lock_held, refl)
  lock_failed-Reraises x h = (x, refl)

  -- Where a block under a lock returns, its body returned, with the lock held.
  with_lock-eq-ok :
      (name : Text) (body : Act Effect Bool) (h : List Effect) {r : Bool}
      → (with_lock oracle name body h).0 ≡ ok r
      → (b : Bool) × ((body (lock name ∷ start_zookeeper name ∷ h)).0 ≡ ok b)
        × ((with_lock oracle name body h).1
            ≡ stop_zookeeper name ∷ unlock name ∷ (body (lock name ∷ start_zookeeper name ∷ h)).1)
  unfolding with_lock
  with_lock-eq-ok name body h e =
      let started = >>=-eq-ok (call oracle (start_zookeeper name)) (λ _. guarded) h e in
      let closed = try_finally-eq-ok released (call oracle (stop_zookeeper name)) _ started.2 in
      let freed = >>=-eq-ok locked (λ _. call oracle (unlock name)) _ closed.0 in
      let held = try_except-eq-ok taken (lock_failed oracle) lock_failed-Reraises _ freed.1 in
      let had = >>=-eq-ok (call oracle (lock name)) (λ _. body) _ held.0 in
      (
        freed.0,
        had.2,
        ap (λ (p : Result Bool × List Effect). p.1) started.3
            ∙ closed.1
            ∙ ap (λ (p : Result Bool × List Effect). stop_zookeeper name ∷ p.1) freed.3
            ∙ ap (λ (t : List Effect). stop_zookeeper name ∷ unlock name ∷ t) held.1
            ∙ ap (λ (p : Result Bool × List Effect). stop_zookeeper name ∷ unlock name ∷ p.1) had.3,
      )
    where
      taken : Act Effect Bool
      taken = call oracle (lock name) >> body

      locked : Act Effect Bool
      locked = try_except taken (lock_failed oracle)

      released : Act Effect Bool
      released = locked >> call oracle (unlock name)

      guarded : Act Effect Bool
      guarded = try_finally released (call oracle (stop_zookeeper name))

  -- Where the creation of an app returns, Marathon was asked for the app and has listed it.
  pub create_marathon_app-Answered :
      (polls : ℕ) (app_id : Text) (h : List Effect) {r : Bool}
      → (create_marathon_app oracle polls app_id h).0 ≡ ok r
      → Answered (app_running app_id) true (create_marathon_app oracle polls app_id h).1
  unfolding create_marathon_app
  create_marathon_app-Answered polls app_id h e =
      let waiting : Act Effect Bool = wait_until oracle true polls app_id in
      let creating : Act Effect Bool = call oracle (create_app app_id) >> waiting in
      let (b, done, last) = with_lock-eq-ok create_app_lock_name creating h e in
      let made = >>=-eq-ok (call oracle (create_app app_id)) (λ _. waiting) _ done in
      rw last (rw made.3 (inr (inr (wait_until-Answered true polls app_id _ made.2))))

  -- Where the deletion of an app returns, Marathon was asked for the app and has not listed it.
  delete_marathon_app-Answered :
      (polls : ℕ) (app_id : Text) (h : List Effect) {r : Bool}
      → (delete_marathon_app oracle polls app_id h).0 ≡ ok r
      → Answered (app_running app_id) false (delete_marathon_app oracle polls app_id h).1
  unfolding delete_marathon_app
  delete_marathon_app-Answered polls app_id h e =
      let waiting : Act Effect Bool = wait_until oracle false polls app_id in
      let dropping : Act Effect Bool = call oracle (delete_app app_id) >> waiting in
      let deleting : Act Effect Bool = call oracle (scale_app app_id 0) >> dropping in
      let (b, done, last) = with_lock-eq-ok create_app_lock_name deleting h e in
      let scaled = >>=-eq-ok (call oracle (scale_app app_id 0)) (λ _. dropping) _ done in
      let made = >>=-eq-ok (call oracle (delete_app app_id)) (λ _. waiting) _ scaled.2 in
      rw last
        (rw scaled.3 (rw made.3 (inr (inr (wait_until-Answered false polls app_id _ made.2)))))

  -- Killing old apps never raises: a failure leaves the app for a later run.
  kill_old_ids_returns :
      (polls : ℕ) (ids : List Text) (h : List Effect)
      → (kill_old_ids oracle polls ids h).0 ≡ ok true
  unfolding kill_old_ids
  kill_old_ids_returns polls [] h = refl
  kill_old_ids_returns polls (app ∷ ids) h =
      elim (Result-cases (delete_marathon_app oracle polls app h).0) [
        | inl (b, done) ↦ rw done (kill_old_ids_returns polls ids _)
        | inr (x, fails) ↦ rw fails (kill_old_ids_returns polls ids _)
      ]
