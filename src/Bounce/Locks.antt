-- ===== src/Bounce/Locks.antt =====
-- The calls of bounce_lib.py that create and delete a Marathon app, one app at a time under a lock
-- in ZooKeeper and within a time limit.
-- The alarm of `time_limit` may ring between any two polls: `polls` is how many are made before it
-- does. A call that is itself interrupted raises the exception that the oracle gives.
pub mod Sessions
pub mod Confined
use paasta.Prelude.{
  ℕ, zero, suc, Text, codes, Bool, true, false, not, List, [], ◌∷◌, Exception, lock_held,
  lock_timeout, timeout, if◌then◌else◌,
}
use paasta.Effects.{
  Act, Oracle, call, pure, throw, try_except, try_finally, caught, and_then, ◌>>=◌, ◌>>◌,
}
use paasta.Marathon.{
  Effect, start_zookeeper, lock, unlock, stop_zookeeper, create_app, delete_app, app_running,
  scale_app,
}

abbrev create_app_lock_name : Text
create_app_lock_name = codes "create_marathon_app_lock"

abbrev pub same : Bool → Bool → Bool
same true b = b
same false b = not b

module _ (oracle : Oracle Effect) where
  abbrev pub lock_failed : Exception → Act Effect Bool
  lock_failed lock_timeout = throw lock_held
  lock_failed e = throw e

  -- bounce_lock_zookeeper and create_app_lock: they differ in the name and the time to wait.
  unfoldable pub with_lock : Text → Act Effect Bool → Act Effect Bool
  unfolding call
  with_lock name body = do
    call oracle (start_zookeeper name)
    try_finally
        (do try_except (do call oracle (lock name); body) lock_failed; call oracle (unlock name))
        (call oracle (stop_zookeeper name))

  -- The loop of wait_for_create, and that of wait_for_delete.
  unfoldable pub wait_until : (running : Bool) → (polls : ℕ) → Text → Act Effect Bool
  unfolding call
  wait_until wanted zero app_id = throw timeout
  wait_until wanted (suc polls) app_id = do
    running ← call oracle (app_running app_id)
    let again = wait_until wanted polls app_id
    if same running wanted then pure true else again

  unfoldable pub create_marathon_app : (polls : ℕ) → Text → Act Effect Bool
  create_marathon_app polls app_id =
      with_lock create_app_lock_name
        (do call oracle (create_app app_id); wait_until true polls app_id)

  unfoldable pub delete_marathon_app : (polls : ℕ) → Text → Act Effect Bool
  delete_marathon_app polls app_id = with_lock create_app_lock_name (do
    call oracle (scale_app app_id 0)
    call oracle (delete_app app_id)
    wait_until false polls app_id)

  unfoldable pub kill_old_ids : (polls : ℕ) → List Text → Act Effect Bool
  kill_old_ids polls [] = pure true
  kill_old_ids polls (app ∷ old_ids) = do
    try_except (delete_marathon_app polls app) (λ _. pure true)
    kill_old_ids polls old_ids
