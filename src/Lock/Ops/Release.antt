-- ===== src/Lock/Ops/Release.antt =====
-- Releasing, removing and renewing (lock/lock.go).
use remix.Base.{
  ℕ, ◌+◌, ◌-◌, ◌&&◌, ◌||◌, List, [], ◌∷◌, ok, err, Action, pure, fail, ◌>>=◌, ◌>>◌, attempt, wrap,
  ltb, ◌==◌, if◌then◌else◌,
}
use remix.Redis.Command.{del}
use remix.Redis.Server.{Redis}
use remix.Redis.Client.{Env, call, transaction}
use remix.Lock.Types.{
  seconds, Error, not_held, not_found, release_failed, force_unlock_failed, plain, stuck, panicked,
  Json,
}
use remix.Lock.Keys.{lock_key, stats_key, queue_key}
use remix.Lock.Scripts.{Code, missing, foreign, done, release_script, force_script, renew_script}
use remix.Lock.Ops.Info.{Lock, World, Ticks, remote, hold, update_lock_info}

module _ (r : Redis) (j : Json) (l : Lock) where
  open r use {Db}

  abbrev Remote : Type 0 → Type 0
  Remote A = Action (Env Db) Error A

  abbrev Op : Type 0 → Type 0
  Op A = Action (World Db) Error A

  unfoldable pub release_answer : Code → Remote (Unit {0})
  release_answer missing = fail not_found
  release_answer foreign = fail not_held
  release_answer done = pure tt

  unfoldable pub release_lock : Remote (Unit {0})
  unfolding release_answer
  release_lock = do
    code ←
        wrap release_failed
          (call (release_script r j (lock_key l.name) (stats_key l.name) l.owner l.thread_id))
    release_answer code

  -- The stop channel is closed. A task that waits for the mutex, which `Unlock` holds, cannot end;
  -- if Unlock goes on, it sees the new stop channel. Every other task ends and closes the end
  -- channel that it started with. The first close of the current one ends the wait; a close of a
  -- closed one, at the latest soon after Unlock, ends the program.
  unfoldable pub stop_renewal : Ticks → Op (Unit {0})
  stop_renewal ticks w =
      if ltb 1 (w.tasks - ticks.fresh) || ltb 0 (w.stale - ticks.stale)
      then (err panicked, w)
      else if w.tasks - ticks.fresh == 0
      then (err stuck, w)
      else (ok tt, record w { tasks = 0; stale = w.tasks - 1 + w.stale })

  -- The end of `Unlock`.
  unfoldable pub released_now : Ticks → Op (Unit {0})
  unfolding stop_renewal
  released_now ticks w =
      if l.config.auto_renewal
      then stop_renewal ticks (record w { hold_count = 0 })
      else (ok tt, record w { hold_count = 0 })

  unfoldable pub unlock_again : ℕ → Op (Unit {0})
  unlock_again now w =
      (do hold (w.hold_count - 1); remote (update_lock_info r j l (w.hold_count - 1) now)) w

  unfoldable pub unlock : ℕ → Ticks → Op (Unit {0})
  unfolding released_now unlock_again
  unlock now ticks w =
      if w.hold_count == 0
      then (err not_held, w)
      else if l.config.reentrant && ltb 1 w.hold_count
      then unlock_again now w
      else (do remote release_lock; released_now ticks) w

  unfoldable pub force_unlock : Remote (Unit {0})
  force_unlock = do
    deleted ←
        wrap force_unlock_failed (call (force_script r j (lock_key l.name) (stats_key l.name)))
    if deleted then pure tt else fail not_found

  unfoldable pub delete : Remote (Unit {0})
  delete = wrap plain (
      call (
        transaction r
          (del (lock_key l.name) ∷ del (stats_key l.name) ∷ del (queue_key l.name) ∷ [])))

  -- The answer of the renewal script is dropped.
  unfoldable pub renew_lock : ℕ → Op (Unit {0})
  renew_lock now w =
      if w.hold_count == 0
      then (ok tt, w)
      else (do
        remote (
            wrap plain (
              call (
                renew_script r j (lock_key l.name) l.owner l.thread_id
                  (seconds l.config.lease_duration) (seconds now))))
        pure tt)
          w

  -- The loop of `renewalTask`: each tick renews, until the channel is closed.
  unfoldable pub renewal_task : List ℕ → Op (Unit {0})
  renewal_task [] = pure tt
  renewal_task (now ∷ ticks) = do attempt {F = Error} (renew_lock now); renewal_task ticks
