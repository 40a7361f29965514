-- ===== src/Lock/Ops/Acquire.antt =====
-- Acquiring: the loop of lockInternal, Lock, TryLock and TryLockWithTimeout (lock/lock.go).
use remix.Base.{
  ℕ, ◌+◌, Bool, true, false, ◌&&◌, ◌||◌, not, List, [], ◌∷◌, Result, ok, err, Action, fail, ◌>>=◌,
  ◌>>◌, attempt, wrap, ltb, leb, if◌then◌else◌,
}
use remix.Redis.Server.{Redis}
use remix.Redis.Client.{Env, call}
use remix.Lock.Types.{
  LockInfo, seconds, Error, lock_timeout, acquire_failed, marshal_failed, cancelled, starved, Json,
}
use remix.Lock.Keys.{lock_key, stats_key}
use remix.Lock.Scripts.{acquire_script}
use remix.Lock.Ops.Info.{
  Lock, World, Round, remote, hold, or_fail, marshalled, get_lock_info, update_lock_info, ours,
}

module _ (r : Redis) (j : Json) (l : Lock) where
  open r use {Db}

  abbrev Remote : Type 0 → Type 0
  Remote A = Action (Env Db) Error A

  abbrev Op : Type 0 → Type 0
  Op A = Action (World Db) Error A

  unfoldable pub new_info : ℕ → LockInfo
  new_info now = record {
    name = l.name;
    owner = l.owner;
    thread_id = l.thread_id;
    hold_count = 1;
    acquire_time = now;
    expire_time = now + l.config.lease_duration;
    last_renewal_time = now;
  }

  unfoldable pub try_acquire_lock : ℕ → Remote Bool
  unfolding new_info
  try_acquire_lock now = do
    content ← or_fail marshal_failed (marshalled r j l (new_info now))
    wrap acquire_failed (
        call (
          acquire_script r j (lock_key l.name) (stats_key l.name) content
            (seconds l.config.lease_duration) (seconds now)))

  -- After a success: the hold count, and the renewal task.
  unfoldable pub acquired_now : Op (Unit {0})
  acquired_now w = (
    ok tt,
    record w { hold_count = 1; tasks = if l.config.auto_renewal then w.tasks + 1 else w.tasks },
  )

  abbrev pub gives_up : ℕ → Bool → ℕ → Bool
  gives_up wait_timeout block since = not block || (ltb 0 wait_timeout && leb wait_timeout since)

  abbrev pub wait : (Db → Db) → Op (Unit {0})
  wait others w = (ok tt, record w { env = record w.env { db = others w.env.db } })

  unfoldable pub lock_loop : ℕ → Bool → List (Round Db) → Op (Unit {0})
  unfolding acquired_now
  lock_loop wait_timeout block [] = fail starved
  lock_loop wait_timeout block (t ∷ ts) = do
    acquired ← remote (try_acquire_lock t.now)
    elim acquired [
      | true ↦ acquired_now
      | false ↦
          if gives_up wait_timeout block t.since
          then fail lock_timeout
          else if t.done
          then fail cancelled
          else (do wait t.meanwhile; lock_loop wait_timeout block ts)
    ]

  unfoldable pub lock_again : ℕ → Op (Unit {0})
  lock_again now w =
      (do hold (w.hold_count + 1); remote (update_lock_info r j l (w.hold_count + 1) now)) w

  -- `checked` is the clock when the information is updated by a re-entrant lock.
  unfoldable pub lock_internal : ℕ → ℕ → Bool → List (Round Db) → Op (Unit {0})
  unfolding lock_again lock_loop
  lock_internal checked wait_timeout block ts w =
      if l.config.reentrant && ltb 0 w.hold_count
      then (do
        info ← attempt (remote (get_lock_info r j l))
        if ours r j l info then lock_again checked else lock_loop wait_timeout block ts)
          w
      else lock_loop wait_timeout block ts w

  unfoldable pub lock : ℕ → List (Round Db) → Op (Unit {0})
  unfolding lock_internal
  lock checked ts = lock_internal checked l.config.wait_timeout true ts

  abbrev pub as_try : Result Error (Unit {0}) → Result Error Bool
  as_try (ok _) = ok true
  as_try (err lock_timeout) = ok false
  as_try (err e) = err e

  unfoldable pub try_lock : ℕ → List (Round Db) → Op Bool
  unfolding lock_internal
  try_lock checked ts w =
      (as_try (lock_internal checked 0 false ts w).0, (lock_internal checked 0 false ts w).1)

  unfoldable pub try_lock_with_timeout : ℕ → ℕ → List (Round Db) → Op Bool
  unfolding lock_internal
  try_lock_with_timeout timeout checked ts w = (
    as_try (lock_internal checked timeout false ts w).0,
    (lock_internal checked timeout false ts w).1,
  )
