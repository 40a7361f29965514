-- ===== src/RwLock/Ops/Write.antt =====
-- The methods of redisWriteLock (lock/rwlock.go).
use remix.Base.{
  ℕ, Bool, true, false, List, Result, ok, err, Action, pure, fail, ◌>>=◌, ◌>>◌, attempt, wrap, Text,
  text_eq, ltb, if◌then◌else◌,
}
use remix.Redis.Command.{get, del, exists}
use remix.Redis.Server.{Redis}
use remix.Redis.Client.{Fault, redis_nil, Env, call, query, text_of, int_of}
use remix.Lock.Types.{
  seconds, Error, not_held, not_found, acquire_failed, release_failed, plain, unmarshal_failed,
  Json,
}
use remix.Lock.Keys.{holder}
use remix.Lock.Scripts.{Code, missing, foreign, done}
use remix.Lock.Ops.{Round, or_fail}
use remix.RwLock.Types.{Objects, unmarshalled}
use remix.RwLock.Keys.{read_lock_key, write_lock_key, stats_key}
use remix.RwLock.Scripts.{acquire_write_script, release_write_script}
use remix.RwLock.Ops.Loop.{WriteLock, as_try, acquire_loop}

module _ (r : Redis) (j : Json) (o : Objects) (l : WriteLock) where
  open r use {Db}

  abbrev Op : Type 0 → Type 0
  Op A = Action (Env Db) Error A

  unfoldable pub try_acquire_write_lock : ℕ → Op Bool
  try_acquire_write_lock now = wrap acquire_failed (
      call (
        acquire_write_script r j o (read_lock_key l.rw_lock.name) (write_lock_key l.rw_lock.name)
          (stats_key l.rw_lock.name) l.owner l.thread_id (seconds l.rw_lock.config.lease_duration)
          (seconds now)))

  unfoldable pub write_lock_internal : ℕ → Bool → List (Round Db) → Op (Unit {0})
  unfolding acquire_loop try_acquire_write_lock
  write_lock_internal wait_timeout block ts =
      acquire_loop try_acquire_write_lock wait_timeout block ts

  unfoldable pub write_lock : List (Round Db) → Op (Unit {0})
  unfolding write_lock_internal
  write_lock ts = write_lock_internal l.rw_lock.config.wait_timeout true ts

  unfoldable pub try_write_lock : List (Round Db) → Op Bool
  unfolding write_lock_internal
  try_write_lock ts e =
      (as_try (write_lock_internal 0 false ts e).0, (write_lock_internal 0 false ts e).1)

  unfoldable pub try_write_lock_with_timeout : ℕ → List (Round Db) → Op Bool
  unfolding write_lock_internal
  try_write_lock_with_timeout timeout ts e = (
    as_try (write_lock_internal timeout false ts e).0,
    (write_lock_internal timeout false ts e).1,
  )

  unfoldable pub write_answer : Code → Op (Unit {0})
  write_answer missing = fail not_found
  write_answer foreign = fail not_held
  write_answer done = pure tt

  unfoldable pub write_unlock : Op (Unit {0})
  unfolding write_answer
  write_unlock = do
    code ← wrap release_failed (
        call (
          release_write_script r j o (write_lock_key l.rw_lock.name) (stats_key l.rw_lock.name)
            (holder l.owner l.thread_id)))
    write_answer code

  unfoldable pub is_write_locked : Op Bool
  is_write_locked = do
    found ← wrap plain (query r (exists (write_lock_key l.rw_lock.name)) int_of)
    pure (ltb 0 found)

  unfoldable pub write_held : Result Fault Text → Op Bool
  write_held (ok content) = do
    info ← or_fail unmarshal_failed (o.decode content)
    (owner, thread_id) ← or_fail unmarshal_failed (unmarshalled j info)
    pure (text_eq (holder l.owner l.thread_id) (holder owner thread_id))
  write_held (err redis_nil) = pure false
  write_held (err f) = fail (plain f)

  unfoldable pub is_write_held : Op Bool
  unfolding write_held
  is_write_held = do
    content ← attempt (query r (get (write_lock_key l.rw_lock.name)) text_of)
    write_held content

  unfoldable pub write_hold_count : Op ℕ
  unfolding is_write_held
  write_hold_count = do held ← is_write_held; pure (if held then 1 else 0)

  unfoldable pub force_write_unlock : Op (Unit {0})
  force_write_unlock = do wrap plain (query r (del (write_lock_key l.rw_lock.name)) int_of); pure tt

  unfoldable pub delete_write_lock : Op (Unit {0})
  unfolding force_write_unlock
  delete_write_lock = force_write_unlock
