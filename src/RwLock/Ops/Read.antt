-- ===== src/RwLock/Ops/Read.antt =====
-- The methods of redisReadLock (lock/rwlock.go).
use remix.Base.{
  ℕ, Bool, true, false, List, [], ◌∷◌, Option, none, some, Result, ok, err, Action, pure, fail,
  ◌>>=◌, attempt, wrap, ltb, if◌then◌else◌, ℤ, pos, negsuc,
}
use remix.Redis.Command.{Reply, nil, int, negative, bulk, hget, hdel, hlen, hexists}
use remix.Redis.Server.{Redis}
use remix.Redis.Client.{Fault, redis_nil, error_reply, Env, call, query, int_of, transaction}
use remix.Lock.Types.{
  seconds, Error, not_held, acquire_failed, release_failed, plain, number_unread, Json,
}
use remix.Lock.Keys.{holder}
use remix.Lock.Ops.{Round}
use remix.RwLock.Types.{Objects}
use remix.RwLock.Keys.{read_lock_key, write_lock_key, read_count_key, stats_key}
use remix.RwLock.Scripts.{acquire_read_script, release_read_script}
use remix.RwLock.Ops.Loop.{ReadLock, as_try, acquire_loop}

-- The reading of HGET's text by `strconv.Atoi`.
unfoldable pub atoi : Reply → Result Fault (Option ℤ)
atoi (int n) = ok (some (pos n))
atoi (negative n) = ok (some (negsuc n))
atoi (bulk s) = ok none
atoi nil = err redis_nil
atoi _ = err error_reply

module _ (r : Redis) (j : Json) (o : Objects) (l : ReadLock) where
  open r use {Db}

  abbrev Op : Type 0 → Type 0
  Op A = Action (Env Db) Error A

  unfoldable pub try_acquire_read_lock : ℕ → Op Bool
  try_acquire_read_lock now = wrap acquire_failed (
      call (
        acquire_read_script r j o (read_lock_key l.rw_lock.name) (write_lock_key l.rw_lock.name)
          (read_count_key l.rw_lock.name) (stats_key l.rw_lock.name) l.owner l.thread_id
          (seconds l.rw_lock.config.lease_duration) (seconds now)))

  unfoldable pub read_lock_internal : ℕ → Bool → List (Round Db) → Op (Unit {0})
  unfolding acquire_loop try_acquire_read_lock
  read_lock_internal wait_timeout block ts =
      acquire_loop try_acquire_read_lock wait_timeout block ts

  unfoldable pub read_lock : List (Round Db) → Op (Unit {0})
  unfolding read_lock_internal
  read_lock ts = read_lock_internal l.rw_lock.config.wait_timeout true ts

  unfoldable pub try_read_lock : List (Round Db) → Op Bool
  unfolding read_lock_internal
  try_read_lock ts e =
      (as_try (read_lock_internal 0 false ts e).0, (read_lock_internal 0 false ts e).1)

  unfoldable pub try_read_lock_with_timeout : ℕ → List (Round Db) → Op Bool
  unfolding read_lock_internal
  try_read_lock_with_timeout timeout ts e =
      (as_try (read_lock_internal timeout false ts e).0, (read_lock_internal timeout false ts e).1)

  unfoldable pub read_unlock : Op (Unit {0})
  read_unlock = do
    released ← wrap release_failed (
        call (
          release_read_script r j o (read_lock_key l.rw_lock.name) (read_count_key l.rw_lock.name)
            (stats_key l.rw_lock.name) (holder l.owner l.thread_id)))
    if released then pure tt else fail not_held

  unfoldable pub is_read_locked : Op Bool
  is_read_locked = do
    count ← wrap plain (query r (hlen (read_lock_key l.rw_lock.name)) int_of)
    pure (ltb 0 count)

  unfoldable pub is_read_held : Op Bool
  is_read_held = do
    found ←
        wrap plain
          (query r (hexists (read_lock_key l.rw_lock.name) (holder l.owner l.thread_id)) int_of)
    pure (ltb 0 found)

  unfoldable pub count_read : Result Fault (Option ℤ) → Op ℤ
  count_read (ok (some count)) = pure count
  count_read (ok none) = fail number_unread
  count_read (err redis_nil) = pure (pos 0)
  count_read (err f) = fail (plain f)

  unfoldable pub read_hold_count : Op ℤ
  unfolding count_read atoi
  read_hold_count = do
    count ←
        attempt (query r (hget (read_count_key l.rw_lock.name) (holder l.owner l.thread_id)) atoi)
    count_read count

  unfoldable pub force_read_unlock : Op (Unit {0})
  force_read_unlock = wrap plain (
      call (
        transaction r (
          hdel (read_lock_key l.rw_lock.name) (holder l.owner l.thread_id)
          ∷ hdel (read_count_key l.rw_lock.name) (holder l.owner l.thread_id)
          ∷ [])))

  unfoldable pub delete_read_lock : Op (Unit {0})
  unfolding force_read_unlock
  delete_read_lock = force_read_unlock
