-- ===== src/RwLock/Scripts.antt =====
-- The Lua scripts of lock/rwlock.go, statement by statement.
use remix.Base.{
  ℕ, zero, suc, ◌+◌, Bool, true, false, ◌&&◌, ◌||◌, not, Option, none, some, Action, pure, ◌>>=◌,
  ◌>>◌, Text, text_eq, ltb, ◌==◌, if◌then◌else◌,
}
use remix.Redis.Command.{
  Reply, nil, int, negative, get, set_ex, del, hincrby, hdecrby, hset, hget, hdel, hlen, expire,
}
use remix.Redis.Server.{Redis}
use remix.Redis.Client.{Fault, redis_call, lua_int, lua_text}
use remix.Lock.Types.{Json}
use remix.Lock.Keys.{holder}
use remix.Lock.Scripts.{Code, missing, foreign, done, or_raise}
use remix.RwLock.Types.{Objects, lock_object, number_of}
use remix.RwLock.Keys.{
  total_read_acquired, total_read_released, total_write_acquired, total_write_released,
}

-- The truth of a reply in Lua: a missing value is `false`.
abbrev pub is_there : Reply → Bool
is_there nil = false
is_there _ = true

-- `count <= 0`.
abbrev pub is_spent : Reply → Bool
is_spent (int n) = n == 0
is_spent (negative n) = true
is_spent _ = false

-- `owner .. ':' .. thread_id` on a decoded object; joining `nil` raises an error.
abbrev pub joined : Option Text → Option Text → Option Text
joined (some owner) (some thread_id) = some (holder owner thread_id)
joined _ _ = none

-- Do the readers keep a writer out?
abbrev pub is_read_locked : Option ℕ → Bool → Bool
is_read_locked none own = false
is_read_locked (some count) own = ltb 1 count || (count == 1 && not own)

module _ (r : Redis) (j : Json) (o : Objects) where
  open r use {Db}

  -- What GET of the write lock has found: may this holder go on?
  unfoldable pub write_guard : Text → ℕ → Option Text → Action Db Fault Bool
  write_guard current_owner current_time none = pure true
  write_guard current_owner current_time (some write_lock) = do
    write_info ← or_raise (o.decode write_lock)
    expire_time ← or_raise (number_of j write_info.expire_time)
    if ltb current_time expire_time
        then (do
          write_owner ← or_raise (joined write_info.owner write_info.thread_id)
          pure (text_eq write_owner current_owner))
        else pure true

  unfoldable pub set_read : Text → Text → Text → Text → Text → ℕ → ℕ → Action Db Fault Bool
  set_read read read_count stats owner thread_id expire_seconds current_time = do
    redis_call r (
        hset read (holder owner thread_id) (
          o.encode (lock_object read owner thread_id current_time (current_time + expire_seconds))))
    redis_call r (expire read expire_seconds)
    redis_call r (hincrby read_count (holder owner thread_id) 1)
    redis_call r (expire read_count expire_seconds)
    redis_call r (hincrby stats total_read_acquired 1)
    pure true

  unfoldable pub acquire_read_script :
      Text → Text → Text → Text → Text → Text → ℕ → ℕ → Action Db Fault Bool
  unfolding write_guard set_read
  acquire_read_script read write read_count stats owner thread_id expire_seconds current_time = do
    write_lock ← redis_call r (get write)
    free ← write_guard (holder owner thread_id) current_time (lua_text write_lock)
    if free
        then set_read read read_count stats owner thread_id expire_seconds current_time
        else pure false

  -- The reader's count has been lowered.
  unfoldable pub drop_reader : Text → Text → Text → Reply → Action Db Fault (Unit {0})
  drop_reader read read_count reader count =
      if is_spent count
      then (do redis_call r (hdel read reader); redis_call r (hdel read_count reader); pure tt)
      else pure tt

  unfoldable pub release_read_script : Text → Text → Text → Text → Action Db Fault Bool
  unfolding drop_reader
  release_read_script read read_count stats reader = do
    read_data ← redis_call r (hget read reader)
    if is_there read_data
        then (do
          count ← redis_call r (hdecrby read_count reader 1)
          drop_reader read read_count reader count
          redis_call r (hincrby stats total_read_released 1)
          pure true)
        else pure false

  -- The answer is whether the readers keep the writer out.
  unfoldable pub read_guard : Text → Text → Option ℕ → Action Db Fault Bool
  read_guard read reader none = pure false
  read_guard read reader (some zero) = pure false
  read_guard read reader (some (suc n)) = do
    own_read_lock ← redis_call r (hget read reader)
    pure (is_read_locked (some (suc n)) (is_there own_read_lock))

  unfoldable pub set_write : Text → Text → Text → Text → ℕ → ℕ → Action Db Fault Bool
  set_write write stats owner thread_id expire_seconds current_time = do
    redis_call r (
        set_ex write
          (o.encode
            (lock_object write owner thread_id current_time (current_time + expire_seconds)))
          expire_seconds)
    redis_call r (hincrby stats total_write_acquired 1)
    pure true

  unfoldable pub acquire_write_script :
      Text → Text → Text → Text → Text → ℕ → ℕ → Action Db Fault Bool
  unfolding read_guard write_guard set_write
  acquire_write_script read write stats owner thread_id expire_seconds current_time = do
    read_count ← redis_call r (hlen read)
    locked ← read_guard read (holder owner thread_id) (lua_int read_count)
    if locked then pure false else (do
      write_lock ← redis_call r (get write)
      free ← write_guard (holder owner thread_id) current_time (lua_text write_lock)
      if free
          then set_write write stats owner thread_id expire_seconds current_time
          else pure false)

  unfoldable pub release_write_over : Text → Text → Text → Option Text → Action Db Fault Code
  release_write_over write stats current_owner none = pure missing
  release_write_over write stats current_owner (some write_lock) = do
    write_info ← or_raise (o.decode write_lock)
    write_owner ← or_raise (joined write_info.owner write_info.thread_id)
    if text_eq write_owner current_owner
        then (do
          redis_call r (del write)
          redis_call r (hincrby stats total_write_released 1)
          pure done)
        else pure foreign

  unfoldable pub release_write_script : Text → Text → Text → Action Db Fault Code
  unfolding release_write_over
  release_write_script write stats current_owner = do
    write_lock ← redis_call r (get write)
    release_write_over write stats current_owner (lua_text write_lock)
