-- ===== src/Lock/Scripts.antt =====
-- The Lua scripts of lock/lock.go, statement by statement.
use remix.Base.{
  ℕ, ◌+◌, Bool, true, false, ◌&&◌, Option, none, some, Action, pure, fail, ◌>>=◌, ◌>>◌, Text,
  text_eq, ltb, ◌==◌, if◌then◌else◌,
}
use remix.Redis.Command.{get, set_ex, del, hincrby}
use remix.Redis.Server.{Redis}
use remix.Redis.Client.{Fault, error_reply, redis_call, lua_int, lua_text}
use remix.Lock.Types.{Json, Document, number, lua_number}
use remix.Lock.Keys.{total_acquired, total_released}

-- The script's answers 0, -1 and 1.
pub data Code : Type 0 where
  missing foreign done : Code

-- A runtime error of Lua fails the whole call: decoding a text that is no JSON, comparing `nil`.
abbrev pub or_raise : {S A : Type 0} → Option A → Action S Fault A
or_raise none = fail error_reply
or_raise (some a) = pure a

abbrev pub is_deleted : Option ℕ → Bool
is_deleted none = false
is_deleted (some n) = n == 1

-- The test of the holder, made on the two fields.
abbrev pub holds : Document → Text → Text → Bool
holds x owner thread_id = text_eq x.owner owner && text_eq x.thread_id thread_id

-- The renewed document: its times become numbers.
abbrev pub renewed : Document → ℕ → ℕ → Document
renewed x current_time expire_seconds = record x {
  last_renewal_time = number current_time;
  expire_time = number (current_time + expire_seconds);
}

module _ (r : Redis) (j : Json) where
  open r use {Db}

  unfoldable pub set_lock : Text → Text → Text → ℕ → Action Db Fault Bool
  set_lock lock stats content expire_seconds = do
    redis_call r (set_ex lock content expire_seconds)
    redis_call r (hincrby stats total_acquired 1)
    pure true

  -- What GET has found.
  unfoldable pub acquire_over : Text → Text → Text → ℕ → ℕ → Option Text → Action Db Fault Bool
  unfolding set_lock
  acquire_over lock stats content expire_seconds current_time none =
      set_lock lock stats content expire_seconds
  acquire_over lock stats content expire_seconds current_time (some current_lock) = do
    lock_info ← or_raise (j.decode current_lock)
    expire_time ← or_raise (lua_number j lock_info.expire_time)
    if ltb current_time expire_time then pure false else set_lock lock stats content expire_seconds

  unfoldable pub acquire_script : Text → Text → Text → ℕ → ℕ → Action Db Fault Bool
  unfolding acquire_over
  acquire_script lock stats content expire_seconds current_time = do
    current_lock ← redis_call r (get lock)
    acquire_over lock stats content expire_seconds current_time (lua_text current_lock)

  unfoldable pub release_over : Text → Text → Text → Text → Option Text → Action Db Fault Code
  release_over lock stats owner thread_id none = pure missing
  release_over lock stats owner thread_id (some current_lock) = do
    lock_info ← or_raise (j.decode current_lock)
    if holds lock_info owner thread_id
        then (do redis_call r (del lock); redis_call r (hincrby stats total_released 1); pure done)
        else pure foreign

  unfoldable pub release_script : Text → Text → Text → Text → Action Db Fault Code
  unfolding release_over
  release_script lock stats owner thread_id = do
    current_lock ← redis_call r (get lock)
    release_over lock stats owner thread_id (lua_text current_lock)

  unfoldable pub force_script : Text → Text → Action Db Fault Bool
  force_script lock stats = do
    deleted ← redis_call r (del lock)
    if is_deleted (lua_int deleted)
        then (do redis_call r (hincrby stats total_released 1); pure true)
        else pure false

  unfoldable pub renew_over : Text → Text → Text → ℕ → ℕ → Option Text → Action Db Fault Code
  renew_over lock owner thread_id expire_seconds current_time none = pure missing
  renew_over lock owner thread_id expire_seconds current_time (some current_lock) = do
    lock_info ← or_raise (j.decode current_lock)
    if holds lock_info owner thread_id
        then (do
          updated ← or_raise (j.encode (renewed lock_info current_time expire_seconds))
          redis_call r (set_ex lock updated expire_seconds)
          pure done)
        else pure foreign

  unfoldable pub renew_script : Text → Text → Text → ℕ → ℕ → Action Db Fault Code
  unfolding renew_over
  renew_script lock owner thread_id expire_seconds current_time = do
    current_lock ← redis_call r (get lock)
    renew_over lock owner thread_id expire_seconds current_time (lua_text current_lock)
