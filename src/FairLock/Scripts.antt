-- ===== src/FairLock/Scripts.antt =====
-- The Lua scripts of lock/fair_lock.go, statement by statement.
use remix.Base.{
  ℕ, ◌-◌, Bool, true, false, Option, none, some, Action, pure, fail, ◌>>=◌, ◌>>◌, Text, ltb, ◌==◌,
  if◌then◌else◌,
}
use remix.Redis.Command.{get, zscore, zadd, zrank, zremrangebyscore}
use remix.Redis.Server.{Redis}
use remix.Redis.Client.{Fault, redis_nil, redis_call, lua_int, lua_text}
use remix.Lock.Types.{Json, lua_number}
use remix.Lock.Scripts.{or_raise}
use remix.FairLock.Types.{Doubles}

-- A script's last reply as Go receives it: a missing value is the error `redis.Nil`.
abbrev pub number_reply : {S : Type 0} → Option ℕ → Action S Fault ℕ
number_reply none = fail redis_nil
number_reply (some n) = pure n

-- A script's Boolean as Go receives it: Redis turns `true` into 1 and `false` into a missing value.
abbrev pub boolean_reply : {S : Type 0} → Bool → Action S Fault Bool
boolean_reply true = pure true
boolean_reply false = fail redis_nil

module _ (r : Redis) (j : Json) (q : Doubles) where
  open r use {Db}
  open q use {double}

  -- What ZSCORE has found: a member of the queue is answered with its score.
  unfoldable pub join_over : Text → ℕ → Text → Option ℕ → Action Db Fault ℕ
  join_over queue current_time member (some existing_score) = pure existing_score
  join_over queue current_time member none = do
    redis_call r (zadd queue (double current_time) member)
    place ← redis_call r (zrank queue member)
    number_reply (lua_int place)

  unfoldable pub join_script : Text → ℕ → Text → Action Db Fault ℕ
  unfolding join_over
  join_script queue current_time member = do
    existing_score ← redis_call r (zscore queue member)
    join_over queue current_time member (lua_int existing_score)

  -- What GET has found.
  unfoldable pub check_over : ℕ → ℕ → Option Text → Action Db Fault Bool
  check_over queue_position current_time none = boolean_reply (queue_position == 0)
  check_over queue_position current_time (some current_lock) = do
    lock_info ← or_raise (j.decode current_lock)
    expire_time ← or_raise (lua_number j lock_info.expire_time)
    if ltb current_time expire_time
        then boolean_reply (queue_position == 0)
        else boolean_reply (queue_position == 0)

  unfoldable pub check_script : Text → ℕ → ℕ → Action Db Fault Bool
  unfolding check_over
  check_script lock queue_position current_time = do
    current_lock ← redis_call r (get lock)
    check_over queue_position current_time (lua_text current_lock)

  -- A range of scores that ends below 0 is empty.
  unfoldable pub cleanup_script : Text → ℕ → ℕ → Action Db Fault (Unit {0})
  cleanup_script queue current_time expire_duration =
      if ltb (double current_time) (double expire_duration) then pure tt else (do
        redis_call r
            (zremrangebyscore queue (double (double current_time - double expire_duration)))
        pure tt)
