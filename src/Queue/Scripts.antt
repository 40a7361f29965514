-- ===== src/Queue/Scripts.antt =====
-- The Lua scripts of reliablequeue/queue.go, statement by statement.
use remix.Base.{
  ℕ, Bool, true, false, List, [], ◌∷◌, Option, none, some, Action, pure, ◌>>=◌, ◌>>◌, Text, leb,
  ◌==◌, if◌then◌else◌,
}
use remix.Redis.Command.{get, set, del, hincrby, lpush, lpos, lrem, zadd, zrem, zrangebyscore}
use remix.Redis.Server.{Redis}
use remix.Redis.Client.{Fault, redis_call, lua_int, lua_text, lua_texts}
use remix.Queue.Keys.{total_enqueued, total_processed}

-- Lua's `removed == 1`, and the truth of a reply that may be `false`.
abbrev pub is_one : Option ℕ → Bool
is_one none = false
is_one (some n) = n == 1

abbrev pub is_some {ℓ} : {A : Type ℓ} → Option A → Bool
is_some none = false
is_some (some a) = true

module _ (r : Redis) where
  open r use {Db}

  unfoldable pub offer_script :
      Text → Text → Text → Text → Text → ℕ → ℕ → Action Db Fault (Unit {0})
  offer_script message stats queue delayed content visible_time current_time = do
    redis_call r (set message content)
    redis_call r (hincrby stats total_enqueued 1)
    if leb visible_time current_time
        then redis_call r (lpush queue message)
        else redis_call r (zadd delayed visible_time message)
    pure tt

  unfoldable pub poll_script : Text → Text → Text → ℕ → Action Db Fault (Unit {0})
  poll_script message processing content timeout_score = do
    redis_call r (set message content)
    redis_call r (zadd processing timeout_score message)
    pure tt

  -- `true` for the answer 'OK', `false` for 'NOT_FOUND'.
  unfoldable pub ack_script : Text → Text → Text → Action Db Fault Bool
  ack_script message processing stats = do
    removed ← redis_call r (zrem processing message)
    if is_one (lua_int removed)
        then (do
          redis_call r (del message)
          redis_call r (hincrby stats total_processed 1)
          pure true)
        else pure false

  unfoldable pub move_all : Text → Text → List Text → Action Db Fault (Unit {0})
  move_all delayed queue [] = pure tt
  move_all delayed queue (m ∷ ms) = do
    redis_call r (lpush queue m)
    redis_call r (zrem delayed m)
    move_all delayed queue ms

  unfoldable pub move_delayed_script : Text → Text → ℕ → Action Db Fault (Unit {0})
  move_delayed_script delayed queue current_time = do
    messages ← redis_call r (zrangebyscore delayed current_time)
    move_all delayed queue (lua_texts messages)

  unfoldable pub requeue_read : Text → Text → Action Db Fault Bool
  requeue_read message queue = do
    content ← redis_call r (get message)
    if is_some (lua_text content)
        then (do redis_call r (lpush queue message); pure true)
        else pure false

  unfoldable pub requeue_script : Text → Text → Text → Action Db Fault Bool
  unfolding requeue_read
  requeue_script message dead_letter queue = do
    pos ← redis_call r (lpos dead_letter message)
    if is_some (lua_int pos)
        then (do redis_call r (lrem dead_letter message); requeue_read message queue)
        else pure false
