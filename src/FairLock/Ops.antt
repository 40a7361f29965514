-- ===== src/FairLock/Ops.antt =====
-- The methods of redisFairLock (lock/fair_lock.go). Its base lock's methods are those of
-- lock/lock.go.
use remix.Base.{
  err, Result, ℕ, Bool, true, false, ◌&&◌, List, [], ◌∷◌, Option, none, some, Action, pure, fail,
  ◌>>=◌, ◌>>◌, attempt, wrap, Text, ltb, if◌then◌else◌, pos, sub_ℕ,
}
use remix.Redis.Value.{or_zero}
use remix.Redis.Command.{zrem, zcard, hmget}
use remix.Redis.Server.{Redis}
use remix.Redis.Client.{Env, call, query, int_of, ints_of}
use remix.Lock.Types.{
  LockConfig, LockInfo, seconds, Error, lock_timeout, join_failed, check_failed, plain, cancelled,
  starved, Json,
}
use remix.Lock.Keys.{lock_key, stats_key, queue_key, holder, total_acquired, total_released}
use remix.Lock.Ops.{
  Lock, World, Ticks, Round, new_lock, or_default, remote, get_lock_info, ours, lock_again,
  acquired_now, try_acquire_lock, gives_up, wait, as_try, unlock,
}
use remix.FairLock.Types.{Doubles, LockStats, total_timeout_field}
use remix.FairLock.Scripts.{join_script, check_script, cleanup_script}

unfoldable pub new_fair_lock : Text → Option LockConfig → Text → Text → Lock
unfolding new_lock
new_fair_lock name config owner thread_id =
    new_lock name (some (record (or_default config) { fair = true })) owner thread_id

-- A round of the loop: the clock of `canAcquireFairLock`, and the rest as in lock.go.
pub record Turn (D : Type 0) : Type 0 where
  pub checked : ℕ
  pub round : Round D

-- A deferred call, whose result is dropped.
abbrev pub finally :
    {S E F A B : Type 0} → Action S E A → (Result E A → Action S F B) → Action S E A
finally m k s = ((m s).0, (k (m s).0 (m s).1).1)

-- Has the end of the context ended the call?
abbrev pub is_cancelled : Result Error (Unit {0}) → Bool
is_cancelled (err cancelled) = true
is_cancelled _ = false

module _ (r : Redis) (j : Json) (q : Doubles) (l : Lock) where
  open r use {Db}

  abbrev Remote : Type 0 → Type 0
  Remote A = Action (Env Db) Error A

  abbrev Op : Type 0 → Type 0
  Op A = Action (World Db) Error A

  unfoldable pub join_queue : ℕ → Remote ℕ
  join_queue now =
      wrap join_failed
        (call (join_script r j q (queue_key l.name) now (holder l.owner l.thread_id)))

  unfoldable pub leave_queue : Remote (Unit {0})
  leave_queue = do
    wrap plain (query r (zrem (queue_key l.name) (holder l.owner l.thread_id)) int_of)
    pure tt

  -- The deferred `leaveQueue`: with a context that is done the client sends nothing.
  unfoldable pub leave_after : Bool → Remote (Unit {0})
  unfolding leave_queue
  leave_after true = fail cancelled
  leave_after false = leave_queue

  unfoldable pub can_acquire_fair_lock : ℕ → ℕ → Remote Bool
  can_acquire_fair_lock now queue_position =
      wrap check_failed (call (check_script r j q (lock_key l.name) queue_position (seconds now)))

  -- One look at the queue, and the attempt where it is this member's turn.
  unfoldable pub fair_attempt : ℕ → Turn Db → Remote Bool
  unfolding can_acquire_fair_lock
  fair_attempt queue_position t = do
    can_acquire ← can_acquire_fair_lock t.checked queue_position
    if can_acquire then try_acquire_lock r j l t.round.now else pure false

  unfoldable pub fair_loop : ℕ → ℕ → Bool → List (Turn Db) → Op (Unit {0})
  unfolding fair_attempt
  fair_loop queue_position wait_timeout block [] = fail starved
  fair_loop queue_position wait_timeout block (t ∷ ts) = do
    acquired ← remote (fair_attempt queue_position t)
    elim acquired [
      | true ↦ acquired_now r j l
      | false ↦
          if gives_up r j l wait_timeout block t.round.since
          then fail lock_timeout
          else if t.round.done
          then fail cancelled
          else (do wait r j l t.round.meanwhile; fair_loop queue_position wait_timeout block ts)
    ]

  unfoldable pub queue_up : ℕ → ℕ → Bool → List (Turn Db) → Op (Unit {0})
  unfolding join_queue leave_after fair_loop
  queue_up joined wait_timeout block ts = do
    queue_position ← remote (join_queue joined)
    finally (fair_loop queue_position wait_timeout block ts)
        λ result. remote (leave_after (is_cancelled result))

  -- `joined` is the clock of `joinQueue`, or of the update of a re-entrant lock.
  unfoldable pub lock_fair_internal : ℕ → ℕ → Bool → List (Turn Db) → Op (Unit {0})
  unfolding queue_up lock_again
  lock_fair_internal joined wait_timeout block ts w =
      if l.config.reentrant && ltb 0 w.hold_count
      then (do
        info ← attempt (remote (get_lock_info r j l))
        if ours r j l info then lock_again r j l joined else queue_up joined wait_timeout block ts)
          w
      else queue_up joined wait_timeout block ts w

  unfoldable pub fair_lock : ℕ → List (Turn Db) → Op (Unit {0})
  unfolding lock_fair_internal
  fair_lock joined ts = lock_fair_internal joined l.config.wait_timeout true ts

  -- The channel carries the result of `Lock`.
  unfoldable pub lock_async : ℕ → List (Turn Db) → Op (Unit {0})
  unfolding fair_lock
  lock_async joined ts = fair_lock joined ts

  unfoldable pub try_fair_lock : ℕ → List (Turn Db) → Op Bool
  unfolding lock_fair_internal
  try_fair_lock joined ts w = (
    as_try r j l (lock_fair_internal joined 0 false ts w).0,
    (lock_fair_internal joined 0 false ts w).1,
  )

  unfoldable pub try_fair_lock_with_timeout : ℕ → ℕ → List (Turn Db) → Op Bool
  unfolding lock_fair_internal
  try_fair_lock_with_timeout timeout joined ts w = (
    as_try r j l (lock_fair_internal joined timeout false ts w).0,
    (lock_fair_internal joined timeout false ts w).1,
  )

  unfoldable pub get_queue_length : Remote ℕ
  get_queue_length = wrap plain (query r (zcard (queue_key l.name)) int_of)

  unfoldable pub has_queued_threads : Remote Bool
  unfolding get_queue_length
  has_queued_threads = do length ← get_queue_length; pure (ltb 0 length)

  -- The result of the script is dropped.
  unfoldable pub cleanup_queue : ℕ → Remote (Unit {0})
  cleanup_queue now =
      wrap plain (call (cleanup_script r j q (queue_key l.name) now l.config.wait_timeout))

  -- The cleaning runs beside the caller; here it runs at `cleaned`, before the caller goes on.
  unfoldable pub fair_unlock : ℕ → Ticks → ℕ → Op (Unit {0})
  unfolding cleanup_queue
  fair_unlock now ticks cleaned = do
    unlock r j l now ticks
    attempt {F = Error} (remote (cleanup_queue cleaned))
    pure tt

  -- Time left until the expiry: negative once it has passed.
  abbrev pub with_info : ℕ → ℕ → Option LockInfo → LockStats → LockStats
  with_info now later none s = s
  with_info now later (some info) s = record s {
    is_locked = ltb now info.expire_time;
    owner = info.owner;
    hold_count = info.hold_count;
    remaining_ttl = sub_ℕ info.expire_time later;
  }

  abbrev pub with_totals : List (Option ℕ) → LockStats → LockStats
  with_totals (a ∷ b ∷ c ∷ _) s = record s {
    total_acquired = or_zero a;
    total_released = or_zero b;
    total_timeout = or_zero c;
  }
  with_totals _ s = s

  unfoldable pub get_stats : ℕ → ℕ → Remote LockStats
  unfolding get_queue_length
  get_stats now later = do
    lock_info ← get_lock_info r j l
    queue_length ← get_queue_length
    stats_data ← wrap plain (
        query r
          (hmget (stats_key l.name) (total_acquired ∷ total_released ∷ total_timeout_field ∷ []))
          ints_of)
    pure (
        with_totals stats_data (
          with_info now later lock_info (record {
            name = l.name;
            is_locked = false;
            owner = [];
            hold_count = 0;
            remaining_ttl = pos 0;
            waiting_threads = queue_length;
            total_acquired = 0;
            total_released = 0;
            total_timeout = 0;
          })))
