-- ===== src/Lock/Ops/Info.antt =====
-- The state of a lock object, and the stored information that it reads and updates (lock/lock.go).
use remix.Base.{
  ℕ, Bool, false, ◌&&◌, [], ◌∷◌, Option, none, some, Result, ok, err, Action, pure, fail, ◌>>=◌,
  attempt, wrap, Text, text_eq, ltb, if◌then◌else◌,
}
use remix.Redis.Command.{get, set_expiring}
use remix.Redis.Server.{Redis}
use remix.Redis.Client.{Fault, redis_nil, Env, call, query, text_of, transaction}
use remix.Lock.Types.{
  LockConfig, default_lock_config, LockInfo, Error, not_found, info_failed, plain, marshal_failed,
  unmarshal_failed, Json, document_of, info_of,
}
use remix.Lock.Keys.{lock_key, holder}

-- The fields of `redisLock` that never change.
pub record Lock : Type 0 where
  pub name : Text
  pub config : LockConfig
  pub owner : Text
  pub thread_id : Text

abbrev pub or_default : Option LockConfig → LockConfig
or_default none = default_lock_config
or_default (some config) = config

-- The owner and the thread are drawn by the caller of the model.
unfoldable pub new_lock : Text → Option LockConfig → Text → Text → Lock
new_lock name config owner thread_id = record {
  name = name;
  config = or_default config;
  owner = owner;
  thread_id = thread_id;
}

-- The fields that change, beside the server and the network.
pub record World (D : Type 0) : Type 0 where
  pub env : Env D
  pub hold_count : ℕ
  -- Renewal tasks started on the current channels, which close the current end channel.
  pub tasks : ℕ
  -- Tasks that have gone on with the current stop channel after an earlier one; the end channel
  -- that they close is closed already.
  pub stale : ℕ

-- The tasks, of each sort, that have taken a tick and wait for the mutex in `renewLock`.
pub record Ticks : Type 0 where
  pub fresh : ℕ
  pub stale : ℕ

-- One round of the loop of `lockInternal`: the clock when the lock is tried, the time since the
-- start when the attempt has failed, whether the context is done before the retry interval is over,
-- and what others do to the server until the next round.
pub record Round (D : Type 0) : Type 0 where
  pub now : ℕ
  pub since : ℕ
  pub done : Bool
  pub meanwhile : D → D

-- A call in the world of a lock object, and the setting of its hold count.
abbrev pub remote : {D E A : Type 0} → Action (Env D) E A → Action (World D) E A
remote m w = ((m w.env).0, record w { env = (m w.env).1 })

abbrev pub hold : {D : Type 0} → ℕ → Action (World D) Error (Unit {0})
hold n w = (ok tt, record w { hold_count = n })

abbrev pub or_fail : {S A : Type 0} → Error → Option A → Action S Error A
or_fail e none = fail e
or_fail e (some a) = pure a

module _ (r : Redis) (j : Json) (l : Lock) where
  open r use {Db}

  abbrev pub Remote : Type 0 → Type 0
  Remote A = Action (Env Db) Error A

  abbrev pub Op : Type 0 → Type 0
  Op A = Action (World Db) Error A

  unfoldable pub marshalled : LockInfo → Option Text
  unfolding document_of
  marshalled info = j.encode (document_of j info)

  unfoldable pub unmarshalled : Text → Option LockInfo
  unfolding info_of
  unmarshalled content = elim (j.decode content) [ none ↦ none | some x ↦ info_of j x ]

  unfoldable pub info_read : Result Fault Text → Remote (Option LockInfo)
  info_read (ok content) = do
    info ← or_fail unmarshal_failed (unmarshalled content)
    pure (some info)
  info_read (err redis_nil) = pure none
  info_read (err f) = fail (info_failed f)

  unfoldable pub get_lock_info : Remote (Option LockInfo)
  unfolding info_read
  get_lock_info = do content ← attempt (query r (get (lock_key l.name)) text_of); info_read content

  unfoldable pub updated : ℕ → ℕ → Option LockInfo → Remote (Unit {0})
  updated count now none = fail not_found
  updated count now (some info) = do
    content ←
        or_fail marshal_failed
          (marshalled (record info { hold_count = count; last_renewal_time = now }))
    wrap plain
        (call (transaction r (set_expiring (lock_key l.name) content l.config.lease_duration ∷ [])))

  unfoldable pub update_lock_info : ℕ → ℕ → Remote (Unit {0})
  unfolding get_lock_info updated
  update_lock_info count now = do info ← get_lock_info; updated count now info

  -- Is the stored information ours?
  abbrev pub ours : Result Error (Option LockInfo) → Bool
  ours (ok (some info)) = text_eq (holder info.owner info.thread_id) (holder l.owner l.thread_id)
  ours _ = false

  abbrev pub unexpired : ℕ → Option LockInfo → Bool
  unexpired now none = false
  unexpired now (some info) = ltb now info.expire_time

  unfoldable pub is_locked : ℕ → Remote Bool
  is_locked now = do info ← get_lock_info; pure (unexpired now info)

  unfoldable pub is_held_by_current_thread : ℕ → Remote Bool
  is_held_by_current_thread now = do
    info ← get_lock_info
    pure (ours (ok info) && unexpired now info)

  unfoldable pub get_hold_count : ℕ → Op ℕ
  get_hold_count now w =
      (do held ← remote (is_held_by_current_thread now); pure (if held then w.hold_count else 0)) w
