-- ===== src/Lock/Ops/Expiry.antt =====
-- The time left of a lock's key (lock/lock.go).
use remix.Base.{ℕ, Action, pure, ◌>>=◌, wrap, ℤ, pos, negsuc}
use remix.Redis.Server.{Redis}
use remix.Redis.Client.{Env}
use remix.Redis.Expiry.{Expiries, query_ttl}
use remix.Lock.Types.{Error, ttl_failed}
use remix.Lock.Keys.{lock_key}
use remix.Lock.Ops.Info.{Lock}

-- A missing key, and a key without expiry, have no time left.
abbrev pub time_left : ℤ → ℕ
time_left (pos n) = n
time_left (negsuc n) = 0

module _ (r : Redis) (x : Expiries r) (l : Lock) where
  unfoldable pub get_remaining_time_to_live : Action (Env r.Db) Error ℕ
  get_remaining_time_to_live = do
    ttl ← wrap ttl_failed (query_ttl r x (lock_key l.name))
    pure (time_left ttl)
