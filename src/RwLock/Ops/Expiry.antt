-- ===== src/RwLock/Ops/Expiry.antt =====
-- The time left of the keys of a read-write lock (lock/rwlock.go).
use remix.Base.{ℕ, Action, pure, ◌>>=◌, wrap}
use remix.Redis.Server.{Redis}
use remix.Redis.Client.{Env}
use remix.Redis.Expiry.{Expiries, query_ttl}
use remix.Lock.Types.{Error, plain}
use remix.Lock.Ops.{time_left}
use remix.RwLock.Keys.{read_lock_key, write_lock_key}
use remix.RwLock.Ops.Loop.{ReadLock, WriteLock}

module _ (r : Redis) (x : Expiries r) where
  unfoldable pub read_time_to_live : ReadLock → Action (Env r.Db) Error ℕ
  read_time_to_live l = do
    ttl ← wrap plain (query_ttl r x (read_lock_key l.rw_lock.name))
    pure (time_left ttl)

  unfoldable pub write_time_to_live : WriteLock → Action (Env r.Db) Error ℕ
  write_time_to_live l = do
    ttl ← wrap plain (query_ttl r x (write_lock_key l.rw_lock.name))
    pure (time_left ttl)
