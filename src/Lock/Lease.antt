-- ===== src/Lock/Lease.antt =====
-- Locking, and unlocking before and after the end of the lease (lock/lock.go).
use remix.Base.{Bool, true, false, none, Result, ok, err}
use remix.Redis.Server.{Redis}
use remix.Lock.Types.{Json, Error, not_found}
use remix.Redis.Value.{increase}
use remix.Lock.Keys.{total_acquired, total_released}
use remix.Lock.Ops.{Lock, World}
use remix.Lock.View.{View}
use remix.Lock.Held.{Held, started}

module _ (r : Redis) (j : Json) (l : Lock) where
  -- What TryLock and a later Unlock leave.
  abbrev pub Left : Bool → View → World r.Db → Type 0
  Left false v =
      Held r j l
        (record v {
          stored = none;
          stats = increase total_released 1 (increase total_acquired 1 v.stats);
        })
        0 0 0
  Left true v =
      Held r j l (record v { stored = none; stats = increase total_acquired 1 v.stats }) 1
        (started r j l 0) 0

  abbrev pub left_result : Bool → Result Error (Unit {0})
  left_result false = ok tt
  left_result true = err not_found
