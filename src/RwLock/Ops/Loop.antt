-- ===== src/RwLock/Ops/Loop.antt =====
-- The objects of lock/rwlock.go, and the loop that both locks share.
use remix.Base.{
  ℕ, Bool, true, false, ◌&&◌, ◌||◌, not, List, [], ◌∷◌, Option, Result, ok, err, Action, pure, fail,
  ◌>>=◌, ◌>>◌, Text, ltb, leb, if◌then◌else◌,
}
use remix.Redis.Client.{Env}
use remix.Lock.Types.{LockConfig, Error, lock_timeout, cancelled, starved}
use remix.Lock.Ops.{or_default, Round}

pub record RwLock : Type 0 where
  pub name : Text
  pub config : LockConfig

pub record ReadLock : Type 0 where
  pub rw_lock : RwLock
  pub owner : Text
  pub thread_id : Text

pub record WriteLock : Type 0 where
  pub rw_lock : RwLock
  pub owner : Text
  pub thread_id : Text

-- Each of the two locks draws an owner of its own.
unfoldable pub new_read_write_lock :
    Text → Option LockConfig → Text → Text → Text → Text → ReadLock × WriteLock
new_read_write_lock name config read_owner read_thread write_owner write_thread =
    let rw_lock : RwLock = record { name = name; config = or_default config } in
    (
      record { rw_lock = rw_lock; owner = read_owner; thread_id = read_thread },
      record { rw_lock = rw_lock; owner = write_owner; thread_id = write_thread },
    )

abbrev pub as_try : Result Error (Unit {0}) → Result Error Bool
as_try (ok _) = ok true
as_try (err lock_timeout) = ok false
as_try (err e) = err e

abbrev pub gives_up : ℕ → Bool → ℕ → Bool
gives_up wait_timeout block since = not block || (ltb 0 wait_timeout && leb wait_timeout since)

abbrev pub wait : {D : Type 0} → (D → D) → Action (Env D) Error (Unit {0})
wait others e = (ok tt, record e { db = others e.db })

-- The loop of both `lockInternal` methods around an attempt at a time.
unfoldable pub acquire_loop :
    {D : Type 0}
    → (ℕ → Action (Env D) Error Bool)
    → ℕ
    → Bool
    → List (Round D)
    → Action (Env D) Error (Unit {0})
acquire_loop try_acquire wait_timeout block [] = fail starved
acquire_loop try_acquire wait_timeout block (t ∷ ts) = do
  acquired ← try_acquire t.now
  elim acquired [
    | true ↦ pure tt
    | false ↦
        if gives_up wait_timeout block t.since
        then fail lock_timeout
        else if t.done
        then fail cancelled
        else (do wait t.meanwhile; acquire_loop try_acquire wait_timeout block ts)
  ]
