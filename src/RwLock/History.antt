-- ===== src/RwLock/History.antt =====
-- Histories of a read-write lock: calls of any lock objects, with lost calls and lost answers,
-- forced releases, and keys that Redis lets expire (lock/rwlock.go).
use remix.Base.{◌≤◌, ◌≡◌, sym, Text, ℕ}
use remix.Redis.Command.{del}
use remix.Redis.Server.{Redis}
use remix.Redis.Client.{Env}
use remix.Lock.Types.{Json, seconds}
use remix.RwLock.Types.{Objects}
use remix.RwLock.Keys.{Slot, key}
use remix.RwLock.Ops.{
  ReadLock, WriteLock, try_acquire_read_lock, read_unlock, force_read_unlock,
  try_acquire_write_lock, write_unlock, force_write_unlock,
}
use remix.RwLock.Exclusion.{Excludes-later}
use remix.RwLock.Kept.{
  Safe, reads-Safe, stops_reading-Safe, forces_reading-Safe, writes-Safe, stops_writing-Safe,
  forces_writing-Safe, lapses-Safe,
}

-- One call: of a method with its clock, or the expiry of a key.
pub data Event : Type 0 where
  reads : ReadLock → ℕ → Event
  stops_reading : ReadLock → Event
  forces_reading : ReadLock → Event
  writes : WriteLock → ℕ → Event
  stops_writing : WriteLock → Event
  forces_writing : WriteLock → Event
  lapses : Slot → Event

module _ (r : Redis) (j : Json) (o : Objects) (n : Text) where
  -- The event at a clock in seconds; an attempt reads its clock in nanoseconds.
  unfoldable pub perform : Event → Env r.Db → Env r.Db
  perform (reads l at) e = (try_acquire_read_lock r j o l at e).1
  perform (stops_reading l) e = (read_unlock r j o l e).1
  perform (forces_reading l) e = (force_read_unlock r j o l e).1
  perform (writes l at) e = (try_acquire_write_lock r j o l at e).1
  perform (stops_writing l) e = (write_unlock r j o l e).1
  perform (forces_writing l) e = (force_write_unlock r j o l e).1
  perform (lapses s) e = record e { db = (r.run (del (key n s)) e.db).1 }

  -- The event is one of the lock `n`, and an attempt's clock shows `now`.
  abbrev pub IsOf : ℕ → Event → Type 0
  IsOf now (reads l at) = (l.rw_lock.name ≡ n) × (seconds at ≡ now)
  IsOf now (stops_reading l) = l.rw_lock.name ≡ n
  IsOf now (forces_reading l) = l.rw_lock.name ≡ n
  IsOf now (writes l at) = (l.rw_lock.name ≡ n) × (seconds at ≡ now)
  IsOf now (stops_writing l) = l.rw_lock.name ≡ n
  IsOf now (forces_writing l) = l.rw_lock.name ≡ n
  IsOf now (lapses s) = Unit {0}

  -- A sequence of events whose clocks do not go back.
  pub data Leads (s : ℕ) (e : Env r.Db) : ℕ → Env r.Db → Type 0 where
    nothing : Leads s e s e
    next :
        {t : ℕ} {f : Env r.Db}
        → Leads s e t f
        → (now : ℕ) (x : Event) → t ≤ now
        → IsOf now x
        → Leads s e now (perform x f)

  perform-Safe :
      (now : ℕ) (x : Event) (e : Env r.Db)
      → IsOf now x
      → Safe r j o n now e.db
      → Safe r j o n now (perform x e).db
  unfolding perform
  perform-Safe now (reads l at) e (p, q) h =
      rw (sym p, sym q) (reads-Safe r j o l at e (rw (sym p, sym q) at h))
  perform-Safe now (stops_reading l) e p h =
      rw (sym p) (stops_reading-Safe r j o l now e (rw (sym p) at h))
  perform-Safe now (forces_reading l) e p h =
      rw (sym p) (forces_reading-Safe r j o l now e (rw (sym p) at h))
  perform-Safe now (writes l at) e (p, q) h =
      rw (sym p, sym q) (writes-Safe r j o l at e (rw (sym p, sym q) at h))
  perform-Safe now (stops_writing l) e p h =
      rw (sym p) (stops_writing-Safe r j o l now e (rw (sym p) at h))
  perform-Safe now (forces_writing l) e p h =
      rw (sym p) (forces_writing-Safe r j o l now e (rw (sym p) at h))
  perform-Safe now (lapses s) e p h = lapses-Safe r j o n s now e.db h

  -- In every sequence of read-lock and write-lock calls of any objects of the lock (attempts,
  -- releases, forced releases), of lost calls and lost answers, and of keys that Redis lets
  -- expire, whose clocks in seconds do not go back: when at the start no reader is stored beside
  -- another holder's writer whose lease runs, none is at the end, whatever the leases.
  pub excludes_always :
      {s : ℕ} {e : Env r.Db} {t : ℕ} {f : Env r.Db}
      → Leads s e t f
      → Safe r j o n s e.db
      → Safe r j o n t f.db
  excludes_always nothing h = h
  excludes_always (next {t} {f} l now x p q) h =
      let (v, a, b) = excludes_always l h in
      perform-Safe now x f q (v, a, Excludes-later j o t now v p b)
