-- ===== src/RwLock/Kept.antt =====
-- Each call on a read-write lock, also one that is lost or whose answer is lost, and each key that
-- expires keep readers and writers apart (lock/rwlock.go).
use remix.Base.{
  if◌then◌else◌, pure, fail, wrap, ◌≡◌, refl, Bool, true, false, List, [], ◌∷◌, ok, err, Result,
  Action, after, Text, ℕ,
}
use remix.Redis.Command.{del}
use remix.Redis.Server.{Redis}
use remix.Redis.Client.{
  int_of, query, Fault, Env, Outcome, answered, lost, unanswered, send, call, transaction,
}
use remix.Lock.Types.{plain, release_failed, Json, Error, not_held, seconds}
use remix.Lock.Keys.{holder}
use remix.Lock.Scripts.{Code, missing, foreign, done}
use remix.RwLock.Types.{Objects}
use remix.RwLock.Keys.{read_lock_key, read_count_key, write_lock_key, stats_key, Slot, key}
use remix.RwLock.Ops.{
  ReadLock, WriteLock, try_acquire_read_lock, read_unlock, force_read_unlock,
  try_acquire_write_lock, write_unlock, write_answer, force_write_unlock,
}
use remix.RwLock.Scripts.{release_read_script, release_write_script}
use remix.RwLock.Spec.{read_released, write_acquired, write_released}
use remix.RwLock.View.{View, Holds}
use remix.RwLock.View.Commands.{del_slot, hdel-readers, hdel-counts, del-writer}
use remix.RwLock.Exclusion.{
  Excludes-free, dropped-Excludes, emptied-Excludes, Excludes, read_acquired-Excludes,
  read_released-Excludes,
}
use remix.RwLock.Exclusion.Writing.{write_acquired-Excludes, write_released-Excludes}
use remix.RwLock.Refine.Read.{acquire_read_script-Gives, release_read_script-Gives}
use remix.RwLock.Refine.Write.{acquire_write_script-Gives, release_write_script-Gives}

send-settles :
    {D A : Type 0} (P : D → Type 0) (net : List Outcome) (f : D → Result Fault A × D) (d : D)
    → P d
    → P (f d).1
    → P (send net f d).1.db
send-settles P [] f d p q = q
send-settles P (answered ∷ net) f d p q = q
send-settles P (lost ∷ net) f d p q = p
send-settles P (unanswered ∷ net) f d p q = q

-- A continuation that leaves the state alone.
after_keeps :
    {S E A B : Type 0} (f : A → Action S E B) (x : Result E A × S)
    → ((a : A) (s : S) → (f a s).1 ≡ s)
    → (after x f).1 ≡ x.1
after_keeps f (ok a, s) k = k a s
after_keeps f (err e, s) k = refl

module _ (r : Redis) (j : Json) (o : Objects) (n : Text) where
  -- The server shows a lock whose readers and writer keep each other out.
  abbrev pub Safe : ℕ → r.Db → Type 0
  Safe now d = (v : View) × Holds r n d v × Excludes j o now v

module _ (r : Redis) (j : Json) (o : Objects) where
  pub reads-Safe :
      (l : ReadLock) (at : ℕ) (e : Env r.Db)
      → Safe r j o l.rw_lock.name (seconds at) e.db
      → Safe r j o l.rw_lock.name (seconds at) (try_acquire_read_lock r j o l at e).1.db
  unfolding try_acquire_read_lock
  reads-Safe l at e (v, h, x) =
      send-settles (Safe r j o l.rw_lock.name (seconds at)) e.net _ e.db (v, h, x)
        (let lease = seconds l.rw_lock.config.lease_duration in
          let g =
            acquire_read_script-Gives r j o l.rw_lock.name l.owner l.thread_id lease (seconds at)
              e.db h in
          (
            _,
            g.leaves,
            read_acquired-Excludes j o l.rw_lock.name l.owner l.thread_id lease (seconds at) v x,
          ))

  pub stops_reading-Safe :
      (l : ReadLock) (now : ℕ) (e : Env r.Db)
      → Safe r j o l.rw_lock.name now e.db
      → Safe r j o l.rw_lock.name now (read_unlock r j o l e).1.db
  unfolding read_unlock read_released
  stops_reading-Safe l now e (v, h, x) =
      let me = holder l.owner l.thread_id in
      let g = release_read_script-Gives r j o l.rw_lock.name me _ _ e.db refl refl h in
      rw
        (after_keeps (λ (b : Bool). if b then pure tt else fail not_held)
          (wrap release_failed
            (call (
              release_read_script r j o (read_lock_key l.rw_lock.name)
                (read_count_key l.rw_lock.name) (stats_key l.rw_lock.name) me))
            e)
          (answer_keeps))
        (send-settles (Safe r j o l.rw_lock.name now) e.net _ e.db (v, h, x)
          (_, g.leaves, read_released-Excludes j o me now v x))
    where
      answer_keeps :
          (b : Bool) (s : Env r.Db)
          → (if◌then◌else◌ {A = Action (Env r.Db) Error (Unit {0})} b (pure tt) (fail not_held) s).1
            ≡ s
      answer_keeps true s = refl
      answer_keeps false s = refl

  pub forces_reading-Safe :
      (l : ReadLock) (now : ℕ) (e : Env r.Db)
      → Safe r j o l.rw_lock.name now e.db
      → Safe r j o l.rw_lock.name now (force_read_unlock r j o l e).1.db
  unfolding force_read_unlock transaction
  forces_reading-Safe l now e (v, h, x) =
      let me = holder l.owner l.thread_id in
      let n = l.rw_lock.name in
      send-settles (Safe r j o n now) e.net _ e.db (v, h, x)
        (
          _,
          (hdel-counts r n (hdel-readers r n h me).holds me).holds,
          dropped-Excludes j o me now true v x,
        )

  pub writes-Safe :
      (l : WriteLock) (at : ℕ) (e : Env r.Db)
      → Safe r j o l.rw_lock.name (seconds at) e.db
      → Safe r j o l.rw_lock.name (seconds at) (try_acquire_write_lock r j o l at e).1.db
  unfolding try_acquire_write_lock write_acquired
  writes-Safe l at e (v, h, x) =
      send-settles (Safe r j o l.rw_lock.name (seconds at)) e.net _ e.db (v, h, x)
        (let lease = seconds l.rw_lock.config.lease_duration in
          let g =
            acquire_write_script-Gives r j o l.rw_lock.name l.owner l.thread_id lease (seconds at) _
              e.db refl h in
          (
            _,
            g.leaves,
            write_acquired-Excludes j o l.rw_lock.name l.owner l.thread_id lease (seconds at) v x,
          ))

  pub stops_writing-Safe :
      (l : WriteLock) (now : ℕ) (e : Env r.Db)
      → Safe r j o l.rw_lock.name now e.db
      → Safe r j o l.rw_lock.name now (write_unlock r j o l e).1.db
  unfolding write_unlock write_answer write_released
  stops_writing-Safe l now e (v, h, x) =
      let me = holder l.owner l.thread_id in
      let g = release_write_script-Gives r j o l.rw_lock.name me _ e.db refl h in
      rw
        (after_keeps (write_answer r j o l)
          (wrap release_failed
            (call (
              release_write_script r j o (write_lock_key l.rw_lock.name) (stats_key l.rw_lock.name)
                me))
            e)
          (answer_keeps))
        (send-settles (Safe r j o l.rw_lock.name now) e.net _ e.db (v, h, x)
          (_, g.leaves, write_released-Excludes j o me now v x))
    where
      answer_keeps : (c : Code) (s : Env r.Db) → (write_answer r j o l c s).1 ≡ s
      answer_keeps missing s = refl
      answer_keeps foreign s = refl
      answer_keeps done s = refl

  pub forces_writing-Safe :
      (l : WriteLock) (now : ℕ) (e : Env r.Db)
      → Safe r j o l.rw_lock.name now e.db
      → Safe r j o l.rw_lock.name now (force_write_unlock r j o l e).1.db
  unfolding force_write_unlock
  forces_writing-Safe l now e (v, h, x) =
      rw
        (after_keeps (λ (m : ℕ). pure tt)
          (wrap plain (query r (del (write_lock_key l.rw_lock.name)) int_of) e) (λ m s. refl))
        (send-settles (Safe r j o l.rw_lock.name now) e.net _ e.db (v, h, x)
          (_, (del-writer r l.rw_lock.name h).holds, Excludes-free j o now _ refl))

  pub lapses-Safe :
      (n : Text) (s : Slot) (now : ℕ) (d : r.Db)
      → Safe r j o n now d
      → Safe r j o n now (r.run (del (key n s)) d).1
  lapses-Safe n s now d (v, h, x) = (_, (del_slot r n h s).holds, emptied-Excludes j o now s v x)
