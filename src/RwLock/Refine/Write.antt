-- ===== src/RwLock/Refine/Write.antt =====
-- The write lock's scripts and methods of lock/rwlock.go, against the specification.
use remix.Base.{
  arith, after, ℕ, zero, suc, ◌+◌, ◌≡◌, refl, Bool, true, false, Option, none, some, Result, ok,
  err, Gives, after-Gives, after-Gives_err, wrap-Gives, map_err, Text, text_eq, length,
}
use remix.Redis.Value.{Cell, field}
use remix.Redis.Command.{cell_of}
use remix.Redis.Server.{Redis}
use remix.Redis.Client.{Fault, Env}
use remix.Lock.Types.{Json, Error, seconds, acquire_failed, release_failed}
use remix.Lock.Keys.{holder}
use remix.Lock.Scripts.{Code, missing, foreign, done}
use remix.RwLock.Types.{lock_object, Object, Objects}
use remix.RwLock.Keys.{read_lock_key, write_lock_key, stats_key}
use remix.RwLock.Scripts.{
  joined, is_there, is_read_locked, read_guard, set_write, acquire_write_script, release_write_over,
  release_write_script,
}
use remix.RwLock.Ops.{WriteLock, try_acquire_write_lock, write_answer, write_unlock}
use remix.RwLock.View.{View, Holds, Online, redis_call-Gives, call-Gives}
use remix.RwLock.View.Commands.{
  checked-cell_of, checked-bulk_of, hlen-readers, hget-readers, get-writer, get_known,
  set_ex-writer, del-writer, hincrby-stats,
}
use remix.RwLock.Refine.Guard.{write_guard-guarded}
use remix.RwLock.Refine.Read.{entered-Gives, is_there-cell_of}
use remix.RwLock.Spec.{
  Answer, is_some, guarded_at, write_taken, write_acquired, write_acquired_when, write_released,
  write_released_at, write_released_over, write_released_by, write_released_when,
}

is_there-field : (c : Option Cell) → is_there (cell_of c) ≡ is_some c
is_there-field none = refl
is_there-field (some c) = is_there-cell_of c

module _ (r : Redis) (j : Json) (o : Objects) (n : Text) where
  read_guard-Gives :
      (me : Text) (count : ℕ) {v : View} (d : r.Db)
      → Holds r n d v
      → Gives
          (read_guard r j o (read_lock_key n) me (some count) d)
          (ok (is_read_locked (some count) (is_some (field me v.readers))))
          (λ d'. Holds r n d' v)
  unfolding read_guard
  read_guard-Gives me zero d h = record { returns = ground arith; leaves = h }
  read_guard-Gives me (suc m) {v} d h =
      after-Gives _ _
        (rw (checked-cell_of (field me v.readers)) at
          (redis_call-Gives r n (hget-readers r n h me)))
        λ d h. rw (is_there-field (field me v.readers)) (record { returns = refl; leaves = h })

  set_write-Gives :
      (owner thread_id content : Text) (lease now : ℕ) {v : View} (d : r.Db)
      → o.encode (lock_object (write_lock_key n) owner thread_id now (now + lease)) ≡ content
      → Holds r n d v
      → Gives
          (set_write r j o (write_lock_key n) (stats_key n) owner thread_id lease now d)
          (write_taken content lease v).0
          (λ d'. Holds r n d' (write_taken content lease v).1)
  unfolding set_write
  set_write-Gives owner thread_id content zero now d w h =
      rw w (after-Gives_err _ _ (redis_call-Gives r n (set_ex-writer r n h content zero)))
  set_write-Gives owner thread_id content (suc t) now d w h = rw w (
      after-Gives _ _ (redis_call-Gives r n (set_ex-writer r n h content (suc t))) λ d h.
        after-Gives _ _ (redis_call-Gives r n (hincrby-stats r n h _ 1))
          λ d h. record { returns = refl; leaves = h })

  pub acquire_write_script-Gives :
      (owner thread_id : Text) (lease now : ℕ) (locked : Bool) {v : View} (d : r.Db)
      → is_read_locked
          (some (length v.readers))
          (is_some (field (holder owner thread_id) v.readers))
        ≡ locked
      → Holds r n d v
      → Gives
          (acquire_write_script r j o
            (read_lock_key n)
            (write_lock_key n)
            (stats_key n)
            owner
            thread_id
            lease
            now
            d)
          (write_acquired_when j o locked
            (holder owner thread_id)
            (o.encode (lock_object (write_lock_key n) owner thread_id now (now + lease)))
            lease
            now
            v).0
          (λ d'.
            Holds r n d'
              (write_acquired_when j o locked
                (holder owner thread_id)
                (o.encode (lock_object (write_lock_key n) owner thread_id now (now + lease)))
                lease
                now
                v).1)
  unfolding acquire_write_script
  acquire_write_script-Gives owner thread_id lease now true {v} d e h =
      after-Gives _ _ (redis_call-Gives r n (hlen-readers r n h)) λ d h.
        after-Gives _ _ (rw e at (read_guard-Gives (holder owner thread_id) (length v.readers) d h))
          λ d h. record { returns = refl; leaves = h }
  acquire_write_script-Gives owner thread_id lease now false {v} d e h =
      after-Gives _ _ (redis_call-Gives r n (hlen-readers r n h)) λ d h.
        after-Gives _ _ (rw e at (read_guard-Gives (holder owner thread_id) (length v.readers) d h))
          λ d h.
            after-Gives _ _
              (rw (checked-bulk_of v.writer) at (redis_call-Gives r n (get-writer r n h)))
              λ d h. rw (write_guard-guarded r j o (holder owner thread_id) now v.writer d) (
                entered-Gives r j o n owner thread_id
                  (guarded_at j o (holder owner thread_id) now v.writer) _ _ d h
                  (set_write-Gives owner thread_id _ lease now d refl h) refl)

  release_when-Gives :
      (me s w : Text) (mine : Bool) (x : Object) {v : View} (d : r.Db)
      → o.decode s ≡ some x
      → joined x.owner x.thread_id ≡ some w
      → text_eq w me ≡ mine
      → Holds r n d v
      → Gives
          (release_write_over r j o (write_lock_key n) (stats_key n) me (some s) d)
          (write_released_when mine v).0
          (λ d'. Holds r n d' (write_released_when mine v).1)
  unfolding release_write_over
  release_when-Gives me s w true x d m p e h =
      rw (m, p, e)
        (after-Gives _ _ (redis_call-Gives r n (del-writer r n h)) λ d h.
          after-Gives _ _ (redis_call-Gives r n (hincrby-stats r n h _ 1))
            λ d h. record { returns = refl; leaves = h })
  release_when-Gives me s w false x d m p e h = rw (m, p, e) (record { returns = refl; leaves = h })

  release_by-Gives :
      (me s : Text) (w : Option Text) (x : Object) {v : View} (d : r.Db)
      → o.decode s ≡ some x
      → joined x.owner x.thread_id ≡ w
      → Holds r n d v
      → Gives
          (release_write_over r j o (write_lock_key n) (stats_key n) me (some s) d)
          (write_released_by me w v).0
          (λ d'. Holds r n d' (write_released_by me w v).1)
  unfolding release_write_over
  release_by-Gives me s none x d m p h = rw (m, p) (record { returns = refl; leaves = h })
  release_by-Gives me s (some w) x d m p h = release_when-Gives me s w _ x d m p refl h

  release_over-Gives :
      (me s : Text) (x : Option Object) {v : View} (d : r.Db)
      → o.decode s ≡ x
      → Holds r n d v
      → Gives
          (release_write_over r j o (write_lock_key n) (stats_key n) me (some s) d)
          (write_released_over j o me x v).0
          (λ d'. Holds r n d' (write_released_over j o me x v).1)
  unfolding release_write_over
  release_over-Gives me s none d m h = rw m (record { returns = refl; leaves = h })
  release_over-Gives me s (some x) d m h = release_by-Gives me s _ x d m refl h

  pub release_write_script-Gives :
      (me : Text) (s : Option Text) {v : View} (d : r.Db)
      → v.writer ≡ s
      → Holds r n d v
      → Gives
          (release_write_script r j o (write_lock_key n) (stats_key n) me d)
          (write_released_at j o me s v).0
          (λ d'. Holds r n d' (write_released_at j o me s v).1)
  unfolding release_write_script release_write_over
  release_write_script-Gives me none d e h =
      after-Gives _ _ (redis_call-Gives r n (get_known r n h e))
        λ d h. record { returns = refl; leaves = h }
  release_write_script-Gives me (some s) d e h =
      after-Gives _ _ (redis_call-Gives r n (get_known r n h e))
        λ d h. release_over-Gives me s _ d refl h

module _ (r : Redis) (j : Json) (o : Objects) (l : WriteLock) where
  -- With every call answered, whatever the lease: an attempt to take the write lock returns the
  -- result of the specification and leaves its lock, on every branch: other readers, a writer that
  -- cannot be read, another writer whose lease runs, a lease of no whole second, and the lock
  -- taken.
  pub try_acquire_write_lock-acquired :
      (now : ℕ) {v : View} (e : Env r.Db)
      → Online r l.rw_lock.name v e
      → Gives
          (try_acquire_write_lock r j o l now e)
          (map_err acquire_failed
            (write_acquired j o l.rw_lock.name l.owner l.thread_id
              (seconds l.rw_lock.config.lease_duration)
              (seconds now)
              v).0)
          (Online r l.rw_lock.name
            (write_acquired j o l.rw_lock.name l.owner l.thread_id
              (seconds l.rw_lock.config.lease_duration)
              (seconds now)
              v).1)
  unfolding try_acquire_write_lock write_acquired
  try_acquire_write_lock-acquired now {v} e p = wrap-Gives acquire_failed _ (
      call-Gives r l.rw_lock.name _ e p.net (
        acquire_write_script-Gives r j o l.rw_lock.name l.owner l.thread_id
          (seconds l.rw_lock.config.lease_duration) (seconds now) _ e.db refl p.holds))

  -- The result of `Unlock` from the script's answer.
  abbrev pub unlock_result : Result Fault Code → Result Error (Unit {0})
  unlock_result (ok missing) = err Error.not_found
  unlock_result (ok foreign) = err Error.not_held
  unlock_result (ok done) = ok tt
  unlock_result (err f) = err (release_failed f)

  write_answer-Gives :
      (x : Answer Code) (y : Result Error Code × Env r.Db)
      → Gives y (map_err release_failed x.0) (Online r l.rw_lock.name x.1)
      → Gives (after y (write_answer r j o l)) (unlock_result x.0) (Online r l.rw_lock.name x.1)
  unfolding write_answer
  write_answer-Gives (ok missing, v) y g =
      after-Gives _ y g λ e o. record { returns = refl; leaves = o }
  write_answer-Gives (ok foreign, v) y g =
      after-Gives _ y g λ e o. record { returns = refl; leaves = o }
  write_answer-Gives (ok done, v) y g =
      after-Gives _ y g λ e o. record { returns = refl; leaves = o }
  write_answer-Gives (err f, v) y g = after-Gives_err _ y g

  -- With every call answered: a release of the write lock returns the result of the specification
  -- and leaves its lock, on every branch: nothing stored, a writer that cannot be read, another
  -- holder, and the own lock, which is removed and counted.
  pub write_unlock-released :
      {v : View} (e : Env r.Db)
      → Online r l.rw_lock.name v e
      → Gives
          (write_unlock r j o l e)
          (unlock_result (write_released j o (holder l.owner l.thread_id) v).0)
          (Online r l.rw_lock.name (write_released j o (holder l.owner l.thread_id) v).1)
  unfolding write_unlock write_released
  write_unlock-released {v} e p =
      write_answer-Gives (write_released j o (holder l.owner l.thread_id) v) _ (
        wrap-Gives release_failed _ (
          call-Gives r l.rw_lock.name _ e p.net (
            release_write_script-Gives r j o l.rw_lock.name (holder l.owner l.thread_id) _ e.db refl
              p.holds)))
