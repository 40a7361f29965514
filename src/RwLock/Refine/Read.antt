-- ===== src/RwLock/Refine/Read.antt =====
-- The read lock's scripts and methods of lock/rwlock.go, against the specification.
use remix.Base.{
  arith, pure, fail, if◌then◌else◌, Action, after, ℕ, zero, suc, ◌+◌, ◌≡◌, refl, Bool, true, false,
  Option, none, some, Result, ok, err, Gives, after-Gives, after-Gives_err, wrap-Gives, map_err,
  Text, ℤ, pos, negsuc, sub_ℕ,
}
use remix.Redis.Value.{Cell, number, text, put, field, sum_of}
use remix.Redis.Command.{integer, cell_of}
use remix.Redis.Server.{Redis}
use remix.Redis.Client.{checked, Fault, Env}
use remix.Lock.Types.{Json, Error, seconds, acquire_failed, release_failed}
use remix.Lock.Keys.{holder}
use remix.RwLock.Types.{lock_object, Objects}
use remix.RwLock.Keys.{read_lock_key, write_lock_key, read_count_key, stats_key}
use remix.RwLock.Scripts.{
  set_read, acquire_read_script, drop_reader, release_read_script, is_there, is_spent,
}
use remix.RwLock.Ops.{ReadLock, try_acquire_read_lock, read_unlock}
use remix.RwLock.View.{View, Holds, Online, redis_call-Gives, call-Gives}
use remix.RwLock.View.Commands.{
  checked-cell_of, checked-bulk_of, kept, hset-readers, expire-readers, expire-counts,
  hincrby-counted, hdecrby-counted, hincrby-stats, hget-readers, hdel-readers, hdel-counts,
  get-writer,
}
use remix.RwLock.Refine.Guard.{write_guard-guarded}
use remix.RwLock.Spec.{
  Answer, entered, guarded_at, counted_read, read_acquired, dropped, is_none_left, read_released,
  read_released_by,
}

-- Joining what a reply's integer leaves as it is.
checked-integer : (z : ℤ) → checked (integer z) ≡ ok (integer z)
checked-integer (pos n) = refl
checked-integer (negsuc n) = refl

is_spent-integer : (z : ℤ) → is_spent (integer z) ≡ is_none_left z
is_spent-integer (pos zero) = refl
is_spent-integer (pos (suc n)) = ground arith
is_spent-integer (negsuc n) = refl

pub is_there-cell_of : (c : Cell) → is_there (cell_of (some c)) ≡ true
is_there-cell_of (number (pos n)) = refl
is_there-cell_of (number (negsuc n)) = refl
is_there-cell_of (text s) = refl

module _ (r : Redis) (j : Json) (o : Objects) (n owner thread_id : Text) where
  set_counted-Gives :
      (z : Option ℤ) (content : Text) (lease now : ℕ) {v : View} (d : r.Db)
      → sum_of (field (holder owner thread_id) v.counts) (pos 1) ≡ z
      → o.encode (lock_object (read_lock_key n) owner thread_id now (now + lease)) ≡ content
      → Holds r n d v
      → Gives
          (set_read r j o
            (read_lock_key n)
            (read_count_key n)
            (stats_key n)
            owner
            thread_id
            lease
            now
            d)
          (counted_read (holder owner thread_id) lease z (record v {
            readers = kept lease (put (holder owner thread_id) (text content) v.readers);
          })).0
          (λ d'.
            Holds r n d'
              (counted_read (holder owner thread_id) lease z (record v {
                readers = kept lease (put (holder owner thread_id) (text content) v.readers);
              })).1)
  unfolding set_read
  set_counted-Gives none content lease now d e w h = rw w (
      after-Gives _ _ (redis_call-Gives r n (hset-readers r n h (holder owner thread_id) content))
        λ d h.
          after-Gives _ _ (redis_call-Gives r n (expire-readers r n h lease))
            λ d h. after-Gives_err _ _ (redis_call-Gives r n (hincrby-counted r n h _ 1 none e)))
  set_counted-Gives (some z) content lease now d e w h = rw w (
      after-Gives _ _ (redis_call-Gives r n (hset-readers r n h (holder owner thread_id) content))
        λ d h. after-Gives _ _ (redis_call-Gives r n (expire-readers r n h lease)) λ d h.
          after-Gives _ _
            (rw (checked-integer z) at
              (redis_call-Gives r n (hincrby-counted r n h _ 1 (some z) e)))
            λ d h. after-Gives _ _ (redis_call-Gives r n (expire-counts r n h lease)) λ d h.
              after-Gives _ _ (redis_call-Gives r n (hincrby-stats r n h _ 1))
                λ d h. record { returns = refl; leaves = h })

  -- The rest of a script after its look at the stored writer.
  pub entered-Gives :
      (x : Result Fault Bool) (f : Bool → Action r.Db Fault Bool) (taken : Answer Bool) {v : View}
      (d : r.Db)
      → Holds r n d v
      → Gives (f true d) taken.0 (λ d'. Holds r n d' taken.1)
      → f false d ≡ (ok false, d)
      → Gives (after (x, d) f) (entered x taken v).0 (λ d'. Holds r n d' (entered x taken v).1)
  entered-Gives (ok true) f taken d h g e = g
  entered-Gives (ok false) f taken d h g e = rw e (record { returns = refl; leaves = h })
  entered-Gives (err x) f taken d h g e = record { returns = refl; leaves = h }

  pub acquire_read_script-Gives :
      (lease now : ℕ) {v : View} (d : r.Db)
      → Holds r n d v
      → Gives
          (acquire_read_script r j o
            (read_lock_key n)
            (write_lock_key n)
            (read_count_key n)
            (stats_key n)
            owner
            thread_id
            lease
            now
            d)
          (read_acquired j o n owner thread_id lease now v).0
          (λ d'. Holds r n d' (read_acquired j o n owner thread_id lease now v).1)
  unfolding acquire_read_script read_acquired
  acquire_read_script-Gives lease now {v} d h =
      after-Gives _ _ (rw (checked-bulk_of v.writer) at (redis_call-Gives r n (get-writer r n h)))
        λ d h. rw (write_guard-guarded r j o (holder owner thread_id) now v.writer d) (
          entered-Gives (guarded_at j o (holder owner thread_id) now v.writer) _ _ d h
            (set_counted-Gives _ _ lease now d refl refl h) refl)

module _ (r : Redis) (j : Json) (o : Objects) (n me : Text) where
  drop_reader-Gives :
      (z : ℤ) (spent : Bool) {v : View} (d : r.Db)
      → is_spent (integer z) ≡ spent
      → Holds r n d v
      → Gives
          (drop_reader r j o (read_lock_key n) (read_count_key n) me (integer z) d)
          (ok tt)
          (λ d'. Holds r n d' (dropped me spent v))
  unfolding drop_reader
  drop_reader-Gives z true d e h = rw e (
      after-Gives _ _ (redis_call-Gives r n (hdel-readers r n h me)) λ d h.
        after-Gives _ _ (redis_call-Gives r n (hdel-counts r n h me))
          λ d h. record { returns = refl; leaves = h })
  drop_reader-Gives z false d e h = rw e (record { returns = refl; leaves = h })

  pub release_read_script-Gives :
      (c : Option Cell) (z : Option ℤ) {v : View} (d : r.Db)
      → field me v.readers ≡ c
      → sum_of (field me v.counts) (sub_ℕ 0 1) ≡ z
      → Holds r n d v
      → Gives
          (release_read_script r j o (read_lock_key n) (read_count_key n) (stats_key n) me d)
          (read_released_by me c z v).0
          (λ d'. Holds r n d' (read_released_by me c z v).1)
  unfolding release_read_script
  release_read_script-Gives none z d p e h =
      after-Gives _ _ (rw p at (redis_call-Gives r n (hget-readers r n h me)))
        λ d h. record { returns = refl; leaves = h }
  release_read_script-Gives (some c) none d p e h =
      after-Gives _ _
        (rw (p, checked-cell_of (some c)) at (redis_call-Gives r n (hget-readers r n h me)))
        λ d h.
          rw (is_there-cell_of c)
            (after-Gives_err _ _ (redis_call-Gives r n (hdecrby-counted r n h me 1 none e)))
  release_read_script-Gives (some c) (some z) d p e h =
      after-Gives _ _
        (rw (p, checked-cell_of (some c)) at (redis_call-Gives r n (hget-readers r n h me)))
        λ d h. rw (is_there-cell_of c) (
          after-Gives _ _
            (rw (checked-integer z) at
              (redis_call-Gives r n (hdecrby-counted r n h me 1 (some z) e)))
            λ d h. after-Gives _ _ (drop_reader-Gives z _ d (is_spent-integer z) h) λ d h.
              after-Gives _ _ (redis_call-Gives r n (hincrby-stats r n h _ 1))
                λ d h. record { returns = refl; leaves = h })

module _ (r : Redis) (j : Json) (o : Objects) (l : ReadLock) where
  -- With every call answered, whatever the lease: an attempt to take the read lock returns the
  -- result of the specification and leaves its lock, on every branch: no writer stored, a writer
  -- that cannot be read, a writer that has passed, the own writer, another writer whose lease
  -- runs, and a count that is no integer.
  pub try_acquire_read_lock-acquired :
      (now : ℕ) {v : View} (e : Env r.Db)
      → Online r l.rw_lock.name v e
      → Gives
          (try_acquire_read_lock r j o l now e)
          (map_err acquire_failed
            (read_acquired j o l.rw_lock.name l.owner l.thread_id
              (seconds l.rw_lock.config.lease_duration)
              (seconds now)
              v).0)
          (Online r l.rw_lock.name
            (read_acquired j o l.rw_lock.name l.owner l.thread_id
              (seconds l.rw_lock.config.lease_duration)
              (seconds now)
              v).1)
  unfolding try_acquire_read_lock
  try_acquire_read_lock-acquired now {v} e p = wrap-Gives acquire_failed _ (
      call-Gives r l.rw_lock.name _ e p.net (
        acquire_read_script-Gives r j o l.rw_lock.name l.owner l.thread_id
          (seconds l.rw_lock.config.lease_duration) (seconds now) e.db p.holds))

  -- The result of `Unlock` from the script's answer.
  abbrev pub unlock_result : Result Fault Bool → Result Error (Unit {0})
  unlock_result (ok true) = ok tt
  unlock_result (ok false) = err Error.not_held
  unlock_result (err f) = err (release_failed f)

  unlock_answer-Gives :
      (x : Answer Bool) (y : Result Error Bool × Env r.Db)
      → Gives y (map_err release_failed x.0) (Online r l.rw_lock.name x.1)
      → Gives
          (after y (λ released. if released then pure tt else fail Error.not_held))
          (unlock_result x.0)
          (Online r l.rw_lock.name x.1)
  unlock_answer-Gives (ok true, v) y g =
      after-Gives _ y g λ e o. record { returns = refl; leaves = o }
  unlock_answer-Gives (ok false, v) y g =
      after-Gives _ y g λ e o. record { returns = refl; leaves = o }
  unlock_answer-Gives (err f, v) y g = after-Gives_err _ y g

  -- With every call answered: a release of the read lock returns the result of the specification
  -- and leaves its lock, on every branch: no reader of this holder, a count that is no integer, a
  -- hold that remains, and the last hold, which removes the reader.
  pub read_unlock-released :
      {v : View} (e : Env r.Db)
      → Online r l.rw_lock.name v e
      → Gives
          (read_unlock r j o l e)
          (unlock_result (read_released (holder l.owner l.thread_id) v).0)
          (Online r l.rw_lock.name (read_released (holder l.owner l.thread_id) v).1)
  unfolding read_unlock read_released
  read_unlock-released {v} e p =
      unlock_answer-Gives (read_released (holder l.owner l.thread_id) v) _ (
        wrap-Gives release_failed _ (
          call-Gives r l.rw_lock.name _ e p.net (
            release_read_script-Gives r j o l.rw_lock.name (holder l.owner l.thread_id) _ _ e.db
              refl refl p.holds)))
