-- ===== src/RwLock/Readers.antt =====
-- Who gets the read lock, and its release (lock/rwlock.go).
use remix.Base.{
  ◌+ℤ◌, ℕ, suc, ◌+◌, ◌≡◌, refl, ◌∙◌, true, false, List, [], ◌∷◌, none, some, ok, Gives, after,
  after-Gives, Text, text_eq, text_eq_iff, arith, ℤ, pos,
}
use remix.Redis.Value.{number, text, field, put, erase, increase, sum_of}
use remix.Redis.Server.{Redis}
use remix.Redis.Client.{Env}
use remix.Lock.Types.{Json, seconds}
use remix.Lock.Keys.{holder}
use remix.RwLock.Types.{Objects, lock_object}
use remix.RwLock.Keys.{read_lock_key, total_read_acquired, total_read_released}
use remix.RwLock.Ops.{ReadLock, try_acquire_read_lock, read_unlock}
use remix.RwLock.View.{View, Online}
use remix.RwLock.Fields.{field-put}
use remix.RwLock.Spec.{guarded_at, read_acquired, read_released}
use remix.RwLock.Exclusion.{IsWriting, guarded-IsWriting}
use remix.RwLock.Refine.Read.{try_acquire_read_lock-acquired, read_unlock-released}

-- Taking back a new field.
erase-put-new :
    {A : Type 0} (f : Text) (a : A) (h : List (Text × A))
    → field f h ≡ none
    → erase f (put f a h) ≡ h
unfolding field put erase
erase-put-new f a [] e = ground (arith, text_eq_iff f f)
erase-put-new f a ((k, b) ∷ h) e = ground (arith, erase-put-new f a h, text_eq_iff k f)

pub erase-put :
    {A : Type 0} (f : Text) (a : A) (h : List (Text × A)) → erase f (put f a h) ≡ erase f h
unfolding put erase
erase-put f a [] = ground (arith, text_eq_iff f f)
erase-put f a ((k, b) ∷ h) = ground (arith, erase-put f a h, text_eq_iff k f)

-- A field set twice and taken back.
erase-put-put :
    {A : Type 0} (f : Text) (a b : A) (h : List (Text × A))
    → field f h ≡ none
    → erase f (put f a (put f b h)) ≡ h
erase-put-put f a b h e = erase-put f a (put f b h) ∙ erase-put-new f b h e

module _ (r : Redis) (j : Json) (o : Objects) (l : ReadLock) where
  abbrev me : Text
  me = holder l.owner l.thread_id

  -- With every call answered: while another holder's writer is stored whose lease runs, an attempt
  -- to take the read lock is refused and leaves the lock as it is.
  pub reader_shut_out :
      (now : ℕ) (w : Text) {v : View} (e : Env r.Db)
      → Online r l.rw_lock.name v e
      → IsWriting j o w (seconds now) v
      → text_eq w (holder l.owner l.thread_id) ≡ false
      → Gives (try_acquire_read_lock r j o l now e) (ok false) (Online r l.rw_lock.name v)
  unfolding read_acquired
  reader_shut_out now w {v} e p h q =
      let g = try_acquire_read_lock-acquired r j o l now e p in
      rw (guarded-IsWriting j o me w (seconds now) v h, q) at g

  -- The lock after the first read lock of `me`, and after the release of it.
  abbrev reading : ℕ → ℕ → View → View
  reading t now v = record v {
    readers =
        put me
          (text (
            o.encode
              (lock_object (read_lock_key l.rw_lock.name) l.owner l.thread_id now (now + suc t))))
          v.readers;
    counts = put me (number (pos 1)) v.counts;
    stats = increase total_read_acquired 1 v.stats;
  }

  first_read :
      (t now : ℕ) (v : View)
      → guarded_at j o me now v.writer ≡ ok true
      → field me v.counts ≡ none
      → read_acquired j o l.rw_lock.name l.owner l.thread_id (suc t) now v
        ≡ (ok true, reading t now v)
  unfolding read_acquired
  first_read t now v g c = rw (g, c) refl

  last_release :
      (t now : ℕ) (v : View)
      → field me v.readers ≡ none
      → field me v.counts ≡ none
      → read_released me (reading t now v) ≡ (
        ok true,
        record v {
          stats = increase total_read_released 1 (increase total_read_acquired 1 v.stats);
        },
      )
  unfolding read_released ◌+ℤ◌
  last_release t now v a c =
      rw
        (
          field-put me
              (text (
                o.encode (
                  lock_object (read_lock_key l.rw_lock.name) l.owner l.thread_id now
                    (now + suc t))))
              v.readers,
          field-put me (number (pos 1)) v.counts,
        )
        (rw
          (
            erase-put-new me
                (text (
                  o.encode (
                    lock_object (read_lock_key l.rw_lock.name) l.owner l.thread_id now
                      (now + suc t))))
                v.readers a,
            erase-put-put me (number (pos 0)) (number (pos 1)) v.counts c,
          )
          refl)

  -- With every call answered, a lease of at least a second, and a writer that lets the reader
  -- pass: when the holder is not yet a reader and has no count, an attempt to take the read lock
  -- succeeds, and a release after it succeeds and leaves the readers, their counts and the writer
  -- as they were before, and both calls counted.
  pub read_lock-unlock :
      (now t : ℕ) {v : View} (e : Env r.Db)
      → seconds l.rw_lock.config.lease_duration ≡ suc t
      → guarded_at j o (holder l.owner l.thread_id) (seconds now) v.writer ≡ ok true
      → field (holder l.owner l.thread_id) v.readers ≡ none
      → field (holder l.owner l.thread_id) v.counts ≡ none
      → Online r l.rw_lock.name v e
      → Gives (after (try_acquire_read_lock r j o l now e) (λ _. read_unlock r j o l)) (ok tt) (
          Online r l.rw_lock.name (record v {
            stats = increase total_read_released 1 (increase total_read_acquired 1 v.stats);
          }))
  read_lock-unlock now t {v} e s g a c p =
      let h = try_acquire_read_lock-acquired r j o l now e p in
      let h = rw (s, first_read t (seconds now) v g c) at h in
      after-Gives _ _ h
        λ e p. rw (last_release t (seconds now) v a c) at (read_unlock-released r j o l e p)

  -- With every call answered: with a lease of less than a second, a writer that lets the reader
  -- pass and a count of the holder, if there is one, that is an integer, an attempt to take the
  -- read lock reports success and leaves no reader and no count at all, also not of the others.
  pub short_lease-clears :
      (now : ℕ) (z : ℤ) {v : View} (e : Env r.Db)
      → seconds l.rw_lock.config.lease_duration ≡ 0
      → guarded_at j o (holder l.owner l.thread_id) (seconds now) v.writer ≡ ok true
      → sum_of (field (holder l.owner l.thread_id) v.counts) (pos 1) ≡ some z
      → Online r l.rw_lock.name v e
      → Gives (try_acquire_read_lock r j o l now e) (ok true) (
          Online r l.rw_lock.name (record v {
            readers = [];
            counts = [];
            stats = increase total_read_acquired 1 v.stats;
          }))
  unfolding read_acquired
  short_lease-clears now z {v} e s g c p =
      let h = try_acquire_read_lock-acquired r j o l now e p in rw (s, g, c) at h
