-- ===== src/RwLock/Writers.antt =====
-- Who gets the write lock, what Go reads of it, and its release (lock/rwlock.go).
use remix.Base.{
  ℕ, suc, ◌+◌, ◌≡◌, refl, ap, sym, ◌∙◌, Bool, true, false, none, some, Result, ok, err, Gives,
  after-Gives, attempt-Gives, map_err, after, List, [], ◌∷◌, Text, text_eq, text_eq_refl, length,
}
use remix.Redis.Value.{Cell, field, increase}
use remix.Redis.Server.{Redis}
use remix.Redis.Client.{Fault, Env, text_of}
use remix.Lock.Types.{Json, seconds, acquire_failed, unmarshal_failed}
use remix.Lock.Keys.{holder}
use remix.RwLock.Types.{Objects, lock_object, unmarshalled}
use remix.RwLock.Keys.{write_lock_key, total_write_acquired, total_write_released}
use remix.RwLock.Scripts.{is_read_locked}
use remix.RwLock.Ops.{WriteLock, try_acquire_write_lock, write_unlock, is_write_held, write_held}
use remix.RwLock.View.{View, Online, query-Gives}
use remix.RwLock.View.Commands.{get_known}
use remix.RwLock.Spec.{
  is_some, entered, guarded_at, write_taken, write_acquired, write_acquired_when, kept_out,
  write_released, write_released_over, write_released_when,
}
use remix.RwLock.Exclusion.{IsWriting, guarded-IsWriting}
use remix.RwLock.Exclusion.Writing.{kept_out_alone}
use remix.RwLock.Refine.Write.{try_acquire_write_lock-acquired, write_unlock-released}

map_err-ok : {E F : Type 0} (f : E → F) (x : Result E Bool) → map_err f x ≡ ok true → x ≡ ok true
map_err-ok f (ok b) h = cc h
map_err-ok f (err e) h = cc h

-- Neither another reader nor another writer whose lease runs.
pub record IsAlone (j : Json) (o : Objects) (me : Text) (now : ℕ) (v : View) : Type 0 where
  pub readers : (f : Text) → text_eq me f ≡ false → field f v.readers ≡ none
  pub writer : (w : Text) → IsWriting j o w now v → text_eq w me ≡ true

module _ (j : Json) (o : Objects) where
  entered_ok :
      (content : Text) (lease : ℕ) (x : Result Fault Bool) (v : View)
      → (entered x (write_taken content lease v) v).0 ≡ ok true
      → x ≡ ok true
  entered_ok content lease (ok true) v h = refl
  entered_ok content lease (ok false) v h = absurd (cc h)
  entered_ok content lease (err e) v h = absurd (cc h)

  acquired-IsAlone :
      (me content : Text) (lease now : ℕ) (b : Bool) (v : View)
      → kept_out me v ≡ b
      → (write_acquired_when j o b me content lease now v).0 ≡ ok true
      → IsAlone j o me now v
  acquired-IsAlone me content lease now true v e h = absurd (cc h)
  acquired-IsAlone me content lease now false v e h = record {
    readers = λ f q. kept_out_alone j o me f v.readers e q;
    writer = λ w p.
        let g : Result.ok (text_eq w me) ≡ ok true =
          sym (guarded-IsWriting j o me w now v p) ∙ entered_ok content lease _ v h in
        cc g;
  }

  -- The script's object, which Go's JSON refuses for its numeric times.
  unmarshalled-lock_object :
      (n owner thread_id : Text) (at end : ℕ)
      → unmarshalled j (lock_object n owner thread_id at end) ≡ none
  unfolding unmarshalled lock_object
  unmarshalled-lock_object n owner thread_id at end = refl

module _ (r : Redis) (j : Json) (o : Objects) (l : WriteLock) where
  -- With every call answered: when an attempt to take the write lock succeeds, no other holder was
  -- stored as a reader, and no writer of another holder was stored whose lease runs.
  pub try_acquire_write_lock-IsAlone :
      (now : ℕ) {v : View} (e : Env r.Db)
      → Online r l.rw_lock.name v e
      → (try_acquire_write_lock r j o l now e).0 ≡ ok true
      → IsAlone j o (holder l.owner l.thread_id) (seconds now) v
  unfolding write_acquired
  try_acquire_write_lock-IsAlone now {v} e p h =
      let g = try_acquire_write_lock-acquired r j o l now e p in
      acquired-IsAlone j o _ _ _ (seconds now) _ v refl
        (map_err-ok acquire_failed _ (sym g.returns ∙ h))

  held_error :
      (n owner thread_id : Text) (at end : ℕ) (e : Env r.Db)
      → write_held r j o l (ok (o.encode (lock_object n owner thread_id at end))) e
        ≡ (err unmarshal_failed, e)
  unfolding write_held
  held_error n owner thread_id at end e =
      rw
        (
          o.decode-encode (lock_object n owner thread_id at end),
          unmarshalled-lock_object j o n owner thread_id at end,
        )
        refl

  -- With every call answered: while what a write lock's script has stored is there, whoever took
  -- it, the question whether the own write lock is held returns the error of the JSON reader and
  -- changes nothing.
  pub held-unread :
      (owner thread_id : Text) (at end : ℕ) {v : View} (e : Env r.Db)
      → v.writer
        ≡ some (o.encode (lock_object (write_lock_key l.rw_lock.name) owner thread_id at end))
      → Online r l.rw_lock.name v e
      → Gives (is_write_held r j o l e) (err unmarshal_failed) (Online r l.rw_lock.name v)
  unfolding is_write_held
  held-unread owner thread_id at end e q p =
      after-Gives (write_held r j o l) _
        (attempt-Gives _
          (query-Gives r l.rw_lock.name text_of e p.net (get_known r l.rw_lock.name p.holds q)))
        λ e p.
          rw (held_error (write_lock_key l.rw_lock.name) owner thread_id at end e)
            (record { returns = refl; leaves = p })

  -- The lock with the own write lock taken.
  abbrev pub mine : ℕ → ℕ → View → View
  mine t now v = record v {
    writer = some (
        o.encode
          (lock_object (write_lock_key l.rw_lock.name) l.owner l.thread_id now (now + suc t)));
    stats = increase total_write_acquired 1 v.stats;
  }

  mine-released :
      (t now : ℕ) (v : View)
      → write_released j o (holder l.owner l.thread_id) (mine t now v)
        ≡ write_released_when true (mine t now v)
  unfolding write_released lock_object
  mine-released t now v =
      ap (λ x. write_released_over j o (holder l.owner l.thread_id) x (mine t now v))
        (o.decode-encode
          (lock_object (write_lock_key l.rw_lock.name) l.owner l.thread_id now (now + suc t)))
      ∙ ap (λ b. write_released_when b (mine t now v)) (text_eq_refl (holder l.owner l.thread_id))

  mine-acquired :
      (t now : ℕ) (v : View)
      → v.readers ≡ []
      → v.writer ≡ none
      → write_acquired j o l.rw_lock.name l.owner l.thread_id (suc t) now v
        ≡ (ok true, mine t now v)
  unfolding write_acquired
  mine-acquired t now v q w =
      ap
        (λ b.
          write_acquired_when j o b (holder l.owner l.thread_id)
            (o.encode
              (lock_object (write_lock_key l.rw_lock.name) l.owner l.thread_id now (now + suc t)))
            (suc t) now v)
        (nobody v.readers q)
      ∙ ap
          (λ s.
            entered (guarded_at j o (holder l.owner l.thread_id) now s)
              (write_taken
                (o.encode (
                  lock_object (write_lock_key l.rw_lock.name) l.owner l.thread_id now
                    (now + suc t)))
                (suc t) v)
              v)
          w
    where
      nobody :
          (h : List (Text × Cell))
          → h ≡ []
          → is_read_locked (some (length h)) (is_some (field (holder l.owner l.thread_id) h))
            ≡ false
      nobody [] e = refl
      nobody (x ∷ h) e = cc e

  -- With every call answered and a lease of at least a second: with no reader and no writer stored,
  -- an attempt to take the write lock succeeds, and a release after it succeeds and leaves no
  -- writer, the readers as they were, and both calls counted; whatever the time between them.
  pub write_lock-unlock :
      (now t : ℕ) {v : View} (e : Env r.Db)
      → seconds l.rw_lock.config.lease_duration ≡ suc t
      → v.readers ≡ []
      → v.writer ≡ none
      → Online r l.rw_lock.name v e
      → Gives (after (try_acquire_write_lock r j o l now e) (λ _. write_unlock r j o l)) (ok tt) (
          Online r l.rw_lock.name (record v {
            writer = none;
            stats = increase total_write_released 1 (increase total_write_acquired 1 v.stats);
          }))
  write_lock-unlock now t {v} e s q w p =
      let g = try_acquire_write_lock-acquired r j o l now e p in
      let g = rw (s, mine-acquired t (seconds now) v q w) at g in
      after-Gives _ _ g
        λ e p. rw (mine-released t (seconds now) v) at (write_unlock-released r j o l e p)
