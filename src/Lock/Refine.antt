-- ===== src/Lock/Refine.antt =====
-- The scripts of the lock, and the remote calls that run them, against the specification.
use remix.Base.{
  ℕ, zero, suc, ◌+◌, ◌≡◌, refl, Bool, true, false, List, [], ◌∷◌, Option, none, some, Result, ok,
  err, inl, inr, Bool-cases, Gives, after-Gives, after-Gives_err, wrap-Gives, map_err, Text, ltb,
}
use remix.Redis.Server.{Redis}
use remix.Redis.Client.{Fault, Env}
use remix.Lock.Types.{Json, Document, Error, seconds, acquire_failed, release_failed, lua_number}
use remix.Lock.Keys.{lock_key, stats_key}
use remix.Lock.Scripts.{
  Code, missing, foreign, done, holds, renewed, set_lock, acquire_over, acquire_script,
  release_over, release_script, renew_over, renew_script,
}
use remix.Lock.Ops.{Lock, marshalled, new_info, try_acquire_lock, release_lock, release_answer}
use remix.Lock.View
use remix.Lock.View.{View, Holds, Online}
use remix.Lock.Spec.{
  acquired, acquired_at, acquired_over, acquired_by, acquired_when, taken, released, released_at,
  released_over, released_when, renewed_at, renewed_over, renewed_when,
}

module _ (r : Redis) (j : Json) (n : Text) where
  set_lock-Gives :
      (content : Text) (t : ℕ) {v : View} (d : r.Db)
      → Holds r n d v
      → Gives
          (set_lock r j (lock_key n) (stats_key n) content (suc t) d)
          (taken j content v).0
          (λ d'. Holds r n d' (taken j content v).1)
  unfolding set_lock
  set_lock-Gives content t d h =
      after-Gives _ _ (View.redis_call-Gives r n (View.set_ex-stored r n h content t)) λ d h.
        after-Gives _ _ (View.redis_call-Gives r n (View.hincrby-stats r n h _ 1))
          λ d h. record { returns = refl; leaves = h }

  acquire_when-Gives :
      (content : Text) (t now : ℕ) (x : Document) (e : ℕ) (busy : Bool) {v : View} (d : r.Db)
      → lua_number j x.expire_time ≡ some e
      → ltb now e ≡ busy
      → Holds r n d v
      → (s : Text) → j.decode s ≡ some x
      → Gives
          (acquire_over r j (lock_key n) (stats_key n) content (suc t) now (some s) d)
          (acquired_when j busy content v).0
          (λ d'. Holds r n d' (acquired_when j busy content v).1)
  unfolding acquire_over
  acquire_when-Gives content t now x e true d p b h s m =
      rw (m, p, b) (record { returns = refl; leaves = h })
  acquire_when-Gives content t now x e false d p b h s m =
      rw (m, p, b) (set_lock-Gives content t d h)

  acquire_by-Gives :
      (content : Text) (t now : ℕ) (x : Document) (o : Option ℕ) {v : View} (d : r.Db)
      → lua_number j x.expire_time ≡ o
      → Holds r n d v
      → (s : Text) → j.decode s ≡ some x
      → Gives
          (acquire_over r j (lock_key n) (stats_key n) content (suc t) now (some s) d)
          (acquired_by j content now o v).0
          (λ d'. Holds r n d' (acquired_by j content now o v).1)
  unfolding acquire_over
  acquire_by-Gives content t now x none d p h s m =
      rw (m, p) (record { returns = refl; leaves = h })
  acquire_by-Gives content t now x (some e) d p h s m =
      acquire_when-Gives content t now x e (ltb now e) d p refl h s m

  acquire_over-Gives :
      (content s : Text) (t now : ℕ) (o : Option Document) {v : View} (d : r.Db)
      → j.decode s ≡ o
      → Holds r n d v
      → Gives
          (acquire_over r j (lock_key n) (stats_key n) content (suc t) now (some s) d)
          (acquired_over j content now o v).0
          (λ d'. Holds r n d' (acquired_over j content now o v).1)
  unfolding acquire_over
  acquire_over-Gives content s t now none d m h = rw m (record { returns = refl; leaves = h })
  acquire_over-Gives content s t now (some x) d m h =
      acquire_by-Gives content t now x (lua_number j x.expire_time) d refl h s m

  acquire_script-Gives :
      (content : Text) (t now : ℕ) (o : Option Text) {v : View} (d : r.Db)
      → v.stored ≡ o
      → Holds r n d v
      → Gives
          (acquire_script r j (lock_key n) (stats_key n) content (suc t) now d)
          (acquired_at j content now o v).0
          (λ d'. Holds r n d' (acquired_at j content now o v).1)
  unfolding acquire_script acquire_over
  acquire_script-Gives content t now none {v} d e h =
      after-Gives _ _ (View.redis_call-Gives r n (View.get_known r n h e))
        λ d h. set_lock-Gives content t d h
  acquire_script-Gives content t now (some s) {v} d e h =
      after-Gives _ _ (View.redis_call-Gives r n (View.get_known r n h e))
        λ d h. acquire_over-Gives content s t now (j.decode s) d refl h

  release_when-Gives :
      (owner thread_id s : Text) (x : Document) (mine : Bool) {v : View} (d : r.Db)
      → j.decode s ≡ some x
      → holds x owner thread_id ≡ mine
      → v.stored ≡ some s
      → Holds r n d v
      → Gives
          (release_over r j (lock_key n) (stats_key n) owner thread_id (some s) d)
          (released_when j mine v).0
          (λ d'. Holds r n d' (released_when j mine v).1)
  unfolding release_over
  release_when-Gives owner thread_id s x true {v} d m p e h =
      rw (m, p)
        (after-Gives _ _ (View.redis_call-Gives r n (rw e at (View.del-stored r n h))) λ d h.
          after-Gives _ _ (View.redis_call-Gives r n (View.hincrby-stats r n h _ 1))
            λ d h. record { returns = refl; leaves = h })
  release_when-Gives owner thread_id s x false d m p e h =
      rw (m, p) (record { returns = refl; leaves = h })

  release_over-Gives :
      (owner thread_id s : Text) (o : Option Document) {v : View} (d : r.Db)
      → j.decode s ≡ o
      → v.stored ≡ some s
      → Holds r n d v
      → Gives
          (release_over r j (lock_key n) (stats_key n) owner thread_id (some s) d)
          (released_over j owner thread_id o v).0
          (λ d'. Holds r n d' (released_over j owner thread_id o v).1)
  unfolding release_over
  release_over-Gives owner thread_id s none d m e h = rw m (record { returns = refl; leaves = h })
  release_over-Gives owner thread_id s (some x) d m e h =
      release_when-Gives owner thread_id s x (holds x owner thread_id) d m refl e h

  pub release_script-Gives :
      (owner thread_id : Text) (o : Option Text) {v : View} (d : r.Db)
      → v.stored ≡ o
      → Holds r n d v
      → Gives
          (release_script r j (lock_key n) (stats_key n) owner thread_id d)
          (released_at j owner thread_id o v).0
          (λ d'. Holds r n d' (released_at j owner thread_id o v).1)
  unfolding release_script release_over
  release_script-Gives owner thread_id none d e h =
      after-Gives _ _ (View.redis_call-Gives r n (View.get_known r n h e))
        λ d h. record { returns = refl; leaves = h }
  release_script-Gives owner thread_id (some s) d e h =
      after-Gives _ _ (View.redis_call-Gives r n (View.get_known r n h e))
        λ d h. release_over-Gives owner thread_id s (j.decode s) d refl e h

  renew_when-Gives :
      (owner thread_id s : Text) (t now : ℕ) (x : Document) (mine : Bool) (o : Option Text)
      {v : View} (d : r.Db)
      → j.decode s ≡ some x
      → holds x owner thread_id ≡ mine
      → j.encode (renewed x now (suc t)) ≡ o
      → Holds r n d v
      → Gives
          (renew_over r j (lock_key n) owner thread_id (suc t) now (some s) d)
          (renewed_when j mine o v).0
          (λ d'. Holds r n d' (renewed_when j mine o v).1)
  unfolding renew_over
  renew_when-Gives owner thread_id s t now x true none d m p e h =
      rw (m, p, e) (record { returns = refl; leaves = h })
  renew_when-Gives owner thread_id s t now x true (some u) d m p e h =
      rw (m, p, e)
        (after-Gives _ _ (View.redis_call-Gives r n (View.set_ex-stored r n h u t))
          λ d h. record { returns = refl; leaves = h })
  renew_when-Gives owner thread_id s t now x false o d m p e h =
      rw (m, p) (record { returns = refl; leaves = h })

  renew_over-Gives :
      (owner thread_id s : Text) (t now : ℕ) (o : Option Document) {v : View} (d : r.Db)
      → j.decode s ≡ o
      → Holds r n d v
      → Gives
          (renew_over r j (lock_key n) owner thread_id (suc t) now (some s) d)
          (renewed_over j owner thread_id (suc t) now o v).0
          (λ d'. Holds r n d' (renewed_over j owner thread_id (suc t) now o v).1)
  unfolding renew_over
  renew_over-Gives owner thread_id s t now none d m h = rw m (record { returns = refl; leaves = h })
  renew_over-Gives owner thread_id s t now (some x) d m h =
      renew_when-Gives owner thread_id s t now x (holds x owner thread_id) _ d m refl refl h

  pub renew_script-Gives :
      (owner thread_id : Text) (t now : ℕ) (o : Option Text) {v : View} (d : r.Db)
      → v.stored ≡ o
      → Holds r n d v
      → Gives
          (renew_script r j (lock_key n) owner thread_id (suc t) now d)
          (renewed_at j owner thread_id (suc t) now o v).0
          (λ d'. Holds r n d' (renewed_at j owner thread_id (suc t) now o v).1)
  unfolding renew_script renew_over
  renew_script-Gives owner thread_id t now none d e h =
      after-Gives _ _ (View.redis_call-Gives r n (View.get_known r n h e))
        λ d h. record { returns = refl; leaves = h }
  renew_script-Gives owner thread_id t now (some s) d e h =
      after-Gives _ _ (View.redis_call-Gives r n (View.get_known r n h e))
        λ d h. renew_over-Gives owner thread_id s t now (j.decode s) d refl h

module _ (r : Redis) (j : Json) (l : Lock) where
  -- With every call answered, a lease of at least a second and information that can be written: an
  -- attempt to take the lock returns the result of the specification and leaves its lock, on every
  -- branch: nothing stored, no JSON stored, an expiry time that is no number, a lease that runs, a
  -- lease that has passed.
  pub try_acquire_lock-acquired :
      (now t : ℕ) {content : Text} {v : View} (e : Env r.Db)
      → seconds l.config.lease_duration ≡ suc t
      → marshalled r j l (new_info r j l now) ≡ some content
      → Online r l.name v e
      → Gives
          (try_acquire_lock r j l now e)
          (map_err acquire_failed (acquired j content (seconds now) v).0)
          (Online r l.name (acquired j content (seconds now) v).1)
  unfolding try_acquire_lock acquired
  try_acquire_lock-acquired now t {content} {v} e p m o =
      rw (m, p)
        (wrap-Gives acquire_failed _ (
          View.call-Gives r l.name _ e o.net
            (acquire_script-Gives r j l.name content t (seconds now) v.stored e.db refl o.holds)))

  -- The result of `releaseLock` from the script's answer.
  abbrev pub release_result : Result Fault Code → Result Error (Unit {0})
  release_result (ok missing) = err Error.not_found
  release_result (ok foreign) = err Error.not_held
  release_result (ok done) = ok tt
  release_result (err f) = err (release_failed f)

  answer-Gives :
      (x : Result Fault Code × View) (y : Result Error Code × Env r.Db)
      → Gives y (map_err release_failed x.0) (Online r l.name x.1)
      → Gives (remix.Base.after y (release_answer r j l)) (release_result x.0) (Online r l.name x.1)
  unfolding release_answer
  answer-Gives (ok missing, v) y g = after-Gives _ y g λ e o. record { returns = refl; leaves = o }
  answer-Gives (ok foreign, v) y g = after-Gives _ y g λ e o. record { returns = refl; leaves = o }
  answer-Gives (ok done, v) y g = after-Gives _ y g λ e o. record { returns = refl; leaves = o }
  answer-Gives (err f, v) y g = after-Gives_err _ y g

  -- With every call answered, a release returns the result of the specification and leaves its
  -- lock, on every branch: nothing stored, no JSON stored, another holder, and the own lock, which
  -- is removed and counted.
  pub release_lock-released :
      {v : View} (e : Env r.Db)
      → Online r l.name v e
      → Gives
          (release_lock r j l e)
          (release_result (released j l.owner l.thread_id v).0)
          (Online r l.name (released j l.owner l.thread_id v).1)
  unfolding release_lock released
  release_lock-released {v} e o = answer-Gives (released_at j l.owner l.thread_id v.stored v) _ (
      wrap-Gives release_failed _ (
        View.call-Gives r l.name _ e o.net
          (release_script-Gives r j l.name l.owner l.thread_id v.stored e.db refl o.holds)))
