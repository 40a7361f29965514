-- ===== src/Lock/Renewal.antt =====
-- The renewal script of lock/lock.go, and what Go reads afterwards.
use remix.Base.{
  ℕ, suc, ◌≡◌, refl, ap, ◌∙◌, true, false, none, some, Result, ok, err, Gives, after-Gives,
  attempt-Gives, Option-cases, inl, inr, after-Gives_err, after, pure, map_err, Text, ◌==◌,
}
use remix.Redis.Server.{Redis}
use remix.Redis.Client.{Fault, Env, text_of}
use remix.Lock.Types.{
  Json, Document, Error, seconds, plain, unmarshal_failed, info_of, info_with, go_time,
}
use remix.Lock.Scripts.{Code, done, holds, renewed}
use remix.Lock.Ops.{
  Lock, World, renew_lock, get_lock_info, info_read, is_locked, remote, unexpired, unmarshalled,
}
use remix.Lock.View
use remix.Lock.View.{View, Online}
use remix.Lock.Spec.{renewal, renewed_at, renewed_over, renewed_when, renewed_with}
use remix.Lock.Refine.{renew_script-Gives}

-- The result of `renewLock`: its script's answer is dropped.
abbrev pub renewal_result : Result Fault Code → Result Error (Unit {0})
renewal_result (ok code) = ok tt
renewal_result (err f) = err (plain f)

module _ (r : Redis) (j : Json) (l : Lock) where
  answer_dropped :
      {v : View} (x : Result Fault Code) (y : Result Error Code × World r.Db)
      → Gives y (map_err plain x) (λ w. Online r l.name v w.env)
      → Gives (after y (λ _ w. (ok tt, w))) (renewal_result x) (λ w. Online r l.name v w.env)
  answer_dropped (ok code) y g = after-Gives _ y g λ w o. record { returns = refl; leaves = o }
  answer_dropped (err f) y g = after-Gives_err _ y g

  -- With every call answered, a lease of at least a second and an object with a hold: a renewal
  -- leaves the lock of the specification, which extends only the own lock, and fails only where
  -- the script fails; that nothing or another's lock is stored is no error.
  pub renew_lock-renewed :
      (now t : ℕ) {v : View} (w : World r.Db)
      → seconds l.config.lease_duration ≡ suc t
      → (w.hold_count == 0) ≡ false
      → Online r l.name v w.env
      → Gives
          (renew_lock r j l now w)
          (renewal_result (renewal j l.owner l.thread_id (suc t) (seconds now) v).0)
          (λ w. Online r l.name (renewal j l.owner l.thread_id (suc t) (seconds now) v).1 w.env)
  unfolding renew_lock renewal
  renew_lock-renewed now t {v} w p held o =
      let g = View.call-Gives r l.name _ w.env o.net (
        renew_script-Gives r j l.name l.owner l.thread_id t (seconds now) v.stored w.env.db refl
          o.holds) in
      rw (held, p)
        (answer_dropped (renewed_at j l.owner l.thread_id (suc t) (seconds now) v.stored v).0 _
          (record { returns = rw (g.returns); leaves = g.leaves }))

  -- Go takes no number for a time.
  renewed_info : (x : Document) (now lease : ℕ) → info_of j (renewed x now lease) ≡ none
  unfolding info_of
  renewed_info x now lease = elim (Option-cases (go_time j x.acquire_time)) [
    | inl e ↦ ap (λ o. info_with j (renewed x now lease) o none none) e
    | inr (a, e) ↦ ap (λ o. info_with j (renewed x now lease) o none none) e
  ]

  unread :
      (s : Text) (x : Document) (now lease : ℕ)
      → j.encode (renewed x now lease) ≡ some s
      → unmarshalled r j l s ≡ none
  unfolding unmarshalled
  unread s x now lease e =
      rw (unmarshalled, j.decode-encode (renewed x now lease) s e) (renewed_info x now lease)

  renewed_unreadable :
      (s : Text) (x : Document) (now lease : ℕ) {v : View} (e : Env r.Db)
      → v.stored ≡ some s
      → j.encode (renewed x now lease) ≡ some s
      → Online r l.name v e
      → Gives (get_lock_info r j l e) (err unmarshal_failed) (Online r l.name v)
  unfolding get_lock_info info_read
  renewed_unreadable s x now lease {v} e p m o =
      let g = View.query-Gives r l.name text_of e o.net (View.get_known r l.name o.holds p) in
      after-Gives (info_read r j l) _ (attempt-Gives _ g)
        λ e o. rw (unread s x now lease m) (record { returns = refl; leaves = o })

  renewal_written :
      (s u : Text) (x : Document) (now lease : ℕ) (v : View)
      → v.stored ≡ some s
      → j.decode s ≡ some x
      → holds x l.owner l.thread_id ≡ true
      → j.encode (renewed x now lease) ≡ some u
      → renewal j l.owner l.thread_id lease now v ≡ (ok done, record v { stored = some u })
  unfolding renewal
  renewal_written s u x now lease v p m h e =
      ap (λ o. renewed_at j l.owner l.thread_id lease now o v) p
      ∙ ap (λ o. renewed_over j l.owner l.thread_id lease now o v) m
      ∙ ap (λ b. renewed_when j b (j.encode (renewed x now lease)) v) h
      ∙ ap (λ o. renewed_with j o v) e

  -- With every call answered, a lease of at least a second, an object with a hold and stored
  -- information of this holder: after a renewal whose document can be written, IsLocked fails
  -- because the stored information cannot be read.
  pub renewal_hides :
      (now t later : ℕ) (s u : Text) (x : Document) {v : View} (w : World r.Db)
      → seconds l.config.lease_duration ≡ suc t
      → (w.hold_count == 0) ≡ false
      → v.stored ≡ some s
      → j.decode s ≡ some x
      → holds x l.owner l.thread_id ≡ true
      → j.encode (renewed x (seconds now) (suc t)) ≡ some u
      → Online r l.name v w.env
      → Gives
          (after (renew_lock r j l now w) (λ _. remote (is_locked r j l later)))
          (err unmarshal_failed)
          (λ w. Online r l.name (record v { stored = some u }) w.env)
  unfolding is_locked
  renewal_hides now t later s u x {v} w p held q m h e o =
      let g = renew_lock-renewed now t w p held o in
      let g = rw (renewal_written s u x (seconds now) (suc t) v q m h e) at g in
      after-Gives _ _ g λ w o.
        let f = renewed_unreadable u x (seconds now) (suc t) w.env refl e o in
        let f = after-Gives_err (λ i. pure (unexpired r j l later i)) _ f in
        record { returns = f.returns; leaves = f.leaves }
