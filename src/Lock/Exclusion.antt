-- ===== src/Lock/Exclusion.antt =====
-- Who can take and release the lock.
use remix.Base.{
  ℕ, suc, ◌≤◌, ◌≡◌, refl, ap, sym, ◌∙◌, ◌⊎◌, inl, inr, Bool, true, Option, none, some, Result, ok,
  err, Bool-cases, Gives, map_err, Text, ltb, arith,
}
use remix.Redis.Server.{Redis}
use remix.Redis.Client.{Env, error_reply}
use remix.Lock.Types.{Json, Document, LockInfo, seconds, acquire_failed, lua_number, document_of}
use remix.Lock.Ops.{Lock, marshalled, new_info, try_acquire_lock}
use remix.Lock.View.{View, Online}
use remix.Lock.Spec.{acquired, acquired_at, acquired_over, acquired_by, acquired_when}
use remix.Lock.Refine.{try_acquire_lock-acquired}

-- Nothing is stored, or what is stored has an expiry time that Lua reads as a number and that has
-- passed.
abbrev pub IsFree : Json → ℕ → View → Type 0
IsFree j now v =
    (v.stored ≡ none)
    ⊎ ((s : Text) × (x : Document) × (t : ℕ) × (v.stored ≡ some s)
        × (j.decode s ≡ some x)
        × (lua_number j x.expire_time ≡ some t)
        × (t ≤ now))

module _ (j : Json) where
  acquired_by-IsFree :
      (content : Text) (now : ℕ) (s : Text) (x : Document) (o : Option ℕ) (v : View)
      → v.stored ≡ some s
      → j.decode s ≡ some x
      → lua_number j x.expire_time ≡ o
      → (acquired_by j content now o v).0 ≡ ok true
      → IsFree j now v
  acquired_by-IsFree content now s x none v e m p h = absurd (cc h)
  acquired_by-IsFree content now s x (some t) v e m p h = elim (Bool-cases (ltb now t)) [
    | inl late ↦
        let bad : (acquired_when j true content v).0 ≡ ok true = rw late at h in absurd (cc bad)
    | inr passed ↦ inr (s, x, t, e, m, p, ground arith)
  ]

  acquired_over-IsFree :
      (content : Text) (now : ℕ) (s : Text) (o : Option Document) (v : View)
      → v.stored ≡ some s
      → j.decode s ≡ o
      → (acquired_over j content now o v).0 ≡ ok true
      → IsFree j now v
  acquired_over-IsFree content now s none v e m h = absurd (cc h)
  acquired_over-IsFree content now s (some x) v e m h =
      acquired_by-IsFree content now s x _ v e m refl h

  acquired_at-IsFree :
      (content : Text) (now : ℕ) (o : Option Text) (v : View)
      → v.stored ≡ o
      → (acquired_at j content now o v).0 ≡ ok true
      → IsFree j now v
  acquired_at-IsFree content now none v e h = inl e
  acquired_at-IsFree content now (some s) v e h =
      acquired_over-IsFree content now s (j.decode s) v e refl h

-- What Go wrote has an expiry time that Lua cannot compare.
stuck :
    (j : Json) (content s : Text) (now : ℕ) (info : LockInfo) (v : View)
    → v.stored ≡ some s
    → j.encode (document_of j info) ≡ some s
    → acquired j content now v ≡ (err error_reply, v)
unfolding acquired document_of
stuck j content s now info v q w =
    ap (λ o. acquired_at j content now o v) q
    ∙ ap (λ o. acquired_over j content now o v) (j.decode-encode (document_of j info) s w)
    ∙ ap (λ o. acquired_by j content now o v) (j.to_number-format info.expire_time)

map_err-ok : {E F : Type 0} (f : E → F) (x : Result E Bool) → map_err f x ≡ ok true → x ≡ ok true
map_err-ok f (ok b) h = cc h
map_err-ok f (err e) h = cc h

module _ (r : Redis) (j : Json) (l : Lock) where
  -- With every call answered, a lease of at least a second and information that can be written:
  -- when an attempt to take the lock succeeds, nothing was stored for the lock, or what was stored
  -- has an expiry time that Lua reads as a number and that has passed at the attempt's clock.
  pub try_acquire_lock-IsFree :
      (now t : ℕ) {content : Text} {v : View} (e : Env r.Db)
      → seconds l.config.lease_duration ≡ suc t
      → marshalled r j l (new_info r j l now) ≡ some content
      → Online r l.name v e
      → (try_acquire_lock r j l now e).0 ≡ ok true
      → IsFree j (seconds now) v
  unfolding acquired
  try_acquire_lock-IsFree now t {content} {v} e p m o h =
      let g = try_acquire_lock-acquired r j l now t e p m o in
      acquired_at-IsFree j content (seconds now) v.stored v refl
        (map_err-ok acquire_failed _ (sym g.returns ∙ h))

  -- With every call answered, a lease of at least a second and information that can be written:
  -- while the stored information is one that Go wrote, whether its lease has passed or not, an
  -- attempt to take the lock ends in the error of the failed call and not in a refusal, and leaves
  -- the lock as it is.
  pub contended :
      (now t : ℕ) (info : LockInfo) {content s : Text} {v : View} (e : Env r.Db)
      → seconds l.config.lease_duration ≡ suc t
      → marshalled r j l (new_info r j l now) ≡ some content
      → v.stored ≡ some s
      → j.encode (document_of j info) ≡ some s
      → Online r l.name v e
      → Gives (try_acquire_lock r j l now e) (err (acquire_failed error_reply)) (Online r l.name v)
  contended now t info {content} {s} {v} e p m q w o =
      let g = try_acquire_lock-acquired r j l now t e p m o in
      rw (stuck j content s (seconds now) info v q w) at g
