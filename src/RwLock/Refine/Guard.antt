-- ===== src/RwLock/Refine/Guard.antt =====
-- The scripts' look at the stored writer (lock/rwlock.go), against the specification.
use remix.Base.{ℕ, ◌≡◌, refl, Bool, true, false, Option, none, some, Text, ltb}
use remix.Redis.Command.{bulk_of}
use remix.Redis.Server.{Redis}
use remix.Redis.Client.{lua_text}
use remix.Lock.Types.{Json}
use remix.RwLock.Types.{Object, Objects, number_of}
use remix.RwLock.Scripts.{write_guard, joined}
use remix.RwLock.Spec.{guarded_owner, guarded_when, guarded_by, guarded_over, guarded_at}

module _ (r : Redis) (j : Json) (o : Objects) where
  guard_owner :
      (me s : Text) (now t : ℕ) (x : Object) (w : Option Text) (d : r.Db)
      → o.decode s ≡ some x
      → number_of j x.expire_time ≡ some t
      → ltb now t ≡ true
      → joined x.owner x.thread_id ≡ w
      → write_guard r j o me now (some s) d ≡ (guarded_owner me w, d)
  unfolding write_guard
  guard_owner me s now t x none d m p b q = rw (m, p, b, q) refl
  guard_owner me s now t x (some w) d m p b q = rw (m, p, b, q) refl

  guard_when :
      (me s : Text) (now t : ℕ) (x : Object) (late : Bool) (d : r.Db)
      → o.decode s ≡ some x
      → number_of j x.expire_time ≡ some t
      → ltb now t ≡ late
      → write_guard r j o me now (some s) d ≡ (guarded_when late me x, d)
  unfolding write_guard
  guard_when me s now t x true d m p b = guard_owner me s now t x _ d m p b refl
  guard_when me s now t x false d m p b = rw (m, p, b) refl

  guard_by :
      (me s : Text) (now : ℕ) (x : Object) (e : Option ℕ) (d : r.Db)
      → o.decode s ≡ some x
      → number_of j x.expire_time ≡ e
      → write_guard r j o me now (some s) d ≡ (guarded_by j o me now x e, d)
  unfolding write_guard
  guard_by me s now x none d m p = rw (m, p) refl
  guard_by me s now x (some t) d m p = guard_when me s now t x _ d m p refl

  guard_over :
      (me s : Text) (now : ℕ) (x : Option Object) (d : r.Db)
      → o.decode s ≡ x
      → write_guard r j o me now (some s) d ≡ (guarded_over j o me now x, d)
  unfolding write_guard
  guard_over me s now none d m = rw m refl
  guard_over me s now (some x) d m = guard_by me s now x _ d m refl

  -- The scripts' look at the stored writer.
  pub write_guard-guarded :
      (me : Text) (now : ℕ) (s : Option Text) (d : r.Db)
      → write_guard r j o me now (lua_text (bulk_of s)) d ≡ (guarded_at j o me now s, d)
  unfolding write_guard
  write_guard-guarded me now none d = refl
  write_guard-guarded me now (some s) d = guard_over me s now _ d refl
