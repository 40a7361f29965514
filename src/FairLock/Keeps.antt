-- ===== src/FairLock/Keeps.antt =====
-- Calls that leave the queue of a fair lock as it is.
use remix.Base.{
  ℕ, refl, Bool, true, false, List, [], ◌∷◌, Option, none, some, ok, err, Result, Action, after,
  pure, fail, wrap, Text, ltb, if◌then◌else◌, ◌==◌, ◌>>◌,
}
use remix.Redis.Command.{get, set_ex, hincrby}
use remix.Redis.Server.{Redis}
use remix.Redis.Client.{Fault, Env, call, redis_call, lua_text}
use remix.Lock.Types.{
  Json, Error, lua_number, check_failed, marshal_failed, seconds, lock_timeout, cancelled,
}
use remix.Lock.Keys.{lock_key, stats_key, total_acquired}
use remix.Lock.Scripts.{or_raise, set_lock, acquire_over, acquire_script}
use remix.Lock.Ops.{
  Lock, World, or_fail, marshalled, new_info, try_acquire_lock, acquired_now, wait,
}
use remix.FairLock.Types.{Doubles}
use remix.FairLock.Scripts.{boolean_reply, check_over, check_script}
use remix.FairLock.Ops.{Turn, can_acquire_fair_lock, fair_attempt, fair_loop}
use remix.FairLock.View.{Queued, Lined, Queued-elsewhere, lock-ne-queue, stats-ne-queue}

-- A step and what follows keep a property of the state.
pub after-Keeps {κ} :
    {S E A B : Type 0} (P : S → Type κ) (f : A → Action S E B) (x : Result E A × S)
    → P x.1
    → ((a : A) (s : S) → P s → P (f a s).1)
    → P (after x f).1
after-Keeps P f (ok a, s) p k = k a s p
after-Keeps P f (err e, s) p k = p

or_raise_keeps {κ} :
    {S A : Type 0} (P : S → Type κ) (o : Option A) (s : S) → P s → P (or_raise o s).1
or_raise_keeps P none s p = p
or_raise_keeps P (some a) s p = p

boolean_keeps {κ} : {S : Type 0} (P : S → Type κ) (b : Bool) (s : S) → P s → P (boolean_reply b s).1
boolean_keeps P true s p = p
boolean_keeps P false s p = p

module _ (r : Redis) (j : Json) (q : Doubles) (n : Text) (z : List (Text × ℕ)) where
  set_lock_keeps :
      (content : Text) (t : ℕ) (d : r.Db)
      → Queued r n z d
      → Queued r n z (set_lock r j (lock_key n) (stats_key n) content t d).1
  unfolding set_lock
  set_lock_keeps content t d h =
      after-Keeps (Queued r n z) _ (redis_call r (set_ex (lock_key n) content t) d)
        (Queued-elsewhere r n (set_ex (lock_key n) content t) d (lock-ne-queue n) h)
        λ a d h.
          after-Keeps (Queued r n z) _ (redis_call r (hincrby (stats_key n) total_acquired 1) d)
            (Queued-elsewhere r n (hincrby (stats_key n) total_acquired 1) d (stats-ne-queue n) h)
            λ a d h. h

  acquire_rest_keeps :
      (content : Text) (t : ℕ) (late : Bool) (d : r.Db)
      → Queued r n z d
      → Queued r n z
          ((if late then pure false else set_lock r j (lock_key n) (stats_key n) content t) d).1
  acquire_rest_keeps content t true d h = h
  acquire_rest_keeps content t false d h = set_lock_keeps content t d h

  acquire_over_keeps :
      (content : Text) (t now : ℕ) (o : Option Text) (d : r.Db)
      → Queued r n z d
      → Queued r n z (acquire_over r j (lock_key n) (stats_key n) content t now o d).1
  unfolding acquire_over
  acquire_over_keeps content t now none d h = set_lock_keeps content t d h
  acquire_over_keeps content t now (some s) d h =
      after-Keeps (Queued r n z) _ (or_raise (j.decode s) d)
        (or_raise_keeps (Queued r n z) (j.decode s) d h)
        λ x d h.
          after-Keeps (Queued r n z) _ (or_raise (lua_number j x.expire_time) d)
            (or_raise_keeps (Queued r n z) (lua_number j x.expire_time) d h)
            λ e d h. acquire_rest_keeps content t (ltb now e) d h

  acquire_script_keeps :
      (content : Text) (t now : ℕ) (d : r.Db)
      → Queued r n z d
      → Queued r n z (acquire_script r j (lock_key n) (stats_key n) content t now d).1
  unfolding acquire_script
  acquire_script_keeps content t now d h =
      after-Keeps (Queued r n z) _ (redis_call r (get (lock_key n)) d)
        (Queued-elsewhere r n (get (lock_key n)) d (lock-ne-queue n) h)
        λ a d h. acquire_over_keeps content t now (lua_text a) d h

  check_over_keeps :
      (p now : ℕ) (o : Option Text) (d : r.Db)
      → Queued r n z d
      → Queued r n z (check_over r j q p now o d).1
  unfolding check_over
  check_over_keeps p now none d h = boolean_keeps (Queued r n z) (p == 0) d h
  check_over_keeps p now (some s) d h =
      after-Keeps (Queued r n z) _ (or_raise (j.decode s) d)
        (or_raise_keeps (Queued r n z) (j.decode s) d h)
        λ x d h.
          after-Keeps (Queued r n z) _ (or_raise (lua_number j x.expire_time) d)
            (or_raise_keeps (Queued r n z) (lua_number j x.expire_time) d h)
            λ e d h. same_answer (ltb now e) d h
    where
      same_answer :
          (b : Bool) (d : r.Db)
          → Queued r n z d
          → Queued r n z ((if b then boolean_reply (p == 0) else boolean_reply (p == 0)) d).1
      same_answer true d h = boolean_keeps (Queued r n z) (p == 0) d h
      same_answer false d h = boolean_keeps (Queued r n z) (p == 0) d h

  check_script_keeps :
      (p now : ℕ) (d : r.Db)
      → Queued r n z d
      → Queued r n z (check_script r j q (lock_key n) p now d).1
  unfolding check_script
  check_script_keeps p now d h =
      after-Keeps (Queued r n z) _ (redis_call r (get (lock_key n)) d)
        (Queued-elsewhere r n (get (lock_key n)) d (lock-ne-queue n) h)
        λ a d h. check_over_keeps p now (lua_text a) d h

  pub call_keeps :
      {A : Type 0} (f : Action r.Db Fault A) (e : Env r.Db)
      → ((d : r.Db) → Queued r n z d → Queued r n z (f d).1)
      → Lined r n z e
      → Lined r n z (call f e).1
  call_keeps f e k h = rw (h.net) (record { queue = k e.db h.queue; net = refl })

module _ (r : Redis) (j : Json) (q : Doubles) (l : Lock) (z : List (Text × ℕ)) where
  marshalled_keeps :
      (o : Option Text) (f : Text → Action (Env r.Db) Error Bool) (e : Env r.Db)
      → ((s : Text) → Lined r l.name z (f s e).1)
      → Lined r l.name z e
      → Lined r l.name z (after (or_fail marshal_failed o e) f).1
  marshalled_keeps none f e k h = h
  marshalled_keeps (some s) f e k h = k s

  pub try_acquire_lock_keeps :
      (now : ℕ) (e : Env r.Db)
      → Lined r l.name z e
      → Lined r l.name z (try_acquire_lock r j l now e).1
  unfolding try_acquire_lock
  try_acquire_lock_keeps now e h =
      marshalled_keeps (marshalled r j l (new_info r j l now)) _ e
        (λ s. call_keeps r j q l.name z _ e (acquire_script_keeps r j q l.name z s _ _) h) h

  pub fair_attempt_keeps :
      (p : ℕ) (t : Turn r.Db) (e : Env r.Db)
      → Lined r l.name z e
      → Lined r l.name z (fair_attempt r j q l p t e).1
  unfolding fair_attempt can_acquire_fair_lock
  fair_attempt_keeps p t e h =
      after-Keeps (Lined r l.name z) _
        (wrap check_failed (call (check_script r j q (lock_key l.name) p (seconds t.checked))) e)
        (call_keeps r j q l.name z _ e (check_script_keeps r j q l.name z p _) h)
        λ b e h. attempted b e h
    where
      attempted :
          (b : Bool) (e : Env r.Db)
          → Lined r l.name z e
          → Lined r l.name z ((if b then try_acquire_lock r j l t.round.now else pure false) e).1
      attempted true e h = try_acquire_lock_keeps t.round.now e h
      attempted false e h = h

  -- What others do between the rounds leaves the queue alone.
  abbrev pub AllAside : List (Turn r.Db) → Type 0
  AllAside [] = Unit {0}
  AllAside (t ∷ ts) =
      ((d : r.Db) → Queued r l.name z d → Queued r l.name z (t.round.meanwhile d)) × AllAside ts

  round_keeps :
      (x : Result Error Bool) (gives_up done : Bool) (meanwhile : r.Db → r.Db)
      (more : Action (World r.Db) Error (Unit {0})) (w : World r.Db)
      → ((w : World r.Db) → Lined r l.name z w.env → Lined r l.name z (more w).1.env)
      → ((d : r.Db) → Queued r l.name z d → Queued r l.name z (meanwhile d))
      → Lined r l.name z w.env
      → Lined r l.name z
          (after
            (x, w)
            (λ acquired. elim acquired [
              | true ↦ acquired_now r j l
              | false ↦
                  if gives_up
                  then fail lock_timeout
                  else if done
                  then fail cancelled
                  else (do wait r j l meanwhile; more)
            ])).1.env
  unfolding acquired_now
  round_keeps (ok true) g d m more w k a h = h
  round_keeps (ok false) true d m more w k a h = h
  round_keeps (ok false) false true m more w k a h = h
  round_keeps (ok false) false false m more w k a h =
      k _ (record { queue = a w.env.db h.queue; net = h.net })
  round_keeps (err e) g d m more w k a h = h

  pub fair_loop_keeps :
      (p wait_timeout : ℕ) (block : Bool) (ts : List (Turn r.Db)) (w : World r.Db)
      → AllAside ts
      → Lined r l.name z w.env
      → Lined r l.name z (fair_loop r j q l p wait_timeout block ts w).1.env
  unfolding fair_loop
  fair_loop_keeps p wait_timeout block [] w a h = h
  fair_loop_keeps p wait_timeout block (t ∷ ts) w a h =
      round_keeps (fair_attempt r j q l p t w.env).0 _ t.round.done t.round.meanwhile
        (fair_loop r j q l p wait_timeout block ts) _
        (λ w h. fair_loop_keeps p wait_timeout block ts w a.1 h) a.0
        (fair_attempt_keeps p t w.env h)
