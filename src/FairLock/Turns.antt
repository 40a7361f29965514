-- ===== src/FairLock/Turns.antt =====
-- Whose turn it is: what `canAcquireFairLock` answers, and what the loop makes of it
-- (lock/fair_lock.go).
use remix.Base.{
  arith, ℕ, suc, ◌<◌, ◌≡◌, ◌≢◌, refl, ap, Bool, true, false, List, [], ◌∷◌, Option, none, some, ok,
  err, Result, Action, after, map_err, Text, ltb, if◌then◌else◌, ◌==◌,
}
use remix.Redis.Value.{score}
use remix.Redis.Command.{get}
use remix.Redis.Server.{Redis}
use remix.Redis.Client.{
  Fault, redis_nil, unreachable, Outcome, answered, lost, unanswered, Env, call, send, redis_call,
  lua_text,
}
use remix.Lock.Types.{Json, Error, check_failed, lua_number, seconds}
use remix.Lock.Keys.{lock_key, holder}
use remix.Lock.Scripts.{or_raise}
use remix.Lock.Ops.{Lock, World, remote}
use remix.FairLock.Types.{Doubles}
use remix.FairLock.Scripts.{boolean_reply, check_over, check_script}
use remix.FairLock.Ops.{
  Turn, finally, can_acquire_fair_lock, fair_attempt, fair_loop, join_queue, leave_after,
  is_cancelled, queue_up,
}
use remix.FairLock.View.{Lined}
use remix.FairLock.Order.{before, before-suc}
use remix.FairLock.Queueing.{join_queue-joined}

-- A step that ends in an error, and what precedes it.
abbrev pub Fails : {S E A : Type 0} → Result E A × S → Type 0
Fails {E} x = (f : E) × (x.0 ≡ err f)

after-Fails :
    {S E A B : Type 0} (f : A → Action S E B) (x : Result E A × S)
    → ((a : A) (s : S) → Fails (f a s))
    → Fails (after x f)
after-Fails f (ok a, s) k = k a s
after-Fails f (err e, s) k = (e, refl)

after-not_false :
    {S E A : Type 0} (f : A → Action S E Bool) (x : Result E A × S)
    → ((a : A) (s : S) → (f a s).0 ≢ ok false)
    → (after x f).0 ≢ ok false
after-not_false f (ok a, s) k h = k a s h
after-not_false f (err e, s) k h = cc h

boolean-not_false : {S : Type 0} (b : Bool) (s : S) → (boolean_reply b s).0 ≢ ok false
boolean-not_false true s h = cc h
boolean-not_false false s h = cc h

sent-not_false :
    {D : Type 0} (net : List Outcome) (f : Action D Fault Bool) (d : D)
    → (f d).0 ≢ ok false
    → (send net f d).0 ≢ ok false
sent-not_false [] f d k h = k h
sent-not_false (answered ∷ net) f d k h = k h
sent-not_false (lost ∷ net) f d k h = cc h
sent-not_false (unanswered ∷ net) f d k h = cc h

sent-Fails :
    {D A : Type 0} (net : List Outcome) (f : Action D Fault A) (d : D)
    → Fails (f d)
    → Fails (send net f d)
sent-Fails [] f d k = k
sent-Fails (answered ∷ net) f d k = k
sent-Fails (lost ∷ net) f d k = (unreachable, refl)
sent-Fails (unanswered ∷ net) f d k = (unreachable, refl)

wrapped-not_false : (x : Result Fault Bool) → x ≢ ok false → map_err check_failed x ≢ ok false
wrapped-not_false (ok true) k h = cc h
wrapped-not_false (ok false) k h = k refl
wrapped-not_false (err f) k h = cc h

module _ (r : Redis) (j : Json) (q : Doubles) where
  check_over-not_false :
      (p now : ℕ) (o : Option Text) (d : r.Db) → (check_over r j q p now o d).0 ≢ ok false
  unfolding check_over
  check_over-not_false p now none d = boolean-not_false (p == 0) d
  check_over-not_false p now (some s) d = after-not_false _ (or_raise (j.decode s) d) λ x d.
      after-not_false _ (or_raise (lua_number j x.expire_time) d) λ t d. same_answer (ltb now t) d
    where
      same_answer :
          (b : Bool) (d : r.Db)
          → ((if b then boolean_reply (p == 0) else boolean_reply (p == 0)) d).0 ≢ ok false
      same_answer true d = boolean-not_false (p == 0) d
      same_answer false d = boolean-not_false (p == 0) d

  later_reply : {S : Type 0} (p : ℕ) (s : S) → Fails (boolean_reply (suc p == 0) s)
  later_reply p s = let b : (suc p == 0) ≡ false = ground arith in rw b (redis_nil, refl)

  check_over-Fails :
      (p now : ℕ) (o : Option Text) (d : r.Db) → Fails (check_over r j q (suc p) now o d)
  unfolding check_over
  check_over-Fails p now none d = later_reply p d
  check_over-Fails p now (some s) d = after-Fails _ (or_raise (j.decode s) d) λ x d.
      after-Fails _ (or_raise (lua_number j x.expire_time) d) λ t d. same_answer (ltb now t) d
    where
      same_answer :
          (b : Bool) (d : r.Db)
          → Fails ((if b then boolean_reply (suc p == 0) else boolean_reply (suc p == 0)) d)
      same_answer true d = later_reply p d
      same_answer false d = later_reply p d

module _ (r : Redis) (j : Json) (q : Doubles) (l : Lock) where
  -- On any server and network and from any state, `canAcquireFairLock` never answers that it is not
  -- the caller's turn: it says yes, or it fails.
  pub can_acquire-never_false :
      (now p : ℕ) (e : Env r.Db) → (can_acquire_fair_lock r j q l now p e).0 ≢ ok false
  unfolding can_acquire_fair_lock check_script
  can_acquire-never_false now p e = wrapped-not_false _ (
      sent-not_false e.net _ e.db (
        after-not_false _ (redis_call r (get (lock_key l.name)) e.db)
          λ a d. check_over-not_false r j q p (seconds now) (lua_text a) d))

  map_err-Fails :
      {S A : Type 0} (x : Result Fault A × S)
      → Fails x
      → (f : Fault) × (map_err check_failed x.0 ≡ err (check_failed f))
  map_err-Fails (ok a, s) (f, e) = absurd (cc e)
  map_err-Fails (err f, s) k = (f, refl)

  can_acquire_later :
      (now p : ℕ) (e : Env r.Db)
      → (f : Fault) × ((can_acquire_fair_lock r j q l now (suc p) e).0 ≡ err (check_failed f))
  unfolding can_acquire_fair_lock check_script
  can_acquire_later now p e =
      map_err-Fails (call (check_script r j q (lock_key l.name) (suc p) (seconds now)) e) (
        sent-Fails e.net _ e.db (
          after-Fails _ (redis_call r (get (lock_key l.name)) e.db)
            λ a d. check_over-Fails r j q p (seconds now) (lua_text a) d))

  after-err :
      {S E A B : Type 0} (f : A → Action S E B) (x : Result E A × S) (e : E)
      → x.0 ≡ err e
      → (after x f).0 ≡ err e
  after-err f (ok a, s) e h = absurd (cc h)
  after-err f (err d, s) e h = let same : d ≡ e = cc h in ap err same

  -- On any server and network and from any state: the loop of a member that is not the first of the
  -- queue ends in its first round with the error of the failed check; it neither waits nor times
  -- out, whether it should block or not.
  pub not_first-Fails :
      (p wait_timeout : ℕ) (block : Bool) (t : Turn r.Db) (ts : List (Turn r.Db)) (w : World r.Db)
      → (f : Fault) × ((fair_loop r j q l (suc p) wait_timeout block (t ∷ ts) w).0
          ≡ err (check_failed f))
  unfolding fair_loop fair_attempt
  not_first-Fails p wait_timeout block t ts w =
      let (f, h) = can_acquire_later t.checked p w.env in
      (f, after-err _ _ (check_failed f) (after-err _ _ (check_failed f) h))

  queued_behind :
      (x : Result Error ℕ × World r.Db) (p wait_timeout : ℕ) (block : Bool) (t : Turn r.Db)
      (ts : List (Turn r.Db))
      → x.0 ≡ ok (suc p)
      → (f : Fault) × ((after x (λ p.
            finally
              (fair_loop r j q l p wait_timeout block (t ∷ ts))
              (λ x. remote (leave_after r j q l (is_cancelled x))))).0
          ≡ err (check_failed f))
  queued_behind (ok n, w) p wait_timeout block t ts h =
      let e : n ≡ suc p = cc h in rw e (not_first-Fails p wait_timeout block t ts w)
  queued_behind (err e, w) p wait_timeout block t ts h = absurd (cc h)

  -- With every call answered: a new member whose clock, as a score, lies behind that of the first
  -- waiting member is not let to wait: a call that may block as well as one that may not ends in
  -- the first round with the error of the failed check, also when the lock is free.
  pub behind_first-Fails :
      (joined wait_timeout s : ℕ) (block : Bool) (m : Text) (t : Turn r.Db) (ts : List (Turn r.Db))
      {z : List (Text × ℕ)} (w : World r.Db)
      → s < q.double joined
      → score (holder l.owner l.thread_id) ((m, s) ∷ z) ≡ none
      → Lined r l.name ((m, s) ∷ z) w.env
      → (f : Fault) × ((queue_up r j q l joined wait_timeout block (t ∷ ts) w).0
          ≡ err (check_failed f))
  unfolding queue_up
  behind_first-Fails joined wait_timeout s block m t ts {z} w b a h =
      let me = holder l.owner l.thread_id in
      let g = join_queue-joined r j q l joined w.env h in
      let x = join_queue r j q l joined w.env in
      let e = g.returns in
      let e = rw (a, before-suc (q.double joined) s me m z b) at e in
      queued_behind (x.0, record w { env = x.1 }) (before (q.double joined) me z) wait_timeout block
        t ts e
