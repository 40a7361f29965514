-- ===== src/Lock/Loop.antt =====
-- The retry loop of lockInternal (lock/lock.go), and the three ways to call it.
use remix.Base.{
  ℕ, ◌≡◌, ◌≢◌, refl, ap, Bool, true, false, List, [], ◌∷◌, ◌++◌, Result, ok, err, Option-cases, inl,
  inr, ◌⊎◌, after, fail, map_err, fun_ext, ltb, leb, if◌then◌else◌, ◌&&◌, arith,
}
use remix.Redis.Server.{Redis}
use remix.Redis.Client.{Fault, Env}
use remix.Lock.Types.{Json, Error, marshal_failed, acquire_failed, lock_timeout, cancelled, starved}
use remix.Lock.Ops.{
  Lock, World, Round, acquired_now, lock_loop, lock_internal, try_lock, try_lock_with_timeout,
  try_acquire_lock, marshalled, new_info, as_try,
}

module _ (r : Redis) (j : Json) (l : Lock) where
  loop_once :
      (m n : ℕ) (ts : List (Round r.Db)) (w : World r.Db)
      → lock_loop r j l m false ts w ≡ lock_loop r j l n false ts w
  unfolding lock_loop
  loop_once m n [] w = refl
  loop_once m n (t ∷ ts) w = refl

  internal_once :
      (checked m n : ℕ) (ts : List (Round r.Db)) (w : World r.Db)
      → lock_internal r j l checked m false ts w ≡ lock_internal r j l checked n false ts w
  unfolding lock_internal
  internal_once checked m n ts w = rw (fun_ext (loop_once m n ts)) refl

  -- The errors of an attempt: the information cannot be written, or the call fails.
  data IsAttempted : Result Error Bool → Type 0 where
    answered : (b : Bool) → IsAttempted (ok b)
    unwritten : IsAttempted (err marshal_failed)
    failed : (f : Fault) → IsAttempted (err (acquire_failed f))

  failed-IsAttempted : (x : Result Fault Bool) → IsAttempted (map_err acquire_failed x)
  failed-IsAttempted (ok b) = answered b
  failed-IsAttempted (err f) = failed f

  attempt-IsAttempted : (now : ℕ) (e : Env r.Db) → IsAttempted (try_acquire_lock r j l now e).0
  unfolding try_acquire_lock
  attempt-IsAttempted now e = elim (Option-cases (marshalled r j l (new_info r j l now))) [
    | inl p ↦ rw p unwritten
    | inr (s, p) ↦ rw p (failed-IsAttempted _)
  ]

  IsAttempted-not_starved : {x : Result Error Bool} → IsAttempted x → x ≢ err starved
  IsAttempted-not_starved (answered b) h = cc h
  IsAttempted-not_starved unwritten h = cc h
  IsAttempted-not_starved (failed f) h = cc h

  attempt-not_starved : (now : ℕ) (e : Env r.Db) → (try_acquire_lock r j l now e).0 ≢ err starved
  attempt-not_starved now e = IsAttempted-not_starved (attempt-IsAttempted now e)

  abbrev once : Result Error Bool × World r.Db → Result Error (Unit {0}) × World r.Db
  once y =
      after y λ acquired. elim acquired [ true ↦ acquired_now r j l | false ↦ fail lock_timeout ]

  -- One attempt's result, and what it leaves of the server and the network.
  tried_once :
      (x : Result Error Bool) (w : World r.Db)
      → IsAttempted x
      → (as_try r j l (once (x, w)).0 ≡ x) × ((once (x, w)).1.env ≡ w.env)
  unfolding acquired_now
  tried_once (ok true) w (answered true) = (refl, refl)
  tried_once (ok false) w (answered false) = (refl, refl)
  tried_once (err e) w unwritten = (refl, refl)
  tried_once (err e) w (failed f) = (refl, refl)

  not_again : (b : Bool) (n : ℕ) → n ≡ 0 → (b && ltb 0 n) ≡ false
  not_again b n e = ground arith

  -- TryLockWithTimeout, for every timeout, on any server and network, through an object without a
  -- hold: it does what TryLock does, returns what one attempt to take the lock returns, and leaves
  -- the server and the network as that one attempt does.
  pub timeout_is_ignored :
      (timeout checked : ℕ) (t : Round r.Db) (ts : List (Round r.Db)) (w : World r.Db)
      → w.hold_count ≡ 0
      → (try_lock_with_timeout r j l timeout checked (t ∷ ts) w ≡ try_lock r j l checked (t ∷ ts) w)
        × ((try_lock_with_timeout r j l timeout checked (t ∷ ts) w).0
            ≡ (try_acquire_lock r j l t.now w.env).0)
        × ((try_lock_with_timeout r j l timeout checked (t ∷ ts) w).1.env
            ≡ (try_acquire_lock r j l t.now w.env).1)
  unfolding try_lock_with_timeout try_lock lock_internal lock_loop
  timeout_is_ignored timeout checked t ts w h =
      let (a, b) =
        tried_once (try_acquire_lock r j l t.now w.env).0
          (record w { env = (try_acquire_lock r j l t.now w.env).1 })
          (attempt-IsAttempted t.now w.env) in
      rw (not_again l.config.reentrant w.hold_count h) (refl, a, b)

  -- A round that ends the wait: the timeout is set, and it has passed.
  abbrev pub Ends : ℕ → Round r.Db → Type 0
  Ends wait_timeout t = (ltb 0 wait_timeout && leb wait_timeout t.since) ≡ true

  round-not_starved :
      (x : Result Error Bool) (gives_up done : Bool)
      (more : World r.Db → Result Error (Unit {0}) × World r.Db) (w : World r.Db)
      → x ≢ err starved
      → ((gives_up ≡ true) ⊎ ((w : World r.Db) → (more w).0 ≢ err starved))
      → (after
          (x, w)
          (λ acquired. elim acquired [
            | true ↦ acquired_now r j l
            | false ↦ if gives_up then fail lock_timeout else if done then fail cancelled else more
          ])).0
        ≢ err starved
  unfolding acquired_now
  round-not_starved (ok true) g d more w n o h = cc h
  round-not_starved (ok false) true d more w n o h = cc h
  round-not_starved (ok false) false true more w n o h = cc h
  round-not_starved (ok false) false false more w n (inl e) h = absurd (cc e)
  round-not_starved (ok false) false false more w n (inr m) h = m w h
  round-not_starved (err e) g d more w n o h = let same : e ≡ starved = cc h in n (ap err same)

  -- The blocking loop, on any server and network and from any state, does not run beyond a round
  -- in which a timeout above zero has passed: with such a round among its rounds it returns a
  -- result of the code.
  pub lock_loop-Ends :
      (wait_timeout : ℕ) (ts us : List (Round r.Db)) (t : Round r.Db) (w : World r.Db)
      → Ends wait_timeout t
      → (lock_loop r j l wait_timeout true (ts ++ (t ∷ us)) w).0 ≢ err starved
  unfolding lock_loop
  lock_loop-Ends wait_timeout [] us t w h =
      round-not_starved (try_acquire_lock r j l t.now w.env).0 _ t.done _ _
        (attempt-not_starved t.now w.env) (inl h)
  lock_loop-Ends wait_timeout (s ∷ ts) us t w h =
      round-not_starved (try_acquire_lock r j l s.now w.env).0 _ s.done _ _
        (attempt-not_starved s.now w.env)
        (inr (λ w.
          lock_loop-Ends wait_timeout ts us t
            (record w { env = record w.env { db = s.meanwhile w.env.db } }) h))
