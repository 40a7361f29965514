-- ===== src/RwLock/Waiting.antt =====
-- The waiting loop of both locks (lock/rwlock.go).
use remix.Base.{
  ℕ, ◌≡◌, ◌≢◌, refl, ap, Bool, true, false, List, [], ◌∷◌, ◌++◌, some, Result, ok, err, Gives,
  Action, after, after-Gives, Text, text_eq, ℤ, pos, ltb, leb, ◌&&◌, ◌⊎◌, inl, inr, if◌then◌else◌,
  pure, fail,
}
use remix.Redis.Value.{field, sum_of}
use remix.Redis.Server.{Redis}
use remix.Redis.Client.{Env}
use remix.Lock.Types.{Json, Error, seconds, lock_timeout, cancelled, starved}
use remix.Lock.Keys.{holder}
use remix.Lock.Ops.{Round}
use remix.RwLock.Types.{Objects}
use remix.RwLock.Ops.{ReadLock, acquire_loop, try_acquire_read_lock, read_lock, read_lock_internal}
use remix.RwLock.View.{View, Holds, Online}
use remix.RwLock.Spec.{guarded_at, read_acquired}
use remix.RwLock.Exclusion.{IsWriting}
use remix.RwLock.Readers.{reader_shut_out}
use remix.RwLock.Refine.Read.{try_acquire_read_lock-acquired}

module _ {D : Type 0} (try_acquire : ℕ → Action (Env D) Error Bool) where
  -- A round that ends the wait: the timeout is set, and it has passed.
  abbrev pub Ends : ℕ → Round D → Type 0
  Ends wait_timeout t = (ltb 0 wait_timeout && leb wait_timeout t.since) ≡ true

  round-not_starved :
      (x : Result Error Bool) (gives_up done : Bool) (more : Action (Env D) Error (Unit {0}))
      (e : Env D)
      → x ≢ err starved
      → ((gives_up ≡ true) ⊎ ((e : Env D) → (more e).0 ≢ err starved))
      → (after
          (x, e)
          (λ acquired. elim acquired [
            | true ↦ pure tt
            | false ↦ if gives_up then fail lock_timeout else if done then fail cancelled else more
          ])).0
        ≢ err starved
  round-not_starved (ok true) g d more w n o h = cc h
  round-not_starved (ok false) true d more w n o h = cc h
  round-not_starved (ok false) false true more w n o h = cc h
  round-not_starved (ok false) false false more w n (inl e) h = absurd (cc e)
  round-not_starved (ok false) false false more w n (inr m) h = m w h
  round-not_starved (err e) g d more w n o h = let same : e ≡ starved = cc h in n (ap err same)

  -- The waiting loop of both locks, around attempts that return a result of the code, on any server
  -- and network: it does not run beyond a round in which a timeout above zero has passed.
  pub acquire_loop-Ends :
      (wait_timeout : ℕ) (ts us : List (Round D)) (t : Round D) (e : Env D)
      → ((now : ℕ) (e : Env D) → (try_acquire now e).0 ≢ err starved)
      → Ends wait_timeout t
      → (acquire_loop try_acquire wait_timeout true (ts ++ (t ∷ us)) e).0 ≢ err starved
  unfolding acquire_loop
  acquire_loop-Ends wait_timeout [] us t e a h =
      round-not_starved (try_acquire t.now e).0 _ t.done _ _ (a t.now e) (inl h)
  acquire_loop-Ends wait_timeout (s ∷ ts) us t e a h =
      round-not_starved (try_acquire s.now e).0 _ s.done _ _ (a s.now e)
        (inr (λ e. acquire_loop-Ends wait_timeout ts us t (record e { db = s.meanwhile e.db }) a h))

module _ (r : Redis) (j : Json) (o : Objects) (l : ReadLock) where
  -- Rounds in which the writer's lease runs, the context is not done, and others leave the lock as
  -- it is.
  abbrev pub Waits : Text → View → List (Round r.Db) → Type 0
  Waits w v [] = Unit {0}
  Waits w v (t ∷ ts) =
      IsWriting j o w (seconds t.now) v
      × (t.done ≡ false)
      × ((d : r.Db) → Holds r l.rw_lock.name d v → Holds r l.rw_lock.name (t.meanwhile d) v)
      × Waits w v ts

  -- The lock once the reader has got through.
  abbrev pub got : ℕ → View → View
  got now v =
      (read_acquired j o l.rw_lock.name l.owner l.thread_id
        (seconds l.rw_lock.config.lease_duration) (seconds now) v).1

  entered_now :
      (now : ℕ) (z : ℤ) (v : View)
      → guarded_at j o (holder l.owner l.thread_id) (seconds now) v.writer ≡ ok true
      → sum_of (field (holder l.owner l.thread_id) v.counts) (pos 1) ≡ some z
      → (read_acquired j o l.rw_lock.name l.owner l.thread_id
          (seconds l.rw_lock.config.lease_duration)
          (seconds now)
          v).0
        ≡ ok true
  unfolding read_acquired
  entered_now now z v g c = rw (g, c) refl

  loop-got :
      (w : Text) (z : ℤ) (ts us : List (Round r.Db)) (t : Round r.Db) {v : View} (e : Env r.Db)
      → text_eq w (holder l.owner l.thread_id) ≡ false
      → Waits w v ts
      → guarded_at j o (holder l.owner l.thread_id) (seconds t.now) v.writer ≡ ok true
      → sum_of (field (holder l.owner l.thread_id) v.counts) (pos 1) ≡ some z
      → Online r l.rw_lock.name v e
      → Gives
          (acquire_loop (try_acquire_read_lock r j o l) 0 true (ts ++ (t ∷ us)) e)
          (ok tt)
          (Online r l.rw_lock.name (got t.now v))
  unfolding acquire_loop
  loop-got w z [] us t {v} e q k g c p =
      after-Gives _ _
        (rw (entered_now t.now z v g c) at (try_acquire_read_lock-acquired r j o l t.now e p))
        λ e p. record { returns = refl; leaves = p }
  loop-got w z (s ∷ ts) us t {v} e q (h, d, m, k) g c p =
      after-Gives _ _ (reader_shut_out r j o l s.now w e p h q) λ e p. rw d (
        loop-got w z ts us t (record e { db = s.meanwhile e.db }) q k g c
          (record { holds = m e.db p.holds; net = p.net }))

  -- With every call answered and no wait timeout, and with a count of the reader, if there is one,
  -- that is an integer: a read lock that finds another holder's writer waits through any number of
  -- rounds in which that writer's lease runs, the context is not done and others leave the lock as
  -- it is; in the next round, if the writer then lets it pass, as when the lease has passed though
  -- the writer never released, it gets the lock.
  pub read_lock-got :
      (w : Text) (z : ℤ) (ts us : List (Round r.Db)) (t : Round r.Db) {v : View} (e : Env r.Db)
      → l.rw_lock.config.wait_timeout ≡ 0
      → text_eq w (holder l.owner l.thread_id) ≡ false
      → Waits w v ts
      → guarded_at j o (holder l.owner l.thread_id) (seconds t.now) v.writer ≡ ok true
      → sum_of (field (holder l.owner l.thread_id) v.counts) (pos 1) ≡ some z
      → Online r l.rw_lock.name v e
      → Gives (read_lock r j o l (ts ++ (t ∷ us)) e) (ok tt) (Online r l.rw_lock.name (got t.now v))
  unfolding read_lock read_lock_internal
  read_lock-got w z ts us t e n q k g c p = rw n (loop-got w z ts us t e q k g c p)
