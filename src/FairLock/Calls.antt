-- ===== src/FairLock/Calls.antt =====
-- The calls that take a fair lock, through an object that holds nothing: Lock, TryLock and
-- TryLockWithTimeout are lockFairInternal with their own timeout (lock/fair_lock.go).
use remix.Base.{
  arith, ℕ, suc, ◌<◌, ◌≡◌, refl, Bool, false, ◌&&◌, List, ◌∷◌, none, some, ok, err, Gives, Text,
  ltb,
}
use remix.Redis.Value.{score, zinsert}
use remix.Redis.Server.{Redis}
use remix.Redis.Client.{Fault}
use remix.Lock.Types.{Json, check_failed, seconds}
use remix.Lock.Keys.{holder}
use remix.Lock.Ops.{Lock, World, marshalled, new_info}
use remix.Lock.View.{View, Online}
use remix.Lock.Spec.{taken}
use remix.FairLock.Types.{Doubles}
use remix.FairLock.Ops.{Turn, is_cancelled, queue_up, lock_fair_internal}
use remix.FairLock.View.{Lined}
use remix.FairLock.Order.{before}
use remix.FairLock.Keeps.{AllAside}
use remix.FairLock.Queueing.{exited, queue_up-exited}
use remix.FairLock.Turns.{behind_first-Fails}
use remix.FairLock.First.{first-Gets}

module _ (r : Redis) (j : Json) (q : Doubles) (l : Lock) where
  no_hold : (b : Bool) (n : ℕ) → n ≡ 0 → (b && ltb 0 n) ≡ false
  no_hold b n e = ground arith

  -- An object that holds nothing joins the queue.
  lock_fair_internal-queue_up :
      (joined wait_timeout : ℕ) (block : Bool) (ts : List (Turn r.Db)) (w : World r.Db)
      → w.hold_count ≡ 0
      → lock_fair_internal r j q l joined wait_timeout block ts w
        ≡ queue_up r j q l joined wait_timeout block ts w
  unfolding lock_fair_internal
  lock_fair_internal-queue_up joined wait_timeout block ts w e =
      rw (no_hold l.config.reentrant w.hold_count e) refl

  -- With every call answered, for an object that holds nothing: when its member is not in the
  -- queue, then for any rounds in which others leave the queue alone, and whether the call ends
  -- with the lock, a timeout or an error, the queue is afterwards what it was before; only when
  -- the end of the context has ended the wait does the member stay in the queue.
  pub lock_fair_internal-exited :
      (joined wait_timeout : ℕ) (block : Bool) (ts : List (Turn r.Db)) {z : List (Text × ℕ)}
      (w : World r.Db)
      → w.hold_count ≡ 0
      → score (holder l.owner l.thread_id) z ≡ none
      → AllAside r j q l (zinsert (q.double joined) (holder l.owner l.thread_id) z) ts
      → Lined r l.name z w.env
      → Lined r l.name
          (exited r j q l
            (is_cancelled (lock_fair_internal r j q l joined wait_timeout block ts w).0)
            joined
            z)
          (lock_fair_internal r j q l joined wait_timeout block ts w).1.env
  lock_fair_internal-exited joined wait_timeout block ts w c e a h =
      rw (lock_fair_internal-queue_up joined wait_timeout block ts w c)
        (queue_up-exited r j q l joined wait_timeout block ts w e a h)

  -- With every call answered, for an object that holds nothing: a new member whose clock, as a
  -- score, lies behind that of the first waiting member is not let to wait: a call that may block
  -- as well as one that may not ends in the first round with the error of the failed check, also
  -- when the lock is free.
  pub lock_fair_internal-Fails :
      (joined wait_timeout s : ℕ) (block : Bool) (m : Text) (t : Turn r.Db) (ts : List (Turn r.Db))
      {z : List (Text × ℕ)} (w : World r.Db)
      → w.hold_count ≡ 0
      → s < q.double joined
      → score (holder l.owner l.thread_id) ((m, s) ∷ z) ≡ none
      → Lined r l.name ((m, s) ∷ z) w.env
      → (f : Fault) × ((lock_fair_internal r j q l joined wait_timeout block (t ∷ ts) w).0
          ≡ err (check_failed f))
  lock_fair_internal-Fails joined wait_timeout s block m t ts w c b a h =
      rw (lock_fair_internal-queue_up joined wait_timeout block (t ∷ ts) w c)
        (behind_first-Fails r j q l joined wait_timeout s block m t ts w b a h)

  -- With every call answered, a lease of at least a second, information that can be written and an
  -- object that holds nothing: with nothing stored for the lock, a new member that no member of
  -- the queue is before takes the lock in the first round, blocking or not: the information is
  -- stored, the acquisition is counted and the hold count is 1.
  pub lock_fair_internal-Gets :
      (joined wait_timeout t : ℕ) (block : Bool) (turn : Turn r.Db) (ts : List (Turn r.Db))
      {content : Text} {v : View} {z : List (Text × ℕ)} (w : World r.Db)
      → w.hold_count ≡ 0
      → seconds l.config.lease_duration ≡ suc t
      → marshalled r j l (new_info r j l turn.round.now) ≡ some content
      → score (holder l.owner l.thread_id) z ≡ none
      → before (q.double joined) (holder l.owner l.thread_id) z ≡ 0
      → v.stored ≡ none
      → Lined r l.name z w.env
      → Online r l.name v w.env
      → Gives
          (lock_fair_internal r j q l joined wait_timeout block (turn ∷ ts) w)
          (ok tt)
          (λ w. Online r l.name (taken j content v).1 w.env × (w.hold_count ≡ 1))
  lock_fair_internal-Gets joined wait_timeout t block turn ts w c b m a f s h p =
      rw (lock_fair_internal-queue_up joined wait_timeout block (turn ∷ ts) w c)
        (first-Gets r j q l joined wait_timeout t block turn ts w b m a f s h p)
