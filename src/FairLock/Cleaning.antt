-- ===== src/FairLock/Cleaning.antt =====
-- Cleaning the queue of a fair lock, and asking for its members (lock/fair_lock.go).
use remix.Base.{
  arith, ℕ, suc, ◌-◌, ◌≡◌, refl, ap, ◌∙◌, Bool, true, false, List, [], ok, Gives, after-Gives,
  wrap-Gives, Text, ltb, length, if◌then◌else◌,
}
use remix.Redis.Value.{above}
use remix.Redis.Command.{zcard}
use remix.Redis.Server.{Redis}
use remix.Redis.Client
use remix.Redis.Client.{query, Fault, Env, call, checked, redis_call}
use remix.Lock.Types.{Json, plain}
use remix.Lock.Keys.{queue_key}
use remix.Lock.Ops.{Lock}
use remix.FairLock.Types.{Doubles}
use remix.FairLock.Scripts.{cleanup_script}
use remix.FairLock.Ops.{cleanup_queue, get_queue_length, has_queued_threads}
use remix.FairLock.View.{Queued, Lined, zremrangebyscore-queue, zcard-queue}
use remix.FairLock.Order.{AllBelow, above_none}
use remix.FairLock.Queueing.{queue_call-Gives, Queued-Gives}

module _ (r : Redis) (j : Json) (q : Doubles) (l : Lock) where
  -- The queue after a cleaning.
  abbrev pub cleaned : ℕ → List (Text × ℕ) → List (Text × ℕ)
  cleaned now z =
      if ltb (q.double now) (q.double l.config.wait_timeout)
      then z
      else above (q.double (q.double now - q.double l.config.wait_timeout)) z

  cleaned_when :
      (early : Bool) (now : ℕ) {z : List (Text × ℕ)} (d : r.Db)
      → ltb (q.double now) (q.double l.config.wait_timeout) ≡ early
      → Queued r l.name z d
      → Gives
          (cleanup_script r j q (queue_key l.name) now l.config.wait_timeout d)
          (ok tt)
          (Queued r l.name (cleaned now z))
  unfolding cleanup_script
  cleaned_when true now d e h = rw e (record { returns = refl; leaves = h })
  cleaned_when false now d e h = rw e (
      after-Gives _ _ (queue_call-Gives r l.name (zremrangebyscore-queue r l.name h _))
        λ d h. record { returns = refl; leaves = h })

  -- With every call answered: a cleaning of the queue leaves the members whose score lies above the
  -- clock less the wait timeout, and all of them where the clock has not yet reached it.
  pub cleanup_queue-cleaned :
      (now : ℕ) {z : List (Text × ℕ)} (e : Env r.Db)
      → Lined r l.name z e
      → Gives (cleanup_queue r j q l now e) (ok tt) (Lined r l.name (cleaned now z))
  unfolding cleanup_queue
  cleanup_queue-cleaned now e h =
      wrap-Gives plain _ (Queued-Gives r l.name _ e h.net (cleaned_when _ now e.db refl h.queue))

  cleaned_all :
      (now : ℕ) (z : List (Text × ℕ))
      → l.config.wait_timeout ≡ 0
      → AllBelow (suc (q.double now)) z
      → cleaned now z ≡ []
  cleaned_all now z e b =
      let w : q.double l.config.wait_timeout ≡ 0 = ap q.double e ∙ q.exact 0 (omega arith) in
      let late : ltb (q.double now) 0 ≡ false = ground arith in
      let same : q.double now - 0 ≡ q.double now = omega arith in
      rw (w, late, same, q.again now) (above_none (q.double now) z b)

  -- With every call answered and no wait timeout, with which `Lock` waits without end: a cleaning
  -- at a clock that no score exceeds, as `Unlock` starts it, removes every waiting member.
  pub cleanup_queue-forgets :
      (now : ℕ) {z : List (Text × ℕ)} (e : Env r.Db)
      → l.config.wait_timeout ≡ 0
      → AllBelow (suc (q.double now)) z
      → Lined r l.name z e
      → Gives (cleanup_queue r j q l now e) (ok tt) (Lined r l.name [])
  cleanup_queue-forgets now {z} e t b h =
      rw (cleaned_all now z t b) at (cleanup_queue-cleaned now e h)

  -- With every call answered: `HasQueuedThreads` tells whether the queue has a member, and changes
  -- nothing.
  pub has_queued_threads-length :
      {z : List (Text × ℕ)} (e : Env r.Db)
      → Lined r l.name z e
      → Gives (has_queued_threads r j q l e) (ok (ltb 0 (length z))) (Lined r l.name z)
  unfolding has_queued_threads get_queue_length
  has_queued_threads-length e h =
      after-Gives _ _
        (wrap-Gives plain _ (
          Queued-Gives r l.name
            (λ d. (
              Client.int_of (r.run (zcard (queue_key l.name)) d).0,
              (r.run (zcard (queue_key l.name)) d).1,
            ))
            e h.net
            (record {
              returns = ap Client.int_of (zcard-queue r l.name h.queue).replies;
              leaves = (zcard-queue r l.name h.queue).queue;
            })))
        λ e h. record { returns = refl; leaves = h }
