-- ===== src/FairLock/First.antt =====
-- The first of the queue and a free lock (lock/fair_lock.go).
use remix.Base.{
  true, false, ℕ, suc, ◌≡◌, refl, Bool, true, List, ◌∷◌, Option, none, some, ok, wrap, Gives,
  after-Gives, wrap-Gives, Text,
}
use remix.Redis.Value.{score}
use remix.Redis.Command.{zscore, zadd, zrank, zrem}
use remix.Redis.Server.{Redis}
use remix.Redis.Client
use remix.Redis.Client.{Env, call, query, redis_call, lua_int}
use remix.Lock.Types.{Json, check_failed, seconds, plain}
use remix.Lock.Keys.{queue_key, holder}
use remix.Lock.Ops.{Lock, World, acquired_now, marshalled, new_info}
use remix.Lock.View
use remix.Lock.View.{View, Holds, Online}
use remix.Lock.Spec.{acquired, taken}
use remix.Lock.Refine.{try_acquire_lock-acquired}
use remix.FairLock.Types.{Doubles}
use remix.FairLock.Scripts.{number_reply, join_over, join_script, check_over, check_script}
use remix.FairLock.Ops.{
  Turn, join_queue, leave_queue, leave_after, can_acquire_fair_lock, fair_attempt, fair_loop,
  queue_up,
}
use remix.FairLock.View.{Lined, Holds_queue}
use remix.FairLock.Order.{before}
use remix.FairLock.Keeps.{after-Keeps}
use remix.FairLock.Queueing.{join_queue-joined}

module _ (r : Redis) (j : Json) (q : Doubles) (n me : Text) (now : ℕ) (v : View) where
  replied_holds : (o : Option ℕ) (d : r.Db) → Holds r n d v → Holds r n (number_reply o d).1 v
  replied_holds none d h = h
  replied_holds (some p) d h = h

  join_over_holds :
      (o : Option ℕ) (d : r.Db)
      → Holds r n d v
      → Holds r n (join_over r j q (queue_key n) now me o d).1 v
  unfolding join_over
  join_over_holds (some s) d h = h
  join_over_holds none d h =
      after-Keeps (λ d. Holds r n d v) _ (redis_call r (zadd (queue_key n) (q.double now) me) d)
        (Holds_queue r n (zadd (queue_key n) (q.double now) me) d refl h)
        λ a d h.
          after-Keeps (λ d. Holds r n d v) _ (redis_call r (zrank (queue_key n) me) d)
            (Holds_queue r n (zrank (queue_key n) me) d refl h)
            λ a d h. replied_holds (lua_int a) d h

  join_script_holds :
      (d : r.Db) → Holds r n d v → Holds r n (join_script r j q (queue_key n) now me d).1 v
  unfolding join_script
  join_script_holds d h =
      after-Keeps (λ d. Holds r n d v) _ (redis_call r (zscore (queue_key n) me) d)
        (Holds_queue r n (zscore (queue_key n) me) d refl h)
        λ a d h. join_over_holds (lua_int a) d h

module _ (r : Redis) (j : Json) (q : Doubles) (l : Lock) where
  join_queue_holds :
      (now : ℕ) {v : View} (e : Env r.Db)
      → Online r l.name v e
      → Online r l.name v (join_queue r j q l now e).1
  unfolding join_queue
  join_queue_holds now {v} e p = rw (p.net) (record {
    holds = join_script_holds r j q l.name (holder l.owner l.thread_id) now v e.db p.holds;
    net = refl;
  })

  leave_queue_holds :
      {v : View} (e : Env r.Db) → Online r l.name v e → Online r l.name v (leave_queue r j q l e).1
  unfolding leave_queue
  leave_queue_holds {v} e p =
      let me = holder l.owner l.thread_id in
      after-Keeps (Online r l.name v) _
        (wrap plain (query r (zrem (queue_key l.name) me) Client.int_of) e)
        (rw (p.net) (record {
          holds = Holds_queue r l.name (zrem (queue_key l.name) me) e.db refl p.holds;
          net = refl;
        }))
        λ a e p. p

  leave_after_holds :
      (done : Bool) {v : View} (e : Env r.Db)
      → Online r l.name v e
      → Online r l.name v (leave_after r j q l done e).1
  unfolding leave_after
  leave_after_holds true e p = p
  leave_after_holds false e p = leave_queue_holds e p

  first_checked :
      (now : ℕ) {v : View} (e : Env r.Db)
      → v.stored ≡ none
      → Online r l.name v e
      → Gives (can_acquire_fair_lock r j q l now 0 e) (ok true) (Online r l.name v)
  unfolding can_acquire_fair_lock check_script check_over
  first_checked now e s p = wrap-Gives check_failed _ (
      View.call-Gives r l.name _ e p.net (
        after-Gives _ _ (View.redis_call-Gives r l.name (View.get_known r l.name p.holds s))
          λ d h. record { returns = refl; leaves = h }))

  first_attempt :
      (turn : Turn r.Db) (t : ℕ) {content : Text} {v : View} (e : Env r.Db)
      → seconds l.config.lease_duration ≡ suc t
      → marshalled r j l (new_info r j l turn.round.now) ≡ some content
      → v.stored ≡ none
      → Online r l.name v e
      → Gives (fair_attempt r j q l 0 turn e) (ok true) (Online r l.name (taken j content v).1)
  unfolding fair_attempt acquired
  first_attempt turn t {content} {v} e b m s p =
      after-Gives _ _ (first_checked turn.checked e s p)
        λ e p. let g = try_acquire_lock-acquired r j l turn.round.now t e b m p in rw s at g

  first_loop :
      (turn : Turn r.Db) (ts : List (Turn r.Db)) (t wait_timeout : ℕ) (block : Bool)
      {content : Text} {v : View} (w : World r.Db)
      → seconds l.config.lease_duration ≡ suc t
      → marshalled r j l (new_info r j l turn.round.now) ≡ some content
      → v.stored ≡ none
      → Online r l.name v w.env
      → Gives
          (fair_loop r j q l 0 wait_timeout block (turn ∷ ts) w)
          (ok tt)
          (λ w. Online r l.name (taken j content v).1 w.env × (w.hold_count ≡ 1))
  unfolding fair_loop acquired_now
  first_loop turn ts t wait_timeout block {content} {v} w b m s p =
      let g = first_attempt turn t w.env b m s p in
      after-Gives {P = λ w. Online r l.name (taken j content v).1 w.env} _
        (
          (fair_attempt r j q l 0 turn w.env).0,
          record w { env = (fair_attempt r j q l 0 turn w.env).1 },
        )
        (record { returns = g.returns; leaves = g.leaves })
        λ w p. record { returns = refl; leaves = (p, refl) }

  -- With every call answered, a lease of at least a second and information that can be written:
  -- with nothing stored for the lock, a new member that no member of the queue is before takes the
  -- lock in the first round, blocking or not: the information is stored, the acquisition is
  -- counted and the hold count is 1.
  pub first-Gets :
      (joined wait_timeout t : ℕ) (block : Bool) (turn : Turn r.Db) (ts : List (Turn r.Db))
      {content : Text} {v : View} {z : List (Text × ℕ)} (w : World r.Db)
      → seconds l.config.lease_duration ≡ suc t
      → marshalled r j l (new_info r j l turn.round.now) ≡ some content
      → score (holder l.owner l.thread_id) z ≡ none
      → before (q.double joined) (holder l.owner l.thread_id) z ≡ 0
      → v.stored ≡ none
      → Lined r l.name z w.env
      → Online r l.name v w.env
      → Gives
          (queue_up r j q l joined wait_timeout block (turn ∷ ts) w)
          (ok tt)
          (λ w. Online r l.name (taken j content v).1 w.env × (w.hold_count ≡ 1))
  unfolding queue_up
  first-Gets joined wait_timeout t block turn ts {content} {v} {z} w b m a f s h p =
      let me = holder l.owner l.thread_id in
      let g = join_queue-joined r j q l joined w.env h in
      let e = g.returns in
      let e = rw (a, f) at e in
      let x = join_queue r j q l joined w.env in
      after-Gives {P = λ w. Online r l.name v w.env} _ (x.0, record w { env = x.1 })
        (record { returns = e; leaves = join_queue_holds joined w.env p })
        λ w p.
          let g = first_loop turn ts t wait_timeout block w b m s p in
          let (o, c) = g.leaves in
          record { returns = g.returns; leaves = (leave_after_holds _ _ o, c) }
