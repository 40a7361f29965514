-- ===== src/FairLock/Queueing.antt =====
-- Joining and leaving the queue of a fair lock (lock/fair_lock.go).
use remix.Base.{
  ℕ, ◌≡◌, refl, ap, subst, Bool, true, false, List, [], Option, none, some, ok, err, Result, Action,
  after, wrap, Gives, after-Gives, wrap-Gives, Text,
}
use remix.Redis.Value.{zremove_absent, score, zinsert, zremove}
use remix.Redis.Command.{Command, Reply, zrem, int_of}
use remix.Redis.Server.{Redis}
use remix.Redis.Client
use remix.Redis.Client.{query, Fault, Env, call, checked, redis_call}
use remix.Lock.Types.{Json, Error, plain, join_failed}
use remix.Lock.Keys.{queue_key, holder}
use remix.Lock.Ops.{Lock, World, remote}
use remix.FairLock.Types.{Doubles}
use remix.FairLock.Scripts.{join_over, join_script}
use remix.FairLock.Ops.{
  finally, fair_loop, Turn, join_queue, leave_queue, leave_after, is_cancelled, queue_up,
}
use remix.FairLock.View.{Queued, Lined, Runs, zscore-queue, zadd-queue, zrank-queue, zrem-queue}
use remix.FairLock.Order.{before, rank-zinsert, zremove-zinsert}
use remix.FairLock.Keeps.{after-Keeps, fair_loop_keeps, AllAside}

checked-int_of : (o : Option ℕ) → checked (int_of o) ≡ ok (int_of o)
checked-int_of none = refl
checked-int_of (some n) = refl

module _ (r : Redis) (n : Text) where
  pub queue_call-Gives :
      {c : Command} {d : r.Db} {reply : Reply} {z : List (Text × ℕ)}
      → Runs r n c d reply z
      → Gives (redis_call r c d) (checked reply) (Queued r n z)
  queue_call-Gives s = record { returns = ap checked s.replies; leaves = s.queue }

  pub Queued-Gives :
      {A : Type 0} {z : List (Text × ℕ)} {res : Result Fault A} (f : Action r.Db Fault A)
      (e : Env r.Db)
      → e.net ≡ []
      → Gives (f e.db) res (Queued r n z)
      → Gives (call f e) res (Lined r n z)
  Queued-Gives f e p g =
      rw p (record { returns = g.returns; leaves = record { queue = g.leaves; net = refl } })

-- The answer to a joining member, and the queue after it: a new member gets its place, a member of
-- the queue gets its score.
abbrev pub place_of : Option ℕ → ℕ → Text → List (Text × ℕ) → ℕ
place_of none s me z = before s me z
place_of (some t) s me z = t

abbrev pub line_of : Option ℕ → ℕ → Text → List (Text × ℕ) → List (Text × ℕ)
line_of none s me z = zinsert s me z
line_of (some t) s me z = z

module _ (r : Redis) (j : Json) (q : Doubles) (n me : Text) (now : ℕ) where
  join_over-Gives :
      (o : Option ℕ) {z : List (Text × ℕ)} (d : r.Db)
      → score me z ≡ o
      → Queued r n z d
      → Gives
          (join_over r j q (queue_key n) now me o d)
          (ok (place_of o (q.double now) me z))
          (Queued r n (line_of o (q.double now) me z))
  unfolding join_over
  join_over-Gives none {z} d e h =
      after-Gives _ _ (queue_call-Gives r n (zadd-queue r n h (q.double now) me)) λ d h.
        let h = rw (zremove_absent me z e) at h in
        after-Gives _ _
          (rw (rank-zinsert (q.double now) me z e) at (queue_call-Gives r n (zrank-queue r n h me)))
          λ d h. record { returns = refl; leaves = h }
  join_over-Gives (some t) d e h = record { returns = refl; leaves = h }

  join_script-Gives :
      (o : Option ℕ) {z : List (Text × ℕ)} (d : r.Db)
      → score me z ≡ o
      → Queued r n z d
      → Gives
          (join_script r j q (queue_key n) now me d)
          (ok (place_of o (q.double now) me z))
          (Queued r n (line_of o (q.double now) me z))
  unfolding join_script
  join_script-Gives none d e h =
      after-Gives _ _ (rw e at (queue_call-Gives r n (zscore-queue r n h me)))
        λ d h. join_over-Gives none d e h
  join_script-Gives (some t) d e h =
      after-Gives _ _ (rw e at (queue_call-Gives r n (zscore-queue r n h me)))
        λ d h. join_over-Gives (some t) d e h

module _ (r : Redis) (j : Json) (q : Doubles) (l : Lock) where
  -- With every call answered: a new member of the queue is put into it with its clock as the score,
  -- and gets the number of members before it; a member that is already in the queue gets its score
  -- instead, and the queue stays as it is.
  pub join_queue-joined :
      (now : ℕ) {z : List (Text × ℕ)} (e : Env r.Db)
      → Lined r l.name z e
      → Gives
          (join_queue r j q l now e)
          (ok (
            place_of
              (score (holder l.owner l.thread_id) z)
              (q.double now)
              (holder l.owner l.thread_id)
              z))
          (Lined r l.name (
            line_of
              (score (holder l.owner l.thread_id) z)
              (q.double now)
              (holder l.owner l.thread_id)
              z))
  unfolding join_queue
  join_queue-joined now e h = wrap-Gives join_failed _ (
      Queued-Gives r l.name _ e h.net
        (join_script-Gives r j q l.name (holder l.owner l.thread_id) now _ e.db refl h.queue))

  leave_queue_leaves :
      {z : List (Text × ℕ)} (e : Env r.Db)
      → Lined r l.name z e
      → Lined r l.name (zremove (holder l.owner l.thread_id) z) (leave_queue r j q l e).1
  unfolding leave_queue
  leave_queue_leaves {z} e h =
      let me = holder l.owner l.thread_id in
      after-Keeps (Lined r l.name (zremove me z)) _
        (wrap plain (query r (zrem (queue_key l.name) me) Client.int_of) e)
        (rw (h.net) (record { queue = (zrem-queue r l.name h.queue me).queue; net = refl }))
        λ a e h. h

  -- The queue after a call: a member whose context has ended stays in it.
  abbrev pub exited : Bool → ℕ → List (Text × ℕ) → List (Text × ℕ)
  exited true joined z = zinsert (q.double joined) (holder l.owner l.thread_id) z
  exited false joined z = z

  leave_after-exited :
      (done : Bool) (joined : ℕ) (z : List (Text × ℕ)) (e : Env r.Db)
      → score (holder l.owner l.thread_id) z ≡ none
      → Lined r l.name (zinsert (q.double joined) (holder l.owner l.thread_id) z) e
      → Lined r l.name (exited done joined z) (leave_after r j q l done e).1
  unfolding leave_after
  leave_after-exited true joined z e a h = h
  leave_after-exited false joined z e a h =
      subst (λ u. Lined r l.name u (leave_queue r j q l e).1)
        (zremove-zinsert (q.double joined) (holder l.owner l.thread_id) z a)
        (leave_queue_leaves e h)

  after_joined :
      (joined wait_timeout : ℕ) (block : Bool) (ts : List (Turn r.Db)) (z : List (Text × ℕ))
      (x : Result Error ℕ × World r.Db) (p : ℕ)
      → score (holder l.owner l.thread_id) z ≡ none
      → AllAside r j q l (zinsert (q.double joined) (holder l.owner l.thread_id) z) ts
      → x.0 ≡ ok p
      → Lined r l.name (zinsert (q.double joined) (holder l.owner l.thread_id) z) x.1.env
      → let y = after x (λ p.
        finally
          (fair_loop r j q l p wait_timeout block ts)
          (λ result. remote (leave_after r j q l (is_cancelled result)))) in
        Lined r l.name (exited (is_cancelled y.0) joined z) y.1.env
  after_joined joined wait_timeout block ts z (ok p, w) _ e a b h =
      let y = fair_loop r j q l p wait_timeout block ts w in
      leave_after-exited (is_cancelled y.0) joined _ y.1.env e
        (fair_loop_keeps r j q l _ p wait_timeout block ts w a h)
  after_joined joined wait_timeout block ts z (err f, w) _ e a b h = absurd (cc b)

  -- With every call answered: when a member that is not in the queue has joined it, then for any
  -- rounds in which others leave the queue alone, and whether the loop ends with the lock, a
  -- timeout or an error, the queue is afterwards what it was before; only when the end of the
  -- context has ended the loop does the member stay in the queue.
  pub queue_up-exited :
      (joined wait_timeout : ℕ) (block : Bool) (ts : List (Turn r.Db)) {z : List (Text × ℕ)}
      (w : World r.Db)
      → score (holder l.owner l.thread_id) z ≡ none
      → AllAside r j q l (zinsert (q.double joined) (holder l.owner l.thread_id) z) ts
      → Lined r l.name z w.env
      → Lined r l.name
          (exited (is_cancelled (queue_up r j q l joined wait_timeout block ts w).0) joined z)
          (queue_up r j q l joined wait_timeout block ts w).1.env
  unfolding queue_up
  queue_up-exited joined wait_timeout block ts {z} w e a h =
      let g = join_queue-joined joined w.env h in
      let g = rw e at g in
      let x = join_queue r j q l joined w.env in
      after_joined joined wait_timeout block ts z (x.0, record w { env = x.1 }) _ e a g.returns
        g.leaves
