-- ===== src/Lock/Unlock.antt =====
-- Locking and unlocking through one lock object (lock/lock.go).
use remix.Base.{
  ℕ, suc, ◌+◌, ◌≡◌, refl, ap, sym, subst, ◌∙◌, Bool, true, false, List, ◌∷◌, none, some, Result, ok,
  err, Gives, after-Gives, after-Gives_err, after, fail, map_err, Text, text_eq, text_eq_refl, ltb,
  ◌&&◌, ◌==◌,
}
use remix.Redis.Server.{Redis}
use remix.Redis.Client.{Fault, Env}
use remix.Lock.Types.{Json, Error, not_held, seconds, acquire_failed, lock_timeout, document_of}
use remix.Redis.Value.{increase}
use remix.Lock.Keys.{total_acquired, total_released}
use remix.Lock.Scripts.{foreign, done}
use remix.Lock.Ops.{
  Lock, World, Ticks, Round, as_try, lock_internal, lock_loop, try_lock, unlock, acquired_now,
  released_now, release_lock, marshalled, new_info,
}
use remix.Lock.View.{View, Online}
use remix.Lock.Spec.{taken, acquired, released, released_over, released_when}
use remix.Lock.Held.{Held, started, moved, ended, stopped-ended}
use remix.Lock.Refine.{try_acquire_lock-acquired, release_lock-released, release_result}

same_holder : (owner thread_id : Text) → (text_eq owner owner && text_eq thread_id thread_id) ≡ true
same_holder owner thread_id = rw (text_eq_refl owner, text_eq_refl thread_id) refl

module _ (r : Redis) (j : Json) (l : Lock) where
  -- What an attempt leaves in the object that does not hold the lock.
  abbrev pub Tried : Result Fault Bool × View → ℕ → ℕ → World r.Db → Type 0
  Tried (ok true, v) tasks stale = Held r j l v 1 (started r j l tasks) stale
  Tried (ok false, v) tasks stale = Held r j l v 0 tasks stale
  Tried (err f, v) tasks stale = Held r j l v 0 tasks stale

  -- The result of the loop when it tries once.
  abbrev pub loop_result : Result Fault Bool → Result Error (Unit {0})
  loop_result (ok true) = ok tt
  loop_result (ok false) = err lock_timeout
  loop_result (err f) = err (acquire_failed f)

  as_try-loop_result :
      (x : Result Fault Bool) → as_try r j l (loop_result x) ≡ map_err acquire_failed x
  as_try-loop_result (ok true) = refl
  as_try-loop_result (ok false) = refl
  as_try-loop_result (err f) = refl

  abbrev pub once : Bool → World r.Db → Result Error (Unit {0}) × World r.Db
  once acquired = elim acquired [ true ↦ acquired_now r j l | false ↦ fail lock_timeout ]

  once-Tried :
      (x : Result Fault Bool × View) (tasks stale : ℕ) (y : Result Error Bool × World r.Db)
      → Gives y (map_err acquire_failed x.0) (Held r j l x.1 0 tasks stale)
      → Gives (after y once) (loop_result x.0) (Tried x tasks stale)
  unfolding acquired_now
  once-Tried (ok true, v) tasks stale y g = after-Gives _ y g λ w h. record {
    returns = refl;
    leaves = record {
      online = h.online;
      hold_count = refl;
      tasks = ap (started r j l) h.tasks;
      stale = h.stale;
    };
  }
  once-Tried (ok false, v) tasks stale y g =
      after-Gives _ y g λ w h. record { returns = refl; leaves = h }
  once-Tried (err f, v) tasks stale y g = after-Gives_err _ y g

  not_reentrant : (b : Bool) (n : ℕ) → n ≡ 0 → (b && ltb 0 n) ≡ false
  not_reentrant true n e = rw e refl
  not_reentrant false n e = refl

  -- With every call answered, a lease of at least a second, information that can be written and an
  -- object without a hold: TryLock makes one attempt; its result is the attempt's; on success the
  -- object has one hold and, where renewal is automatic, one more renewal task; otherwise it has
  -- no hold and its tasks are unchanged.
  pub try_lock-Tried :
      (checked t tasks stale : ℕ) (now : Round r.Db) (ts : List (Round r.Db)) {content : Text}
      {v : View} (w : World r.Db)
      → seconds l.config.lease_duration ≡ suc t
      → marshalled r j l (new_info r j l now.now) ≡ some content
      → Held r j l v 0 tasks stale w
      → Gives
          (try_lock r j l checked (now ∷ ts) w)
          (map_err acquire_failed (acquired j content (seconds now.now) v).0)
          (Tried (acquired j content (seconds now.now) v) tasks stale)
  unfolding try_lock lock_internal lock_loop
  try_lock-Tried checked t tasks stale now ts {content} {v} w p m h =
      let x = acquired j content (seconds now.now) v in
      let g =
        once-Tried x tasks stale _
          (moved r j l _ w (try_acquire_lock-acquired r j l now.now t w.env p m h.online) h) in
      rw (not_reentrant l.config.reentrant w.hold_count h.hold_count) (record {
        returns = ap (as_try r j l) g.returns ∙ as_try-loop_result x.0;
        leaves = g.leaves;
      })

  -- The result of Unlock, from the release's, and what it leaves in the object.
  abbrev pub unlock_result : Result Error (Unit {0}) → ℕ → ℕ → Ticks → Result Error (Unit {0})
  unlock_result (ok _) fresh stale ticks = (ended l.config.auto_renewal fresh stale ticks).0
  unlock_result (err e) fresh stale ticks = err e

  abbrev pub Ended : Result Error (Unit {0}) → View → ℕ → ℕ → Ticks → World r.Db → Type 0
  Ended (ok _) v fresh stale ticks =
      let x = ended l.config.auto_renewal fresh stale ticks in Held r j l v 0 x.1 x.2
  Ended (err e) v fresh stale ticks = Held r j l v 1 (ticks.fresh + fresh) (ticks.stale + stale)

  released_now-Ended :
      (x : Result Error (Unit {0})) (fresh stale : ℕ) (ticks : Ticks) {u v : View}
      (y : Result Error (Unit {0}) × Env r.Db) (w : World r.Db)
      → Gives y x (Online r l.name v)
      → Held r j l u 1 (ticks.fresh + fresh) (ticks.stale + stale) w
      → Gives
          (after (y.0, record w { env = y.1 }) (λ _. released_now r j l ticks))
          (unlock_result x fresh stale ticks)
          (Ended x v fresh stale ticks)
  unfolding released_now
  released_now-Ended (ok a) fresh stale ticks y w g h =
      after-Gives _ _ (moved r j l y w g h) λ w h.
        stopped-ended r j l l.config.auto_renewal fresh stale ticks w h.online h.tasks h.stale
  released_now-Ended (err f) fresh stale ticks y w g h = after-Gives_err _ _ (moved r j l y w g h)

  held_once : (n : ℕ) → n ≡ 1 → (n == 0) ≡ false
  held_once n e = rw e refl

  last_hold : (b : Bool) (n : ℕ) → n ≡ 1 → (b && ltb 1 n) ≡ false
  last_hold true n e = rw e refl
  last_hold false n e = refl

  -- With every call answered and one hold, for any numbers of renewal tasks of the current
  -- channels and of earlier ones, of which some wait for the mutex: when the release fails,
  -- because the lock is gone or is another's or its text is no JSON, Unlock returns its error, and
  -- the object keeps its hold and its tasks. When it succeeds the hold is gone, and where renewal
  -- is not automatic Unlock succeeds and the tasks are as they were. Where it is automatic: if
  -- exactly one task of the current channels and none of earlier ones does not wait, Unlock
  -- succeeds, and only the waiting tasks are left, as tasks of earlier channels; if every task
  -- waits, or there is none, Unlock waits without end; otherwise a task closes a closed channel
  -- and the program panics.
  pub unlock-Ended :
      (now fresh stale : ℕ) (ticks : Ticks) {v : View} (w : World r.Db)
      → Held r j l v 1 (ticks.fresh + fresh) (ticks.stale + stale) w
      → Gives
          (unlock r j l now ticks w)
          (unlock_result
            (release_result r j l (released j l.owner l.thread_id v).0)
            fresh
            stale
            ticks)
          (Ended
            (release_result r j l (released j l.owner l.thread_id v).0)
            (released j l.owner l.thread_id v).1
            fresh
            stale
            ticks)
  unfolding unlock
  unlock-Ended now fresh stale ticks {v} w h =
      rw
        (
          held_once w.hold_count h.hold_count,
          last_hold l.config.reentrant w.hold_count h.hold_count,
        )
        (released_now-Ended _ fresh stale ticks _ w (release_lock-released r j l w.env h.online) h)

  -- The holder that an attempt on a free lock writes may release it.
  pub own_released :
      (now : ℕ) {content : Text} (v : View)
      → marshalled r j l (new_info r j l now) ≡ some content
      → released j l.owner l.thread_id (taken j content v).1 ≡ (
        ok done,
        record v {
          stored = none;
          stats = increase total_released 1 (increase total_acquired 1 v.stats);
        },
      )
  unfolding released new_info marshalled document_of
  own_released now {content} v m =
      ap (λ o. released_over j l.owner l.thread_id o (taken j content v).1)
        (j.decode-encode (document_of j (new_info r j l now)) content m)
      ∙ ap (λ b. released_when j b (taken j content v).1) (same_holder l.owner l.thread_id)

  -- Nobody else may.
  pub foreign_kept :
      (now : ℕ) {content : Text} (v : View) (owner thread_id : Text)
      → marshalled r j l (new_info r j l now) ≡ some content
      → (text_eq l.owner owner && text_eq l.thread_id thread_id) ≡ false
      → released j owner thread_id (taken j content v).1 ≡ (ok foreign, (taken j content v).1)
  unfolding released new_info marshalled document_of
  foreign_kept now {content} v owner thread_id m f =
      ap (λ o. released_over j owner thread_id o (taken j content v).1)
        (j.decode-encode (document_of j (new_info r j l now)) content m)
      ∙ ap (λ b. released_when j b (taken j content v).1) f

  -- With every call answered: after a lock object has taken a lock, the release through an object
  -- of the same lock whose owner or thread differs returns the error that the lock is not held,
  -- and leaves the stored information and the counters as they are.
  pub foreign_unlock :
      (m : Lock) (now : ℕ) {content : Text} (v : View) (e : Env r.Db)
      → m.name ≡ l.name
      → marshalled r j l (new_info r j l now) ≡ some content
      → (text_eq l.owner m.owner && text_eq l.thread_id m.thread_id) ≡ false
      → Online r l.name (taken j content v).1 e
      → Gives (release_lock r j m e) (err not_held) (Online r l.name (taken j content v).1)
  foreign_unlock m now {content} v e n w f o =
      let g =
        release_lock-released r j m e (subst (λ x. Online r x (taken j content v).1 e) (sym n) o) in
      let g = rw (foreign_kept now v m.owner m.thread_id w f) at g in
      subst (λ x. Gives (release_lock r j m e) (err not_held) (Online r x (taken j content v).1)) n
        g
