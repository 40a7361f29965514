-- ===== src/Lock/Tests.antt =====
-- Small runs of the lock on a server in memory, and the theorems at concrete inputs.
pub mod Setup
use remix.Base.{
  ◌+ℤ◌, ℕ, ◌*◌, ◌≡◌, refl, List, [], ◌∷◌, ◌++◌, Option, none, some, Bool, true, false, ok, err,
  Text, bytes, text_eq, Gives, ◌≢◌, after,
}
use remix.Redis.Value.{increase, field, put, counts}
use remix.Redis.Command.{exec}
use remix.Redis.Memory.{memory}
use remix.Redis.Client.{Env, error_reply, transaction}
use remix.Lock.Types.{
  default_lock_config, second, seconds, document_of, info_of, not_held, acquire_failed,
  lock_timeout, unmarshal_failed, starved, stuck, panicked,
}
use remix.Lock.Keys.{lock_key, stats_key, queue_key, holder, total_acquired, total_released}
use remix.Lock.Scripts.{
  set_lock, acquire_over, acquire_script, release_over, release_script, force_script, renew_over,
  renew_script, renewed,
}
use remix.Lock.Ops.{
  Lock, World, Round, marshalled, unmarshalled, new_info, try_acquire_lock, acquired_now, lock_loop,
  lock_internal, lock, try_lock, try_lock_with_timeout, release_answer, release_lock, stop_renewal,
  released_now, unlock, renew_lock, is_locked, get_lock_info, info_read, remote,
}
use remix.Lock.View.{View, Online}
use remix.Lock.Spec.{acquired, released, renewal, taken}
use remix.Lock.Refine.{try_acquire_lock-acquired, release_lock-released}
use remix.Lock.Exclusion.{IsFree, try_acquire_lock-IsFree, contended}
use remix.Lock.Loop.{timeout_is_ignored, lock_loop-Ends}
use remix.Lock.Lapse.{lapse, lapse_world}
use remix.Lock.Held.{Held, no_ticks}
use remix.Lock.Unlock.{try_lock-Tried, unlock-Ended, foreign_unlock}
use remix.Lock.Reentrant.{reentrant_round_trip, unmarshalled-marshalled}
use remix.Lock.Renewal.{renew_lock-renewed, renewal_hides}
use Setup.{json, write, alice, bob, quiet, idle, free, free-Online, start, round}

program : Unit {0}
unfolding json quiet idle free exec ◌+ℤ◌ text_eq increase field put counts default_lock_config
    document_of info_of lock_key stats_key queue_key holder set_lock acquire_over acquire_script
    release_over release_script force_script renew_over renew_script transaction marshalled
    unmarshalled new_info try_acquire_lock acquired_now lock_loop lock_internal lock try_lock
    try_lock_with_timeout release_answer release_lock stop_renewal released_now lapse unlock
    renew_lock is_locked get_lock_info info_read acquired released renewal
program = tt

-- What Alice's attempt writes.
alices : Text
unfolding program
alices = write (document_of json (new_info memory json alice start))

idle-Held : Held memory json alice free 0 0 0 idle
unfolding idle
idle-Held = record { online = free-Online; hold_count = refl; tasks = refl; stale = refl }

try_lock-Tried_example : (try_lock memory json alice start (round ∷ []) idle).0 ≡ ok true
unfolding program
try_lock-Tried_example =
    (try_lock-Tried memory json alice start 29 0 0 round [] idle refl refl idle-Held).returns

-- The lock in Alice's hands.
held : View
held = (taken json alices free).1

locked : World memory.Db
locked = (try_lock memory json alice start (round ∷ []) idle).1

locked-Held : Held memory json alice held 1 1 0 locked
unfolding locked held alices program
locked-Held =
    (try_lock-Tried memory json alice start 29 0 0 round [] idle refl refl idle-Held).leaves

try_acquire_lock-acquired_example : (try_acquire_lock memory json alice start quiet).0 ≡ ok true
unfolding program
try_acquire_lock-acquired_example =
    (try_acquire_lock-acquired memory json alice start 29 quiet refl refl free-Online).returns

release_lock-released_example : (release_lock memory json bob locked.env).0 ≡ err not_held
unfolding locked held alices program
release_lock-released_example =
    (release_lock-released memory json bob locked.env locked-Held.online).returns

try_acquire_lock-IsFree_example : IsFree json 100 free
unfolding program
try_acquire_lock-IsFree_example =
    try_acquire_lock-IsFree memory json alice start 29 quiet refl refl free-Online refl

contended_example :
    (try_acquire_lock memory json bob start locked.env).0 ≡ err (acquire_failed error_reply)
unfolding locked held alices program
contended_example =
    (contended memory json bob start 29 (new_info memory json alice start) locked.env refl refl refl
      refl locked-Held.online).returns

timeout_is_ignored_example :
    (try_lock_with_timeout memory json alice (5 * second) start (round ∷ round ∷ []) idle).0
    ≡ (try_acquire_lock memory json alice start quiet).0
unfolding program
timeout_is_ignored_example =
    (timeout_is_ignored memory json alice (5 * second) start round (round ∷ []) idle refl).1

over : Round memory.Db
over = record { now = start; since = 10 * second; done = false; meanwhile = λ d. d }

lock_loop-Ends_example :
    (lock_loop memory json bob (10 * second) true (round ∷ over ∷ []) locked).0 ≢ err starved
unfolding over
lock_loop-Ends_example =
    lock_loop-Ends memory json bob (10 * second) (round ∷ []) [] over locked refl

unlock-Ended_example : (unlock memory json alice start no_ticks locked).0 ≡ ok tt
unfolding locked held alices program
unlock-Ended_example =
    (unlock-Ended memory json alice start 1 0 no_ticks locked locked-Held).returns

-- The renewal task waits for the mutex: Unlock does not return.
unlock-stuck :
    (unlock memory json alice start (record { fresh = 1; stale = 0 }) locked).0 ≡ err stuck
unfolding locked held alices program
unlock-stuck = refl

-- A second task on the same channels: the program panics.
unlock-panicked :
    (unlock memory json alice start no_ticks (record locked { tasks = 2 })).0 ≡ err panicked
unfolding locked held alices program
unlock-panicked = refl

-- Alice unlocks within the lease.
unlock-ok :
    (after
      (try_lock memory json alice start (round ∷ []) idle)
      (λ _ w. unlock memory json alice start no_ticks (lapse_world memory alice false w))).0
    ≡ ok tt
unfolding program
unlock-ok = refl

foreign_unlock_example : (release_lock memory json bob locked.env).0 ≡ err not_held
unfolding locked held alices program
foreign_unlock_example =
    (foreign_unlock memory json alice bob start free locked.env refl refl refl
      locked-Held.online).returns

renewal_hides_example :
    (after
      (renew_lock memory json alice start locked)
      (λ _. remote (is_locked memory json alice start))).0
    ≡ err unmarshal_failed
unfolding locked held alices program
renewal_hides_example =
    (renewal_hides memory json alice start 29 start alices
      (write (renewed (document_of json (new_info memory json alice start)) 100 30))
      (document_of json (new_info memory json alice start)) locked refl refl refl refl refl refl
      locked-Held.online).returns

-- Alice locks again and unlocks.
reentrant_round_trip_example :
    (after
      (lock_internal memory json alice start 0 false [] locked)
      (λ _. unlock memory json alice start no_ticks)).0
    ≡ ok tt
unfolding locked held alices program
reentrant_round_trip_example =
    (reentrant_round_trip memory json alice start 0 start no_ticks false []
      (new_info memory json alice start) 0 1 0 _ _ locked refl
      (record { text = alices; written = refl; stored = refl }) refl refl refl locked-Held).returns
