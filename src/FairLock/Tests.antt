-- ===== src/FairLock/Tests.antt =====
-- Small runs of the fair lock on a server in memory, and the theorems at concrete inputs.
use remix.Base.{
  arith, ◌+ℤ◌, ℕ, ◌*◌, ◌≡◌, ◌≤◌, refl, List, [], ◌∷◌, some, true, false, ok, err, Text, bytes,
  text_eq, pos,
}
use remix.Redis.Value.{increase, field, put, counts, score, rank, zinsert, zremove, above, up_to}
use remix.Redis.Command.{exec}
use remix.Redis.Memory.{memory}
use remix.Redis.Client.{Env}
use remix.Lock.Types.{default_lock_config, second, document_of, info_of, check_failed}
use remix.Lock.Keys.{lock_key, stats_key, queue_key, holder}
use remix.Lock.Scripts.{set_lock, acquire_over, acquire_script}
use remix.Lock.Ops.{
  World, marshalled, unmarshalled, new_info, try_acquire_lock, acquired_now, info_read,
  get_lock_info,
}
use remix.Lock.View.{View, Online}
use remix.Lock.Spec.{acquired, taken}
use remix.Lock.Refine.{try_acquire_lock-acquired}
use remix.Lock.Tests.Setup.{write, json, alice, bob, quiet, idle, free, free-Online, start, round}
use remix.FairLock.Types.{Doubles}
use remix.FairLock.Scripts.{join_over, join_script, check_over, check_script, cleanup_script}
use remix.FairLock.Ops.{
  Turn, join_queue, leave_after, leave_queue, can_acquire_fair_lock, fair_attempt, fair_loop,
  queue_up, lock_fair_internal, get_queue_length, get_stats, cleanup_queue,
}
use remix.FairLock.View.{Lined}
use remix.FairLock.Order.{before}
use remix.FairLock.Queueing.{join_queue-joined}
use remix.FairLock.Calls.{
  lock_fair_internal-exited, lock_fair_internal-Fails, lock_fair_internal-Gets,
}
use remix.FairLock.Stats.{get_stats-Shown}

program : Unit {0}
unfolding json quiet idle free exec ◌+ℤ◌ text_eq increase field put counts score rank zinsert
    zremove above up_to default_lock_config document_of info_of lock_key stats_key queue_key holder
    set_lock acquire_over acquire_script marshalled unmarshalled new_info try_acquire_lock
    acquired_now info_read get_lock_info join_over join_script check_over check_script
    cleanup_script join_queue leave_queue leave_after can_acquire_fair_lock fair_attempt
    lock_fair_internal fair_loop queue_up get_queue_length get_stats cleanup_queue before acquired
program = tt

-- Scores small enough to be exact.
same_order : (m n : ℕ) → m ≤ n → m ≤ n
same_order m n h = h

abbrev doubles : Doubles
doubles = record { double = λ n. n; exact = λ n h. refl; again = λ n. refl; ordered = same_order }

abbrev turn : Turn memory.Db
turn = record { checked = start; round = round }

empty-Lined : Lined memory (bytes "door") [] quiet
unfolding program
empty-Lined = record { queue = refl; net = refl }

-- Bob has joined the queue.
abbrev bobs_env : Env memory.Db
bobs_env = (join_queue memory json doubles bob 5 quiet).1

abbrev bobs_line : List (Text × ℕ)
bobs_line = (bytes "bob:1", 5) ∷ []

bobs-Lined : Lined memory (bytes "door") bobs_line bobs_env
unfolding program
bobs-Lined = (join_queue-joined memory json doubles bob 5 quiet empty-Lined).leaves

abbrev bobs_world : World memory.Db
bobs_world = record { env = bobs_env; hold_count = 0; tasks = 0; stale = 0 }

lock_fair_internal-exited_example :
    Lined memory
      (bytes "door")
      bobs_line
      (lock_fair_internal memory json doubles alice 7 0 false (turn ∷ []) bobs_world).1.env
unfolding program
lock_fair_internal-exited_example =
    lock_fair_internal-exited memory json doubles alice 7 0 false (turn ∷ []) bobs_world refl refl
      ((λ d h. h), tt) bobs-Lined

lock_fair_internal-Fails_example :
    (f : remix.Redis.Client.Fault) × ((lock_fair_internal memory json doubles alice 7 0 true
        (turn ∷ [])
        bobs_world).0
      ≡ err (check_failed f))
unfolding program
lock_fair_internal-Fails_example =
    lock_fair_internal-Fails memory json doubles alice 7 0 5 true (bytes "bob:1") turn [] bobs_world
      refl (ground arith) refl bobs-Lined

lock_fair_internal-Gets_example :
    (lock_fair_internal memory json doubles alice 7 0 false (turn ∷ []) idle).0 ≡ ok tt
unfolding program
lock_fair_internal-Gets_example =
    (lock_fair_internal-Gets memory json doubles alice 7 0 29 false turn [] idle refl refl refl refl
      refl refl empty-Lined free-Online).returns

-- Alice has taken the lock.
abbrev alices_env : Env memory.Db
alices_env = (try_acquire_lock memory json alice start quiet).1

abbrev alices_view : View
alices_view = (taken json (write (document_of json (new_info memory json alice start))) free).1

alices-Shown : Online memory (bytes "door") alices_view alices_env
unfolding program
alices-Shown =
    (try_acquire_lock-acquired memory json alice start 29 quiet refl refl free-Online).leaves

get_stats-Shown_example :
    (get_stats memory json doubles bob (40 * second) (41 * second) alices_env).0
    ≡ ok (record {
      name = bytes "door";
      is_locked = true;
      owner = bytes "alice";
      hold_count = 1;
      remaining_ttl = pos 89000000000;
      waiting_threads = 0;
      total_acquired = 1;
      total_released = 0;
      total_timeout = 0;
    })
unfolding program
get_stats-Shown_example =
    (get_stats-Shown memory json doubles bob alices_view [] (40 * second) (41 * second)
      (some (new_info memory json alice start)) alices_env refl (alices-Shown, refl)).returns
