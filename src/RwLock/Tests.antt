-- ===== src/RwLock/Tests.antt =====
-- Small runs of the read-write lock on a server in memory, and the theorems at concrete inputs.
mod Setup
use remix.Base.{
  arith, ◌+ℤ◌, ℕ, suc, ◌+◌, ◌*◌, ◌≡◌, ◌<◌, refl, List, [], ◌∷◌, ◌++◌, Option, none, some, true,
  false, ok, err, Text, bytes, text_eq, Gives, after, pos,
}
use remix.Redis.Value.{text, number, increase, field, put, erase, counts}
use remix.Redis.Command.{exec}
use remix.Redis.Memory.{memory}
use remix.Redis.Client.{Env, transaction}
use remix.Lock.Types.{default_lock_config, second, unmarshal_failed}
use remix.Lock.Keys.{holder}
use remix.Lock.Tests.Setup.{json}
use remix.RwLock.Types.{lock_object, unmarshalled}
use remix.RwLock.Keys.{
  prefix, read_lock_key, write_lock_key, read_count_key, stats_key, total_read_acquired,
  total_read_released, total_write_acquired, total_write_released,
}
use remix.RwLock.Scripts.{
  write_guard, set_read, acquire_read_script, drop_reader, release_read_script, read_guard,
  set_write, acquire_write_script, release_write_over, release_write_script,
}
use remix.RwLock.Ops.{
  acquire_loop, try_acquire_read_lock, read_lock_internal, read_lock, read_unlock,
  try_acquire_write_lock, write_lock_internal, write_lock, write_answer, write_unlock, write_held,
  is_write_held, read_hold_count, count_read, atoi, force_read_unlock, force_write_unlock,
}
use remix.RwLock.View.{View, Online}
use remix.RwLock.Spec.{read_acquired, read_released, write_acquired, write_released}
use remix.RwLock.Exclusion.{IsWriting}
use remix.RwLock.Refine.Read.{try_acquire_read_lock-acquired, read_unlock-released}
use remix.RwLock.Refine.Write.{try_acquire_write_lock-acquired, write_unlock-released}
use remix.RwLock.Kept.{Safe}
use remix.RwLock.History.{reads, writes, nothing, next, perform, excludes_always}
use remix.RwLock.Writers.{IsAlone, try_acquire_write_lock-IsAlone, held-unread}
use remix.RwLock.Readers.{read_lock-unlock, short_lease-clears}
use remix.RwLock.Nested.{locks, unlocks, holds_after, run_calls, Holding, read_hold_count-holds}
use remix.RwLock.Waiting.{read_lock-got}
use Setup.{objects, alice, hasty, patient, bob, quiet, free, free-Online, start, round_at}

program : Unit {0}
unfolding json objects quiet exec ◌+ℤ◌ text_eq increase field put erase counts default_lock_config
    prefix holder read_lock_key write_lock_key read_count_key stats_key lock_object unmarshalled
    write_guard set_read acquire_read_script drop_reader release_read_script read_guard set_write
    acquire_write_script release_write_over release_write_script transaction acquire_loop
    try_acquire_read_lock read_lock_internal read_lock read_unlock try_acquire_write_lock
    write_lock_internal write_lock write_answer write_unlock write_held is_write_held
    force_read_unlock force_write_unlock holds_after run_calls read_hold_count count_read atoi
    read_acquired read_released write_acquired write_released perform
program = tt

-- What Bob's attempt at the start writes.
bobs : Text
unfolding program
bobs =
    objects.encode (lock_object (write_lock_key (bytes "door")) (bytes "bob") (bytes "1") 100 130)

-- The lock after Bob's attempt.
abbrev held : View
held = record {
  readers = [];
  counts = [];
  writer = some bobs;
  stats = (total_write_acquired, 1) ∷ [];
}

abbrev held_env : Env memory.Db
held_env = (try_acquire_write_lock memory json objects bob start quiet).1

held-Online : Online memory (bytes "door") held held_env
unfolding program bobs
held-Online =
    (try_acquire_write_lock-acquired memory json objects bob start quiet free-Online).leaves

held-IsWriting : IsWriting json objects (holder (bytes "bob") (bytes "1")) 100 held
unfolding program bobs
held-IsWriting = record {
  content = bobs;
  object = lock_object (write_lock_key (bytes "door")) (bytes "bob") (bytes "1") 100 130;
  expiry = 130;
  stored = refl;
  decoded = refl;
  expires = refl;
  owned = refl;
  runs = ground arith;
}

try_acquire_read_lock-acquired_example :
    (try_acquire_read_lock memory json objects alice start held_env).0 ≡ ok false
unfolding program bobs
try_acquire_read_lock-acquired_example =
    (try_acquire_read_lock-acquired memory json objects alice start held_env held-Online).returns

try_acquire_write_lock-acquired_example :
    (try_acquire_write_lock memory json objects bob start quiet).0 ≡ ok true
unfolding program
try_acquire_write_lock-acquired_example =
    (try_acquire_write_lock-acquired memory json objects bob start quiet free-Online).returns

try_acquire_write_lock-IsAlone_example :
    IsAlone json objects (holder (bytes "bob") (bytes "1")) 100 free
unfolding program
try_acquire_write_lock-IsAlone_example =
    try_acquire_write_lock-IsAlone memory json objects bob start quiet free-Online refl

read_unlock-released_example :
    (read_unlock memory json objects alice quiet).0 ≡ err remix.Lock.Types.Error.not_held
unfolding program
read_unlock-released_example =
    (read_unlock-released memory json objects alice quiet free-Online).returns

write_unlock-released_example : (write_unlock memory json objects bob held_env).0 ≡ ok tt
unfolding program bobs
write_unlock-released_example =
    (write_unlock-released memory json objects bob held_env held-Online).returns

held-unread_example : (is_write_held memory json objects bob held_env).0 ≡ err unmarshal_failed
unfolding program bobs
held-unread_example =
    (held-unread memory json objects bob (bytes "bob") (bytes "1") 100 130 held_env refl
      held-Online).returns

read_lock-unlock_example :
    (after
      (try_acquire_read_lock memory json objects alice start quiet)
      (λ _. read_unlock memory json objects alice)).0
    ≡ ok tt
unfolding program
read_lock-unlock_example =
    (read_lock-unlock memory json objects alice start 29 quiet refl refl refl refl
      free-Online).returns

short_lease-clears_example :
    (try_acquire_read_lock memory json objects hasty start quiet).0 ≡ ok true
unfolding program
short_lease-clears_example =
    (short_lease-clears memory json objects hasty start (pos 1) quiet refl refl refl
      free-Online).returns

-- Dave waits for Bob, whose lease ends at 130 seconds.
read_lock-got_example :
    (read_lock memory json objects patient
      (round_at start ∷ round_at (140 * second) ∷ [])
      held_env).0
    ≡ ok tt
unfolding program bobs
read_lock-got_example =
    (read_lock-got memory json objects patient (holder (bytes "bob") (bytes "1")) (pos 1)
      (round_at start ∷ []) [] (round_at (140 * second)) held_env refl refl
      (held-IsWriting, refl, (λ d h. h), tt) refl refl held-Online).returns

-- Alice reads, and Bob's attempt to write is refused.
excludes_always_example :
    Safe memory json objects
      (bytes "door")
      105
      (perform memory json objects
        (bytes "door")
        (writes bob (105 * second))
        (perform memory json objects (bytes "door") (reads alice start) quiet)).db
unfolding program
excludes_always_example =
    excludes_always memory json objects (bytes "door") {s = 90} {e = quiet}
      (next (next nothing 100 (reads alice start) (ground arith) (refl, refl)) 105
        (writes bob (105 * second)) (ground arith) (refl, refl))
      (free, free-Online.holds, λ w f p q. refl)

free-Holding : Holding (holder (bytes "alice") (bytes "1")) 0 free
unfolding program
free-Holding = record {
  reader = refl;
  count = refl;
  one_reader = refl;
  one_count = refl;
  writer = refl;
}

-- Twice locked and once released.
read_hold_count-holds_example :
    (after
      (run_calls memory json objects alice (locks start ∷ locks start ∷ unlocks ∷ []) quiet)
      (λ _. read_hold_count memory json objects alice)).0
    ≡ ok (pos 1)
unfolding program
read_hold_count-holds_example =
    (read_hold_count-holds memory json objects alice 29 (locks start ∷ locks start ∷ unlocks ∷ []) 0
      1 quiet refl refl (free, free-Online, free-Holding)).returns
