-- ===== src/FairLock/View.antt =====
-- The queue of a fair lock beside the lock's own keys, and what the commands do to it.

use remix.Base.{
  ℕ, ◌≡◌, refl, ◌∙◌, false, List, [], ◌++◌, some, Text, bytes, text_eq, text_eq_refl, text_eq_comm,
  text_eq-append, text_eq_longer, length,
}
use remix.Redis.Value.{as_zset, as_zset-of_zset, score, rank, zinsert, zremove, above, up_to}
use remix.Redis.Command.{
  Command, Reply, int, int_of, added, found, zscore, zadd, zrank, zrem, zcard, zremrangebyscore,
  target, exec,
}
use remix.Redis.Server.{Redis}
use remix.Redis.Client.{Env}
use remix.Lock.Keys.{lock_key, stats_key, queue_key}
use remix.Lock.View.{View, Holds}

pub lock-ne-queue : (n : Text) → text_eq (lock_key n) (queue_key n) ≡ false
unfolding lock_key queue_key
lock-ne-queue n = text_eq-append (bytes "lock:") n (n ++ bytes ":queue") ∙ text_eq_longer n _ _

pub stats-ne-queue : (n : Text) → text_eq (stats_key n) (queue_key n) ≡ false
unfolding stats_key queue_key text_eq
stats-ne-queue n =
    text_eq-append (bytes "lock:") (n ++ bytes ":stats") (n ++ bytes ":queue")
    ∙ text_eq-append n (bytes ":stats") (bytes ":queue")

module _ (r : Redis) (n : Text) where
  open r use {Db, value, run, run_reply, run_value}

  abbrev pub Queued : List (Text × ℕ) → Db → Type 0
  Queued z d = as_zset (value d (queue_key n)) ≡ some z

  -- A command on the queue, and the queue after it.
  pub record Runs (c : Command) (d : Db) (reply : Reply) (z : List (Text × ℕ)) : Type 0 where
    pub replies : (run c d).0 ≡ reply
    pub queue : Queued z (run c d).1

  -- No call will be lost, and the queue is a sorted set.
  pub record Lined (z : List (Text × ℕ)) (e : Env Db) : Type 0 where
    pub queue : Queued z e.db
    pub net : e.net ≡ []

  -- A command on another key.
  pub Queued-elsewhere :
      (c : Command) (d : Db) {z : List (Text × ℕ)}
      → text_eq (target c) (queue_key n) ≡ false
      → Queued z d
      → Queued z (run c d).1
  Queued-elsewhere c d e h = rw (run_value c d, e) h

  -- A command on the queue leaves the lock alone.
  pub Holds_queue :
      (c : Command) (d : Db) {v : View}
      → target c ≡ queue_key n
      → Holds r n d v
      → Holds r n (run c d).1 v
  Holds_queue c d e h = rw (run_value c d) (record {
    stored = rw (e, text_eq_comm (queue_key n) (lock_key n) ∙ lock-ne-queue n) h.stored;
    stats = rw (e, text_eq_comm (queue_key n) (stats_key n) ∙ stats-ne-queue n) h.stats;
  })

  module _ {d : Db} {z : List (Text × ℕ)} (h : Queued z d) where
    Runs-queue :
        (c : Command) {reply : Reply} (w : List (Text × ℕ))
        → target c ≡ queue_key n
        → (exec c (value d (queue_key n))).0 ≡ reply
        → as_zset (exec c (value d (queue_key n))).1 ≡ some w
        → Runs c d reply w
    Runs-queue c w e a b = record {
      replies = rw (run_reply c d, e) a;
      queue = rw (run_value c d, e, text_eq_refl (queue_key n)) b;
    }

    pub zscore-queue : (m : Text) → Runs (zscore (queue_key n) m) d (int_of (score m z)) z
    unfolding exec
    zscore-queue m = Runs-queue (zscore (queue_key n) m) z refl (rw h refl) (rw h h)

    pub zrank-queue : (m : Text) → Runs (zrank (queue_key n) m) d (int_of (rank m z)) z
    unfolding exec
    zrank-queue m = Runs-queue (zrank (queue_key n) m) z refl (rw h refl) (rw h h)

    pub zcard-queue : Runs (zcard (queue_key n)) d (int (length z)) z
    unfolding exec
    zcard-queue = Runs-queue (zcard (queue_key n)) z refl (rw h refl) (rw h h)

    pub zadd-queue :
        (s : ℕ) (m : Text)
        → Runs (zadd (queue_key n) s m) d (int (added (score m z))) (zinsert s m (zremove m z))
    unfolding exec
    zadd-queue s m = Runs-queue (zadd (queue_key n) s m) _ refl (rw h refl) (rw h refl)

    pub zrem-queue :
        (m : Text) → Runs (zrem (queue_key n) m) d (int (found (score m z))) (zremove m z)
    unfolding exec
    zrem-queue m =
        Runs-queue (zrem (queue_key n) m) _ refl (rw h refl) (rw h (as_zset-of_zset (zremove m z)))

    pub zremrangebyscore-queue :
        (t : ℕ) → Runs (zremrangebyscore (queue_key n) t) d (int (length (up_to t z))) (above t z)
    unfolding exec
    zremrangebyscore-queue t =
        Runs-queue (zremrangebyscore (queue_key n) t) _ refl (rw h refl)
          (rw h (as_zset-of_zset (above t z)))
