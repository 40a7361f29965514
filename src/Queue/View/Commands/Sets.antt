-- ===== src/Queue/View/Commands/Sets.antt =====
-- The commands of queue.go on the messages in processing and the delayed ones.
use remix.Base.{ℕ, refl, [], map, Text, length}
use remix.Redis.Value.{score, zremove, zinsert, up_to, as_zset-of_zset}
use remix.Redis.Command.{
  int, bulks, del, zadd, zrem, zscore, zcard, zrangebyscore, exec, int_of, found, added, deleted,
}
use remix.Redis.Server.{Redis}
use remix.Redis.Rename.{rename, up_to-rename, score-rename, zremove-rename, zinsert-rename}
use remix.Queue.Keys.{processing_key, delayed_key, message_key}
use remix.Queue.Slots.{message_key_eq, message_key_lt}
use remix.Queue.View.{View, Holds, Runs, Runs-processing, Runs-delayed}

module _ (r : Redis) (n : Text) {d : r.Db} {v : View} (h : Holds r n d v) where
  open r use {value}

  pub zadd-processing :
      (t : ℕ) (id : Text)
      → Runs r n
          (zadd (processing_key n) t (message_key n id))
          d
          (int (added (score id v.processing)))
          (record v { processing = zinsert t id (zremove id v.processing) })
  unfolding exec
  zadd-processing t id =
      Runs-processing r n (zadd (processing_key n) t (message_key n id)) h
        (zinsert t id (zremove id v.processing)) refl
        (rw (h.processing, score-rename (message_key n) (message_key_eq n)))
        (rw (
          h.processing,
          zremove-rename (message_key n) (message_key_eq n),
          zinsert-rename (message_key n) (message_key_eq n) (message_key_lt n),
        ))

  pub zrem-processing :
      (id : Text)
      → Runs r n
          (zrem (processing_key n) (message_key n id))
          d
          (int (found (score id v.processing)))
          (record v { processing = zremove id v.processing })
  unfolding exec
  zrem-processing id =
      Runs-processing r n (zrem (processing_key n) (message_key n id)) h (zremove id v.processing)
        refl (rw (h.processing, score-rename (message_key n) (message_key_eq n)))
        (rw (h.processing, zremove-rename (message_key n) (message_key_eq n), as_zset-of_zset))

  pub zscore-processing :
      (id : Text)
      → Runs r n (zscore (processing_key n) (message_key n id)) d (int_of (score id v.processing)) v
  unfolding exec
  zscore-processing id =
      Runs-processing r n (zscore (processing_key n) (message_key n id)) h v.processing refl
        (rw (h.processing, score-rename (message_key n) (message_key_eq n)))
        (rw (h.processing, h.processing))

  pub zrangebyscore-processing :
      (t : ℕ)
      → Runs r n
          (zrangebyscore (processing_key n) t)
          d
          (bulks (map (message_key n) (up_to t v.processing)))
          v
  unfolding exec
  zrangebyscore-processing t =
      Runs-processing r n (zrangebyscore (processing_key n) t) h v.processing refl
        (rw (h.processing, up_to-rename)) (rw (h.processing, h.processing))

  pub zcard-processing :
      Runs r n (zcard (processing_key n)) d (int (length (rename (message_key n) v.processing))) v
  unfolding exec
  zcard-processing =
      Runs-processing r n (zcard (processing_key n)) h v.processing refl (rw h.processing)
        (rw (h.processing, h.processing))

  pub del-processing :
      Runs r n
        (del (processing_key n))
        d
        (int (deleted (value d (processing_key n))))
        (record v { processing = [] })
  unfolding exec
  del-processing = Runs-processing r n (del (processing_key n)) h [] refl refl refl

  pub zadd-delayed :
      (t : ℕ) (id : Text)
      → Runs r n
          (zadd (delayed_key n) t (message_key n id))
          d
          (int (added (score id v.delayed)))
          (record v { delayed = zinsert t id (zremove id v.delayed) })
  unfolding exec
  zadd-delayed t id =
      Runs-delayed r n (zadd (delayed_key n) t (message_key n id)) h
        (zinsert t id (zremove id v.delayed)) refl
        (rw (h.delayed, score-rename (message_key n) (message_key_eq n)))
        (rw (
          h.delayed,
          zremove-rename (message_key n) (message_key_eq n),
          zinsert-rename (message_key n) (message_key_eq n) (message_key_lt n),
        ))

  pub zrem-delayed :
      (id : Text)
      → Runs r n
          (zrem (delayed_key n) (message_key n id))
          d
          (int (found (score id v.delayed)))
          (record v { delayed = zremove id v.delayed })
  unfolding exec
  zrem-delayed id =
      Runs-delayed r n (zrem (delayed_key n) (message_key n id)) h (zremove id v.delayed) refl
        (rw (h.delayed, score-rename (message_key n) (message_key_eq n)))
        (rw (h.delayed, zremove-rename (message_key n) (message_key_eq n), as_zset-of_zset))

  pub zrangebyscore-delayed :
      (t : ℕ)
      → Runs r n
          (zrangebyscore (delayed_key n) t)
          d
          (bulks (map (message_key n) (up_to t v.delayed)))
          v
  unfolding exec
  zrangebyscore-delayed t =
      Runs-delayed r n (zrangebyscore (delayed_key n) t) h v.delayed refl
        (rw (h.delayed, up_to-rename)) (rw (h.delayed, h.delayed))

  pub del-delayed :
      Runs r n
        (del (delayed_key n))
        d
        (int (deleted (value d (delayed_key n))))
        (record v { delayed = [] })
  unfolding exec
  del-delayed = Runs-delayed r n (del (delayed_key n)) h [] refl refl refl
