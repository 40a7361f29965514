-- ===== src/Queue/View/Commands/Lists.antt =====
-- The commands of queue.go on the pending messages and the dead letters.
use remix.Base.{◌+◌, refl, [], ◌∷◌, map, Text, length, length-map}
use remix.Redis.Value.{drop_last, last?, remove, position, as_list-of_list}
use remix.Redis.Command.{
  Stop, int, bulks, del, lpush, rpop, llen, lrange, lpos, lrem, exec, bulk_of, int_of, found, until,
  deleted,
}
use remix.Redis.Server.{Redis}
use remix.Redis.Rename.{map_option, last?-map, drop_last-map, remove-map, position-map}
use remix.Queue.Keys.{queue_key, dead_letter_key, message_key}
use remix.Queue.Slots.{message_key_eq}
use remix.Queue.View.{View, Holds, Runs, Runs-pending, Runs-dead}

module _ (r : Redis) (n : Text) {d : r.Db} {v : View} (h : Holds r n d v) where
  open r use {value}

  pub lpush-pending :
      (id : Text)
      → Runs r n
          (lpush (queue_key n) (message_key n id))
          d
          (int (length v.pending + 1))
          (record v { pending = id ∷ v.pending })
  unfolding exec
  lpush-pending id =
      Runs-pending r n (lpush (queue_key n) (message_key n id)) h (id ∷ v.pending) refl
        (rw (h.pending, length-map)) (rw h.pending)

  pub rpop-pending :
      Runs r n
        (rpop (queue_key n))
        d
        (bulk_of (map_option (message_key n) (last? v.pending)))
        (record v { pending = drop_last v.pending })
  unfolding exec
  rpop-pending =
      Runs-pending r n (rpop (queue_key n)) h (drop_last v.pending) refl (rw (h.pending, last?-map))
        (rw (h.pending, drop_last-map, as_list-of_list))

  pub llen-pending : Runs r n (llen (queue_key n)) d (int (length v.pending)) v
  unfolding exec
  llen-pending =
      Runs-pending r n (llen (queue_key n)) h v.pending refl (rw (h.pending, length-map))
        (rw (h.pending, h.pending))

  pub del-pending :
      Runs r n
        (del (queue_key n))
        d
        (int (deleted (value d (queue_key n))))
        (record v { pending = [] })
  unfolding exec
  del-pending = Runs-pending r n (del (queue_key n)) h [] refl refl refl

  pub lpush-dead :
      (id : Text)
      → Runs r n
          (lpush (dead_letter_key n) (message_key n id))
          d
          (int (length v.dead + 1))
          (record v { dead = id ∷ v.dead })
  unfolding exec
  lpush-dead id =
      Runs-dead r n (lpush (dead_letter_key n) (message_key n id)) h (id ∷ v.dead) refl
        (rw (h.dead, length-map)) (rw h.dead)

  pub lpos-dead :
      (id : Text)
      → Runs r n (lpos (dead_letter_key n) (message_key n id)) d (int_of (position id v.dead)) v
  unfolding exec
  lpos-dead id =
      Runs-dead r n (lpos (dead_letter_key n) (message_key n id)) h v.dead refl
        (rw (h.dead, position-map (message_key n) (message_key_eq n))) (rw (h.dead, h.dead))

  pub lrem-dead :
      (id : Text)
      → Runs r n
          (lrem (dead_letter_key n) (message_key n id))
          d
          (int (found (position id v.dead)))
          (record v { dead = remove id v.dead })
  unfolding exec
  lrem-dead id =
      Runs-dead r n (lrem (dead_letter_key n) (message_key n id)) h (remove id v.dead) refl
        (rw (h.dead, position-map (message_key n) (message_key_eq n)))
        (rw (h.dead, remove-map (message_key n) (message_key_eq n), as_list-of_list))

  pub lrange-dead :
      (s : Stop)
      → Runs r n (lrange (dead_letter_key n) s) d (bulks (until s (map (message_key n) v.dead))) v
  unfolding exec
  lrange-dead s =
      Runs-dead r n (lrange (dead_letter_key n) s) h v.dead refl (rw h.dead) (rw (h.dead, h.dead))

  pub llen-dead : Runs r n (llen (dead_letter_key n)) d (int (length v.dead)) v
  unfolding exec
  llen-dead =
      Runs-dead r n (llen (dead_letter_key n)) h v.dead refl (rw (h.dead, length-map))
        (rw (h.dead, h.dead))

  pub del-dead :
      Runs r n
        (del (dead_letter_key n))
        d
        (int (deleted (value d (dead_letter_key n))))
        (record v { dead = [] })
  unfolding exec
  del-dead = Runs-dead r n (del (dead_letter_key n)) h [] refl refl refl
