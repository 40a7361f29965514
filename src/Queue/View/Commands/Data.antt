-- ===== src/Queue/View/Commands/Data.antt =====
-- The commands of queue.go on the counters and on the messages' data.
use remix.Base.{ℕ, ◌+◌, refl, List, map, none, some, Text}
use remix.Redis.Hashes.{hincrby-counts, hmget-counts}
use remix.Redis.Value.{field, increase, amount}
use remix.Redis.Command.{status, int, ints, get, set, del, hincrby, hmget, exec, bulk_of, deleted}
use remix.Redis.Server.{Redis}
use remix.Queue.Keys.{stats_key, message_key}
use remix.Queue.View.{View, Holds, Runs, put_at, Runs-stats, Runs-message, Runs-same}

module _ (r : Redis) (n : Text) {d : r.Db} {v : View} (h : Holds r n d v) where
  open r use {value}

  pub hincrby-stats :
      (f : Text) (m : ℕ)
      → Runs r n
          (hincrby (stats_key n) f m)
          d
          (int (amount f v.stats + m))
          (record v { stats = increase f m v.stats })
  hincrby-stats f m =
      let (a, b) = hincrby-counts f (stats_key n) m (value d (stats_key n)) v.stats h.stats in
      Runs-stats r n (hincrby (stats_key n) f m) h (increase f m v.stats) refl a b

  pub hmget-stats :
      (fs : List Text)
      → Runs r n (hmget (stats_key n) fs) d (ints (map (λ f. field f v.stats) fs)) v
  hmget-stats fs =
      let (a, b) = hmget-counts (stats_key n) fs (value d (stats_key n)) v.stats h.stats in
      Runs-stats r n (hmget (stats_key n) fs) h v.stats refl a b

  pub set-message :
      (id s : Text)
      → Runs r n
          (set (message_key n id) s)
          d
          status
          (record v { message = put_at id (some s) v.message })
  unfolding exec
  set-message id s = Runs-message r n (set (message_key n id) s) h id (some s) refl refl refl

  pub del-message :
      (id : Text)
      → Runs r n
          (del (message_key n id))
          d
          (int (deleted (value d (message_key n id))))
          (record v { message = put_at id none v.message })
  unfolding exec
  del-message id = Runs-message r n (del (message_key n id)) h id none refl refl refl

  pub get-message : (id : Text) → Runs r n (get (message_key n id)) d (bulk_of (v.message id)) v
  unfolding exec
  get-message id = Runs-same r n (get (message_key n id)) h (rw (h.message id)) (rw (h.message id))
