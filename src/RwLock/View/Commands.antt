-- ===== src/RwLock/View/Commands.antt =====
-- What the commands of lock/rwlock.go reply and leave on the keys of one lock.
use remix.Base.{
  ap, ◌∙◌, ℕ, zero, suc, ◌+◌, ◌≡◌, refl, ap, List, [], Option, none, some, ok, Text, length, ℤ, pos,
  sub_ℕ,
}
use remix.Redis.Value.{
  Value, Cell, number, text, as_hash, field, put, erase, sum_of, increase, amount,
}
use remix.Redis.Hashes.{counts_none, hincrby-counts}
use remix.Redis.Command.{
  Reply, status, int, error, get, set_ex, del, hincrby, hdecrby, hset, hget, hdel, hlen, hexists,
  expire, bulk_of, cell_of, integer, present, missing, exec, deleted, expired,
}
use remix.Redis.Server.{Redis}
use remix.Redis.Client.{checked}
use remix.RwLock.Keys.{
  Slot, key, readers, counts, writer, stats, read_lock_key, write_lock_key, read_count_key,
  stats_key,
}
use remix.RwLock.View.{
  View, Holds, Runs, Runs-slot, only_readers, only_counts, only_writer, only_stats, as_hash-of_hash,
}

-- A hash after EXPIRE.
abbrev pub kept : ℕ → List (Text × Cell) → List (Text × Cell)
kept zero h = []
kept (suc t) h = h

-- The lock without the key of a slot.
abbrev pub emptied : Slot → View → View
emptied readers v = record v { readers = [] }
emptied counts v = record v { counts = [] }
emptied writer v = record v { writer = none }
emptied stats v = record v { stats = [] }

as_hash-expired :
    (t : ℕ) (x : Value) (h : List (Text × Cell))
    → as_hash x ≡ some h
    → as_hash (expired t x) ≡ some (kept t h)
as_hash-expired zero x h e = refl
as_hash-expired (suc t) x h e = e

pub checked-cell_of : (c : Option Cell) → checked (cell_of c) ≡ ok (cell_of c)
checked-cell_of none = refl
checked-cell_of (some (number (pos n))) = refl
checked-cell_of (some (number _)) = refl
checked-cell_of (some (text s)) = refl

pub checked-bulk_of : (s : Option Text) → checked (bulk_of s) ≡ ok (bulk_of s)
checked-bulk_of none = refl
checked-bulk_of (some s) = refl

module _ (r : Redis) (n : Text) {d : r.Db} {v : View} (h : Holds r n d v) where
  open r use {value}

  pub hset-readers :
      (f s : Text)
      → Runs r n
          (hset (read_lock_key n) f s)
          d
          (int (missing (field f v.readers)))
          (record v { readers = put f (text s) v.readers })
  unfolding exec
  hset-readers f s =
      Runs-slot r n h (hset (read_lock_key n) f s) readers _ refl (rw (h.at readers) refl)
        (rw (h.at readers) refl) (only_readers v _)

  pub hdel-readers :
      (f : Text)
      → Runs r n
          (hdel (read_lock_key n) f)
          d
          (int (present (field f v.readers)))
          (record v { readers = erase f v.readers })
  unfolding exec
  hdel-readers f =
      Runs-slot r n h (hdel (read_lock_key n) f) readers _ refl (rw (h.at readers) refl)
        (rw (h.at readers) (as_hash-of_hash (erase f v.readers))) (only_readers v _)

  pub hget-readers :
      (f : Text) → Runs r n (hget (read_lock_key n) f) d (cell_of (field f v.readers)) v
  unfolding exec
  hget-readers f =
      Runs-slot r n h (hget (read_lock_key n) f) readers v refl (rw (h.at readers) refl)
        (rw (h.at readers) (h.at readers)) (only_readers v v.readers)

  pub hlen-readers : Runs r n (hlen (read_lock_key n)) d (int (length v.readers)) v
  unfolding exec
  hlen-readers =
      Runs-slot r n h (hlen (read_lock_key n)) readers v refl (rw (h.at readers) refl)
        (rw (h.at readers) (h.at readers)) (only_readers v v.readers)

  pub hexists-readers :
      (f : Text) → Runs r n (hexists (read_lock_key n) f) d (int (present (field f v.readers))) v
  unfolding exec
  hexists-readers f =
      Runs-slot r n h (hexists (read_lock_key n) f) readers v refl (rw (h.at readers) refl)
        (rw (h.at readers) (h.at readers)) (only_readers v v.readers)

  pub expire-readers :
      (t : ℕ)
      → Runs r n
          (expire (read_lock_key n) t)
          d
          (int (deleted (value d (read_lock_key n))))
          (record v { readers = kept t v.readers })
  unfolding exec
  expire-readers t =
      Runs-slot r n h (expire (read_lock_key n) t) readers _ refl refl
        (as_hash-expired t _ v.readers (h.at readers)) (only_readers v _)

  pub expire-counts :
      (t : ℕ)
      → Runs r n
          (expire (read_count_key n) t)
          d
          (int (deleted (value d (read_count_key n))))
          (record v { counts = kept t v.counts })
  unfolding exec
  expire-counts t =
      Runs-slot r n h (expire (read_count_key n) t) counts _ refl refl
        (as_hash-expired t _ v.counts (h.at counts)) (only_counts v _)

  pub hget-counts :
      (f : Text) → Runs r n (hget (read_count_key n) f) d (cell_of (field f v.counts)) v
  unfolding exec
  hget-counts f =
      Runs-slot r n h (hget (read_count_key n) f) counts v refl (rw (h.at counts) refl)
        (rw (h.at counts) (h.at counts)) (only_counts v v.counts)

  pub hdel-counts :
      (f : Text)
      → Runs r n
          (hdel (read_count_key n) f)
          d
          (int (present (field f v.counts)))
          (record v { counts = erase f v.counts })
  unfolding exec
  hdel-counts f =
      Runs-slot r n h (hdel (read_count_key n) f) counts _ refl (rw (h.at counts) refl)
        (rw (h.at counts) (as_hash-of_hash (erase f v.counts))) (only_counts v _)

  -- The count after HINCRBY; a field of another text is an error.
  abbrev pub counted : Text → Option ℤ → Reply × View
  counted f none = (error, v)
  counted f (some z) = (integer z, record v { counts = put f (number z) v.counts })

  pub hincrby-counted :
      (f : Text) (m : ℕ) (z : Option ℤ)
      → sum_of (field f v.counts) (pos m) ≡ z
      → Runs r n (hincrby (read_count_key n) f m) d (counted f z).0 (counted f z).1
  unfolding exec
  hincrby-counted f m none e =
      Runs-slot r n h (hincrby (read_count_key n) f m) counts v refl (rw (h.at counts, e) refl)
        (rw (h.at counts, e) (h.at counts)) (only_counts v v.counts)
  hincrby-counted f m (some z) e =
      Runs-slot r n h (hincrby (read_count_key n) f m) counts _ refl (rw (h.at counts, e) refl)
        (rw (h.at counts, e) refl) (only_counts v _)

  pub hdecrby-counted :
      (f : Text) (m : ℕ) (z : Option ℤ)
      → sum_of (field f v.counts) (sub_ℕ 0 m) ≡ z
      → Runs r n (hdecrby (read_count_key n) f m) d (counted f z).0 (counted f z).1
  unfolding exec
  hdecrby-counted f m none e =
      Runs-slot r n h (hdecrby (read_count_key n) f m) counts v refl (rw (h.at counts, e) refl)
        (rw (h.at counts, e) (h.at counts)) (only_counts v v.counts)
  hdecrby-counted f m (some z) e =
      Runs-slot r n h (hdecrby (read_count_key n) f m) counts _ refl (rw (h.at counts, e) refl)
        (rw (h.at counts, e) refl) (only_counts v _)

  pub get-writer : Runs r n (get (write_lock_key n)) d (bulk_of v.writer) v
  unfolding exec
  get-writer =
      Runs-slot r n h (get (write_lock_key n)) writer v refl (rw (h.at writer) refl)
        (rw (h.at writer) (h.at writer)) (only_writer v v.writer)

  -- GET, where it is known what is stored.
  pub get_known :
      {o : Option Text} → v.writer ≡ o → Runs r n (get (write_lock_key n)) d (bulk_of o) v
  get_known e = record { replies = get-writer.replies ∙ ap bulk_of e; holds = get-writer.holds }

  -- SET with an expiry of zero seconds is refused.
  abbrev pub set_for_seconds : Text → ℕ → Reply × View
  set_for_seconds s zero = (error, v)
  set_for_seconds s (suc t) = (status, record v { writer = some s })

  pub set_ex-writer :
      (s : Text) (t : ℕ)
      → Runs r n (set_ex (write_lock_key n) s t) d (set_for_seconds s t).0 (set_for_seconds s t).1
  unfolding exec
  set_ex-writer s zero =
      Runs-slot r n h (set_ex (write_lock_key n) s zero) writer v refl refl (h.at writer)
        (only_writer v v.writer)
  set_ex-writer s (suc t) =
      Runs-slot r n h (set_ex (write_lock_key n) s (suc t)) writer _ refl refl refl
        (only_writer v _)

  pub del-writer :
      Runs r n
        (del (write_lock_key n))
        d
        (int (deleted (value d (write_lock_key n))))
        (record v { writer = none })
  unfolding exec
  del-writer = Runs-slot r n h (del (write_lock_key n)) writer _ refl refl refl (only_writer v none)

  pub hincrby-stats :
      (f : Text) (m : ℕ)
      → Runs r n
          (hincrby (stats_key n) f m)
          d
          (int (amount f v.stats + m))
          (record v { stats = increase f m v.stats })
  hincrby-stats f m =
      let (a, b) = hincrby-counts f (stats_key n) m (value d (stats_key n)) v.stats (h.at stats) in
      Runs-slot r n h (hincrby (stats_key n) f m) stats _ refl a b (only_stats v _)

  -- The key of a slot is gone.
  pub del_slot :
      (s : Slot) → Runs r n (del (key n s)) d (int (deleted (value d (key n s)))) (emptied s v)
  unfolding exec
  del_slot readers =
      Runs-slot r n h (del (key n readers)) readers _ refl refl refl (only_readers v [])
  del_slot counts = Runs-slot r n h (del (key n counts)) counts _ refl refl refl (only_counts v [])
  del_slot writer =
      Runs-slot r n h (del (key n writer)) writer _ refl refl refl (only_writer v none)
  del_slot stats =
      Runs-slot r n h (del (key n stats)) stats (record v { stats = [] }) refl refl counts_none
        (only_stats v [])
