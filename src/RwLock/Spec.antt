-- ===== src/RwLock/Spec.antt =====
-- What the scripts of the read-write lock promise over its readers, their counts, the stored writer
-- and the counters, when every call is answered: the answer and the lock afterwards, on every
-- branch and for every lease.
use remix.Base.{
  ℕ, zero, suc, ◌+◌, Bool, true, false, Option, none, some, Result, ok, err, Text, text_eq, ltb,
  length, ℤ, pos, negsuc, sub_ℕ,
}
use remix.Redis.Value.{Cell, number, text, field, put, erase, sum_of, increase}
use remix.Redis.Client.{Fault, error_reply}
use remix.Lock.Types.{Json}
use remix.Lock.Keys.{holder}
use remix.Lock.Scripts.{Code, missing, foreign, done}
use remix.RwLock.Types.{Object, Objects, lock_object, number_of}
use remix.RwLock.Keys.{
  read_lock_key, write_lock_key, total_read_acquired, total_read_released, total_write_acquired,
  total_write_released,
}
use remix.RwLock.Scripts.{joined, is_read_locked}
use remix.RwLock.View.{View}
use remix.RwLock.View.Commands.{kept}

abbrev pub Answer : Type 0 → Type 0
Answer A = Result Fault A × View

-- The guard's answer decides whether the lock is taken.
abbrev pub entered : Result Fault Bool → Answer Bool → View → Answer Bool
entered (ok true) taken v = taken
entered (ok false) taken v = (ok false, v)
entered (err e) taken v = (err e, v)

abbrev pub is_some : {A : Type 0} → Option A → Bool
is_some none = false
is_some (some _) = true

-- May `me` go on beside a writer that is not known to have passed?
abbrev pub guarded_owner : Text → Option Text → Result Fault Bool
guarded_owner me none = err error_reply
guarded_owner me (some w) = ok (text_eq w me)

abbrev pub guarded_when : Bool → Text → Object → Result Fault Bool
guarded_when true me x = guarded_owner me (joined x.owner x.thread_id)
guarded_when false me x = ok true

-- The reader is counted; a count that is no integer is an error after the reader is stored.
abbrev pub counted_read : Text → ℕ → Option ℤ → View → Answer Bool
counted_read me lease none v = (err error_reply, v)
counted_read me lease (some z) v = (
  ok true,
  record v {
    counts = kept lease (put me (number z) v.counts);
    stats = increase total_read_acquired 1 v.stats;
  },
)

abbrev pub read_taken : Text → Text → ℕ → View → Answer Bool
read_taken me content lease v =
    counted_read me lease (sum_of (field me v.counts) (pos 1))
      (record v { readers = kept lease (put me (text content) v.readers) })

abbrev pub is_none_left : ℤ → Bool
is_none_left (pos zero) = true
is_none_left (pos (suc n)) = false
is_none_left (negsuc n) = true

-- The last hold removes the reader.
abbrev pub dropped : Text → Bool → View → View
dropped me true v = record v { readers = erase me v.readers; counts = erase me v.counts }
dropped me false v = v

abbrev pub lowered : Text → ℤ → View → View
lowered me z v =
    let w = dropped me (is_none_left z) (record v { counts = put me (number z) v.counts }) in
    record w { stats = increase total_read_released 1 w.stats }

abbrev pub read_released_by : Text → Option Cell → Option ℤ → View → Answer Bool
read_released_by me none z v = (ok false, v)
read_released_by me (some c) none v = (err error_reply, v)
read_released_by me (some c) (some z) v = (ok true, lowered me z v)

unfoldable pub read_released : Text → View → Answer Bool
read_released me v =
    read_released_by me (field me v.readers) (sum_of (field me v.counts) (sub_ℕ 0 1)) v

abbrev pub write_taken : Text → ℕ → View → Answer Bool
write_taken content zero v = (err error_reply, v)
write_taken content (suc t) v =
    (ok true, record v { writer = some content; stats = increase total_write_acquired 1 v.stats })

-- Do the readers keep `me` out?
abbrev pub kept_out : Text → View → Bool
kept_out me v = is_read_locked (some (length v.readers)) (is_some (field me v.readers))

abbrev pub write_released_when : Bool → View → Answer Code
write_released_when true v =
    (ok done, record v { writer = none; stats = increase total_write_released 1 v.stats })
write_released_when false v = (ok foreign, v)

abbrev pub write_released_by : Text → Option Text → View → Answer Code
write_released_by me none v = (err error_reply, v)
write_released_by me (some w) v = write_released_when (text_eq w me) v

module _ (j : Json) (o : Objects) where
  abbrev pub guarded_by : Text → ℕ → Object → Option ℕ → Result Fault Bool
  guarded_by me now x none = err error_reply
  guarded_by me now x (some t) = guarded_when (ltb now t) me x

  abbrev pub guarded_over : Text → ℕ → Option Object → Result Fault Bool
  guarded_over me now none = err error_reply
  guarded_over me now (some x) = guarded_by me now x (number_of j x.expire_time)

  abbrev pub guarded_at : Text → ℕ → Option Text → Result Fault Bool
  guarded_at me now none = ok true
  guarded_at me now (some s) = guarded_over me now (o.decode s)

  unfoldable pub read_acquired : Text → Text → Text → ℕ → ℕ → View → Answer Bool
  read_acquired n owner thread_id lease now v =
      entered (guarded_at (holder owner thread_id) now v.writer)
        (read_taken (holder owner thread_id)
          (o.encode (lock_object (read_lock_key n) owner thread_id now (now + lease))) lease v)
        v

  abbrev pub write_acquired_when : Bool → Text → Text → ℕ → ℕ → View → Answer Bool
  write_acquired_when true me content lease now v = (ok false, v)
  write_acquired_when false me content lease now v =
      entered (guarded_at me now v.writer) (write_taken content lease v) v

  unfoldable pub write_acquired : Text → Text → Text → ℕ → ℕ → View → Answer Bool
  write_acquired n owner thread_id lease now v =
      write_acquired_when (kept_out (holder owner thread_id) v) (holder owner thread_id)
        (o.encode (lock_object (write_lock_key n) owner thread_id now (now + lease))) lease now v

  abbrev pub write_released_over : Text → Option Object → View → Answer Code
  write_released_over me none v = (err error_reply, v)
  write_released_over me (some x) v = write_released_by me (joined x.owner x.thread_id) v

  abbrev pub write_released_at : Text → Option Text → View → Answer Code
  write_released_at me none v = (ok missing, v)
  write_released_at me (some s) v = write_released_over me (o.decode s) v

  unfoldable pub write_released : Text → View → Answer Code
  write_released me v = write_released_at me v.writer v
