-- ===== src/Lock/Spec.antt =====
-- What the scripts of the lock promise over the stored information and the counters, when every
-- call is answered: the answer and the lock afterwards, on every branch.
use remix.Base.{ℕ, Bool, true, false, Option, none, some, Result, ok, err, Text, ltb}
use remix.Redis.Value.{increase}
use remix.Redis.Client.{Fault, error_reply}
use remix.Lock.Types.{Json, Document, lua_number}
use remix.Lock.Keys.{total_acquired, total_released}
use remix.Lock.Scripts.{Code, missing, foreign, done, holds, renewed}
use remix.Lock.View.{View}

module _ (j : Json) where
  abbrev pub Answer : Type 0 → Type 0
  Answer A = Result Fault A × View

  -- The lock taken.
  abbrev pub taken : Text → View → Answer Bool
  taken content v =
      (ok true, record v { stored = some content; stats = increase total_acquired 1 v.stats })

  abbrev pub acquired_when : Bool → Text → View → Answer Bool
  acquired_when true content v = (ok false, v)
  acquired_when false content v = taken content v

  -- A stored time that is no number is a runtime error of the script.
  abbrev pub acquired_by : Text → ℕ → Option ℕ → View → Answer Bool
  acquired_by content now none v = (err error_reply, v)
  acquired_by content now (some expire_time) v = acquired_when (ltb now expire_time) content v

  abbrev pub acquired_over : Text → ℕ → Option Document → View → Answer Bool
  acquired_over content now none v = (err error_reply, v)
  acquired_over content now (some x) v = acquired_by content now (lua_number j x.expire_time) v

  abbrev pub acquired_at : Text → ℕ → Option Text → View → Answer Bool
  acquired_at content now none v = taken content v
  acquired_at content now (some s) v = acquired_over content now (j.decode s) v

  unfoldable pub acquired : Text → ℕ → View → Answer Bool
  acquired content now v = acquired_at content now v.stored v

  abbrev pub released_when : Bool → View → Answer Code
  released_when true v =
      (ok done, record v { stored = none; stats = increase total_released 1 v.stats })
  released_when false v = (ok foreign, v)

  abbrev pub released_over : Text → Text → Option Document → View → Answer Code
  released_over owner thread_id none v = (err error_reply, v)
  released_over owner thread_id (some x) v = released_when (holds x owner thread_id) v

  abbrev pub released_at : Text → Text → Option Text → View → Answer Code
  released_at owner thread_id none v = (ok missing, v)
  released_at owner thread_id (some s) v = released_over owner thread_id (j.decode s) v

  unfoldable pub released : Text → Text → View → Answer Code
  released owner thread_id v = released_at owner thread_id v.stored v

  abbrev pub renewed_with : Option Text → View → Answer Code
  renewed_with none v = (err error_reply, v)
  renewed_with (some s) v = (ok done, record v { stored = some s })

  abbrev pub renewed_when : Bool → Option Text → View → Answer Code
  renewed_when true o v = renewed_with o v
  renewed_when false o v = (ok foreign, v)

  abbrev pub renewed_over : Text → Text → ℕ → ℕ → Option Document → View → Answer Code
  renewed_over owner thread_id lease now none v = (err error_reply, v)
  renewed_over owner thread_id lease now (some x) v =
      renewed_when (holds x owner thread_id) (j.encode (renewed x now lease)) v

  abbrev pub renewed_at : Text → Text → ℕ → ℕ → Option Text → View → Answer Code
  renewed_at owner thread_id lease now none v = (ok missing, v)
  renewed_at owner thread_id lease now (some s) v =
      renewed_over owner thread_id lease now (j.decode s) v

  unfoldable pub renewal : Text → Text → ℕ → ℕ → View → Answer Code
  renewal owner thread_id lease now v = renewed_at owner thread_id lease now v.stored v
