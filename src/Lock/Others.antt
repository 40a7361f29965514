-- ===== src/Lock/Others.antt =====
-- Calls of other lock objects while one object holds the lock (lock/lock.go).
use remix.Base.{
  ℕ, suc, ◌≡◌, Bool, true, false, ◌&&◌, List, [], ◌∷◌, some, Result, ok, err, Text, text_eq,
}
use remix.Redis.Server.{Redis}
use remix.Redis.Client.{Env, error_reply}
use remix.Lock.Types.{Json, Error, not_found, acquire_failed, seconds}
use remix.Lock.Ops.{Lock, marshalled, new_info, try_acquire_lock, release_lock}
use remix.Lock.View.{View, Online}
use remix.Lock.Lapse.{is_over, lapse}
use remix.Lock.Spec.{taken}

-- An attempt at a time, or a release, through a lock object.
pub data Attempt : Type 0 where
  acquires : Lock → ℕ → Attempt
  releases : Lock → Attempt

-- The object is of the same lock and of another holder.
pub record IsOther (l m : Lock) : Type 0 where
  pub same_lock : m.name ≡ l.name
  pub other_holder : (text_eq l.owner m.owner && text_eq l.thread_id m.thread_id) ≡ false

module _ (r : Redis) (j : Json) (l : Lock) where
  -- Another holder's call; one that takes the lock has a lease of at least a second, and can write
  -- its information.
  abbrev pub ByOther : Attempt → Type 0
  ByOther (acquires m now) =
      IsOther l m
      × ((t : ℕ) × (seconds m.config.lease_duration ≡ suc t))
      × ((s : Text) × (marshalled r j m (new_info r j m now) ≡ some s))
  ByOther (releases m) = IsOther l m

  -- Calls of other holders at clocks within the lease of a lock taken at `set_at`.
  abbrev pub AllByOthers : ℕ → List (ℕ × Attempt) → Type 0
  AllByOthers set_at [] = Unit {0}
  AllByOthers set_at ((clock, a) ∷ as') =
      ((is_over l set_at clock ≡ false) × ByOther a) × AllByOthers set_at as'

  unfoldable pub attempted : Attempt → Env r.Db → Env r.Db
  attempted (acquires m now) e = (try_acquire_lock r j m now e).1
  attempted (releases m) e = (release_lock r j m e).1

  -- The calls at these clocks of the server; the key of a lock taken at `set_at` has gone at those
  -- that are past its lease.
  unfoldable pub attempted_all : ℕ → List (ℕ × Attempt) → Env r.Db → Env r.Db
  unfolding attempted
  attempted_all set_at [] e = e
  attempted_all set_at ((clock, a) ∷ as') e =
      attempted_all set_at as' (attempted a (lapse r l (is_over l set_at clock) e))

  -- The results of the holder's own release, and of another's attempt, from whether the lease is
  -- over.
  abbrev pub own_release : Bool → Result Error (Unit {0})
  own_release false = ok tt
  own_release true = err not_found

  abbrev pub other_attempt : Bool → Result Error Bool
  other_attempt false = err (acquire_failed error_reply)
  other_attempt true = ok true

  module _ (at : ℕ) {content : Text} (v : View)
      (written : marshalled r j l (new_info r j l at) ≡ some content) where
    abbrev Mine : Env r.Db → Type 0
    Mine e = Online r l.name (taken j content v).1 e
