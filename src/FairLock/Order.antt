-- ===== src/FairLock/Order.antt =====
-- Places in a sorted set of scores.
use remix.Base.{
  arith, ℕ, suc, ◌+◌, ◌<◌, ◌≡◌, refl, List, [], ◌∷◌, none, some, Text, text_eq_iff, text_lt, ltb,
  ◌==◌, ◌&&◌, ◌||◌, if◌then◌else◌, length,
}
use remix.Redis.Value.{score, rank, zinsert, zremove, above}

-- Adding a new member and removing it.
pub zremove-zinsert :
    (s : ℕ) (k : Text) (z : List (Text × ℕ)) → score k z ≡ none → zremove k (zinsert s k z) ≡ z
unfolding score zremove zinsert
zremove-zinsert s k [] h = ground (arith, text_eq_iff k k)
zremove-zinsert s k ((m, t) ∷ z) h =
    ground (arith, zremove-zinsert s k z, text_eq_iff m k, text_eq_iff k k)

-- The place of a new member: behind every member of a lower score.
unfoldable pub before : ℕ → Text → List (Text × ℕ) → ℕ
before s k [] = 0
before s k ((m, t) ∷ z) = if ltb t s || (t == s && text_lt m k) then before s k z + 1 else 0

pub rank-zinsert :
    (s : ℕ) (k : Text) (z : List (Text × ℕ))
    → score k z ≡ none
    → rank k (zinsert s k z) ≡ some (before s k z)
unfolding score rank zinsert before
rank-zinsert s k [] h = ground (arith, text_eq_iff k k)
rank-zinsert s k ((m, t) ∷ z) h =
    ground (arith, rank-zinsert s k z, text_eq_iff m k, text_eq_iff k k)

-- A member with a lower score at the head.
pub before-suc :
    (s t : ℕ) (k m : Text) (z : List (Text × ℕ))
    → t < s
    → before s k ((m, t) ∷ z) ≡ suc (before s k z)
unfolding before
before-suc s t k m z h = ground arith

-- All scores are lower.
abbrev pub AllBelow : ℕ → List (Text × ℕ) → Type 0
AllBelow s [] = Unit {0}
AllBelow s ((m, t) ∷ z) = (t < s) × AllBelow s z

pub before_all : (s : ℕ) (k : Text) (z : List (Text × ℕ)) → AllBelow s z → before s k z ≡ length z
unfolding before
before_all s k [] h = refl
before_all s k ((m, t) ∷ z) h = ground (arith, before_all s k z h.1)

pub above_none : (t : ℕ) (z : List (Text × ℕ)) → AllBelow (suc t) z → above t z ≡ []
unfolding above
above_none t [] h = refl
above_none t ((m, s) ∷ z) h = ground (arith, above_none t z h.1)
