-- ===== src/Redis/Counts.antt =====
-- How often a member stands in a list or a sorted set, through each operation of a value.
use remix.Base.{
  ℕ, ◌+◌, ◌≤◌, ◌≡◌, refl, List, [], ◌∷◌, Option, none, some, Text, text_eq, text_eq_iff,
  text_eq_comm, count, if◌then◌else◌, arith,
}
use remix.Redis.Value.{drop_last, last?, remove, position, score, zremove, zinsert, up_to}

-- 1 for the text itself, 0 for another.
abbrev pub one_if : Text → Text → ℕ
one_if k id = if text_eq k id then 1 else 0

abbrev pub one_of : Text → Option Text → ℕ
one_of k none = 0
one_of k (some id) = one_if k id

unfoldable pub zcount : Text → List (Text × ℕ) → ℕ
zcount k [] = 0
zcount k ((m, s) ∷ z) = one_if k m + zcount k z

pub count-drop_last :
    (k : Text) (xs : List Text) → count k (drop_last xs) + one_of k (last? xs) ≡ count k xs
unfolding count drop_last last?
count-drop_last k [] = refl
count-drop_last k (x ∷ []) = omega arith
count-drop_last k (x ∷ y ∷ xs) = omega (arith, count-drop_last k (y ∷ xs))

-- 1 if the text is the one that a search has found.
abbrev pub one_found : Text → Text → Option ℕ → ℕ
one_found k id none = 0
one_found k id (some _) = one_if k id

pub count-remove :
    (k id : Text) (xs : List Text)
    → count k (remove id xs) + one_found k id (position id xs) ≡ count k xs
unfolding count remove position
count-remove k id [] = refl
count-remove k id (x ∷ xs) =
    ground (arith, count-remove k id xs, text_eq_iff x id, text_eq_iff k id, text_eq_iff k x)

pub zcount-zremove :
    (k id : Text) (z : List (Text × ℕ))
    → zcount k (zremove id z) + one_found k id (score id z) ≡ zcount k z
unfolding zcount zremove score
zcount-zremove k id [] = refl
zcount-zremove k id ((m, s) ∷ z) =
    ground (arith, zcount-zremove k id z, text_eq_iff m id, text_eq_iff k id, text_eq_iff k m)

pub zcount-zremove-le : (k id : Text) (z : List (Text × ℕ)) → zcount k (zremove id z) ≤ zcount k z
unfolding zcount zremove
zcount-zremove-le k id [] = omega arith
zcount-zremove-le k id ((m, s) ∷ z) = ground (arith, zcount-zremove-le k id z)

pub zcount-zremove_self :
    (k : Text) (z : List (Text × ℕ)) → zcount k z ≤ 1 → zcount k (zremove k z) ≡ 0
unfolding zcount zremove
zcount-zremove_self k [] h = refl
zcount-zremove_self k ((m, s) ∷ z) h = ground (arith, zcount-zremove_self k z, text_eq_comm k m)

pub zcount-zinsert :
    (k id : Text) (s : ℕ) (z : List (Text × ℕ))
    → zcount k (zinsert s id z) ≡ one_if k id + zcount k z
unfolding zcount zinsert
zcount-zinsert k id s [] = refl
zcount-zinsert k id s ((m, t) ∷ z) = ground (arith, zcount-zinsert k id s z)

-- A member is found exactly if it is there.
pub score-none : (k : Text) (z : List (Text × ℕ)) → score k z ≡ none → zcount k z ≡ 0
unfolding zcount score
score-none k [] h = refl
score-none k ((m, s) ∷ z) h = ground (arith, score-none k z, text_eq_comm k m)

pub none-score : (k : Text) (z : List (Text × ℕ)) → zcount k z ≡ 0 → score k z ≡ none
unfolding zcount score
none-score k [] h = refl
none-score k ((m, s) ∷ z) h = ground (arith, none-score k z, text_eq_comm k m)

-- What a range yields was in the set.
pub count-up_to-le : (k : Text) (t : ℕ) (z : List (Text × ℕ)) → count k (up_to t z) ≤ zcount k z
unfolding count up_to zcount
count-up_to-le k t [] = omega arith
count-up_to-le k t ((m, s) ∷ z) = ground (arith, count-up_to-le k t z)
