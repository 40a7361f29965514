-- ===== src/Redis/Rename.antt =====
-- Lists and sorted sets whose members are renamed by a function that keeps equality and order:
-- every operation of a value commutes with the renaming.
use remix.Base.{
  ℕ, ◌≡◌, refl, ap, List, [], ◌∷◌, map, Option, none, some, Text, text_eq, text_lt, arith,
}
use remix.Redis.Value.{drop_last, last?, remove, position, score, zremove, zinsert, up_to}

abbrev pub map_option {ℓ κ} : {A : Type ℓ} {B : Type κ} → (A → B) → Option A → Option B
map_option f none = none
map_option f (some a) = some (f a)

module _ (f : Text → Text) where
  -- The members renamed, with their scores.
  abbrev pub rename : List (Text × ℕ) → List (Text × ℕ)
  rename [] = []
  rename ((m, s) ∷ z) = (f m, s) ∷ rename z

  pub last?-map : (xs : List Text) → last? (map f xs) ≡ map_option f (last? xs)
  unfolding last?
  last?-map [] = refl
  last?-map (x ∷ []) = refl
  last?-map (x ∷ y ∷ xs) = last?-map (y ∷ xs)

  pub drop_last-map : (xs : List Text) → drop_last (map f xs) ≡ map f (drop_last xs)
  unfolding drop_last
  drop_last-map [] = refl
  drop_last-map (x ∷ []) = refl
  drop_last-map (x ∷ y ∷ xs) = ap (◌∷◌ (f x)) (drop_last-map (y ∷ xs))

  pub up_to-rename : (t : ℕ) (z : List (Text × ℕ)) → up_to t (rename z) ≡ map f (up_to t z)
  unfolding up_to
  up_to-rename t [] = refl
  up_to-rename t ((m, s) ∷ z) = ground (arith, up_to-rename t z)

  module _ (keeps_eq : (i j : Text) → text_eq (f i) (f j) ≡ text_eq i j) where
    pub remove-map : (k : Text) (xs : List Text) → remove (f k) (map f xs) ≡ map f (remove k xs)
    unfolding remove
    remove-map k [] = refl
    remove-map k (x ∷ xs) = ground (arith, remove-map k xs, keeps_eq x k)

    pub position-map : (k : Text) (xs : List Text) → position (f k) (map f xs) ≡ position k xs
    unfolding position
    position-map k [] = refl
    position-map k (x ∷ xs) = rw (keeps_eq x k, position-map k xs)

    pub score-rename : (k : Text) (z : List (Text × ℕ)) → score (f k) (rename z) ≡ score k z
    unfolding score
    score-rename k [] = refl
    score-rename k ((m, s) ∷ z) = rw (keeps_eq m k, score-rename k z)

    pub zremove-rename :
        (k : Text) (z : List (Text × ℕ)) → zremove (f k) (rename z) ≡ rename (zremove k z)
    unfolding zremove
    zremove-rename k [] = refl
    zremove-rename k ((m, s) ∷ z) = ground (arith, zremove-rename k z, keeps_eq m k)

    pub zinsert-rename :
        ((i j : Text) → text_lt (f i) (f j) ≡ text_lt i j)
        → (s : ℕ) (k : Text) (z : List (Text × ℕ))
        → zinsert s (f k) (rename z) ≡ rename (zinsert s k z)
    unfolding zinsert
    zinsert-rename keeps_lt s k [] = refl
    zinsert-rename keeps_lt s k ((m, t) ∷ z) =
        ground (arith, zinsert-rename keeps_lt s k z, keeps_lt m k)
