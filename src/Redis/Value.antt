-- ===== src/Redis/Value.antt =====
-- What a Redis key holds. An empty list, hash or sorted set is no key at all.
use remix.Base.{
  ℕ, ◌+◌, ◌≡◌, refl, ap, List, [], ◌∷◌, Option, none, some, ◌&&◌, ◌||◌, Text, text_eq, text_lt,
  text_eq_iff, arith, ltb, leb, ℤ, pos, ◌+ℤ◌, ◌==◌, if◌then◌else◌,
}

-- A field of a hash: the integer that its text spells, or a text that spells none.
pub data Cell : Type 0 where
  number : ℤ → Cell
  text : Text → Cell

pub data Value : Type 0 where
  absent : Value
  string : Text → Value
  list : List Text → Value
  hash : List (Text × Cell) → Value
  -- Members with their scores, by rising score, then by member.
  zset : List (Text × ℕ) → Value

-- A key read as one type: a missing key is empty, a key of another type is an error (`none`).
abbrev pub as_string : Value → Option (Option Text)
as_string absent = some none
as_string (string s) = some (some s)
as_string _ = none

abbrev pub as_list : Value → Option (List Text)
as_list absent = some []
as_list (list xs) = some xs
as_list _ = none

abbrev pub as_hash : Value → Option (List (Text × Cell))
as_hash absent = some []
as_hash (hash h) = some h
as_hash _ = none

abbrev pub as_zset : Value → Option (List (Text × ℕ))
as_zset absent = some []
as_zset (zset z) = some z
as_zset _ = none

abbrev pub of_list : List Text → Value
of_list [] = absent
of_list (x ∷ xs) = list (x ∷ xs)

abbrev pub of_hash : List (Text × Cell) → Value
of_hash [] = absent
of_hash (x ∷ xs) = hash (x ∷ xs)

abbrev pub of_zset : List (Text × ℕ) → Value
of_zset [] = absent
of_zset (x ∷ xs) = zset (x ∷ xs)

pub as_list-of_list : (xs : List Text) → as_list (of_list xs) ≡ some xs
as_list-of_list [] = refl
as_list-of_list (x ∷ xs) = refl

pub as_zset-of_zset : (z : List (Text × ℕ)) → as_zset (of_zset z) ≡ some z
as_zset-of_zset [] = refl
as_zset-of_zset (x ∷ z) = refl

-- RPOP takes the last element.
unfoldable pub drop_last : List Text → List Text
drop_last [] = []
drop_last (x ∷ []) = []
drop_last (x ∷ y ∷ xs) = x ∷ drop_last (y ∷ xs)

unfoldable pub last? : List Text → Option Text
last? [] = none
last? (x ∷ []) = some x
last? (x ∷ y ∷ xs) = last? (y ∷ xs)

pub drop_last-none : (xs : List Text) → last? xs ≡ none → drop_last xs ≡ xs
unfolding drop_last last?
drop_last-none [] h = refl
drop_last-none (x ∷ []) h = cc h
drop_last-none (x ∷ y ∷ xs) h = ap (◌∷◌ x) (drop_last-none (y ∷ xs) h)

-- LREM with count 1 removes the first occurrence; LPOS looks for it.
unfoldable pub remove : Text → List Text → List Text
remove k [] = []
remove k (x ∷ xs) = if text_eq x k then xs else x ∷ remove k xs

unfoldable pub position : Text → List Text → Option ℕ
position k [] = none
position k (x ∷ xs) =
    if text_eq x k then some 0 else elim (position k xs) [ none ↦ none | some i ↦ some (i + 1) ]

unfoldable pub field : {A : Type 0} → Text → List (Text × A) → Option A
field f [] = none
field f ((g, n) ∷ h) = if text_eq g f then some n else field f h

unfoldable pub put : {A : Type 0} → Text → A → List (Text × A) → List (Text × A)
put f a [] = (f, a) ∷ []
put f a ((g, b) ∷ h) = if text_eq g f then (g, a) ∷ h else (g, b) ∷ put f a h

unfoldable pub erase : {A : Type 0} → Text → List (Text × A) → List (Text × A)
erase f [] = []
erase f ((g, b) ∷ h) = if text_eq g f then h else (g, b) ∷ erase f h

unfoldable pub increase : Text → ℕ → List (Text × ℕ) → List (Text × ℕ)
increase f n [] = (f, n) ∷ []
increase f n ((g, m) ∷ h) = if text_eq g f then (g, m + n) ∷ h else (g, m) ∷ increase f n h

-- What HINCRBY makes of a field; a field that spells no integer is an error.
abbrev pub sum_of : Option Cell → ℤ → Option ℤ
sum_of none d = some d
sum_of (some (number z)) d = some (z +ℤ d)
sum_of (some (text s)) d = none

-- A hash of counters that are natural numbers.
abbrev pub with_count : Text → Cell → Option (List (Text × ℕ)) → Option (List (Text × ℕ))
with_count f (number (pos n)) (some h) = some ((f, n) ∷ h)
with_count f c h = none

unfoldable pub counts : List (Text × Cell) → Option (List (Text × ℕ))
counts [] = some []
counts ((f, c) ∷ h) = with_count f c (counts h)

abbrev pub counts_of : Option (List (Text × Cell)) → Option (List (Text × ℕ))
counts_of none = none
counts_of (some h) = counts h

abbrev pub as_counts : Value → Option (List (Text × ℕ))
as_counts v = counts_of (as_hash v)

unfoldable pub score : Text → List (Text × ℕ) → Option ℕ
score k [] = none
score k ((m, s) ∷ z) = if text_eq m k then some s else score k z

unfoldable pub zremove : Text → List (Text × ℕ) → List (Text × ℕ)
zremove k [] = []
zremove k ((m, s) ∷ z) = if text_eq m k then z else (m, s) ∷ zremove k z

pub zremove_absent : (k : Text) (z : List (Text × ℕ)) → score k z ≡ none → zremove k z ≡ z
unfolding score zremove
zremove_absent k [] h = refl
zremove_absent k ((m, s) ∷ z) h = ground (arith, zremove_absent k z)

-- Behind every member of a lower score, or of the same score and a smaller name.
unfoldable pub zinsert : ℕ → Text → List (Text × ℕ) → List (Text × ℕ)
zinsert s k [] = (k, s) ∷ []
zinsert s k ((m, t) ∷ z) =
    if ltb t s || (t == s && text_lt m k) then (m, t) ∷ zinsert s k z else (k, s) ∷ (m, t) ∷ z

-- The members with a score of at most `top`.
unfoldable pub up_to : ℕ → List (Text × ℕ) → List Text
up_to top [] = []
up_to top ((m, s) ∷ z) = if leb s top then m ∷ up_to top z else up_to top z

-- The members with a score above `top`.
unfoldable pub above : ℕ → List (Text × ℕ) → List (Text × ℕ)
above top [] = []
above top ((m, s) ∷ z) = if leb s top then above top z else (m, s) ∷ above top z

-- The place of a member.
unfoldable pub rank : Text → List (Text × ℕ) → Option ℕ
rank k [] = none
rank k ((m, s) ∷ z) =
    if text_eq m k then some 0 else elim (rank k z) [ none ↦ none | some i ↦ some (i + 1) ]

-- A counter, 0 where it is missing.
abbrev pub or_zero : Option ℕ → ℕ
or_zero none = 0
or_zero (some n) = n

abbrev pub amount : Text → List (Text × ℕ) → ℕ
amount f h = or_zero (field f h)

pub field-increase :
    (f g : Text) (n : ℕ) (h : List (Text × ℕ))
    → field g (increase f n h) ≡ (if text_eq f g then some (amount f h + n) else field g h)
unfolding field increase
field-increase f g n [] = ground arith
field-increase f g n ((k, m) ∷ h) =
    ground (arith, field-increase f g n h, text_eq_iff k f, text_eq_iff k g, text_eq_iff f g)
