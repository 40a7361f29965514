-- ===== src/Redis/Hashes.antt =====
-- The commands on a hash of counters, seen as a list of counters.
use remix.Base.{
  ℕ, ◌+◌, ◌≡◌, refl, ap, sym, subst, List, [], ◌∷◌, map, Option, none, some, Text, text_eq, fun_ext,
  Bool, true, false, arith, pos, negsuc, pos-add, if◌then◌else◌,
}
use remix.Redis.Value.{
  Value, Cell, number, text, absent, string, list, hash, zset, as_counts, counts, with_count, field,
  put, increase, or_zero, amount, sum_of,
}
use remix.Redis.Command.{int, ints, hincrby, hmget, exec, count_of, added_to}

-- A hash of counters begins with a counter.
counts_split :
    (f : Text) (c : Cell) (h : List (Text × Cell)) (s : List (Text × ℕ))
    → counts ((f, c) ∷ h) ≡ some s
    → (n : ℕ) × (t : List (Text × ℕ)) × (c ≡ number (pos n))
      × (counts h ≡ some t)
      × (s ≡ (f, n) ∷ t)
unfolding counts
counts_split f (number (pos n)) h s e = split_rest (counts h) refl e
  where
    split_rest :
        (o : Option (List (Text × ℕ)))
        → counts h ≡ o
        → with_count f (number (pos n)) o ≡ some s
        → (m : ℕ) × (t : List (Text × ℕ)) × (number (pos n) ≡ number (pos m))
          × (counts h ≡ some t)
          × (s ≡ (f, m) ∷ t)
    split_rest none p e = cc
    split_rest (some t) p e = (n, t, refl, p, cc)
counts_split f (number (negsuc n)) h s e = cc
counts_split f (text u) h s e = cc

abbrev as_cell : Option ℕ → Option Cell
as_cell none = none
as_cell (some n) = some (number (pos n))

module _ (f : Text) where
  field-counts :
      (h : List (Text × Cell)) (s : List (Text × ℕ))
      → counts h ≡ some s
      → field f h ≡ as_cell (field f s)
  unfolding field counts
  field-counts [] s e = let p : s ≡ [] = cc in rw p refl
  field-counts ((g, c) ∷ h) s e =
      let (n, t, p, q, w) = counts_split g c h s e in rw (p, w) (ground (arith, field-counts h t q))

  pub count_of-field :
      (h : List (Text × Cell)) (s : List (Text × ℕ))
      → counts h ≡ some s
      → count_of (field f h) ≡ field f s
  count_of-field h s e = rw (field-counts h s e) (read (field f s))
    where
      read : (o : Option ℕ) → count_of (as_cell o) ≡ o
      read none = refl
      read (some n) = refl

  sum_of-field :
      (n : ℕ) (h : List (Text × Cell)) (s : List (Text × ℕ))
      → counts h ≡ some s
      → sum_of (field f h) (pos n) ≡ some (pos (amount f s + n))
  sum_of-field n h s e = rw (field-counts h s e) (add (field f s))
    where
      add : (o : Option ℕ) → sum_of (as_cell o) (pos n) ≡ some (pos (or_zero o + n))
      add none = ap (λ m. some (pos m)) (omega arith)
      add (some m) = ap some (pos-add m n)

  amount_later :
      (n m : ℕ) (g : Text) (t : List (Text × ℕ))
      → text_eq g f ≡ false
      → amount f ((g, m) ∷ t) + n ≡ amount f t + n
  unfolding field
  amount_later n m g t e = ap (λ b. or_zero (if b then some m else field f t) + n) e

  counts-put_cons :
      (n m : ℕ) (g : Text) (h : List (Text × Cell)) (t : List (Text × ℕ)) (b : Bool)
      → text_eq g f ≡ b
      → counts h ≡ some t
      → counts (put f (number (pos (amount f t + n))) h) ≡ some (increase f n t)
      → counts (put f (number (pos (amount f ((g, m) ∷ t) + n))) ((g, number (pos m)) ∷ h))
        ≡ some (increase f n ((g, m) ∷ t))
  unfolding counts put increase field
  counts-put_cons n m g h t true e q ih = rw (e, q) refl
  counts-put_cons n m g h t false e q ih =
      subst
        (λ k.
          counts (put f (number (pos k)) ((g, number (pos m)) ∷ h))
          ≡ some (increase f n ((g, m) ∷ t)))
        (sym (amount_later n m g t e)) (rw e (ap (with_count g (number (pos m))) ih))

  counts_nil : (s : List (Text × ℕ)) → counts [] ≡ some s → s ≡ []
  unfolding counts
  counts_nil s e = cc e

  put_first : (n : ℕ) → counts (put f (number (pos (amount f [] + n))) []) ≡ some (increase f n [])
  unfolding counts put increase field
  put_first n = ap (λ m. some ((f, m) ∷ [])) (omega arith)

  counts-put :
      (n : ℕ) (h : List (Text × Cell)) (s : List (Text × ℕ))
      → counts h ≡ some s
      → counts (put f (number (pos (amount f s + n))) h) ≡ some (increase f n s)
  counts-put n [] s e =
      subst (λ s'. counts (put f (number (pos (amount f s' + n))) []) ≡ some (increase f n s'))
        (sym (counts_nil s e)) (put_first n)
  counts-put n ((g, c) ∷ h) s e =
      let (m, t, p, q, w) = counts_split g c h s e in
      let step = counts-put_cons n m g h t (text_eq g f) refl q (counts-put n h t q) in
      subst
        (λ s'.
          counts (put f (number (pos (amount f s' + n))) ((g, c) ∷ h)) ≡ some (increase f n s'))
        (sym w)
        (subst
          (λ c'.
            counts (put f (number (pos (amount f ((g, m) ∷ t) + n))) ((g, c') ∷ h))
            ≡ some (increase f n ((g, m) ∷ t)))
          (sym p) step)

  added-counts :
      (n : ℕ) (h : List (Text × Cell)) (s : List (Text × ℕ)) (v : Value)
      → counts h ≡ some s
      → ((added_to f (sum_of (field f h) (pos n)) h v).0 ≡ int (amount f s + n))
        × (as_counts (added_to f (sum_of (field f h) (pos n)) h v).1 ≡ some (increase f n s))
  added-counts n h s v e = rw (sum_of-field n h s e) (refl, counts-put n h s e)

  -- HINCRBY by a natural number.
  pub hincrby-counts :
      (k : Text) (n : ℕ) (v : Value) (s : List (Text × ℕ))
      → as_counts v ≡ some s
      → ((exec (hincrby k f n) v).0 ≡ int (amount f s + n))
        × (as_counts (exec (hincrby k f n) v).1 ≡ some (increase f n s))
  unfolding exec
  hincrby-counts k n absent s e = added-counts n [] s absent e
  hincrby-counts k n (hash h) s e = added-counts n h s (hash h) e
  hincrby-counts k n (string t) s e = cc
  hincrby-counts k n (list xs) s e = cc
  hincrby-counts k n (zset z) s e = cc

-- HMGET.
pub hmget-counts :
    (k : Text) (fs : List Text) (v : Value) (s : List (Text × ℕ))
    → as_counts v ≡ some s
    → ((exec (hmget k fs) v).0 ≡ ints (map (λ f. field f s) fs))
      × (as_counts (exec (hmget k fs) v).1 ≡ some s)
unfolding exec
hmget-counts k fs absent s e =
    (ap (λ (g : Text → Option ℕ). ints (map g fs)) (fun_ext (λ f. count_of-field f [] s e)), e)
hmget-counts k fs (hash h) s e =
    (ap (λ (g : Text → Option ℕ). ints (map g fs)) (fun_ext (λ f. count_of-field f h s e)), e)
hmget-counts k fs (string t) s e = cc
hmget-counts k fs (list xs) s e = cc
hmget-counts k fs (zset z) s e = cc

-- A missing key has no counters.
pub counts_none : as_counts absent ≡ some []
unfolding counts
counts_none = refl
