-- ===== src/Queue/Spec/Places.antt =====
-- Where a message is: the number of its occurrences over the four lists, and how each operation of
-- the specification changes it.
use remix.Base.{
  ℕ, ◌+◌, ◌≤◌, ◌<◌, ◌≡◌, refl, ◌∙◌, List, [], ◌∷◌, some, true, inl, inr, Option-cases, Text,
  text_eq_refl, count, arith,
}
use remix.Redis.Value.{drop_last, last?, score, zremove}
use remix.Redis.Counts.{
  one_if, one_of, one_found, zcount, count-drop_last, zcount-zremove, zcount-zinsert, score-none,
  none-score, count-up_to-le,
}
use remix.Queue.Types.{Message, Queue, Codec, unix}
use remix.Queue.View.{View}
use remix.Queue.Spec.{offered, moved, released, started_with, acked, retried, given_up}

unfoldable pub places : Text → View → ℕ
places k v = count k v.pending + zcount k v.processing + zcount k v.delayed + count k v.dead

-- What is put back is found again.
found_of_count :
    (id : Text) (z : List (Text × ℕ)) → 0 < zcount id z → one_found id id (score id z) ≡ 1
found_of_count id z h = elim (Option-cases (score id z)) [
  | inl e ↦ absurd (omega (arith, score-none id z e))
  | inr (t, e) ↦ rw (e, text_eq_refl id)
]

one_found_same :
    (k id : Text) (z : List (Text × ℕ))
    → 0 < zcount id z
    → one_found k id (score id z) ≡ one_if k id
one_found_same k id z h = elim (Option-cases (score id z)) [
  | inl e ↦ absurd (omega (arith, score-none id z e))
  | inr (t, e) ↦ rw e
]

-- A new message takes one place more, its own.
pub places-offered :
    (k id content : Text) (visible now : ℕ) (v : View)
    → zcount id v.delayed ≡ 0
    → places k (offered id content visible now v) ≡ places k v + one_if k id
unfolding places offered count
places-offered k id content visible now v h = ground (
  arith,
  zcount-zinsert k id visible (zremove id v.delayed),
  zcount-zremove k id v.delayed,
  none-score id v.delayed h,
)

-- A delayed message that becomes pending keeps its number of places.
places_release :
    (k id : Text) (v : View)
    → 0 < zcount id v.delayed
    → places k (record v { pending = id ∷ v.pending; delayed = zremove id v.delayed }) ≡ places k v
unfolding places count
places_release k id v there =
    omega (arith, zcount-zremove k id v.delayed, one_found_same k id v.delayed there)

pub count_rest :
    (j id : Text) (ids : List Text) (z : List (Text × ℕ))
    → count j (id ∷ ids) ≤ zcount j z
    → 0 < zcount id z
    → count j ids ≤ zcount j (zremove id z)
unfolding count
count_rest j id ids z h there = omega (arith, h, zcount-zremove j id z, one_found_same j id z there)

pub count_head :
    (id : Text) (ids : List Text) (z : List (Text × ℕ))
    → count id (id ∷ ids) ≤ zcount id z
    → 0 < zcount id z
unfolding count
count_head id ids z h = ground (arith, h, text_eq_refl id)

-- Listed messages that are delayed keep their number of places.
pub places-moved :
    (k : Text) (ids : List Text) (v : View)
    → ((j : Text) → count j ids ≤ zcount j v.delayed)
    → places k (moved ids v) ≡ places k v
unfolding moved
places-moved k [] v h = refl
places-moved k (id ∷ ids) v h =
    let there : 0 < zcount id v.delayed = count_head id ids v.delayed (h id) in
    places-moved k ids (record v { pending = id ∷ v.pending; delayed = zremove id v.delayed })
      (λ j. count_rest j id ids v.delayed (h j) there)
    ∙ places_release k id v there

pub places-released : (k : Text) (now : ℕ) (v : View) → places k (released now v) ≡ places k v
unfolding released
places-released k now v = places-moved k _ v (λ j. count-up_to-le j now v.delayed)

-- A popped message leaves one place.
pub places-popped :
    (k : Text) (v : View)
    → places k (record v { pending = drop_last v.pending }) + one_of k (last? v.pending)
      ≡ places k v
unfolding places
places-popped k v = omega (arith, count-drop_last k v.pending)

module _ (codec : Codec Message) (q : Queue) where
  -- Starting puts the message among the processing ones, once.
  pub places-started :
      (k id : Text) (now : ℕ) (msg : Message) (updated : Text) (v : View)
      → zcount id v.processing ≡ 0
      → places k (started_with codec q id now msg (some updated) v).1 ≡ places k v + one_if k id
  unfolding places
  places-started k id now msg updated v h = ground (
    arith,
    zcount-zinsert k id (unix (now + q.visibility_timeout)) (zremove id v.processing),
    zcount-zremove k id v.processing,
    none-score id v.processing h,
  )

  -- An acknowledged message leaves its place.
  pub places-acked :
      (k id : Text) (v : View) (t : ℕ)
      → score id v.processing ≡ some t
      → places k (acked codec q id v).1 + one_if k id ≡ places k v
  unfolding places acked
  places-acked k id v t h = ground (arith, zcount-zremove k id v.processing, h)

  -- A message whose attempt ends in another round, or among the dead letters, keeps its number of
  -- places.
  pub places-retried :
      (k id updated : Text) (v : View) (t : ℕ)
      → score id v.processing ≡ some t
      → places k (retried codec q id (some updated) v).1 ≡ places k v
  unfolding places count
  places-retried k id updated v t h = ground (arith, zcount-zremove k id v.processing, h)

  pub places-given_up :
      (k id : Text) (v : View) (t : ℕ)
      → score id v.processing ≡ some t
      → places k (given_up codec q id true v).1 ≡ places k v
  unfolding places count
  places-given_up k id v t h = ground (arith, zcount-zremove k id v.processing, h)
