-- ===== src/Queue/Sound/Ends.antt =====
-- The invariant through the ends of an attempt: another round, the dead letters,
-- acknowledgement, and the way back from the dead letters.
use remix.Base.{
  ℕ, ◌+◌, ◌≤◌, ◌<◌, ◌≡◌, refl, List, [], ◌∷◌, Option, none, some, Bool, true, false, inl, inr,
  Option-cases, Text, text_eq, count, leb, arith,
}
use remix.Redis.Value.{position, remove, score, zremove, up_to}
use remix.Redis.Counts.{zcount, count-remove, score-none, count-up_to-le}
use remix.Queue.Types.{Message, Queue, Codec, unix}
use remix.Queue.View.{View, put_at}
use remix.Queue.Spec.{
  acked, ended_as, next_try, nacked, nacked_at, nacked_data, handled, handled_data, handled_all,
  timed_out, requeued, requeued_at,
}
use remix.Queue.Spec.Places.{
  places, places-acked, places-retried, places-given_up, count_rest, count_head,
}
use remix.Queue.Sound.{
  IsTotal, Sound, Keeps, Keeps-refl, Keeps-trans, Sound-same, Sound-put, Sound-drop,
}
use remix.Queue.Sound.Steps.{score-places, one_self}

module _ (codec : Codec Message) (q : Queue) (total : IsTotal codec)
    (letters : q.enable_dead_letter ≡ true) where
  ended_as-Keeps :
      (again : Bool) (id : Text) (now : ℕ) (msg : Message) {v : View} {t : ℕ}
      → Sound codec v
      → score id v.processing ≡ some t
      → Keeps codec v (ended_as codec q again id now msg v).1
  ended_as-Keeps true id now msg {v} {t} s e =
      let (updated, written) = total (next_try codec q msg now) in
      let same = λ (k : Text). places-retried codec q k id updated v t e in
      rw written (record {
        sound =
            Sound-put codec id (next_try codec q msg now) s written
              (λ k. omega (arith, same k, s.once k)) (λ k _. omega (arith, same k)) (λ k. refl);
        kept = same;
      })
  ended_as-Keeps false id now msg {v} {t} s e =
      let same = λ (k : Text). places-given_up codec q k id v t e in
      rw letters (record {
        sound = Sound-same codec s (λ k. omega (arith, same k)) (λ k. refl);
        kept = same;
      })

  ended_as-removes :
      (again : Bool) (id : Text) (now : ℕ) (msg : Message) (v : View)
      → (ended_as codec q again id now msg v).1.processing ≡ zremove id v.processing
  ended_as-removes true id now msg v =
      let (updated, written) = total (next_try codec q msg now) in rw written
  ended_as-removes false id now msg v = rw letters

  -- A message that is found among the processing ones.
  found-Keeps :
      (id : Text) (now : ℕ) {v : View} {t : ℕ}
      → Sound codec v
      → score id v.processing ≡ some t
      → Keeps codec v (nacked_data codec q id now (v.message id) v).1
        × Keeps codec v (handled_data codec q id now (v.message id) v).1
        × ((handled_data codec q id now (v.message id) v).1.processing ≡ zremove id v.processing)
  found-Keeps id now {v} s e =
      let (content, msg, m, u) = s.readable id (score-places id v e) in
      let again : Bool = leb (msg.retry_count + 1) msg.max_retries in
      let k = ended_as-Keeps again id now msg s e in
      rw (m, u) (k, k, ended_as-removes again id now msg v)

  nacked_at-Keeps :
      (id : Text) (now : ℕ) (o : Option ℕ) {v : View}
      → Sound codec v
      → score id v.processing ≡ o
      → Keeps codec v (nacked_at codec q id now o v).1
  nacked_at-Keeps id now none s e = Keeps-refl codec s
  nacked_at-Keeps id now (some t) s e = (found-Keeps id now s e).0

  -- Rejecting a message neither loses nor copies it.
  pub nacked-Keeps :
      (id : Text) (now : ℕ) {v : View} → Sound codec v → Keeps codec v (nacked codec q id now v).1
  unfolding nacked
  nacked-Keeps id now {v} s = nacked_at-Keeps id now (score id v.processing) s refl

  handled-Keeps :
      (id : Text) (now : ℕ) {v : View}
      → Sound codec v
      → 0 < zcount id v.processing
      → Keeps codec v (handled codec q id now v).1
        × ((handled codec q id now v).1.processing ≡ zremove id v.processing)
  unfolding handled
  handled-Keeps id now {v} s there = elim (Option-cases (score id v.processing)) [
    | inl e ↦ absurd (omega (arith, score-none id v.processing e))
    | inr (t, e) ↦ let (_, k, p) = found-Keeps id now s e in (k, p)
  ]

  handled_all-Keeps :
      (clock : ℕ → ℕ) (ids : List Text) {v : View}
      → Sound codec v
      → ((j : Text) → count j ids ≤ zcount j v.processing)
      → Keeps codec v (handled_all codec q clock ids v)
  unfolding handled_all
  handled_all-Keeps clock [] s h = Keeps-refl codec s
  handled_all-Keeps clock (id ∷ ids) {v} s h =
      let there : 0 < zcount id v.processing = count_head id ids v.processing (h id) in
      let (k, p) = handled-Keeps id (clock 0) s there in
      Keeps-trans codec k (
        handled_all-Keeps (λ i. clock (i + 1)) ids k.sound
          (λ j. rw p (count_rest j id ids v.processing (h j) there)))

  -- Nor does the handling of time-outs.
  pub timed_out-Keeps :
      (now : ℕ) (clock : ℕ → ℕ) {v : View}
      → Sound codec v
      → Keeps codec v (timed_out codec q now clock v)
  unfolding timed_out
  timed_out-Keeps now clock {v} s =
      handled_all-Keeps clock (up_to (unix now) v.processing) s
        (λ j. count-up_to-le j (unix now) v.processing)

module _ (codec : Codec Message) (q : Queue) (total : IsTotal codec) where
  places-requeued :
      (k id : Text) (v : View) {i : ℕ}
      → position id v.dead ≡ some i
      → places k (record v { pending = id ∷ v.pending; dead = remove id v.dead }) ≡ places k v
  unfolding places count
  places-requeued k id v e = ground (arith, count-remove k id v.dead, e)

  dead-places : (id : Text) (v : View) {i : ℕ} → position id v.dead ≡ some i → 0 < places id v
  unfolding places
  dead-places id v e = ground (arith, count-remove id id v.dead, e, one_self id)

  requeued_at-Keeps :
      (id : Text) (now : ℕ) (o : Option ℕ) {v : View}
      → Sound codec v
      → position id v.dead ≡ o
      → Keeps codec v (requeued_at codec q id now o v).1
  unfolding places
  requeued_at-Keeps id now none s e = Keeps-refl codec s
  requeued_at-Keeps id now (some i) {v} s e =
      let (content, msg, m, u) = s.readable id (dead-places id v e) in
      let fresh : Message = record msg { retry_count = 0; visible_time = now } in
      let (updated, written) = total fresh in
      let same = λ (k : Text). places-requeued k id v e in
      rw (m, u, written)
        (record {
          sound =
              Sound-put codec id fresh s written (λ k. omega (arith, same k, s.once k))
                (λ k _. omega (arith, same k)) (λ k. refl);
          kept = same;
        })

  -- A dead letter that is requeued is moved, not copied.
  pub requeued-Keeps :
      (id : Text) (now : ℕ) {v : View} → Sound codec v → Keeps codec v (requeued codec q id now v).1
  unfolding requeued
  requeued-Keeps id now {v} s = requeued_at-Keeps id now (position id v.dead) s refl

  acked-none : (id : Text) (v : View) → score id v.processing ≡ none → (acked codec q id v).1 ≡ v
  unfolding acked
  acked-none id v e = rw e

  message-acked :
      (id : Text) (v : View) {t : ℕ}
      → score id v.processing ≡ some t
      → (k : Text) → (acked codec q id v).1.message k ≡ put_at id none v.message k
  unfolding acked
  message-acked id v e k = rw e

  -- Acknowledging touches no other message.
  pub acked-Sound :
      (id : Text) {v : View}
      → Sound codec v
      → Sound codec (acked codec q id v).1
        × ((k : Text) → text_eq k id ≡ false → places k (acked codec q id v).1 ≡ places k v)
  acked-Sound id {v} s = elim (Option-cases (score id v.processing)) [
    | inl e ↦ rw (acked-none id v e) (s, λ k _. refl)
    | inr (t, e) ↦ (
      Sound-drop codec id s (λ k. places-acked codec q k id v t e) (score-places id v e)
          (message-acked id v e),
      λ k other. ground (arith, places-acked codec q k id v t e, other),
    )
  ]
