-- ===== src/Queue/Sound/Steps.antt =====
-- The invariant through offers, releases and polls of the specification.
use remix.Base.{
  ℕ, ◌+◌, ◌≤◌, ◌<◌, ◌≡◌, refl, Option, none, some, false, inl, inr, Bool-cases, Text, text_eq,
  text_eq_refl, text_eq_comm, text_eq→eq, arith,
}
use remix.Redis.Value.{drop_last, last?, score}
use remix.Redis.Counts.{one_if, zcount, zcount-zremove}
use remix.Queue.Types.{Message, Queue, Codec, unix}
use remix.Queue.View.{View, put_at}
use remix.Queue.Spec.{offered, released, popped_as, started_with, delivered, polled}
use remix.Queue.Spec.Places.{places, places-offered, places-popped, places-started}
use remix.Queue.Sound.{IsTotal, Sound, Keeps, Keeps-refl, Keeps-trans, Sound-put, released-Keeps}

-- A member that is found counts.
pub score-places : (id : Text) (v : View) {t : ℕ} → score id v.processing ≡ some t → 0 < places id v
unfolding places
score-places id v h = ground (arith, zcount-zremove id id v.processing, h, text_eq_refl id)

zcount-places : (id : Text) (v : View) → zcount id v.processing ≤ places id v
unfolding places
zcount-places id v = omega arith

pub zcount-delayed-places : (id : Text) (v : View) → zcount id v.delayed ≤ places id v
unfolding places
zcount-delayed-places id v = omega arith

pub popped_one :
    (k id : Text) (v : View)
    → last? v.pending ≡ some id
    → places k (record v { pending = drop_last v.pending }) + one_if k id ≡ places k v
popped_one k id v e = rw e at (places-popped k v)

pub one_self : (id : Text) → one_if id id ≡ 1
one_self id = rw (text_eq_refl id)

message-offered :
    (id content : Text) (visible now : ℕ) (v : View) (k : Text)
    → (offered id content visible now v).message k ≡ put_at id (some content) v.message k
unfolding offered
message-offered id content visible now v k = ground arith

module _ (codec : Codec Message) (q : Queue) (total : IsTotal codec) where
  pub offered-Sound :
      (id : Text) (msg : Message) {content : Text} (visible now : ℕ) {v : View}
      → Sound codec v
      → codec.marshal msg ≡ some content
      → places id v ≡ 0
      → Sound codec (offered id content visible now v)
  offered-Sound id msg {content} visible now {v} s e new =
      let p = λ (k : Text).
        places-offered k id content visible now v
          (omega (arith, new, zcount-delayed-places id v)) in
      Sound-put codec id msg s e
        (λ k. elim (Bool-cases (text_eq k id)) [
          | inl same ↦ ground (arith, p k, text_eq→eq k id same, new)
          | inr other ↦ ground (arith, p k, s.once k)
        ])
        (λ k other. ground (arith, p k, text_eq_comm k id))
        (λ k. message-offered id content visible now v k)

  started-Keeps :
      (id : Text) (now : ℕ) (msg : Message) {updated : Text} {v : View}
      → Sound codec v
      → last? v.pending ≡ some id
      → codec.marshal msg ≡ some updated
      → Keeps codec v
          (started_with codec q id now msg
            (some updated)
            (record v { pending = drop_last v.pending })).1
  started-Keeps id now msg {updated} {v} s e m =
      let w : View = record v { pending = drop_last v.pending } in
      let gone : places id w ≡ 0 = omega (arith, popped_one id id v e, s.once id, one_self id) in
      let same = λ (k : Text).
        started_same k id now msg updated v e (omega (arith, gone, zcount-places id w)) in
      record {
        sound =
            Sound-put codec id msg s m (λ k. omega (arith, same k, s.once k))
              (λ k _. omega (arith, same k)) (λ k. refl);
        kept = same;
      }
    where
      started_same :
          (k id : Text) (now : ℕ) (msg : Message) (updated : Text) (v : View)
          → last? v.pending ≡ some id
          → zcount id v.processing ≡ 0
          → places k
              (started_with codec q id now msg
                (some updated)
                (record v { pending = drop_last v.pending })).1
            ≡ places k v
      started_same k id now msg updated v e none_there = omega (
        arith,
        popped_one k id v e,
        places-started codec q k id now msg updated (record v { pending = drop_last v.pending })
            none_there,
      )

  delivered-Keeps :
      (now : ℕ) (o : Option Text) {v : View}
      → Sound codec v
      → last? v.pending ≡ o
      → Keeps codec v (delivered codec q now (popped_as false v v o)).1
  delivered-Keeps now none s e = Keeps-refl codec s
  delivered-Keeps now (some id) {v} s e =
      let (content, msg, m, u) = s.readable id (omega (arith, popped_one id id v e, one_self id)) in
      let (updated, written) = total (record msg { dequeue_time = now }) in
      rw (m, u, written) (started-Keeps id now _ s e written)

  -- A poll moves at most one message, and loses none.
  pub polled-Keeps :
      (now now' : ℕ) {v : View}
      → Sound codec v
      → Keeps codec v (polled codec q false (λ w. w) now now' v).1
  unfolding polled
  polled-Keeps now now' {v} s =
      let k = released-Keeps codec (unix now) s in
      Keeps-trans codec k
        (delivered-Keeps now' (last? (released (unix now) v).pending) k.sound refl)
