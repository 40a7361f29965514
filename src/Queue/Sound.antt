-- ===== src/Queue/Sound.antt =====
-- The invariant of the reliable queue: no message stands in two places, and every message that
-- stands in one has data that reads as a message.
pub mod Steps
pub mod Ends
pub mod Requests
pub mod Lost
use remix.Base.{
  ℕ, zero, suc, ◌+◌, ◌≤◌, ◌<◌, ◌≡◌, refl, sym, ◌∙◌, List, [], ◌∷◌, Option, none, some, Bool, true,
  false, ok, err, inl, inr, Bool-cases, Option-cases, Text, text_eq, text_eq_refl, text_eq_comm,
  text_eq→eq, count, leb, arith,
}
use remix.Redis.Value.{drop_last, last?, position, remove, score, zremove, zinsert, up_to}
use remix.Redis.Counts.{
  one_if, one_of, one_found, zcount, count-remove, zcount-zremove, count-up_to-le,
}
use remix.Queue.Types.{Message, Queue, Codec, unix}
use remix.Queue.View.{View, put_at}
use remix.Queue.Spec.{
  offered, moved, released, popped, popped_as, started, started_with, delivered, delivered_data,
  polled, acked, acked_at, ended, ended_as, retried, given_up, next_try, nacked, nacked_at,
  nacked_data, handled, handled_data, handled_all, timed_out, requeued, requeued_at, requeued_data,
  reset, reset_with,
}
use remix.Queue.Spec.Places.{
  places, places-offered, places-released, places-popped, places-started, places-acked,
  places-retried, places-given_up,
}

-- Every message can be written.
abbrev pub IsTotal : Codec Message → Type 0
IsTotal codec = (m : Message) → (s : Text) × (codec.marshal m ≡ some s)

abbrev pub Readable : Codec Message → Option Text → Type 0
Readable codec o =
    (content : Text) × (msg : Message) × (o ≡ some content) × (codec.unmarshal content ≡ some msg)

pub record Sound (codec : Codec Message) (v : View) : Type 0 where
  pub once : (k : Text) → places k v ≤ 1
  pub readable : (k : Text) → 0 < places k v → Readable codec (v.message k)

-- The invariant holds again, and no message has left or gained a place.
pub record Keeps (codec : Codec Message) (v w : View) : Type 0 where
  pub sound : Sound codec w
  pub kept : (k : Text) → places k w ≡ places k v

module _ (codec : Codec Message) where
  pub Keeps-refl : {v : View} → Sound codec v → Keeps codec v v
  Keeps-refl s = record { sound = s; kept = λ k. refl }

  pub Keeps-trans : {u v w : View} → Keeps codec u v → Keeps codec v w → Keeps codec u w
  Keeps-trans a b = record { sound = b.sound; kept = λ k. b.kept k ∙ a.kept k }

  -- The data is as before.
  pub Sound-same :
      {v w : View}
      → Sound codec v
      → ((k : Text) → places k w ≤ places k v)
      → ((k : Text) → w.message k ≡ v.message k)
      → Sound codec w
  Sound-same s p m = record {
    once = λ k. omega (arith, p k, s.once k);
    readable = λ k h. rw (m k) (s.readable k (omega (arith, p k)));
  }

  -- One message has new data that was written.
  pub Sound-put :
      {v w : View} (id : Text) (msg : Message) {content : Text}
      → Sound codec v
      → codec.marshal msg ≡ some content
      → ((k : Text) → places k w ≤ 1)
      → ((k : Text) → text_eq id k ≡ false → places k w ≤ places k v)
      → ((k : Text) → w.message k ≡ put_at id (some content) v.message k)
      → Sound codec w
  Sound-put id msg {content} s e o p m = record {
    once = o;
    readable = λ k h. rw (m k) (elim (Bool-cases (text_eq id k)) [
      | inl same ↦ rw same (content, msg, refl, codec.round_trip msg content e)
      | inr other ↦ rw other (s.readable k (omega (arith, p k other)))
    ]);
  }

  -- One message is gone.
  pub Sound-drop :
      {v w : View} (id : Text)
      → Sound codec v
      → ((k : Text) → places k w + one_if k id ≡ places k v)
      → 0 < places id v
      → ((k : Text) → w.message k ≡ put_at id none v.message k)
      → Sound codec w
  Sound-drop {v} {w} id s p there m = record {
    once = λ k. omega (arith, p k, s.once k);
    readable = λ k h. rw (m k) (elim (Bool-cases (text_eq id k)) [
      | inl same ↦ absurd (ground (arith, p k, s.once k, text_eq_comm id k))
      | inr other ↦ rw other (s.readable k (omega (arith, p k)))
    ]);
  }

  message-moved : (ids : List Text) (v : View) → (moved ids v).message ≡ v.message
  unfolding moved
  message-moved [] v = refl
  message-moved (id ∷ ids) v = message-moved ids _

  pub released-Keeps : (now : ℕ) {v : View} → Sound codec v → Keeps codec v (released now v)
  unfolding released
  released-Keeps now {v} s = record {
    sound =
        Sound-same s (λ k. omega (arith, places-released k now v)) (λ k. rw (message-moved _ v));
    kept = λ k. places-released k now v;
  }
