-- ===== src/Queue/Sound/Requests.antt =====
-- Histories of calls on one queue, by any number of clients that share it one call at a time, and
-- what holds after every history.
use remix.Base.{
  ℕ, ◌+◌, ◌≡◌, refl, ◌∙◌, List, [], ◌∷◌, Option, none, some, true, false, Text, text_eq,
  text_eq_iff, arith,
}
use remix.Redis.Counts.{one_if}
use remix.Redis.Server.{Redis}
use remix.Redis.Client.{Env}
use remix.Queue.Types.{Message, Queue, Codec, unix}
use remix.Queue.View.{View}
use remix.Queue.Ops.{
  new_message, offer_with_delay, poll, ack, nack, cleanup_tick, requeue_dead_letter,
}
use remix.Queue.Spec.{offered, released, polled, acked, nacked, timed_out, requeued}
use remix.Queue.Spec.Places.{places, places-offered}
use remix.Queue.Refine.Online.{Online}
use remix.Queue.Refine.Offer.{offer_with_delay-offered, offer_with_delay_unmarshalled}
use remix.Queue.Refine.Poll.{poll_with_timeout-polled}
use remix.Queue.Refine.Finish.{ack-acked, nack-nacked}
use remix.Queue.Refine.Timeouts.{cleanup_tick-released}
use remix.Queue.Refine.DeadLetters.{requeue_dead_letter-requeued}
use remix.Queue.Sound.{IsTotal, Sound, Keeps-trans, released-Keeps}
use remix.Queue.Sound.Steps.{offered-Sound, polled-Keeps, zcount-delayed-places}
use remix.Queue.Sound.Ends.{nacked-Keeps, timed_out-Keeps, requeued-Keeps, acked-Sound}

-- A call, with the clock readings that it makes.
pub data Request : Type 0 where
  offers : Text → Text → ℕ → ℕ → Request
  polls : ℕ → ℕ → Request
  acks : Text → Request
  nacks : Text → ℕ → Request
  cleans : ℕ → (ℕ → ℕ) → ℕ → Request
  requeues : Text → ℕ → Request

-- A UUID is new: the identifier of an offer stands nowhere.
abbrev pub IsFresh : Request → View → Type 0
IsFresh (offers id message now delay) v = places id v ≡ 0
IsFresh _ v = Unit {0}

abbrev pub IsNotAck : Text → Request → Type 0
IsNotAck k (acks id) = text_eq k id ≡ false
IsNotAck k _ = Unit {0}

module _ (codec : Codec Message) (q : Queue) where
  abbrev pub offered_as : Text → ℕ → ℕ → Option Text → View → View
  offered_as id now delay none v = v
  offered_as id now delay (some content) v = offered id content (unix (now + delay)) (unix now) v

  -- The queue after an answered call.
  unfoldable pub performed : Request → View → View
  performed (offers id message now delay) v =
      offered_as id now delay (codec.marshal (new_message codec q id message now delay)) v
  performed (polls now now') v = (polled codec q false (λ w. w) now now' v).1
  performed (acks id) v = (acked codec q id v).1
  performed (nacks id now) v = (nacked codec q id now v).1
  performed (cleans now clock now') v = released (unix now') (timed_out codec q now clock v)
  performed (requeues id now) v = (requeued codec q id now v).1

  unfoldable pub performed_all : List Request → View → View
  performed_all [] v = v
  performed_all (c ∷ cs) v = performed_all cs (performed c v)

  abbrev pub AllFresh : List Request → View → Type 0
  AllFresh [] v = Unit {0}
  AllFresh (c ∷ cs) v = IsFresh c v × AllFresh cs (performed c v)

abbrev pub NoAck : Text → List Request → Type 0
NoAck k [] = Unit {0}
NoAck k (c ∷ cs) = IsNotAck k c × NoAck k cs

module _ (codec : Codec Message) (q : Queue) (total : IsTotal codec)
    (letters : q.enable_dead_letter ≡ true) where
  offers-Sound :
      (id message : Text) (now delay : ℕ) {v : View}
      → Sound codec v
      → places id v ≡ 0
      → Sound codec (performed codec q (offers id message now delay) v)
        × ((k : Text)
            → places k (performed codec q (offers id message now delay) v)
              ≡ places k v + one_if k id)
  unfolding performed
  offers-Sound id message now delay {v} s new =
      let msg : Message = new_message codec q id message now delay in
      let (content, written) = total msg in
      rw written (
        offered-Sound codec q total id msg (unix (now + delay)) (unix now) s written new,
        λ k.
            places-offered k id content (unix (now + delay)) (unix now) v
              (omega (arith, new, zcount-delayed-places id v)),
      )

  -- Every call keeps the invariant, and only an acknowledgement takes a message away.
  performed-Sound :
      (c : Request) {v : View}
      → Sound codec v
      → IsFresh c v
      → Sound codec (performed codec q c v)
        × ((k : Text) → places k v ≡ 1 → IsNotAck k c → places k (performed codec q c v) ≡ 1)
  unfolding performed
  performed-Sound (offers id message now delay) {v} s new =
      let (sound, p) = offers-Sound id message now delay s new in
      (sound, λ k one _. ground (arith, p k, text_eq_iff k id, sound.once k))
  performed-Sound (polls now now') s new =
      let k = polled-Keeps codec q total now now' s in (k.sound, λ j one _. k.kept j ∙ one)
  performed-Sound (acks id) s new =
      let (sound, p) = acked-Sound codec q total id s in (sound, λ j one other. p j other ∙ one)
  performed-Sound (nacks id now) s new =
      let k = nacked-Keeps codec q total letters id now s in (k.sound, λ j one _. k.kept j ∙ one)
  performed-Sound (cleans now clock now') s new =
      let a = timed_out-Keeps codec q total letters now clock s in
      let k = Keeps-trans codec a (released-Keeps codec (unix now') a.sound) in
      (k.sound, λ j one _. k.kept j ∙ one)
  performed-Sound (requeues id now) s new =
      let k = requeued-Keeps codec q total id now s in (k.sound, λ j one _. k.kept j ∙ one)

  performed_all-Sound :
      (cs : List Request) {v : View}
      → Sound codec v
      → AllFresh codec q cs v
      → Sound codec (performed_all codec q cs v)
        × ((k : Text) → places k v ≡ 1 → NoAck k cs → places k (performed_all codec q cs v) ≡ 1)
  unfolding performed_all
  performed_all-Sound [] s new = (s, λ k one _. one)
  performed_all-Sound (c ∷ cs) s new =
      let (sound, p) = performed-Sound c s new.0 in
      let (sound', p') = performed_all-Sound cs sound new.1 in
      (sound', λ k one n. p' k (p k one n.0) n.1)

module _ (r : Redis) (codec : Codec Message) (q : Queue) where
  -- The server and the network after a call of the program.
  unfoldable pub perform : Request → Env r.Db → Env r.Db
  perform (offers id message now delay) e = (offer_with_delay r codec q id now message delay e).1
  perform (polls now now') e = (poll r codec q now now' e).1
  perform (acks id) e = (ack r codec q id e).1
  perform (nacks id now) e = (nack r codec q id now e).1
  perform (cleans now clock now') e = (cleanup_tick r codec q now clock now' e).1
  perform (requeues id now) e = (requeue_dead_letter r codec q id now e).1

  unfoldable pub perform_all : List Request → Env r.Db → Env r.Db
  perform_all [] e = e
  perform_all (c ∷ cs) e = perform_all cs (perform c e)

  offers-Online :
      (id message : Text) (now delay : ℕ) (o : Option Text) {v : View} (e : Env r.Db)
      → codec.marshal (new_message codec q id message now delay) ≡ o
      → Online r q.name v e
      → Online r q.name
          (offered_as codec q id now delay o v)
          (offer_with_delay r codec q id now message delay e).1
  offers-Online id message now delay none e m o =
      (offer_with_delay_unmarshalled r codec q id message now delay e o m).leaves
  offers-Online id message now delay (some content) e m o =
      (offer_with_delay-offered r codec q id message now delay e o m).leaves

  perform-Online :
      (c : Request) {v : View} (e : Env r.Db)
      → Online r q.name v e
      → Online r q.name (performed codec q c v) (perform c e)
  unfolding perform performed poll
  perform-Online (offers id message now delay) e o = offers-Online id message now delay _ e refl o
  perform-Online (polls now now') e o =
      (poll_with_timeout-polled r codec q (λ d. d) (λ w. w) (λ d w h. h) 0 now now' e o).leaves
  perform-Online (acks id) e o = (ack-acked r codec q id e o).leaves
  perform-Online (nacks id now) e o = (nack-nacked r codec q id now e o).leaves
  perform-Online (cleans now clock now') e o =
      (cleanup_tick-released r codec q now clock now' e o).leaves
  perform-Online (requeues id now) e o = (requeue_dead_letter-requeued r codec q id now e o).leaves

  pub perform_all-Online :
      (cs : List Request) {v : View} (e : Env r.Db)
      → Online r q.name v e
      → Online r q.name (performed_all codec q cs v) (perform_all cs e)
  unfolding perform_all performed_all
  perform_all-Online [] e o = o
  perform_all-Online (c ∷ cs) e o = perform_all-Online cs (perform c e) (perform-Online c e o)

  -- Over any history of answered requests as above, from a sound queue: the server shows what the
  -- specification of the requests says, no message stands in two places, and the data of every
  -- message that stands in a place is stored and can be read under its identifier.
  pub perform_all-Sound :
      IsTotal codec
      → q.enable_dead_letter ≡ true
      → (cs : List Request) {v : View} (e : Env r.Db) → Online r q.name v e
      → Sound codec v
      → AllFresh codec q cs v
      → Online r q.name (performed_all codec q cs v) (perform_all cs e)
        × Sound codec (performed_all codec q cs v)
  perform_all-Sound total letters cs e o s new =
      (perform_all-Online cs e o, (performed_all-Sound codec q total letters cs s new).0)

  -- Over any history of answered offers with new identifiers, polls, acknowledgements, refusals,
  -- ticks of the clean-up task and requeueings of dead letters, where every message can be
  -- written, dead letters are enabled and the queue is sound at the start: a message that stands
  -- in one place (pending, delayed, processing or dead) and is not acknowledged in the history
  -- stands in exactly one place of the queue that the server shows afterwards.
  pub history_keeps_messages :
      IsTotal codec
      → q.enable_dead_letter ≡ true
      → (cs : List Request) {v : View} (e : Env r.Db) (k : Text) → Online r q.name v e
      → Sound codec v
      → AllFresh codec q cs v
      → places k v ≡ 1
      → NoAck k cs
      → Online r q.name (performed_all codec q cs v) (perform_all cs e)
        × (places k (performed_all codec q cs v) ≡ 1)
  history_keeps_messages total letters cs e k o s new p kept =
      (perform_all-Online cs e o, (performed_all-Sound codec q total letters cs s new).1 k p kept)
