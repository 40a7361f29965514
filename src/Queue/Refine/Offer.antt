-- ===== src/Queue/Refine/Offer.antt =====
-- `OfferWithDelay` against the specification.
use remix.Base.{
  ℕ, ◌+◌, ◌≡◌, refl, ok, err, inl, inr, none, some, Bool-cases, Gives, after-Gives, wrap-Gives,
  Text, leb,
}
use remix.Redis.Server.{Redis}
use remix.Redis.Client.{Env}
use remix.Queue.Types.{Message, Queue, Codec, unix, failed, offering, marshal_failed}
use remix.Queue.Keys.{message_key, stats_key, queue_key, delayed_key}
use remix.Queue.View.{View, Holds}
use remix.Queue.View.Commands
use remix.Queue.Scripts.{offer_script}
use remix.Queue.Ops.{new_message, offer_with_delay}
use remix.Queue.Spec.{offered}
use remix.Queue.Refine.Online.{Online, redis_call-Gives, call-Gives}

module _ (r : Redis) (codec : Codec Message) (q : Queue) where
  offer_script-Gives :
      (id content : Text) (visible_time current_time : ℕ) {v : View} (d : r.Db)
      → Holds r q.name d v
      → Gives
          (offer_script r
            (message_key q.name id)
            (stats_key q.name)
            (queue_key q.name)
            (delayed_key q.name)
            content
            visible_time
            current_time
            d)
          (ok tt)
          (λ d'. Holds r q.name d' (offered id content visible_time current_time v))
  unfolding offer_script offered
  offer_script-Gives id content visible_time current_time d h =
      after-Gives _ _ (redis_call-Gives r q.name (Commands.set-message r q.name h id content))
        λ d h.
          after-Gives _ _ (redis_call-Gives r q.name (Commands.hincrby-stats r q.name h _ 1)) λ d h.
            elim (Bool-cases (leb visible_time current_time)) [
              | inl p ↦ rw p (
                  after-Gives _ _ (redis_call-Gives r q.name (Commands.lpush-pending r q.name h id))
                    λ d h. record { returns = refl; leaves = h })
              | inr p ↦ rw p (
                  after-Gives _ _
                    (redis_call-Gives r q.name (Commands.zadd-delayed r q.name h visible_time id))
                    λ d h. record { returns = refl; leaves = h })
            ]

  -- With every call answered and a message that can be written, an offer succeeds and leaves the
  -- queue of the specification: the data is stored, the message is delayed where its time lies
  -- ahead in whole seconds and pending otherwise, and the counter of offered messages has grown.
  pub offer_with_delay-offered :
      (id message : Text) (now delay : ℕ) {content : Text} {v : View} (e : Env r.Db)
      → Online r q.name v e
      → codec.marshal (new_message codec q id message now delay) ≡ some content
      → Gives
          (offer_with_delay r codec q id now message delay e)
          (ok tt)
          (Online r q.name (offered id content (unix (now + delay)) (unix now) v))
  unfolding offer_with_delay
  offer_with_delay-offered id message now delay {content} e o m = rw m (
      wrap-Gives (failed offering) _
        (call-Gives r q.name _ e o.net (offer_script-Gives id content _ _ e.db o.holds)))

  -- A message that cannot be written is not offered.
  pub offer_with_delay_unmarshalled :
      (id message : Text) (now delay : ℕ) {v : View} (e : Env r.Db)
      → Online r q.name v e
      → codec.marshal (new_message codec q id message now delay) ≡ none
      → Gives
          (offer_with_delay r codec q id now message delay e)
          (err marshal_failed)
          (Online r q.name v)
  unfolding offer_with_delay
  offer_with_delay_unmarshalled id message now delay e o m =
      rw m (record { returns = refl; leaves = o })
