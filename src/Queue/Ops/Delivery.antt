-- ===== src/Queue/Ops/Delivery.antt =====
-- Offering and polling messages (reliablequeue/queue.go).
use remix.Base.{
  ℕ, ◌+◌, Bool, true, false, Option, none, some, Result, ok, err, Action, pure, fail, ◌>>=◌, ◌>>◌,
  attempt, wrap, Text, ltb,
}
use remix.Redis.Command.{get, rpop}
use remix.Redis.Server.{Redis}
use remix.Redis.Client.{Fault, redis_nil, Env, call, query, text_of}
use remix.Queue.Types.{
  Message, Queue, unix, offering, moving_delayed, polling, getting_data, moving_to_processing,
  Error, plain, failed, marshal_failed, unmarshal_failed, Codec,
}
use remix.Queue.Keys.{queue_key, processing_key, delayed_key, stats_key, message_key}
use remix.Queue.Scripts.{offer_script, poll_script, move_delayed_script}

abbrev pub or_fail : {S A : Type 0} → Error → Option A → Action S Error A
or_fail e none = fail e
or_fail e (some a) = pure a

module _ (codec : Codec Message) (q : Queue) where
  unfoldable pub new_message : Text → Text → ℕ → ℕ → Message
  new_message id message now delay = record {
    id = id;
    body = message;
    enqueue_time = now;
    visible_time = now + delay;
    dequeue_time = 0;
    retry_count = 0;
    max_retries = q.max_retries;
  }

module _ (r : Redis) (codec : Codec Message) (q : Queue) where
  open r use {Db, run}

  abbrev pub Op : Type 0 → Type 0
  Op A = Action (Env Db) Error A

  unfoldable pub decode : Text → Op Message
  decode content = or_fail unmarshal_failed (codec.unmarshal content)

  unfoldable pub offer_with_delay : Text → ℕ → Text → ℕ → Op (Unit {0})
  unfolding new_message
  offer_with_delay id now message delay = do
    content ← or_fail marshal_failed (codec.marshal (new_message codec q id message now delay))
    wrap (failed offering) (
        call (
          offer_script r (message_key q.name id) (stats_key q.name) (queue_key q.name)
            (delayed_key q.name) content (unix (now + delay)) (unix now)))

  unfoldable pub offer : Text → ℕ → Text → Op (Unit {0})
  unfolding offer_with_delay
  offer id now message = offer_with_delay id now message 0

  unfoldable pub move_delayed_messages : ℕ → Action (Env Db) Fault (Unit {0})
  move_delayed_messages now =
      call (move_delayed_script r (delayed_key q.name) (queue_key q.name) (unix now))

  abbrev pub pop : Action Db Fault Text
  pop d = (text_of (run (rpop (queue_key q.name)) d).0, (run (rpop (queue_key q.name)) d).1)

  -- BRPOP on an empty list waits, and pops what others have pushed meanwhile.
  unfoldable pub retry_pop : (Db → Db) → Result Fault Text × Db → Result Fault Text × Db
  retry_pop others (err redis_nil, d) = pop (others d)
  retry_pop others (ok s, d) = (ok s, d)
  retry_pop others (err f, d) = (err f, d)

  unfoldable pub pop_once : Bool → (Db → Db) → Action Db Fault Text
  unfolding retry_pop
  pop_once true others d = retry_pop others (pop d)
  pop_once false others d = pop d

  unfoldable pub pop_message : ℕ → (Db → Db) → Action (Env Db) Fault Text
  unfolding pop_once
  pop_message timeout others = call (pop_once (ltb 0 timeout) others)

  -- From the message's data to its place in the processing queue.
  unfoldable pub start_processing : Text → ℕ → Text → Op (Option Message)
  unfolding decode
  start_processing key now content = do
    msg ← decode content
    updated ← or_fail marshal_failed (codec.marshal (record msg { dequeue_time = now }))
    wrap (failed moving_to_processing) (
        call
          (poll_script r key (processing_key q.name) updated (unix (now + q.visibility_timeout))))
    pure (some (record msg { dequeue_time = now }))

  unfoldable pub with_data : Text → ℕ → Result Fault Text → Op (Option Message)
  unfolding start_processing
  with_data key now (ok content) = start_processing key now content
  with_data key now (err redis_nil) = pure none
  with_data key now (err f) = fail (failed getting_data f)

  unfoldable pub with_key : Bool → ℕ → Result Fault Text → Op (Option Message)
  unfolding with_data
  with_key blocking now (ok key) = do
    content ← attempt (query r (get key) text_of)
    with_data key now content
  with_key blocking now (err redis_nil) = pure none
  with_key true now (err f) = fail (failed polling f)
  with_key false now (err f) = fail (plain f)

  unfoldable pub poll_with_timeout : ℕ → (Db → Db) → ℕ → ℕ → Op (Option Message)
  unfolding move_delayed_messages pop_message with_key
  poll_with_timeout timeout others now now' = do
    wrap (failed moving_delayed) (move_delayed_messages now)
    key ← attempt (pop_message timeout others)
    with_key (ltb 0 timeout) now' key

  unfoldable pub poll : ℕ → ℕ → Op (Option Message)
  unfolding poll_with_timeout
  poll now now' = poll_with_timeout 0 (λ d. d) now now'
