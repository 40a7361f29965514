-- ===== src/Queue/Ops/Finish.antt =====
-- Acknowledging and refusing messages, sizes and clearing (reliablequeue/queue.go).
use remix.Base.{
  ℕ, ◌+◌, Bool, true, false, List, [], ◌∷◌, Option, none, some, Result, ok, err, Action, pure, fail,
  ◌>>=◌, ◌>>◌, attempt, wrap, Text, leb, if◌then◌else◌,
}
use remix.Redis.Command.{Command, get, set, del, hincrby, lpush, llen, zrem, zscore, zcard}
use remix.Redis.Server.{Redis}
use remix.Redis.Client.{Fault, redis_nil, Env, call, query, text_of, int_of, transaction}
use remix.Queue.Types.{
  Message, Queue, Doing, getting_data, acking, checking, nacking, Error, plain, failed,
  marshal_failed, not_in_processing, Codec,
}
use remix.Queue.Keys.{
  queue_key, processing_key, dead_letter_key, delayed_key, stats_key, message_key, total_failed,
}
use remix.Queue.Scripts.{ack_script}
use remix.Queue.Ops.Delivery.{or_fail, decode}

module _ (r : Redis) (codec : Codec Message) (q : Queue) where
  open r use {Db, run}

  abbrev Op : Type 0 → Type 0
  Op A = Action (Env Db) Error A

  -- The script's answer 'OK' or 'NOT_FOUND'.
  unfoldable pub ack_answer : Bool → Op (Unit {0})
  ack_answer true = pure tt
  ack_answer false = fail not_in_processing

  unfoldable pub ack : Text → Op (Unit {0})
  unfolding ack_answer
  ack id = do
    found ←
        wrap (failed acking)
          (call (ack_script r (message_key q.name id) (processing_key q.name) (stats_key q.name)))
    ack_answer found

  -- The commands that end a failed attempt: another round, the dead letters, or the end.
  unfoldable pub retry_commands : Text → Message → ℕ → Option (List Command)
  retry_commands key msg now =
      if leb msg.retry_count msg.max_retries
      then elim (codec.marshal (record msg { visible_time = now + q.retry_delay })) [
        | none ↦ none
        | some updated ↦
            some (
              zrem (processing_key q.name) key
              ∷ set key updated
              ∷ lpush (queue_key q.name) key
              ∷ [])
      ]
      else if q.enable_dead_letter
      then some (
          zrem (processing_key q.name) key
          ∷ lpush (dead_letter_key q.name) key
          ∷ hincrby (stats_key q.name) total_failed 1
          ∷ [])
      else some (
          zrem (processing_key q.name) key
          ∷ del key
          ∷ hincrby (stats_key q.name) total_failed 1
          ∷ [])

  -- The common end of `Nack` and `handleTimeoutMessage`.
  unfoldable pub end_attempt : Doing → Text → ℕ → Message → Op (Unit {0})
  unfolding retry_commands
  end_attempt doing key now msg = do
    commands ←
        or_fail marshal_failed
          (retry_commands key (record msg { retry_count = msg.retry_count + 1 }) now)
    wrap (failed doing) (call (transaction r commands))

  unfoldable pub end_read : Doing → Text → ℕ → Text → Op (Unit {0})
  unfolding decode end_attempt
  end_read doing key now content = do msg ← decode r codec q content; end_attempt doing key now msg

  unfoldable pub in_processing : Result Fault ℕ → Op (Unit {0})
  in_processing (ok n) = pure tt
  in_processing (err redis_nil) = fail not_in_processing
  in_processing (err f) = fail (failed checking f)

  unfoldable pub nack_read : Text → ℕ → Op (Unit {0})
  unfolding end_read
  nack_read id now = do
    content ← wrap (failed getting_data) (query r (get (message_key q.name id)) text_of)
    end_read nacking (message_key q.name id) now content

  unfoldable pub nack_checked : Text → ℕ → Result Fault ℕ → Op (Unit {0})
  unfolding in_processing nack_read
  nack_checked id now score = do in_processing score; nack_read id now

  unfoldable pub nack : Text → ℕ → Op (Unit {0})
  unfolding nack_checked
  nack id now = do
    score ← attempt (query r (zscore (processing_key q.name) (message_key q.name id)) int_of)
    nack_checked id now score

  unfoldable pub size : Op ℕ
  size = wrap plain (query r (llen (queue_key q.name)) int_of)

  unfoldable pub processing_size : Op ℕ
  processing_size = wrap plain (query r (zcard (processing_key q.name)) int_of)

  unfoldable pub dead_letter_size : Op ℕ
  dead_letter_size = wrap plain (query r (llen (dead_letter_key q.name)) int_of)

  unfoldable pub clear : Op (Unit {0})
  clear = wrap plain (
      call (
        transaction r (
          del (queue_key q.name)
          ∷ del (processing_key q.name)
          ∷ del (dead_letter_key q.name)
          ∷ del (delayed_key q.name)
          ∷ [])))

  unfoldable pub delete : Op (Unit {0})
  unfolding clear
  delete = clear
