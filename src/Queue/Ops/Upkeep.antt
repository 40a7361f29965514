-- ===== src/Queue/Ops/Upkeep.antt =====
-- Dead letters, the clean-up task and the statistics (reliablequeue/queue.go).
use remix.Base.{
  ℕ, zero, suc, ◌+◌, Bool, true, false, List, [], ◌∷◌, ◌++◌, map, Option, none, some, Result, ok,
  err, Action, pure, fail, ◌>>=◌, ◌>>◌, attempt, wrap, Text,
}
use remix.Redis.Command.{
  Stop, index, last, Command, Reply, get, set, del, hmget, llen, lrange, zrem, zcard, zrangebyscore,
}
use remix.Redis.Server.{Redis}
use remix.Redis.Client.{
  Fault, redis_nil, Env, call, query, text_of, int_of, texts_of, ints_of, transaction,
}
use remix.Queue.Types.{
  Message, Queue, QueueStats, unix, getting_data, getting_dead_keys, getting_timeouts,
  handling_timeout, requeueing, getting_stats, Error, plain, failed, marshal_failed,
  not_in_dead_letter, Codec,
}
use remix.Queue.Keys.{
  queue_key, processing_key, dead_letter_key, stats_key, message_key, total_enqueued,
  total_processed, total_failed,
}
use remix.Queue.Scripts.{requeue_script}
use remix.Queue.Ops.Delivery.{or_fail, decode, move_delayed_messages}
use remix.Queue.Ops.Finish.{end_read}

-- The value of an optional field of the statistics, 0 where it is missing.
abbrev pub counter : Option ℕ → ℕ
counter none = 0
counter (some n) = n

-- LRANGE's last index for `limit-1`.
abbrev pub stop_of : ℕ → Stop
stop_of zero = last
stop_of (suc n) = index n

module _ (r : Redis) (codec : Codec Message) (q : Queue) where
  open r use {Db, run}

  abbrev Op : Type 0 → Type 0
  Op A = Action (Env Db) Error A

  -- The loop of `GetDeadLetters`: a key without data, or with data that is no message, is skipped.
  unfoldable pub collected : Result Fault Text → Op (List Message)
  collected (ok content) = elim (codec.unmarshal content) [
    | none ↦ pure []
    | some msg ↦ pure (msg ∷ [])
  ]
  collected (err redis_nil) = pure []
  collected (err f) = fail (failed getting_data f)

  unfoldable pub collect : List Text → Op (List Message)
  unfolding collected
  collect [] = pure []
  collect (key ∷ keys) = do
    content ← attempt (query r (get key) text_of)
    msgs ← collected content
    rest ← collect keys
    pure (msgs ++ rest)

  unfoldable pub get_dead_letters : ℕ → Op (List Message)
  unfolding collect
  get_dead_letters limit = do
    keys ←
        wrap (failed getting_dead_keys)
          (query r (lrange (dead_letter_key q.name) (stop_of limit)) texts_of)
    collect keys

  unfoldable pub handle_data : Text → ℕ → Result Fault Text → Op (Unit {0})
  unfolding end_read
  handle_data key now (ok content) = end_read r codec q handling_timeout key now content
  handle_data key now (err redis_nil) = do
    attempt {F = Error} (query r (zrem (processing_key q.name) key) int_of)
    pure tt
  handle_data key now (err f) = fail (failed getting_data f)

  unfoldable pub handle_timeout_message : Text → ℕ → Op (Unit {0})
  unfolding handle_data
  handle_timeout_message key now = do
    content ← attempt (query r (get key) text_of)
    handle_data key now content

  -- The loop of `processTimeoutMessages`; an error is printed, and the loop goes on. The clock is
  -- read anew for each message.
  unfoldable pub handle_all : (ℕ → ℕ) → List Text → Op (Unit {0})
  unfolding handle_timeout_message
  handle_all clock [] = pure tt
  handle_all clock (key ∷ keys) = do
    attempt {F = Error} (handle_timeout_message key (clock 0))
    handle_all (λ i. clock (i + 1)) keys

  unfoldable pub process_timeout_messages : ℕ → (ℕ → ℕ) → Op (Unit {0})
  unfolding handle_all
  process_timeout_messages now clock = do
    keys ←
        wrap (failed getting_timeouts)
          (query r (zrangebyscore (processing_key q.name) (unix now)) texts_of)
    handle_all clock keys

  -- One tick of `cleanupTask`, which drops both errors.
  unfoldable pub cleanup_tick : ℕ → (ℕ → ℕ) → ℕ → Op (Unit {0})
  unfolding process_timeout_messages move_delayed_messages
  cleanup_tick now clock now' = do
    attempt {F = Error} (process_timeout_messages now clock)
    attempt {F = Error} (move_delayed_messages r codec q now')
    pure tt

  unfoldable pub requeue_answer : Bool → Op (Unit {0})
  requeue_answer true = pure tt
  requeue_answer false = fail not_in_dead_letter

  unfoldable pub reset_message : Text → ℕ → Message → Op (Unit {0})
  reset_message id now msg = do
    updated ←
        or_fail marshal_failed (codec.marshal (record msg { retry_count = 0; visible_time = now }))
    wrap plain (call (transaction r (set (message_key q.name id) updated ∷ [])))

  unfoldable pub reset_read : Text → ℕ → Op (Unit {0})
  unfolding decode reset_message
  reset_read id now = do
    content ← wrap (failed getting_data) (query r (get (message_key q.name id)) text_of)
    msg ← decode r codec q content
    reset_message id now msg

  unfoldable pub requeue_rest : Text → ℕ → Bool → Op (Unit {0})
  unfolding requeue_answer reset_read
  requeue_rest id now found = do requeue_answer found; reset_read id now

  unfoldable pub requeue_dead_letter : Text → ℕ → Op (Unit {0})
  unfolding requeue_rest
  requeue_dead_letter id now = do
    found ← wrap (failed requeueing) (
        call (requeue_script r (message_key q.name id) (dead_letter_key q.name) (queue_key q.name)))
    requeue_rest id now found

  unfoldable pub purge_dead_letters : Op (Unit {0})
  purge_dead_letters = do
    keys ← wrap (failed getting_dead_keys) (query r (lrange (dead_letter_key q.name) last) texts_of)
    wrap plain (call (transaction r (map del keys ++ (del (dead_letter_key q.name) ∷ []))))

  -- The statistics from the four replies; fewer than three counters leave them 0.
  unfoldable pub stats_of : ℕ → ℕ → ℕ → List (Option ℕ) → QueueStats
  stats_of pending processing dead (enqueued ∷ processed ∷ failures ∷ _) = record {
    pending_messages = pending;
    processing_messages = processing;
    dead_letter_messages = dead;
    total_enqueued = counter enqueued;
    total_processed = counter processed;
    total_failed = counter failures;
  }
  stats_of pending processing dead _ = record {
    pending_messages = pending;
    processing_messages = processing;
    dead_letter_messages = dead;
    total_enqueued = 0;
    total_processed = 0;
    total_failed = 0;
  }

  -- One command of the pipeline, its reply read as `Val` reads it.
  unfoldable pub piped : {A : Type 0} → Command → (Reply → Result Fault A) → Action Db Fault A
  piped c read d = (read (run c d).0, (run c d).1)

  unfoldable pub get_stats : Op QueueStats
  unfolding stats_of piped
  get_stats = wrap (failed getting_stats) (
      call (do
        pending ← piped (llen (queue_key q.name)) int_of
        processing ← piped (zcard (processing_key q.name)) int_of
        dead ← piped (llen (dead_letter_key q.name)) int_of
        totals ←
            piped (hmget (stats_key q.name) (total_enqueued ∷ total_processed ∷ total_failed ∷ []))
              ints_of
        pure (stats_of pending processing dead totals)))
