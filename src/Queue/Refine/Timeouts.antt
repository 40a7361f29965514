-- ===== src/Queue/Refine/Timeouts.antt =====
-- `handleTimeoutMessage` and `processTimeoutMessages` against the specification.
use remix.Base.{
  ℕ, ◌+◌, refl, ok, List, [], ◌∷◌, map, Option, none, some, Gives, after-Gives, wrap-Gives,
  attempt-Gives, attempt, after, pure, Text,
}
use remix.Redis.Value.{up_to}
use remix.Redis.Command.{bulk_of}
use remix.Redis.Server.{Redis}
use remix.Redis.Client.{Env, text_of, texts_of, int_of as number_of}
use remix.Queue.Types.{
  Error, Message, Queue, Codec, unix, failed, getting_timeouts, handling_timeout,
}
use remix.Queue.Keys.{message_key}
use remix.Queue.View.{View}
use remix.Queue.View.Commands
use remix.Queue.Ops.{
  handle_data, handle_timeout_message, handle_all, process_timeout_messages, cleanup_tick,
  move_delayed_messages,
}
use remix.Queue.Spec.{handled, handled_data, handled_all, timed_out, released}
use remix.Queue.Refine.Online.{Online, query-Gives}
use remix.Queue.Refine.Finish.{ended-Gives}
use remix.Queue.Refine.Poll.{move_delayed_messages-released}

module _ (r : Redis) (codec : Codec Message) (q : Queue) where
  handled_data-Gives :
      (id : Text) (now : ℕ) (o : Option Text) {v : View} (e : Env r.Db)
      → Online r q.name v e
      → Gives
          (handle_data r codec q (message_key q.name id) now (text_of (bulk_of o)) e)
          (handled_data codec q id now o v).0
          (Online r q.name (handled_data codec q id now o v).1)
  unfolding handle_data
  handled_data-Gives id now none e o =
      after-Gives (λ _. pure tt) _
        (attempt-Gives _
          (query-Gives r q.name number_of e o.net (Commands.zrem-processing r q.name o.holds id)))
        λ e o. record { returns = refl; leaves = o }
  handled_data-Gives id now (some content) e o =
      ended-Gives r codec q handling_timeout id content now (codec.unmarshal content) e refl o

  handle_timeout_message-handled :
      (id : Text) (now : ℕ) {v : View} (e : Env r.Db)
      → Online r q.name v e
      → Gives
          (handle_timeout_message r codec q (message_key q.name id) now e)
          (handled codec q id now v).0
          (Online r q.name (handled codec q id now v).1)
  unfolding handle_timeout_message handled
  handle_timeout_message-handled id now {v} e o =
      after-Gives (handle_data r codec q (message_key q.name id) now) _
        (attempt-Gives _
          (query-Gives r q.name text_of e o.net (Commands.get-message r q.name o.holds id)))
        λ e o. handled_data-Gives id now (v.message id) e o

  handle_all-Gives :
      (clock : ℕ → ℕ) (ids : List Text) {v : View} (e : Env r.Db)
      → Online r q.name v e
      → Gives
          (handle_all r codec q clock (map (message_key q.name) ids) e)
          (ok tt)
          (Online r q.name (handled_all codec q clock ids v))
  unfolding handle_all handled_all
  handle_all-Gives clock [] e o = record { returns = refl; leaves = o }
  handle_all-Gives clock (id ∷ ids) e o =
      after-Gives (λ _. handle_all r codec q (λ i. clock (i + 1)) (map (message_key q.name) ids)) _
        (attempt-Gives _ (handle_timeout_message-handled id (clock 0) e o))
        λ e o. handle_all-Gives (λ i. clock (i + 1)) ids e o

  -- With every call answered, handling the timeouts succeeds whatever the messages hold, and
  -- leaves the queue in which each message in processing whose deadline has passed is handled in
  -- the order of the deadlines, each by the specification of the end of an attempt.
  pub process_timeout_messages-timed_out :
      (now : ℕ) (clock : ℕ → ℕ) {v : View} (e : Env r.Db)
      → Online r q.name v e
      → Gives
          (process_timeout_messages r codec q now clock e)
          (ok tt)
          (Online r q.name (timed_out codec q now clock v))
  unfolding process_timeout_messages timed_out
  process_timeout_messages-timed_out now clock {v} e o =
      after-Gives (handle_all r codec q clock) _
        (wrap-Gives (failed getting_timeouts) _ (
          query-Gives r q.name texts_of e o.net
            (Commands.zrangebyscore-processing r q.name o.holds (unix now))))
        λ e o. handle_all-Gives clock (up_to (unix now) v.processing) e o

  -- With every call answered, a tick of the clean-up task succeeds, and leaves the queue in which
  -- first the timed-out messages are handled and then the due delayed messages are pending.
  pub cleanup_tick-released :
      (now : ℕ) (clock : ℕ → ℕ) (now' : ℕ) {v : View} (e : Env r.Db)
      → Online r q.name v e
      → Gives
          (cleanup_tick r codec q now clock now' e)
          (ok tt)
          (Online r q.name (released (unix now') (timed_out codec q now clock v)))
  unfolding cleanup_tick
  cleanup_tick-released now clock now' e o =
      after-Gives
        (λ _ e. after (attempt {F = Error} (move_delayed_messages r codec q now') e) (λ _. pure tt))
        _ (attempt-Gives _ (process_timeout_messages-timed_out now clock e o))
        λ e o.
          after-Gives (λ _. pure tt) _
            (attempt-Gives _ (move_delayed_messages-released r codec q now' e o))
            λ e o. record { returns = refl; leaves = o }
