-- ===== src/Queue/Refine/Finish.antt =====
-- `Ack`, `Nack`, `handleTimeoutMessage` and the loop over timed-out messages against the
-- specification.
use remix.Base.{
  ℕ, ◌+◌, ◌≡◌, refl, ok, Option, none, some, Bool, true, false, Gives, after-Gives, after-Gives_err,
  wrap-Gives, attempt-Gives, Text, leb,
}
use remix.Redis.Value.{score, zremove_absent}
use remix.Redis.Command.{int_of}
use remix.Redis.Server.{Redis}
use remix.Redis.Client.{Env, text_of, int_of as number_of}
use remix.Queue.Types.{Message, Queue, Codec, Doing, failed, acking, getting_data, nacking}
use remix.Queue.Keys.{message_key, stats_key, processing_key}
use remix.Queue.View.{View, Holds}
use remix.Queue.View.Commands
use remix.Queue.Scripts.{ack_script, is_some}
use remix.Queue.Ops.{
  ack, ack_answer, end_read, nack_read, nack_checked, nack, end_attempt, in_processing, decode,
}
use remix.Queue.Spec.{
  acked, acked_at, ended, ended_as, retried, given_up, next_try, nacked, nacked_at, nacked_data,
}
use remix.Queue.Refine.Online.{
  Online, redis_call-Gives, call-Gives, query-Gives, transaction-nil-Gives, transaction-cons-Gives,
}

module _ (r : Redis) (codec : Codec Message) (q : Queue) where
  ack_script-Gives :
      (id : Text) (o : Option ℕ) {v : View} (d : r.Db)
      → score id v.processing ≡ o
      → Holds r q.name d v
      → Gives
          (ack_script r (message_key q.name id) (processing_key q.name) (stats_key q.name) d)
          (ok (is_some o))
          (λ d'. Holds r q.name d' (acked_at codec q id o v).1)
  unfolding ack_script
  ack_script-Gives id none {v} d e h =
      after-Gives _ _
        (redis_call-Gives r q.name
          (rw (e, zremove_absent id v.processing e) at (Commands.zrem-processing r q.name h id)))
        λ d h. record { returns = refl; leaves = h }
  ack_script-Gives id (some t) d e h =
      after-Gives _ _ (redis_call-Gives r q.name (rw e at (Commands.zrem-processing r q.name h id)))
        λ d h.
          after-Gives _ _ (redis_call-Gives r q.name (Commands.del-message r q.name h id)) λ d h.
            after-Gives _ _ (redis_call-Gives r q.name (Commands.hincrby-stats r q.name h _ 1))
              λ d h. record { returns = refl; leaves = h }

  ack_result :
      (id : Text) (o : Option ℕ) (v : View) (e : Env r.Db)
      → Online r q.name (acked_at codec q id o v).1 e
      → Gives
          (ack_answer r codec q (is_some o) e)
          (acked_at codec q id o v).0
          (Online r q.name (acked_at codec q id o v).1)
  unfolding ack_answer
  ack_result id none v e o = record { returns = refl; leaves = o }
  ack_result id (some t) v e o = record { returns = refl; leaves = o }

  -- With every call answered, an acknowledgement returns the result of the specification and
  -- leaves its queue: a message in processing leaves it, its data is deleted and the counter of
  -- processed messages grows; for any other message the error says so and the queue is unchanged.
  pub ack-acked :
      (id : Text) {v : View} (e : Env r.Db)
      → Online r q.name v e
      → Gives (ack r codec q id e) (acked codec q id v).0 (Online r q.name (acked codec q id v).1)
  unfolding ack acked
  ack-acked id {v} e o =
      after-Gives (ack_answer r codec q) _
        (wrap-Gives (failed acking) _ (
          call-Gives r q.name _ e o.net
            (ack_script-Gives id (score id v.processing) e.db refl o.holds)))
        λ e o. ack_result id (score id v.processing) v e o

  -- The transactions that end an attempt.
  retry-Gives :
      (doing : Doing) (id : Text) (now : ℕ) (msg : Message) (o : Option Text) {v : View}
      (e : Env r.Db)
      → codec.marshal (next_try codec q msg now) ≡ o
      → leb (msg.retry_count + 1) msg.max_retries ≡ true
      → Online r q.name v e
      → Gives
          (end_attempt r codec q doing (message_key q.name id) now msg e)
          (retried codec q id o v).0
          (Online r q.name (retried codec q id o v).1)
  unfolding end_attempt
  retry-Gives doing id now msg none e m p o = rw (p, m) (record { returns = refl; leaves = o })
  retry-Gives doing id now msg (some updated) e m p o =
      rw (p, m)
        (wrap-Gives (failed doing) _ (
          call-Gives r q.name _ e o.net (
            transaction-cons-Gives r q.name _ (Commands.zrem-processing r q.name o.holds id) refl
              λ d h.
                transaction-cons-Gives r q.name _ (Commands.set-message r q.name h id updated) refl
                  λ d h.
                    transaction-cons-Gives r q.name _ (Commands.lpush-pending r q.name h id) refl
                      λ d h. transaction-nil-Gives r q.name h)))

  give_up-Gives :
      (doing : Doing) (id : Text) (now : ℕ) (msg : Message) (dead : Bool) {v : View} (e : Env r.Db)
      → q.enable_dead_letter ≡ dead
      → leb (msg.retry_count + 1) msg.max_retries ≡ false
      → Online r q.name v e
      → Gives
          (end_attempt r codec q doing (message_key q.name id) now msg e)
          (given_up codec q id dead v).0
          (Online r q.name (given_up codec q id dead v).1)
  unfolding end_attempt
  give_up-Gives doing id now msg true e m p o =
      rw (p, m)
        (wrap-Gives (failed doing) _ (
          call-Gives r q.name _ e o.net (
            transaction-cons-Gives r q.name _ (Commands.zrem-processing r q.name o.holds id) refl
              λ d h.
                transaction-cons-Gives r q.name _ (Commands.lpush-dead r q.name h id) refl λ d h.
                  transaction-cons-Gives r q.name _ (Commands.hincrby-stats r q.name h _ 1) refl
                    λ d h. transaction-nil-Gives r q.name h)))
  give_up-Gives doing id now msg false e m p o =
      rw (p, m)
        (wrap-Gives (failed doing) _ (
          call-Gives r q.name _ e o.net (
            transaction-cons-Gives r q.name _ (Commands.zrem-processing r q.name o.holds id) refl
              λ d h.
                transaction-cons-Gives r q.name _ (Commands.del-message r q.name h id) refl λ d h.
                  transaction-cons-Gives r q.name _ (Commands.hincrby-stats r q.name h _ 1) refl
                    λ d h. transaction-nil-Gives r q.name h)))

  ended_as-Gives :
      (doing : Doing) (id : Text) (now : ℕ) (msg : Message) (again : Bool) {v : View} (e : Env r.Db)
      → leb (msg.retry_count + 1) msg.max_retries ≡ again
      → Online r q.name v e
      → Gives
          (end_attempt r codec q doing (message_key q.name id) now msg e)
          (ended_as codec q again id now msg v).0
          (Online r q.name (ended_as codec q again id now msg v).1)
  ended_as-Gives doing id now msg true e p o =
      retry-Gives doing id now msg (codec.marshal (next_try codec q msg now)) e refl p o
  ended_as-Gives doing id now msg false e p o =
      give_up-Gives doing id now msg q.enable_dead_letter e refl p o

  -- Decoding the data and ending the attempt.
  pub ended-Gives :
      (doing : Doing) (id content : Text) (now : ℕ) (read : Option Message) {v : View}
      (e : Env r.Db)
      → codec.unmarshal content ≡ read
      → Online r q.name v e
      → Gives
          (end_read r codec q doing (message_key q.name id) now content e)
          (ended codec q id now read v).0
          (Online r q.name (ended codec q id now read v).1)
  unfolding end_read decode
  ended-Gives doing id content now none e m o = rw m (record { returns = refl; leaves = o })
  ended-Gives doing id content now (some msg) e m o =
      rw m (ended_as-Gives doing id now msg (leb (msg.retry_count + 1) msg.max_retries) e refl o)

  nacked_data-Gives :
      (id : Text) (now : ℕ) (o : Option Text) {v : View} (e : Env r.Db)
      → v.message id ≡ o
      → Online r q.name v e
      → Gives
          (nack_read r codec q id now e)
          (nacked_data codec q id now o v).0
          (Online r q.name (nacked_data codec q id now o v).1)
  unfolding nack_read
  nacked_data-Gives id now none e m o = after-Gives_err _ _ (
      wrap-Gives (failed getting_data) _
        (query-Gives r q.name text_of e o.net (rw m at (Commands.get-message r q.name o.holds id))))
  nacked_data-Gives id now (some content) e m o =
      after-Gives (end_read r codec q nacking (message_key q.name id) now) _
        (wrap-Gives (failed getting_data) _ (
          query-Gives r q.name text_of e o.net
            (rw m at (Commands.get-message r q.name o.holds id))))
        λ e o. ended-Gives nacking id content now (codec.unmarshal content) e refl o

  nacked_at-Gives :
      (id : Text) (now : ℕ) (s : Option ℕ) {v : View} (e : Env r.Db)
      → Online r q.name v e
      → Gives
          (nack_checked r codec q id now (number_of (int_of s)) e)
          (nacked_at codec q id now s v).0
          (Online r q.name (nacked_at codec q id now s v).1)
  unfolding nack_checked in_processing
  nacked_at-Gives id now none e o = record { returns = refl; leaves = o }
  nacked_at-Gives id now (some t) {v} e o = nacked_data-Gives id now (v.message id) e refl o

  -- With every call answered, a refusal returns the result of the specification and leaves its
  -- queue, on every branch: the message is not in processing; its data is missing or cannot be
  -- read or written; it is pending again with one more retry; it is a dead letter; or it is
  -- deleted where dead letters are disabled.
  pub nack-nacked :
      (id : Text) (now : ℕ) {v : View} (e : Env r.Db)
      → Online r q.name v e
      → Gives
          (nack r codec q id now e)
          (nacked codec q id now v).0
          (Online r q.name (nacked codec q id now v).1)
  unfolding nack nacked
  nack-nacked id now {v} e o =
      after-Gives (nack_checked r codec q id now) _
        (attempt-Gives _
          (query-Gives r q.name number_of e o.net (Commands.zscore-processing r q.name o.holds id)))
        λ e o. nacked_at-Gives id now (score id v.processing) e o
