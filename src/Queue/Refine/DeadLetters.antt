-- ===== src/Queue/Refine/DeadLetters.antt =====
-- `RequeueDeadLetter` and `Clear` against the specification.
use remix.Base.{
  ℕ, ◌≡◌, refl, ok, [], ◌∷◌, Option, none, some, Bool, true, false, Gives, after-Gives, wrap-Gives,
  Text,
}
use remix.Redis.Value.{remove, position}
use remix.Redis.Server.{Redis}
use remix.Redis.Client.{Env, text_of}
use remix.Queue.Types.{Message, Queue, Codec, failed, requeueing, getting_data, plain}
use remix.Queue.Keys.{message_key, dead_letter_key, queue_key}
use remix.Queue.View.{View, Holds}
use remix.Queue.View.Commands
use remix.Queue.Scripts.{requeue_script, requeue_read}
use remix.Queue.Ops.{
  requeue_dead_letter, requeue_answer, clear, reset_read, reset_message, requeue_rest, decode,
}
use remix.Queue.Spec.{requeued, requeued_at, requeued_data, reset, reset_with}
use remix.Queue.Refine.Online.{
  Online, redis_call-Gives, call-Gives, query-Gives, transaction-nil-Gives, transaction-cons-Gives,
}

-- The queue after the script of `RequeueDeadLetter`, and its answer.
abbrev moved_data : Text → Option Text → View → Bool × View
moved_data id none v = (false, v)
moved_data id (some content) v = (true, record v { pending = id ∷ v.pending })

abbrev moved_at : Text → Option ℕ → View → Bool × View
moved_at id none v = (false, v)
moved_at id (some i) v = moved_data id (v.message id) (record v { dead = remove id v.dead })

module _ (r : Redis) (codec : Codec Message) (q : Queue) where
  requeue_data-Gives :
      (id : Text) (o : Option Text) {v : View} (d : r.Db)
      → v.message id ≡ o
      → Holds r q.name d v
      → Gives
          (requeue_read r (message_key q.name id) (queue_key q.name) d)
          (ok (moved_data id o v).0)
          (λ d'. Holds r q.name d' (moved_data id o v).1)
  unfolding requeue_read
  requeue_data-Gives id none d m h =
      after-Gives _ _ (redis_call-Gives r q.name (rw m at (Commands.get-message r q.name h id)))
        λ d h. record { returns = refl; leaves = h }
  requeue_data-Gives id (some content) d m h =
      after-Gives _ _ (redis_call-Gives r q.name (rw m at (Commands.get-message r q.name h id)))
        λ d h.
          after-Gives _ _ (redis_call-Gives r q.name (Commands.lpush-pending r q.name h id))
            λ d h. record { returns = refl; leaves = h }

  requeue_script-Gives :
      (id : Text) (o : Option ℕ) {v : View} (d : r.Db)
      → position id v.dead ≡ o
      → Holds r q.name d v
      → Gives
          (requeue_script r (message_key q.name id) (dead_letter_key q.name) (queue_key q.name) d)
          (ok (moved_at id o v).0)
          (λ d'. Holds r q.name d' (moved_at id o v).1)
  unfolding requeue_script
  requeue_script-Gives id none d p h =
      after-Gives _ _ (redis_call-Gives r q.name (rw p at (Commands.lpos-dead r q.name h id)))
        λ d h. record { returns = refl; leaves = h }
  requeue_script-Gives id (some i) {v} d p h =
      after-Gives _ _ (redis_call-Gives r q.name (rw p at (Commands.lpos-dead r q.name h id)))
        λ d h.
          after-Gives _ _ (redis_call-Gives r q.name (Commands.lrem-dead r q.name h id))
            λ d h. requeue_data-Gives id (v.message id) d refl h

  reset_with-Gives :
      (id : Text) (now : ℕ) (msg : Message) (o : Option Text) {v : View} (e : Env r.Db)
      → codec.marshal (record msg { retry_count = 0; visible_time = now }) ≡ o
      → Online r q.name v e
      → Gives
          (reset_message r codec q id now msg e)
          (reset_with codec q id o v).0
          (Online r q.name (reset_with codec q id o v).1)
  unfolding reset_message
  reset_with-Gives id now msg none e m o = rw m (record { returns = refl; leaves = o })
  reset_with-Gives id now msg (some updated) e m o = rw m (
      wrap-Gives plain _ (
        call-Gives r q.name _ e o.net (
          transaction-cons-Gives r q.name _ (Commands.set-message r q.name o.holds id updated) refl
            λ d h. transaction-nil-Gives r q.name h)))

  reset-Gives :
      (id content : Text) (now : ℕ) (read : Option Message) {v : View} (e : Env r.Db)
      → codec.unmarshal content ≡ read
      → v.message id ≡ some content
      → Online r q.name v e
      → Gives
          (reset_read r codec q id now e)
          (reset codec q id now read v).0
          (Online r q.name (reset codec q id now read v).1)
  unfolding reset_read decode
  reset-Gives id content now none e m p o =
      after-Gives _ _
        (wrap-Gives (failed getting_data) _ (
          query-Gives r q.name text_of e o.net
            (rw p at (Commands.get-message r q.name o.holds id))))
        λ e o. rw m (record { returns = refl; leaves = o })
  reset-Gives id content now (some msg) e m p o =
      after-Gives _ _
        (wrap-Gives (failed getting_data) _ (
          query-Gives r q.name text_of e o.net
            (rw p at (Commands.get-message r q.name o.holds id))))
        λ e o. rw m (reset_with-Gives id now msg _ e refl o)

  requeue_found :
      (id : Text) (now : ℕ) (o : Option Text) (v : View) (e : Env r.Db)
      → v.message id ≡ o
      → Online r q.name (moved_data id o v).1 e
      → Gives
          (requeue_rest r codec q id now (moved_data id o v).0 e)
          (requeued_data codec q id now o v).0
          (Online r q.name (requeued_data codec q id now o v).1)
  unfolding requeue_rest requeue_answer
  requeue_found id now none v e m o = record { returns = refl; leaves = o }
  requeue_found id now (some content) v e m o =
      reset-Gives id content now (codec.unmarshal content) e refl m o

  requeue_at :
      (id : Text) (now : ℕ) (o : Option ℕ) (v : View) (e : Env r.Db)
      → Online r q.name (moved_at id o v).1 e
      → Gives
          (requeue_rest r codec q id now (moved_at id o v).0 e)
          (requeued_at codec q id now o v).0
          (Online r q.name (requeued_at codec q id now o v).1)
  unfolding requeue_rest requeue_answer
  requeue_at id now none v e o = record { returns = refl; leaves = o }
  requeue_at id now (some i) v e o =
      requeue_found id now (v.message id) (record v { dead = remove id v.dead }) e refl o

  -- With every call answered, the requeueing of a dead letter returns the result of the
  -- specification and leaves its queue: a message that is no dead letter changes nothing; a dead
  -- letter without data leaves the dead letters and is reported as missing; any other is pending,
  -- and where its data can be read and written its retries are reset.
  pub requeue_dead_letter-requeued :
      (id : Text) (now : ℕ) {v : View} (e : Env r.Db)
      → Online r q.name v e
      → Gives
          (requeue_dead_letter r codec q id now e)
          (requeued codec q id now v).0
          (Online r q.name (requeued codec q id now v).1)
  unfolding requeue_dead_letter requeued
  requeue_dead_letter-requeued id now {v} e o =
      after-Gives (requeue_rest r codec q id now) _
        (wrap-Gives (failed requeueing) _ (
          call-Gives r q.name _ e o.net
            (requeue_script-Gives id (position id v.dead) e.db refl o.holds)))
        λ e o. requeue_at id now (position id v.dead) v e o

  -- With every call answered, Clear succeeds and empties the pending, processing, dead and delayed
  -- messages; the data of the messages and the counters stay.
  pub clear-Gives :
      {v : View} (e : Env r.Db)
      → Online r q.name v e
      → Gives
          (clear r codec q e)
          (ok tt)
          (Online r q.name (record v { pending = []; processing = []; dead = []; delayed = [] }))
  unfolding clear
  clear-Gives e o = wrap-Gives plain _ (
      call-Gives r q.name _ e o.net (
        transaction-cons-Gives r q.name _ (Commands.del-pending r q.name o.holds) refl λ d h.
          transaction-cons-Gives r q.name _ (Commands.del-processing r q.name h) refl λ d h.
            transaction-cons-Gives r q.name _ (Commands.del-dead r q.name h) refl λ d h.
              transaction-cons-Gives r q.name _ (Commands.del-delayed r q.name h) refl
                λ d h. transaction-nil-Gives r q.name h))
