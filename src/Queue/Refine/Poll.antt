-- ===== src/Queue/Refine/Poll.antt =====
-- `moveDelayedMessages` and `PollWithTimeout` against the specification.
use remix.Base.{
  ℕ, ◌≡◌, refl, ap, ◌∙◌, ok, err, inl, inr, List, [], ◌∷◌, map, Option, none, some, Bool, true,
  false, Option-cases, Gives, after-Gives, wrap-Gives, attempt-Gives, Text, ltb, Result,
}
use remix.Redis.Value.{last?, drop_last, drop_last-none, up_to, zinsert, zremove}
use remix.Redis.Command.{bulk_of}
use remix.Redis.Server.{Redis}
use remix.Redis.Rename.{map_option}
use remix.Redis.Client.{Env, Fault, redis_nil, unreachable, error_reply, text_of}
use remix.Queue.Types.{Message, Queue, Codec, unix, failed, moving_delayed, moving_to_processing}
use remix.Queue.Keys.{message_key, queue_key, delayed_key, processing_key}
use remix.Queue.View.{View, Holds, put_at}
use remix.Queue.View.Commands
use remix.Queue.Scripts.{move_all, move_delayed_script, poll_script}
use remix.Queue.Ops.{
  move_delayed_messages, poll_with_timeout, pop, pop_message, pop_once, retry_pop, with_key,
  with_data, start_processing, decode,
}
use remix.Queue.Spec.{
  moved, released, popped, popped_as, started, delivered_data, delivered, polled,
}
use remix.Queue.Refine.Online.{Online, redis_call-Gives, call-Gives, query-Gives}

-- The key of a popped message, or the nil reply.
abbrev pub key_or_nil : Text → Option Text → Result Fault Text
key_or_nil n none = err redis_nil
key_or_nil n (some id) = ok (message_key n id)

key_or_nil_lem :
    (n : Text) (o : Option Text) → text_of (bulk_of (map_option (message_key n) o)) ≡ key_or_nil n o
key_or_nil_lem n none = refl
key_or_nil_lem n (some id) = refl

module _ (r : Redis) (codec : Codec Message) (q : Queue) where
  move_all-Gives :
      (ids : List Text) {v : View} (d : r.Db)
      → Holds r q.name d v
      → Gives
          (move_all r (delayed_key q.name) (queue_key q.name) (map (message_key q.name) ids) d)
          (ok tt)
          (λ d'. Holds r q.name d' (moved ids v))
  unfolding move_all moved
  move_all-Gives [] d h = record { returns = refl; leaves = h }
  move_all-Gives (id ∷ ids) d h =
      after-Gives _ _ (redis_call-Gives r q.name (Commands.lpush-pending r q.name h id)) λ d h.
        after-Gives _ _ (redis_call-Gives r q.name (Commands.zrem-delayed r q.name h id))
          λ d h. move_all-Gives ids d h

  pub move_delayed_script-released :
      (now : ℕ) {v : View} (d : r.Db)
      → Holds r q.name d v
      → Gives
          (move_delayed_script r (delayed_key q.name) (queue_key q.name) now d)
          (ok tt)
          (λ d'. Holds r q.name d' (released now v))
  unfolding move_delayed_script released
  move_delayed_script-released now {v} d h =
      after-Gives _ _ (redis_call-Gives r q.name (Commands.zrangebyscore-delayed r q.name h now))
        λ d h. move_all-Gives (up_to now v.delayed) d h

  -- With every call answered, moving the delayed messages succeeds, and leaves the queue in which
  -- exactly the delayed messages whose second has come are pending, in the order of their times.
  pub move_delayed_messages-released :
      (now : ℕ) {v : View} (e : Env r.Db)
      → Online r q.name v e
      → Gives
          (move_delayed_messages r codec q now e)
          (ok tt)
          (Online r q.name (released (unix now) v))
  unfolding move_delayed_messages
  move_delayed_messages-released now e o =
      call-Gives r q.name _ e o.net (move_delayed_script-released (unix now) e.db o.holds)

  pub pop-Gives :
      (d : r.Db) {v : View}
      → Holds r q.name d v
      → Gives
          (pop r codec q d)
          (key_or_nil q.name (last? v.pending))
          (λ d'. Holds r q.name d' (record v { pending = drop_last v.pending }))
  pop-Gives d {v} h =
      let s = Commands.rpop-pending r q.name h in
      record {
        returns = ap text_of s.replies ∙ key_or_nil_lem q.name (last? v.pending);
        leaves = s.holds;
      }

  module _ {P : r.Db → Type 0} (others : r.Db → r.Db) where
    retry_hit :
        (x : Result Fault Text × r.Db) {key : Text}
        → Gives x (ok key) P
        → Gives (retry_pop r codec q others x) (ok key) P
    unfolding retry_pop
    retry_hit (ok k, d) g = g
    retry_hit (err f, d) g = absurd (cc g.returns)

    retry_miss :
        {Q : r.Db → Type 0} (x : Result Fault Text × r.Db) {res : Result Fault Text}
        → Gives x (err redis_nil) P
        → ((d : r.Db) → P d → Gives (pop r codec q (others d)) res Q)
        → Gives (retry_pop r codec q others x) res Q
    unfolding retry_pop
    retry_miss (ok k, d) g k' = absurd (cc g.returns)
    retry_miss (err redis_nil, d) g k' = k' d g.leaves
    retry_miss (err unreachable, d) g k' = absurd (cc g.returns)
    retry_miss (err error_reply, d) g k' = absurd (cc g.returns)

  module _ (others : r.Db → r.Db) (arrive : View → View)
      (keeps : (d : r.Db) (v : View) → Holds r q.name d v → Holds r q.name (others d) (arrive v))
      (v : View) where
    pop_first :
        (blocking : Bool) (d : r.Db) (o : Option Text)
        → last? v.pending ≡ o
        → Holds r q.name d v
        → Gives
            (pop_once r codec q blocking others d)
            (key_or_nil q.name (popped_as blocking v (arrive v) o).0)
            (λ d'. Holds r q.name d' (popped_as blocking v (arrive v) o).1)
    unfolding pop_once
    pop_first true d (some id) e h = retry_hit others _ (rw e at (pop-Gives d h))
    pop_first false d (some id) e h = rw e at (pop-Gives d h)
    pop_first true d none e h =
        retry_miss others _ (rw (e, drop_last-none v.pending e) at (pop-Gives d h))
          λ d' h'. pop-Gives (others d') (keeps d' v h')
    pop_first false d none e h = rw (e, drop_last-none v.pending e) at (pop-Gives d h)

  store-Gives :
      (id content : Text) (t : ℕ) {v : View} (d : r.Db)
      → Holds r q.name d v
      → Gives
          (poll_script r (message_key q.name id) (processing_key q.name) content t d)
          (ok tt)
          (λ d'. Holds r q.name d' (record v {
            message = put_at id (some content) v.message;
            processing = zinsert t id (zremove id v.processing);
          }))
  unfolding poll_script
  store-Gives id content t d h =
      after-Gives _ _ (redis_call-Gives r q.name (Commands.set-message r q.name h id content))
        λ d h.
          after-Gives _ _ (redis_call-Gives r q.name (Commands.zadd-processing r q.name h t id))
            λ d h. record { returns = refl; leaves = h }

  -- The rest of `PollWithTimeout` once the message's data is there.
  start-Gives :
      (id content : Text) (now : ℕ) (read : Option Message) {v : View} (e : Env r.Db)
      → codec.unmarshal content ≡ read
      → Online r q.name v e
      → Gives
          (start_processing r codec q (message_key q.name id) now content e)
          (started codec q id now read v).0
          (Online r q.name (started codec q id now read v).1)
  unfolding start_processing decode
  start-Gives id content now none e m o = rw m (record { returns = refl; leaves = o })
  start-Gives id content now (some msg) {v} e m o =
      elim (Option-cases (codec.marshal (record msg { dequeue_time = now }))) [
        | inl w ↦ rw (m, w) (record { returns = refl; leaves = o })
        | inr (updated, w) ↦
            rw (m, w)
              (after-Gives _ _
                (wrap-Gives (failed moving_to_processing) _
                  (call-Gives r q.name _ e o.net (store-Gives id updated _ e.db o.holds)))
                λ e o. record { returns = refl; leaves = o })
      ]

  data-Gives :
      (id : Text) (now : ℕ) (o : Option Text) {v : View} (e : Env r.Db)
      → v.message id ≡ o
      → Online r q.name v e
      → Gives
          (with_data r codec q (message_key q.name id) now (text_of (bulk_of o)) e)
          (delivered_data codec q now id o v).0
          (Online r q.name (delivered_data codec q now id o v).1)
  unfolding with_data
  data-Gives id now none e m o = record { returns = refl; leaves = o }
  data-Gives id now (some content) e m o =
      start-Gives id content now (codec.unmarshal content) e refl o

  key-Gives :
      (blocking : Bool) (now : ℕ) (o : Option Text) {v : View} (e : Env r.Db)
      → Online r q.name v e
      → Gives
          (with_key r codec q blocking now (key_or_nil q.name o) e)
          (delivered codec q now (o, v)).0
          (Online r q.name (delivered codec q now (o, v)).1)
  unfolding with_key
  key-Gives blocking now none e o = record { returns = refl; leaves = o }
  key-Gives blocking now (some id) {v} e o =
      after-Gives (with_data r codec q (message_key q.name id) now) _
        (attempt-Gives _
          (query-Gives r q.name text_of e o.net (Commands.get-message r q.name o.holds id)))
        λ e o. data-Gives id now (v.message id) e refl o

  -- With every call answered, for any timeout, and for any pushes of others during a blocking pop
  -- that the server shows as `arrive` says: a poll returns the result of the specification and
  -- leaves its queue. That is, the due delayed messages are pending, and then either nothing was
  -- popped, or the popped message's data was missing or unreadable, or the message is in
  -- processing with its visibility deadline and with its data stamped.
  pub poll_with_timeout-polled :
      (others : r.Db → r.Db) (arrive : View → View)
      → ((d : r.Db) (v : View) → Holds r q.name d v → Holds r q.name (others d) (arrive v))
      → (timeout now now' : ℕ) {v : View} (e : Env r.Db) → Online r q.name v e
      → Gives
          (poll_with_timeout r codec q timeout others now now' e)
          (polled codec q (ltb 0 timeout) arrive now now' v).0
          (Online r q.name (polled codec q (ltb 0 timeout) arrive now now' v).1)
  unfolding poll_with_timeout polled pop_message
  poll_with_timeout-polled others arrive keeps timeout now now' {v} e o =
      let w : View = released (unix now) v in
      let blocking : Bool = ltb 0 timeout in
      after-Gives _ _
        (wrap-Gives (failed moving_delayed) _ (move_delayed_messages-released now e o))
        λ e o.
          after-Gives (with_key r codec q blocking now') _
            (attempt-Gives _ (
              call-Gives r q.name (pop_once r codec q blocking others) e o.net
                (pop_first others arrive keeps w blocking e.db (last? w.pending) refl o.holds)))
            λ e o. key-Gives blocking now' (popped blocking arrive w).0 e o
