-- ===== src/Queue/Spec.antt =====
-- What each operation of the reliable queue promises, over the abstract queue: the result and the
-- queue afterwards, on every branch, when every call is answered.
pub mod Places
use remix.Base.{
  ℕ, ◌+◌, ◌≡◌, Bool, true, false, List, [], ◌∷◌, ◌++◌, Option, none, some, Result, ok, err, Text,
  leb, ltb, if◌then◌else◌,
}
use remix.Redis.Value.{drop_last, last?, remove, position, increase, score, zremove, zinsert, up_to}
use remix.Redis.Client.{redis_nil}
use remix.Queue.Types.{
  Message, Queue, unix, Doing, getting_data, nacking, handling_timeout, Error, failed,
  marshal_failed, unmarshal_failed, not_in_processing, not_in_dead_letter, Codec,
}
use remix.Queue.Keys.{total_enqueued, total_processed, total_failed}
use remix.Queue.View.{View, put_at}

-- A message stored under its identifier, visible from `visible_time` on.
unfoldable pub offered : Text → Text → ℕ → ℕ → View → View
offered id content visible_time current_time v =
    let w : View = record v {
      message = put_at id (some content) v.message;
      stats = increase total_enqueued 1 v.stats;
    } in
    if leb visible_time current_time
    then record w { pending = id ∷ v.pending }
    else record w { delayed = zinsert visible_time id (zremove id v.delayed) }

-- The listed messages taken from the delayed ones to the end of the pending ones, in turn.
unfoldable pub moved : List Text → View → View
moved [] v = v
moved (id ∷ ids) v =
    moved ids (record v { pending = id ∷ v.pending; delayed = zremove id v.delayed })

-- All delayed messages that are due.
unfoldable pub released : ℕ → View → View
released current_time v = moved (up_to current_time v.delayed) v

-- The oldest pending message, if there is one or one arrives before the time-out.
abbrev pub popped_as : Bool → View → View → Option Text → Option Text × View
popped_as blocking v w (some id) = (some id, record v { pending = drop_last v.pending })
popped_as true v w none = (last? w.pending, record w { pending = drop_last w.pending })
popped_as false v w none = (none, v)

abbrev pub popped : Bool → (View → View) → View → Option Text × View
popped blocking arrive v = popped_as blocking v (arrive v) (last? v.pending)

module _ (codec : Codec Message) (q : Queue) where
  abbrev pub Outcome : Type 0 → Type 0
  Outcome A = Result Error A × View

  -- A popped message becomes a processing one until its deadline. One without data is dropped;
  -- one whose data cannot be read or written is lost from every list.
  abbrev pub started_with : Text → ℕ → Message → Option Text → View → Outcome (Option Message)
  started_with id now msg none v = (err marshal_failed, v)
  started_with id now msg (some updated) v = (
    ok (some msg),
    record v {
      message = put_at id (some updated) v.message;
      processing = zinsert (unix (now + q.visibility_timeout)) id (zremove id v.processing);
    },
  )

  abbrev pub started : Text → ℕ → Option Message → View → Outcome (Option Message)
  started id now none v = (err unmarshal_failed, v)
  started id now (some msg) v =
      let m : Message = record msg { dequeue_time = now } in
      started_with id now m (codec.marshal m) v

  abbrev pub delivered_data : ℕ → Text → Option Text → View → Outcome (Option Message)
  delivered_data now id none v = (ok none, v)
  delivered_data now id (some content) v = started id now (codec.unmarshal content) v

  abbrev pub delivered : ℕ → Option Text × View → Outcome (Option Message)
  delivered now (none, v) = (ok none, v)
  delivered now (some id, v) = delivered_data now id (v.message id) v

  unfoldable pub polled : Bool → (View → View) → ℕ → ℕ → View → Outcome (Option Message)
  unfolding released
  polled blocking arrive now now' v =
      delivered now' (popped blocking arrive (released (unix now) v))

  abbrev pub acked_at : Text → Option ℕ → View → Outcome (Unit {0})
  acked_at id none v = (err not_in_processing, v)
  acked_at id (some t) v = (
    ok tt,
    record v {
      processing = zremove id v.processing;
      message = put_at id none v.message;
      stats = increase total_processed 1 v.stats;
    },
  )

  unfoldable pub acked : Text → View → Outcome (Unit {0})
  acked id v = acked_at id (score id v.processing) v

  -- The end of an attempt: another round, the dead letters, or the end of the message.
  abbrev pub retried : Text → Option Text → View → Outcome (Unit {0})
  retried id none v = (err marshal_failed, v)
  retried id (some updated) v = (
    ok tt,
    record v {
      processing = zremove id v.processing;
      message = put_at id (some updated) v.message;
      pending = id ∷ v.pending;
    },
  )

  abbrev pub given_up : Text → Bool → View → Outcome (Unit {0})
  given_up id true v = (
    ok tt,
    record v {
      processing = zremove id v.processing;
      dead = id ∷ v.dead;
      stats = increase total_failed 1 v.stats;
    },
  )
  given_up id false v = (
    ok tt,
    record v {
      processing = zremove id v.processing;
      message = put_at id none v.message;
      stats = increase total_failed 1 v.stats;
    },
  )

  abbrev pub next_try : Message → ℕ → Message
  next_try msg now = record msg {
    retry_count = msg.retry_count + 1;
    visible_time = now + q.retry_delay;
  }

  abbrev pub ended_as : Bool → Text → ℕ → Message → View → Outcome (Unit {0})
  ended_as true id now msg v = retried id (codec.marshal (next_try msg now)) v
  ended_as false id now msg v = given_up id q.enable_dead_letter v

  abbrev pub ended : Text → ℕ → Option Message → View → Outcome (Unit {0})
  ended id now none v = (err unmarshal_failed, v)
  ended id now (some msg) v = ended_as (leb (msg.retry_count + 1) msg.max_retries) id now msg v

  abbrev pub nacked_data : Text → ℕ → Option Text → View → Outcome (Unit {0})
  nacked_data id now none v = (err (failed getting_data redis_nil), v)
  nacked_data id now (some content) v = ended id now (codec.unmarshal content) v

  abbrev pub nacked_at : Text → ℕ → Option ℕ → View → Outcome (Unit {0})
  nacked_at id now none v = (err not_in_processing, v)
  nacked_at id now (some t) v = nacked_data id now (v.message id) v

  unfoldable pub nacked : Text → ℕ → View → Outcome (Unit {0})
  nacked id now v = nacked_at id now (score id v.processing) v

  abbrev pub handled_data : Text → ℕ → Option Text → View → Outcome (Unit {0})
  handled_data id now none v = (ok tt, record v { processing = zremove id v.processing })
  handled_data id now (some content) v = ended id now (codec.unmarshal content) v

  unfoldable pub handled : Text → ℕ → View → Outcome (Unit {0})
  handled id now v = handled_data id now (v.message id) v

  unfoldable pub handled_all : (ℕ → ℕ) → List Text → View → View
  handled_all clock [] v = v
  handled_all clock (id ∷ ids) v = handled_all (λ i. clock (i + 1)) ids (handled id (clock 0) v).1

  -- Every message whose deadline has passed.
  unfoldable pub timed_out : ℕ → (ℕ → ℕ) → View → View
  timed_out now clock v = handled_all clock (up_to (unix now) v.processing) v

  abbrev pub reset_with : Text → Option Text → View → Outcome (Unit {0})
  reset_with id none v = (err marshal_failed, v)
  reset_with id (some updated) v =
      (ok tt, record v { message = put_at id (some updated) v.message })

  abbrev pub reset : Text → ℕ → Option Message → View → Outcome (Unit {0})
  reset id now none v = (err unmarshal_failed, v)
  reset id now (some msg) v =
      reset_with id (codec.marshal (record msg { retry_count = 0; visible_time = now })) v

  -- A dead letter without data leaves the list all the same.
  abbrev pub requeued_data : Text → ℕ → Option Text → View → Outcome (Unit {0})
  requeued_data id now none v = (err not_in_dead_letter, v)
  requeued_data id now (some content) v =
      reset id now (codec.unmarshal content) (record v { pending = id ∷ v.pending })

  abbrev pub requeued_at : Text → ℕ → Option ℕ → View → Outcome (Unit {0})
  requeued_at id now none v = (err not_in_dead_letter, v)
  requeued_at id now (some i) v =
      requeued_data id now (v.message id) (record v { dead = remove id v.dead })

  unfoldable pub requeued : Text → ℕ → View → Outcome (Unit {0})
  requeued id now v = requeued_at id now (position id v.dead) v
