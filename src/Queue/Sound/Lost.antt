-- ===== src/Queue/Sound/Lost.antt =====
-- PollWithTimeout of reliablequeue/queue.go when its last call does not reach the server.
use remix.Base.{
  ℕ, ◌+◌, ◌≡◌, refl, ap, ◌∙◌, List, [], ◌∷◌, Option, none, some, true, false, Result, ok, err,
  Action, Text, arith, Gives, after-Gives, after-Gives_err, wrap-Gives, attempt-Gives, map_err,
}
use remix.Redis.Value.{drop_last, last?}
use remix.Redis.Command.{Command, Reply}
use remix.Redis.Server.{Redis}
use remix.Redis.Client.{Fault, unreachable, Outcome, answered, lost, Env, call, query, text_of}
use remix.Queue.Types.{Message, Queue, Codec, unix, failed, moving_delayed, moving_to_processing}
use remix.Queue.Keys.{message_key}
use remix.Queue.View.{View, Holds, Runs}
use remix.Queue.View.Commands
use remix.Queue.Ops.{
  poll, poll_with_timeout, move_delayed_messages, pop_message, pop_once, pop, with_key, with_data,
  start_processing, decode,
}
use remix.Queue.Spec.{released}
use remix.Queue.Spec.Places.{places}
use remix.Queue.Refine.Poll.{move_delayed_script-released, pop-Gives}
use remix.Queue.Sound.{IsTotal, Sound, released-Keeps}
use remix.Queue.Sound.Steps.{popped_one, one_self}

module _ (r : Redis) (n : Text) where
  open r use {Db}

  -- The server shows the queue `v`, and the network has the fates `f` for the next calls.
  pub record Facing (v : View) (f : List Outcome) (e : Env Db) : Type 0 where
    pub holds : Holds r n e.db v
    pub net : e.net ≡ f

  call-answered :
      {A : Type 0} {v w : View} {f : List Outcome} {res : Result Fault A} (m : Action Db Fault A)
      (e : Env Db)
      → Facing v (answered ∷ f) e
      → Gives (m e.db) res (λ d. Holds r n d w)
      → Gives (call m e) res (Facing w f)
  call-answered m e o g =
      rw (o.net) (record { returns = g.returns; leaves = record { holds = g.leaves; net = refl } })

  call-lost :
      {A : Type 0} {v : View} {f : List Outcome} (m : Action Db Fault A) (e : Env Db)
      → Facing v (lost ∷ f) e
      → Gives (call m e) (err unreachable) (Facing v f)
  call-lost m e o =
      rw (o.net) (record { returns = refl; leaves = record { holds = o.holds; net = refl } })

  query-answered :
      {A : Type 0} {c : Command} {reply : Reply} {v : View} {f : List Outcome}
      (read : Reply → Result Fault A) (e : Env Db)
      → Facing v (answered ∷ f) e
      → Runs r n c e.db reply v
      → Gives (query r c read e) (read reply) (Facing v f)
  query-answered read e o s =
      rw (o.net)
        (record { returns = ap read s.replies; leaves = record { holds = s.holds; net = refl } })

module _ (r : Redis) (codec : Codec Message) (q : Queue) where
  -- The last call of a poll is lost.
  start-lost :
      (key content updated : Text) (now : ℕ) (msg : Message) {v : View} (e : Env r.Db)
      → codec.unmarshal content ≡ some msg
      → codec.marshal (record msg { dequeue_time = now }) ≡ some updated
      → Facing r q.name v (lost ∷ []) e
      → Gives
          (start_processing r codec q key now content e)
          (err (failed moving_to_processing unreachable))
          (Facing r q.name v [])
  unfolding start_processing decode
  start-lost key content updated now msg e u w o =
      rw (u, w)
        (after-Gives_err _ _
          (wrap-Gives (failed moving_to_processing) _ (call-lost r q.name _ e o)))

  -- The oldest pending message taken away.
  abbrev pub without_last : View → View
  without_last v = record v { pending = drop_last v.pending }

  pop-lost :
      (id : Text) (now' : ℕ) {v : View} (e : Env r.Db)
      → last? v.pending ≡ some id
      → IsTotal codec
      → Sound codec v
      → Facing r q.name v (answered ∷ answered ∷ lost ∷ []) e
      → Gives
          (remix.Base.after
            (remix.Base.attempt (pop_message r codec q 0 (λ d. d)) e)
            (with_key r codec q false now'))
          (err (failed moving_to_processing unreachable))
          (Facing r q.name (without_last v) [])
  unfolding pop_message pop_once with_key with_data
  pop-lost id now' {v} e p total s o =
      let (content, msg, m, u) = s.readable id (omega (arith, popped_one id id v p, one_self id)) in
      let (updated, w) = total (record msg { dequeue_time = now' }) in
      let g = rw (p) at (pop-Gives r codec q e.db o.holds) in
      after-Gives (with_key r codec q false now') _
        (attempt-Gives _ (call-answered r q.name (pop r codec q) e o g))
        λ e o.
          after-Gives (with_data r codec q (message_key q.name id) now') _
            (attempt-Gives _
              (query-answered r q.name text_of e o (Commands.get-message r q.name o.holds id)))
            λ e o. rw m (start-lost (message_key q.name id) content updated now' msg e u w o)

  -- From a sound queue where every message can be written: when a message is pending after the due
  -- ones were released, and of the four calls of a poll the first three are answered and the last
  -- does not reach the server, the poll fails, and the message it had taken stands in no place of
  -- the queue.
  pub poll_loses_message :
      (id : Text) (now now' : ℕ) {v : View} (e : Env r.Db)
      → IsTotal codec
      → Sound codec v
      → last? (released (unix now) v).pending ≡ some id
      → Facing r q.name v (answered ∷ answered ∷ answered ∷ lost ∷ []) e
      → Gives
          (poll r codec q now now' e)
          (err (failed moving_to_processing unreachable))
          (Facing r q.name (without_last (released (unix now) v)) [])
        × (places id (without_last (released (unix now) v)) ≡ 0)
  unfolding poll poll_with_timeout move_delayed_messages
  poll_loses_message id now now' {v} e total s p o =
      let w : View = released (unix now) v in
      let k = released-Keeps codec (unix now) s in
      (
        after-Gives _ _
            (wrap-Gives (failed moving_delayed) _ (
              call-answered r q.name _ e o
                (move_delayed_script-released r codec q (unix now) e.db o.holds)))
            λ e o. pop-lost id now' e p total k.sound o,
        omega (arith, popped_one id id w p, k.sound.once id, one_self id),
      )
