-- ===== src/Queue/Tests.antt =====
-- Small runs of the reliable queue on a server in memory, and the theorems at concrete inputs.
mod Setup
use Prim.Native.Nat.{ℕ, ◌+◌}
use remix.Base.{
  ◌+ℤ◌, ◌≡◌, refl, List, [], ◌∷◌, none, some, Bool, true, false, ok, err, Text, bytes, text_eq,
  text_lt, ltb, count, Gives, arith,
}
use remix.Redis.Value.{
  drop_last, last?, remove, position, field, put, counts, increase, score, zremove, zinsert, up_to,
}
use remix.Redis.Command.{exec}
use remix.Redis.Counts.{zcount}
use remix.Redis.Memory.{memory, fresh}
use remix.Redis.Client.{Env, transaction, answered, lost, unreachable}
use remix.Queue.Types.{
  failed, moving_to_processing, Message, Queue, unix, default_config, not_in_processing,
}
use remix.Queue.Keys.{
  prefix, queue_key, processing_key, dead_letter_key, delayed_key, stats_key, message_key,
}
use remix.Queue.View.{View, Shows}
use remix.Queue.Spec.{
  offered, moved, released, polled, acked, nacked, handled, handled_all, timed_out, requeued,
}
use remix.Queue.Spec.Places.{places}
use remix.Queue.Scripts.{
  offer_script, poll_script, ack_script, move_all, move_delayed_script, requeue_script,
}
use remix.Queue.Ops.{
  get_stats, new_message, offer_with_delay, offer, poll, poll_with_timeout, ack, nack,
  process_timeout_messages, cleanup_tick, requeue_dead_letter, clear, size, get_dead_letters,
  move_delayed_messages,
}
use remix.Queue.Refine.Online.{Online}
use remix.Queue.Refine.Offer
use remix.Queue.Refine.Poll
use remix.Queue.Refine.Finish
use remix.Queue.Refine.Timeouts
use remix.Queue.Refine.DeadLetters
use remix.Queue.Refine.Reads
use remix.Queue.Refine.Reads.{counted, letters}
use remix.Queue.Sound.{Sound}
use remix.Queue.Sound.Lost.{poll_loses_message}
use remix.Queue.Sound.Requests.{
  Request, offers, polls, acks, nacks, cleans, requeues, performed, performed_all, perform_all,
  AllFresh, perform_all-Sound, history_keeps_messages,
}
use Setup.{codec, codec-IsTotal, jobs, quiet, empty, empty-Online, empty-Sound, start}

-- Two messages offered, one polled and acknowledged, the other left.
program : Unit {0}
unfolding codec quiet empty prefix queue_key processing_key dead_letter_key delayed_key stats_key
    message_key exec ◌+ℤ◌ text_eq text_lt drop_last last? remove position field put counts increase
    score zremove zinsert up_to transaction offer_script poll_script ack_script move_all
    move_delayed_script requeue_script default_config new_message offer_with_delay offer poll ack
    nack cleanup_tick requeue_dead_letter clear size get_dead_letters unix offered moved released
    polled acked nacked handled handled_all timed_out requeued places count zcount performed
    performed_all perform_all
program = tt

abbrev first : List Request
first = offers (bytes "a") (bytes "hello") start 0 ∷ []

abbrev history : List Request
history =
    polls start start
    ∷ nacks (bytes "a") start
    ∷ offers (bytes "b") (bytes "later") start 5000000000
    ∷ polls start start
    ∷ cleans (start + 60000000000) (λ i. start) start
    ∷ requeues (bytes "a") start
    ∷ []

-- The queue with one pending message.
stocked : View
stocked = performed_all codec jobs first empty

stock : Env memory.Db
stock = perform_all memory codec jobs first quiet

stocked-Online : Online memory jobs.name stocked stock × Sound codec stocked
unfolding stocked stock program
stocked-Online =
    perform_all-Sound memory codec jobs codec-IsTotal refl first quiet empty-Online empty-Sound
      (refl, tt)

history_fresh : AllFresh codec jobs history stocked
unfolding stocked program
history_fresh = (tt, (tt, (refl, (tt, (tt, (tt, tt))))))

perform_all-Sound_example : Sound codec (performed_all codec jobs history stocked)
unfolding default_config
perform_all-Sound_example =
    (perform_all-Sound memory codec jobs codec-IsTotal refl history stock stocked-Online.0
      stocked-Online.1 history_fresh).1

-- After all that the first message still stands in one place.
history_keeps_messages_example : places (bytes "a") (performed_all codec jobs history stocked) ≡ 1
unfolding stocked program
history_keeps_messages_example =
    (history_keeps_messages memory codec jobs codec-IsTotal refl history stock (bytes "a")
      stocked-Online.0 stocked-Online.1 history_fresh refl (tt, (tt, (tt, (tt, (tt, (tt, tt))))))).1

-- The queue with that message in processing.
busy : View
busy = (polled codec jobs false (λ v. v) start start stocked).1

served : Env memory.Db
served = (poll memory codec jobs start start stock).1

busy-Online : Online memory jobs.name busy served
unfolding busy served program
busy-Online =
    (Poll.poll_with_timeout-polled memory codec jobs (λ d. d) (λ v. v) (λ d v h. h) 0 start start
      stock stocked-Online.0).leaves

offer_with_delay-offered_example :
    (offer_with_delay memory codec jobs (bytes "c") start (bytes "hi") 7000000000 stock).0 ≡ ok tt
unfolding stock stocked program
offer_with_delay-offered_example =
    (Offer.offer_with_delay-offered memory codec jobs (bytes "c") (bytes "hi") start 7000000000
      stock stocked-Online.0 refl).returns

poll_with_timeout-polled_example :
    (poll_with_timeout memory codec jobs 0 (λ d. d) start start stock).0
    ≡ (polled codec jobs false (λ v. v) start start stocked).0
unfolding stock stocked program
poll_with_timeout-polled_example =
    (Poll.poll_with_timeout-polled memory codec jobs (λ d. d) (λ v. v) (λ d v h. h) 0 start start
      stock stocked-Online.0).returns

ack-acked_example : (ack memory codec jobs (bytes "a") served).0 ≡ ok tt
unfolding busy served stock stocked program
ack-acked_example = (Finish.ack-acked memory codec jobs (bytes "a") served busy-Online).returns

nack-nacked_example : (nack memory codec jobs (bytes "a") start served).0 ≡ ok tt
unfolding busy served stock stocked program
nack-nacked_example =
    (Finish.nack-nacked memory codec jobs (bytes "a") start served busy-Online).returns

process_timeout_messages-timed_out_example :
    (process_timeout_messages memory codec jobs (start + 60000000000) (λ i. start) served).0 ≡ ok tt
unfolding busy served stock stocked program
process_timeout_messages-timed_out_example =
    (Timeouts.process_timeout_messages-timed_out memory codec jobs (start + 60000000000)
      (λ i. start) served busy-Online).returns

cleanup_tick-released_example :
    (cleanup_tick memory codec jobs (start + 60000000000) (λ i. start) start served).0 ≡ ok tt
unfolding busy served stock stocked program
cleanup_tick-released_example =
    (Timeouts.cleanup_tick-released memory codec jobs (start + 60000000000) (λ i. start) start
      served busy-Online).returns

requeue_dead_letter-requeued_example :
    (requeue_dead_letter memory codec jobs (bytes "a") start stock).0
    ≡ (requeued codec jobs (bytes "a") start stocked).0
unfolding stock stocked program
requeue_dead_letter-requeued_example =
    (DeadLetters.requeue_dead_letter-requeued memory codec jobs (bytes "a") start stock
      stocked-Online.0).returns

-- The same poll, when its last call is lost.
cut_off : Env memory.Db
cut_off = record { db = stock.db; net = answered ∷ answered ∷ answered ∷ lost ∷ [] }

poll_loses_message_example :
    (poll memory codec jobs start start cut_off).0 ≡ err (failed moving_to_processing unreachable)
unfolding cut_off stock stocked program
poll_loses_message_example =
    (poll_loses_message memory codec jobs (bytes "a") start start cut_off codec-IsTotal
      stocked-Online.1 refl (record { holds = stocked-Online.0.holds; net = refl })).0.returns

get_stats-counted_example : (get_stats memory codec jobs stock).0 ≡ ok (counted stocked)
get_stats-counted_example =
    (Reads.get_stats-counted memory codec jobs stock stocked-Online.0).returns

-- The queue without retries, in which two messages have failed.
abbrev strict : Queue
strict = record { name = bytes "jobs"; config = record default_config { max_retries = 0 } }

abbrev failures : List Request
failures =
    offers (bytes "a") (bytes "hello") start 0
    ∷ offers (bytes "b") (bytes "again") start 0
    ∷ polls start start
    ∷ polls start start
    ∷ nacks (bytes "a") start
    ∷ nacks (bytes "b") start
    ∷ []

buried : View
buried = performed_all codec strict failures empty

graveyard : Env memory.Db
graveyard = perform_all memory codec strict failures quiet

buried-Online : Online memory strict.name buried graveyard
unfolding buried graveyard program
buried-Online =
    (perform_all-Sound memory codec strict codec-IsTotal refl failures quiet empty-Online
      empty-Sound (refl, (refl, (tt, (tt, (tt, (tt, tt))))))).0

-- One of the two dead letters.
get_dead_letters-letters_example :
    (get_dead_letters memory codec strict 1 graveyard).0
    ≡ ok (
        record {
          id = bytes "b";
          body = bytes "again";
          enqueue_time = start;
          visible_time = start;
          dequeue_time = start;
          retry_count = 0;
          max_retries = 0;
        }
        ∷ [])
unfolding letters buried graveyard program
get_dead_letters-letters_example =
    (Reads.get_dead_letters-letters memory codec strict 1 graveyard buried-Online).returns
