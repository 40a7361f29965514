-- ===== src/Queue/Refine/Reads.antt =====
-- The methods of reliablequeue/queue.go that only read the queue: GetStats and GetDeadLetters.
use remix.Base.{
  ℕ, zero, suc, ◌≡◌, refl, ap, List, [], ◌∷◌, ◌++◌, map, length, take, Option, none, some, inl, inr,
  Option-cases, ok, Gives, after-Gives, attempt-Gives, wrap-Gives, Text, Action, Result, pure,
  ◌>>=◌,
}
use remix.Redis.Value.{amount}
use remix.Redis.Command.{Command, Reply, Stop, index, last, until, bulk_of}
use remix.Redis.Rename.{rename}
use remix.Redis.Server.{Redis}
use remix.Redis.Client.{Fault, Env, text_of, texts_of, int_of, ints_of}
use remix.Queue.Types.{
  Message, Error, Queue, QueueStats, Codec, failed, getting_stats, getting_dead_keys,
}
use remix.Queue.Keys.{message_key, total_enqueued, total_processed, total_failed}
use remix.Queue.View.{View, Holds, Runs}
use remix.Queue.View.Commands
use remix.Queue.Ops.{get_stats, piped, stats_of, stop_of, collected, collect, get_dead_letters}
use remix.Queue.Refine.Online.{Online, call-Gives, query-Gives}

-- The statistics of a queue.
unfoldable pub counted : View → QueueStats
counted v = record {
  pending_messages = length v.pending;
  processing_messages = length v.processing;
  dead_letter_messages = length v.dead;
  total_enqueued = amount total_enqueued v.stats;
  total_processed = amount total_processed v.stats;
  total_failed = amount total_failed v.stats;
}

length-rename : (f : Text → Text) (z : List (Text × ℕ)) → length (rename f z) ≡ length z
length-rename f [] = refl
length-rename f ((k, s) ∷ z) = ap suc (length-rename f z)

until-map : (f : Text → Text) (s : Stop) (xs : List Text) → until s (map f xs) ≡ map f (until s xs)
until-map f last xs = refl
until-map f (index i) xs = take-map (suc i) xs
  where
    take-map : (n : ℕ) (xs : List Text) → take n (map f xs) ≡ map f (take n xs)
    take-map zero xs = refl
    take-map (suc n) [] = refl
    take-map (suc n) (x ∷ xs) = ap (◌∷◌ (f x)) (take-map n xs)

-- The first `limit` of them; all for the limit 0.
abbrev pub wanted : ℕ → List Text → List Text
wanted zero ids = ids
wanted (suc n) ids = take (suc n) ids

until-wanted :
    (f : Text → Text) (limit : ℕ) (ids : List Text)
    → until (stop_of limit) (map f ids) ≡ map f (wanted limit ids)
until-wanted f zero ids = until-map f last ids
until-wanted f (suc n) ids = until-map f (index n) ids

-- The messages under these identifiers that are there and can be read, in the same order.
abbrev pub listed : Option Message → List Message
listed none = []
listed (some msg) = msg ∷ []

abbrev pub letter : Codec Message → Option Text → List Message
letter codec none = []
letter codec (some content) = listed (codec.unmarshal content)

unfoldable pub letters : Codec Message → View → List Text → List Message
letters codec v [] = []
letters codec v (id ∷ ids) = letter codec (v.message id) ++ letters codec v ids

module _ (r : Redis) (codec : Codec Message) (q : Queue) where
  piped-Gives :
      {A : Type 0} {c : Command} {reply : Reply} {v : View} (read : Reply → Result Fault A)
      (d : r.Db)
      → Runs r q.name c d reply v
      → Gives (piped r codec q c read d) (read reply) (λ d. Holds r q.name d v)
  unfolding piped
  piped-Gives read d s = record { returns = ap read s.replies; leaves = s.holds }

  -- With every call answered, GetStats returns the numbers of pending, processing and dead
  -- messages and the three counters, 0 where a counter is missing, and leaves the queue unchanged.
  pub get_stats-counted :
      {v : View} (e : Env r.Db)
      → Online r q.name v e
      → Gives (get_stats r codec q e) (ok (counted v)) (Online r q.name v)
  unfolding get_stats counted stats_of
  get_stats-counted {v} e o = wrap-Gives {res = ok (counted v)} (failed getting_stats) _ (
      call-Gives r q.name _ e o.net (
        after-Gives _ _ (piped-Gives int_of _ (Commands.llen-pending r q.name o.holds)) λ d h.
          after-Gives _ _ (piped-Gives int_of _ (Commands.zcard-processing r q.name h)) λ d h.
            after-Gives _ _ (piped-Gives int_of _ (Commands.llen-dead r q.name h)) λ d h.
              after-Gives _ _ (piped-Gives ints_of _ (Commands.hmget-stats r q.name h _)) λ d h.
                record {
                  returns = rw (length-rename (message_key q.name) v.processing) refl;
                  leaves = h;
                }))

  collected-letter :
      (o : Option Text) {v : View} (e : Env r.Db)
      → Online r q.name v e
      → Gives
          (collected r codec q (text_of (bulk_of o)) e)
          (ok (letter codec o))
          (Online r q.name v)
  unfolding collected
  collected-letter none e o = record { returns = refl; leaves = o }
  collected-letter (some content) e o = elim (Option-cases (codec.unmarshal content)) [
    | inl p ↦ rw p (record { returns = refl; leaves = o })
    | inr (msg, p) ↦ rw p (record { returns = refl; leaves = o })
  ]

  collect-Gives :
      (ids : List Text) {v : View} (e : Env r.Db)
      → Online r q.name v e
      → Gives
          (collect r codec q (map (message_key q.name) ids) e)
          (ok (letters codec v ids))
          (Online r q.name v)
  unfolding collect letters
  collect-Gives [] e o = record { returns = refl; leaves = o }
  collect-Gives (id ∷ ids) {v} e o =
      after-Gives (λ content. collected r codec q content >>= joined) _
        (attempt-Gives _
          (query-Gives r q.name text_of e o.net (Commands.get-message r q.name o.holds id)))
        λ e o. after-Gives joined _ (collected-letter (v.message id) e o) λ e o.
          after-Gives (λ rest. pure (letter codec (v.message id) ++ rest)) _ (collect-Gives ids e o)
            λ e o. record { returns = refl; leaves = o }
    where
      joined : List Message → Action (Env r.Db) Error (List Message)
      joined msgs = collect r codec q (map (message_key q.name) ids) >>= λ rest. pure (msgs ++ rest)

  -- With every call answered, GetDeadLetters returns, in the order of the list and without
  -- changing the queue, those of the first `limit` dead letters whose data is there and can be
  -- read; for the limit 0 it looks at all dead letters.
  pub get_dead_letters-letters :
      (limit : ℕ) {v : View} (e : Env r.Db)
      → Online r q.name v e
      → Gives
          (get_dead_letters r codec q limit e)
          (ok (letters codec v (wanted limit v.dead)))
          (Online r q.name v)
  unfolding get_dead_letters
  get_dead_letters-letters limit {v} e o =
      after-Gives (collect r codec q) _
        (wrap-Gives (failed getting_dead_keys) _ (
          query-Gives r q.name texts_of e o.net
            (Commands.lrange-dead r q.name o.holds (stop_of limit))))
        λ e o.
          rw (until-wanted (message_key q.name) limit v.dead)
            (collect-Gives (wanted limit v.dead) e o)
