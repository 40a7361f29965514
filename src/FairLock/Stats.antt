-- ===== src/FairLock/Stats.antt =====
-- GetStats of the fair lock (lock/fair_lock.go).
use remix.Base.{
  false, ℕ, ◌≡◌, refl, ap, List, [], ◌∷◌, map, Option, none, some, ok, Result, Gives, after-Gives,
  attempt-Gives, wrap-Gives, Text, length, pos, ltb, sub_ℕ,
}
use remix.Redis.Value.{amount, field}
use remix.Redis.Command.{Command, Reply, get, zcard, hmget, target}
use remix.Redis.Server.{Redis}
use remix.Redis.Client
use remix.Redis.Client.{Fault, Env, query}
use remix.Lock.Types.{Json, LockInfo, plain}
use remix.Lock.Keys.{lock_key, stats_key, queue_key, total_acquired, total_released}
use remix.Lock.Ops.{Lock, get_lock_info, info_read, unmarshalled}
use remix.Lock.View
use remix.Lock.View.{View, Holds, Online}
use remix.FairLock.Types.{Doubles, LockStats, total_timeout_field}
use remix.FairLock.Ops.{get_queue_length, get_stats, with_info, with_totals}
use remix.FairLock.View.{
  Queued, Queued-elsewhere, Holds_queue, zcard-queue, lock-ne-queue, stats-ne-queue,
}

module _ (r : Redis) (j : Json) (q : Doubles) (l : Lock) (v : View) (z : List (Text × ℕ)) where
  abbrev pub Shown : Env r.Db → Type 0
  Shown e = Online r l.name v e × Queued r l.name z e.db

  query-Shown :
      {A : Type 0} (c : Command) {reply : Reply} (read : Reply → Result Fault A) (e : Env r.Db)
      → Shown e
      → (r.run c e.db).0 ≡ reply
      → Holds r l.name (r.run c e.db).1 v
      → Queued r l.name z (r.run c e.db).1
      → Gives (query r c read e) (read reply) Shown
  query-Shown c read e (p, s) a h k =
      rw (p.net) (record { returns = ap read a; leaves = (record { holds = h; net = refl }, k) })

  -- What `GetStats` tells of a lock with this information.
  abbrev pub stats_of : ℕ → ℕ → Option LockInfo → LockStats
  stats_of now later none = record {
    name = l.name;
    is_locked = false;
    owner = [];
    hold_count = 0;
    remaining_ttl = pos 0;
    waiting_threads = length z;
    total_acquired = amount total_acquired v.stats;
    total_released = amount total_released v.stats;
    total_timeout = amount total_timeout_field v.stats;
  }
  stats_of now later (some info) = record {
    name = l.name;
    is_locked = ltb now info.expire_time;
    owner = info.owner;
    hold_count = info.hold_count;
    remaining_ttl = sub_ℕ info.expire_time later;
    waiting_threads = length z;
    total_acquired = amount total_acquired v.stats;
    total_released = amount total_released v.stats;
    total_timeout = amount total_timeout_field v.stats;
  }

  -- The information behind the stored text, where it can be read.
  abbrev pub Informs : Option Text → Option LockInfo → Type 0
  Informs none none = Unit {0}
  Informs none (some i) = ⊥
  Informs (some s) none = ⊥
  Informs (some s) (some i) = unmarshalled r j l s ≡ some i

  informed :
      (o : Option Text) (i : Option LockInfo) (e : Env r.Db)
      → Informs o i
      → info_read r j l (Client.text_of (remix.Redis.Command.bulk_of o)) e ≡ (ok i, e)
  unfolding info_read
  informed none none e h = refl
  informed (some s) (some i) e h = rw h refl
  informed none (some i) e h = absurd h
  informed (some s) none e h = absurd h

  info-Shown :
      (i : Option LockInfo) (e : Env r.Db)
      → Informs v.stored i
      → Shown e
      → Gives (get_lock_info r j l e) (ok i) Shown
  unfolding get_lock_info
  info-Shown i e k (p, s) =
      let g = View.get-stored r l.name p.holds in
      after-Gives (info_read r j l) _
        (attempt-Gives _ (
          query-Shown (get (lock_key l.name)) Client.text_of e (p, s) g.replies g.holds
            (Queued-elsewhere r l.name (get (lock_key l.name)) e.db (lock-ne-queue l.name) s)))
        λ e s. rw (informed v.stored i e k) (record { returns = refl; leaves = s })

  length-Shown : (e : Env r.Db) → Shown e → Gives (get_queue_length r j q l e) (ok (length z)) Shown
  unfolding get_queue_length
  length-Shown e (p, s) =
      let g = zcard-queue r l.name s in
      wrap-Gives plain _ (
        query-Shown (zcard (queue_key l.name)) Client.int_of e (p, s) g.replies
          (Holds_queue r l.name (zcard (queue_key l.name)) e.db refl p.holds) g.queue)

  filled :
      (now later : ℕ) (i : Option LockInfo)
      → with_totals r j q l
          (map (λ f. field f v.stats) (total_acquired ∷ total_released ∷ total_timeout_field ∷ []))
          (with_info r j q l now later i (record {
            name = l.name;
            is_locked = false;
            owner = [];
            hold_count = 0;
            remaining_ttl = pos 0;
            waiting_threads = length z;
            total_acquired = 0;
            total_released = 0;
            total_timeout = 0;
          }))
        ≡ stats_of now later i
  filled now later none = refl
  filled now later (some i) = refl

  -- With every call answered: when nothing is stored for the lock, or information that Go can
  -- read, the statistics have the length of the queue and the three counters; with information
  -- also its owner and hold count, whether its expiry is later than the first clock reading, and
  -- the time from the second reading to its expiry, negative once it has passed; without
  -- information not locked, no owner, no hold and no time left. Nothing changes.
  pub get_stats-Shown :
      (now later : ℕ) (i : Option LockInfo) (e : Env r.Db)
      → Informs v.stored i
      → Shown e
      → Gives (get_stats r j q l now later e) (ok (stats_of now later i)) Shown
  unfolding get_stats
  get_stats-Shown now later i e k s = after-Gives _ _ (info-Shown i e k s) λ e s.
      after-Gives _ _ (length-Shown e s) λ e (p, s).
        let c =
          hmget (stats_key l.name) (total_acquired ∷ total_released ∷ total_timeout_field ∷ []) in
        let g =
          View.hmget-stats r l.name p.holds
            (total_acquired ∷ total_released ∷ total_timeout_field ∷ []) in
        after-Gives _ _
          (wrap-Gives plain _ (
            query-Shown c Client.ints_of e (p, s) g.replies g.holds
              (Queued-elsewhere r l.name c e.db (stats-ne-queue l.name) s)))
          λ e s. record { returns = ap ok (filled now later i); leaves = s }
