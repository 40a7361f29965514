-- ===== src/Lock/View.antt =====
-- The keys of one lock: what its scripts and commands see and change.
use remix.Base.{
  ℕ, suc, ◌+◌, ◌≡◌, refl, ap, ◌∙◌, false, List, map, [], ◌++◌, Option, none, some, Result, Action,
  Gives, Text, bytes, text_eq, text_eq_refl, text_eq_comm, text_eq-append, text_eq_longer,
}
use remix.Redis.Value.{Value, as_string, as_counts, increase, amount, field}
use remix.Redis.Hashes.{hincrby-counts, hmget-counts}
use remix.Redis.Command.{
  Command, Reply, status, int, ints, hmget, get, set_ex, set_expiring, del, hincrby, bulk_of,
  target, exec, deleted,
}
use remix.Redis.Server.{Redis}
use remix.Redis.Client.{Fault, Env, call, query, checked, redis_call}
use remix.Lock.Keys.{lock_key, stats_key}

-- The two keys are different.
lock-ne-stats : (n : Text) → text_eq (lock_key n) (stats_key n) ≡ false
unfolding lock_key stats_key
lock-ne-stats n = text_eq-append (bytes "lock:") n (n ++ bytes ":stats") ∙ text_eq_longer n _ _

stats-ne-lock : (n : Text) → text_eq (stats_key n) (lock_key n) ≡ false
stats-ne-lock n = text_eq_comm (stats_key n) (lock_key n) ∙ lock-ne-stats n

-- The stored information of the lock, and its counters.
pub record View : Type 0 where
  pub stored : Option Text
  pub stats : List (Text × ℕ)

pub record Shows (n : Text) (ks : Text → Value) (v : View) : Type 0 where
  pub stored : as_string (ks (lock_key n)) ≡ some v.stored
  pub stats : as_counts (ks (stats_key n)) ≡ some v.stats

module _ (r : Redis) (n : Text) where
  open r use {Db, value, run, run_reply, run_value}

  abbrev pub Holds : Db → View → Type 0
  Holds d v = Shows n (value d) v

  pub record Runs (c : Command) (d : Db) (reply : Reply) (v : View) : Type 0 where
    pub replies : (run c d).0 ≡ reply
    pub holds : Holds (run c d).1 v

  -- The server shows the lock `v`, and no call will be lost.
  pub record Online (v : View) (e : Env Db) : Type 0 where
    pub holds : Holds e.db v
    pub net : e.net ≡ []

  module _ (c : Command) {d : Db} {v : View} (h : Holds d v) {reply : Reply} where
    Runs-stored :
        (s : Option Text)
        → target c ≡ lock_key n
        → (exec c (value d (lock_key n))).0 ≡ reply
        → as_string (exec c (value d (lock_key n))).1 ≡ some s
        → Runs c d reply (record v { stored = s })
    Runs-stored s e a b = record {
      replies = rw (run_reply c d, e) a;
      holds = rw (run_value c d) (record {
        stored = rw (e, text_eq_refl (lock_key n)) b;
        stats = rw (e, lock-ne-stats n) h.stats;
      });
    }

    Runs-stats :
        (f : List (Text × ℕ))
        → target c ≡ stats_key n
        → (exec c (value d (stats_key n))).0 ≡ reply
        → as_counts (exec c (value d (stats_key n))).1 ≡ some f
        → Runs c d reply (record v { stats = f })
    Runs-stats f e a b = record {
      replies = rw (run_reply c d, e) a;
      holds = rw (run_value c d) (record {
        stored = rw (e, stats-ne-lock n) h.stored;
        stats = rw (e, text_eq_refl (stats_key n)) b;
      });
    }

  module _ {d : Db} {v : View} (h : Holds d v) where
    pub get-stored : Runs (get (lock_key n)) d (bulk_of v.stored) v
    unfolding exec
    get-stored =
        Runs-stored (get (lock_key n)) h v.stored refl (rw h.stored) (rw (h.stored, h.stored))

    -- GET, where it is known what is stored.
    pub get_known : {o : Option Text} → v.stored ≡ o → Runs (get (lock_key n)) d (bulk_of o) v
    get_known e =
        let s = get-stored in record { replies = s.replies ∙ ap bulk_of e; holds = s.holds }

    pub set_ex-stored :
        (s : Text) (t : ℕ)
        → Runs (set_ex (lock_key n) s (suc t)) d status (record v { stored = some s })
    unfolding exec
    set_ex-stored s t = Runs-stored (set_ex (lock_key n) s (suc t)) h (some s) refl refl refl

    pub set_expiring-stored :
        (s : Text) (t : ℕ)
        → Runs (set_expiring (lock_key n) s t) d status (record v { stored = some s })
    unfolding exec
    set_expiring-stored s t = Runs-stored (set_expiring (lock_key n) s t) h (some s) refl refl refl

    pub hincrby-stats :
        (f : Text) (m : ℕ)
        → Runs
            (hincrby (stats_key n) f m)
            d
            (int (amount f v.stats + m))
            (record v { stats = increase f m v.stats })
    hincrby-stats f m =
        let (a, b) = hincrby-counts f (stats_key n) m (value d (stats_key n)) v.stats h.stats in
        Runs-stats (hincrby (stats_key n) f m) h (increase f m v.stats) refl a b

    -- HMGET of the counters.
    pub hmget-stats :
        (fs : List Text) → Runs (hmget (stats_key n) fs) d (ints (map (λ f. field f v.stats) fs)) v
    hmget-stats fs =
        let (a, b) = hmget-counts (stats_key n) fs (value d (stats_key n)) v.stats h.stats in
        Runs-stats (hmget (stats_key n) fs) h v.stats refl a b

  -- DEL replies with the number of deleted keys.
  deleted_count :
      (x : Value) (o : Option Text)
      → as_string x ≡ some o
      → deleted x ≡ (elim o [ none ↦ 0 | some _ ↦ 1 ])
  deleted_count Value.absent none e = refl
  deleted_count Value.absent (some s) e = cc e
  deleted_count (Value.string t) none e = cc e
  deleted_count (Value.string t) (some s) e = refl
  deleted_count (Value.list xs) o e = cc e
  deleted_count (Value.hash f) o e = cc e
  deleted_count (Value.zset z) o e = cc e

  pub del-stored :
      {d : Db} {v : View}
      → Holds d v
      → Runs
          (del (lock_key n))
          d
          (int (elim v.stored [ none ↦ 0 | some _ ↦ 1 ]))
          (record v { stored = none })
  unfolding exec
  del-stored {d} {v} h =
      Runs-stored (del (lock_key n)) h none refl
        (ap int (deleted_count (value d (lock_key n)) v.stored h.stored)) refl

  pub redis_call-Gives :
      {c : Command} {d : Db} {reply : Reply} {v : View}
      → Runs c d reply v
      → Gives (redis_call r c d) (checked reply) (λ d'. Holds d' v)
  redis_call-Gives s = record { returns = ap checked s.replies; leaves = s.holds }

  pub call-Gives :
      {A : Type 0} {v : View} {res : Result Fault A} (f : Action Db Fault A) (e : Env Db)
      → e.net ≡ []
      → Gives (f e.db) res (λ d'. Holds d' v)
      → Gives (call f e) res (Online v)
  call-Gives f e p g =
      rw p (record { returns = g.returns; leaves = record { holds = g.leaves; net = refl } })

  pub query-Gives :
      {A : Type 0} {c : Command} {reply : Reply} {v : View} (read : Reply → Result Fault A)
      (e : Env Db)
      → e.net ≡ []
      → Runs c e.db reply v
      → Gives (query r c read e) (read reply) (Online v)
  query-Gives read e p s =
      rw p (record { returns = ap read s.replies; leaves = record { holds = s.holds; net = refl } })
