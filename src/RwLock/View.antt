-- ===== src/RwLock/View.antt =====
-- The keys of one read-write lock: what its scripts and commands see and change.
pub mod Commands
use remix.Base.{
  ℕ, zero, suc, ◌+◌, ◌≡◌, refl, ap, sym, subst, ◌∙◌, Bool, true, false, List, [], ◌∷◌, Option, none,
  some, ok, err, Result, Action, Gives, Text, text_eq, text_eq_refl, if◌then◌else◌, Bool-cases, inl,
  inr, length, ℤ, pos, sub_ℕ,
}
use remix.Redis.Value.{
  Value, Cell, number, text, as_string, as_hash, as_counts, of_hash, field, put, erase, sum_of,
  increase, amount,
}
use remix.Redis.Hashes.{hincrby-counts}
use remix.Redis.Command.{
  Command, Reply, status, int, error, get, set_ex, del, hincrby, hdecrby, hset, hget, hdel, hlen,
  hexists, expire, exists, bulk_of, cell_of, integer, present, added_to, target, exec, deleted,
}
use remix.Redis.Server.{Redis, step}
use remix.Redis.Client.{Fault, Env, call, query, checked, redis_call}
use remix.RwLock.Keys.{Slot, readers, counts, writer, stats, same, key, key_eq, same→eq}

-- The readers with their data, their counts, the stored writer and the counters.
pub record View : Type 0 where
  pub readers : List (Text × Cell)
  pub counts : List (Text × Cell)
  pub writer : Option Text
  pub stats : List (Text × ℕ)

-- What a slot's value shows of the lock.
abbrev pub At : Slot → Value → View → Type 0
At readers x v = as_hash x ≡ some v.readers
At counts x v = as_hash x ≡ some v.counts
At writer x v = as_string x ≡ some v.writer
At stats x v = as_counts x ≡ some v.stats

pub record Shows (n : Text) (ks : Text → Value) (v : View) : Type 0 where
  pub at : (s : Slot) → At s (ks (key n s)) v

-- The slots of `w` besides `s` are those of `v`.
abbrev pub Differs : Slot → View → View → Type 0
Differs s v w = (t : Slot) → same s t ≡ false → (x : Value) → At t x v → At t x w

pub only_readers :
    (v : View) (h : List (Text × Cell)) → Differs readers v (record v { readers = h })
only_readers v h readers p x a = cc
only_readers v h counts p x a = a
only_readers v h writer p x a = a
only_readers v h stats p x a = a

pub only_counts : (v : View) (h : List (Text × Cell)) → Differs counts v (record v { counts = h })
only_counts v h readers p x a = a
only_counts v h counts p x a = cc
only_counts v h writer p x a = a
only_counts v h stats p x a = a

pub only_writer : (v : View) (s : Option Text) → Differs writer v (record v { writer = s })
only_writer v h readers p x a = a
only_writer v h counts p x a = a
only_writer v h writer p x a = cc
only_writer v h stats p x a = a

pub only_stats : (v : View) (h : List (Text × ℕ)) → Differs stats v (record v { stats = h })
only_stats v h readers p x a = a
only_stats v h counts p x a = a
only_stats v h writer p x a = a
only_stats v h stats p x a = cc

pub as_hash-of_hash : (h : List (Text × Cell)) → as_hash (of_hash h) ≡ some h
as_hash-of_hash [] = refl
as_hash-of_hash (x ∷ h) = refl

module _ (r : Redis) (n : Text) where
  open r use {Db, value, run, run_reply, run_value}

  abbrev pub Holds : Db → View → Type 0
  Holds d v = Shows n (value d) v

  pub record Runs (c : Command) (d : Db) (reply : Reply) (v : View) : Type 0 where
    pub replies : (run c d).0 ≡ reply
    pub holds : Holds (run c d).1 v

  -- The server shows the lock `v`, and no call will be lost.
  pub record Online (v : View) (e : Env Db) : Type 0 where
    pub holds : Holds e.db v
    pub net : e.net ≡ []

  module _ {d : Db} {v : View} (h : Holds d v) where
    -- A command on one slot.
    pub Runs-slot :
        (c : Command) (s : Slot) {reply : Reply} (w : View)
        → target c ≡ key n s
        → (exec c (value d (key n s))).0 ≡ reply
        → At s (exec c (value d (key n s))).1 w
        → Differs s v w
        → Runs c d reply w
    Runs-slot c s w e a b others = record {
      replies = rw (run_reply c d, e) a;
      holds = rw (run_value c d) (record {
        at = λ t. elim (Bool-cases (same s t)) [
          | inl p ↦
              subst (λ t. At t (step c (value d) (key n t)) w) (same→eq s t p)
                (subst (λ x. At s x w) (sym (here e)) b)
          | inr p ↦ subst (λ x. At t x w) (sym (elsewhere t e p)) (others t p _ (h.at t))
        ];
      });
    }
      where
        here : target c ≡ key n s → step c (value d) (key n s) ≡ (exec c (value d (key n s))).1
        here e = rw (e, text_eq_refl (key n s))

        elsewhere :
            (t : Slot)
            → target c ≡ key n s
            → same s t ≡ false
            → step c (value d) (key n t) ≡ value d (key n t)
        elsewhere t e p = rw (e, key_eq n s t, p)

  pub redis_call-Gives :
      {c : Command} {d : Db} {reply : Reply} {v : View}
      → Runs c d reply v
      → Gives (redis_call r c d) (checked reply) (λ d'. Holds d' v)
  redis_call-Gives s = record { returns = ap checked s.replies; leaves = s.holds }

  pub call-Gives :
      {A : Type 0} {v : View} {res : Result Fault A} (f : Action Db Fault A) (e : Env Db)
      → e.net ≡ []
      → Gives (f e.db) res (λ d'. Holds d' v)
      → Gives (call f e) res (Online v)
  call-Gives f e p g =
      rw p (record { returns = g.returns; leaves = record { holds = g.leaves; net = refl } })

  pub query-Gives :
      {A : Type 0} {c : Command} {reply : Reply} {v : View} (read : Reply → Result Fault A)
      (e : Env Db)
      → e.net ≡ []
      → Runs c e.db reply v
      → Gives (query r c read e) (read reply) (Online v)
  query-Gives read e p s =
      rw p (record { returns = ap read s.replies; leaves = record { holds = s.holds; net = refl } })
