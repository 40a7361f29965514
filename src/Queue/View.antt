-- ===== src/Queue/View.antt =====
-- The abstract queue: what a client sees of the keys of one queue, by message identifiers. The
-- list heads are the newest entries, as LPUSH leaves them.
pub mod Commands
use remix.Base.{
  ℕ, ◌≡◌, refl, ◌∙◌, Bool, true, false, List, [], ◌∷◌, map, Option, none, some, Text, text_eq,
  text_eq_refl, text_eq→eq, fun_ext, ap, if◌then◌else◌, Bool-cases, inl, inr,
}
use remix.Redis.Value.{Value, as_string, as_list, as_counts, as_zset}
use remix.Redis.Command.{Command, Reply, target, exec}
use remix.Redis.Server.{Redis, step}
use remix.Redis.Rename.{rename}
use remix.Queue.Keys.{message_key}
use remix.Queue.Slots.{Slot, pending, processing, dead, delayed, stats, message, same, key, key_eq}

pub record View : Type 0 where
  pub pending : List Text
  pub processing : List (Text × ℕ)
  pub delayed : List (Text × ℕ)
  pub dead : List Text
  pub stats : List (Text × ℕ)
  pub message : Text → Option Text

-- The contents of a keyspace under the keys of the queue named `n`.
pub record Shows (n : Text) (ks : Text → Value) (v : View) : Type 0 where
  pub pending : as_list (ks (key n pending)) ≡ some (map (message_key n) v.pending)
  pub processing : as_zset (ks (key n processing)) ≡ some (rename (message_key n) v.processing)
  pub delayed : as_zset (ks (key n delayed)) ≡ some (rename (message_key n) v.delayed)
  pub dead : as_list (ks (key n dead)) ≡ some (map (message_key n) v.dead)
  pub stats : as_counts (ks (key n stats)) ≡ some v.stats
  pub message : (id : Text) → as_string (ks (key n (message id))) ≡ some (v.message id)

-- A message's data written or deleted.
abbrev pub put_at : Text → Option Text → (Text → Option Text) → Text → Option Text
put_at id s f j = if text_eq id j then s else f j

module _ (n : Text) (c : Command) (ks : Text → Value) where
  step_self : (s : Slot) → target c ≡ key n s → step c ks (key n s) ≡ (exec c (ks (key n s))).1
  step_self s e = rw (e, text_eq_refl (key n s))

  step-other :
      (s t : Slot) → target c ≡ key n s → same s t ≡ false → step c ks (key n t) ≡ ks (key n t)
  step-other s t e d = rw (e, key_eq n s t, d)

module _ (r : Redis) (n : Text) where
  open r use {Db, value, run, run_reply, run_value}

  abbrev pub Holds : Db → View → Type 0
  Holds d v = Shows n (value d) v

  -- A command replies and leaves the queue as told.
  pub record Runs (c : Command) (d : Db) (reply : Reply) (v : View) : Type 0 where
    pub replies : (run c d).0 ≡ reply
    pub holds : Holds (run c d).1 v

  module _ (c : Command) {d : Db} {v : View} (h : Holds d v) where
    message_after :
        (i : Text) (s : Option Text)
        → target c ≡ key n (message i)
        → as_string (exec c (value d (key n (message i)))).1 ≡ some s
        → (j : Text)
        → as_string (step c (value d) (key n (message j))) ≡ some (put_at i s v.message j)
    message_after i s e b j =
        rw (e, key_eq n (message i) (message j))
          (elim (Bool-cases (text_eq i j)) [ inl p ↦ rw p b | inr p ↦ rw p (h.message j) ])

    step-same :
        (exec c (value d (target c))).1 ≡ value d (target c)
        → (k : Text) → step c (value d) k ≡ value d k
    step-same e k = elim (Bool-cases (text_eq (target c) k)) [
      | inl p ↦ rw (p, e) (ap (value d) (text_eq→eq (target c) k p))
      | inr p ↦ rw p
    ]

    -- A command that only reads.
    pub Runs-same :
        {reply : Reply}
        → (exec c (value d (target c))).0 ≡ reply
        → (exec c (value d (target c))).1 ≡ value d (target c)
        → Runs c d reply v
    Runs-same a b = record {
      replies = run_reply c d ∙ a;
      holds = rw (run_value c d, fun_ext (step-same b)) h;
    }

  module _ (c : Command) {d : Db} {v : View} (h : Holds d v) {reply : Reply} where
    pub Runs-pending :
        (xs : List Text)
        → target c ≡ key n pending
        → (exec c (value d (key n pending))).0 ≡ reply
        → as_list (exec c (value d (key n pending))).1 ≡ some (map (message_key n) xs)
        → Runs c d reply (record v { pending = xs })
    Runs-pending xs e a b = record {
      replies = rw (run_reply c d, e) a;
      holds = rw (run_value c d) (record {
        pending = rw (step_self n c (value d) pending e) b;
        processing = rw (step-other n c (value d) pending processing e refl) h.processing;
        delayed = rw (step-other n c (value d) pending delayed e refl) h.delayed;
        dead = rw (step-other n c (value d) pending dead e refl) h.dead;
        stats = rw (step-other n c (value d) pending stats e refl) h.stats;
        message = λ id. rw (step-other n c (value d) pending (message id) e refl) (h.message id);
      });
    }

    pub Runs-processing :
        (z : List (Text × ℕ))
        → target c ≡ key n processing
        → (exec c (value d (key n processing))).0 ≡ reply
        → as_zset (exec c (value d (key n processing))).1 ≡ some (rename (message_key n) z)
        → Runs c d reply (record v { processing = z })
    Runs-processing z e a b = record {
      replies = rw (run_reply c d, e) a;
      holds = rw (run_value c d) (record {
        pending = rw (step-other n c (value d) processing pending e refl) h.pending;
        processing = rw (step_self n c (value d) processing e) b;
        delayed = rw (step-other n c (value d) processing delayed e refl) h.delayed;
        dead = rw (step-other n c (value d) processing dead e refl) h.dead;
        stats = rw (step-other n c (value d) processing stats e refl) h.stats;
        message = λ id. rw (step-other n c (value d) processing (message id) e refl) (h.message id);
      });
    }

    pub Runs-delayed :
        (z : List (Text × ℕ))
        → target c ≡ key n delayed
        → (exec c (value d (key n delayed))).0 ≡ reply
        → as_zset (exec c (value d (key n delayed))).1 ≡ some (rename (message_key n) z)
        → Runs c d reply (record v { delayed = z })
    Runs-delayed z e a b = record {
      replies = rw (run_reply c d, e) a;
      holds = rw (run_value c d) (record {
        pending = rw (step-other n c (value d) delayed pending e refl) h.pending;
        processing = rw (step-other n c (value d) delayed processing e refl) h.processing;
        delayed = rw (step_self n c (value d) delayed e) b;
        dead = rw (step-other n c (value d) delayed dead e refl) h.dead;
        stats = rw (step-other n c (value d) delayed stats e refl) h.stats;
        message = λ id. rw (step-other n c (value d) delayed (message id) e refl) (h.message id);
      });
    }

    pub Runs-dead :
        (xs : List Text)
        → target c ≡ key n dead
        → (exec c (value d (key n dead))).0 ≡ reply
        → as_list (exec c (value d (key n dead))).1 ≡ some (map (message_key n) xs)
        → Runs c d reply (record v { dead = xs })
    Runs-dead xs e a b = record {
      replies = rw (run_reply c d, e) a;
      holds = rw (run_value c d) (record {
        pending = rw (step-other n c (value d) dead pending e refl) h.pending;
        processing = rw (step-other n c (value d) dead processing e refl) h.processing;
        delayed = rw (step-other n c (value d) dead delayed e refl) h.delayed;
        dead = rw (step_self n c (value d) dead e) b;
        stats = rw (step-other n c (value d) dead stats e refl) h.stats;
        message = λ id. rw (step-other n c (value d) dead (message id) e refl) (h.message id);
      });
    }

    pub Runs-stats :
        (f : List (Text × ℕ))
        → target c ≡ key n stats
        → (exec c (value d (key n stats))).0 ≡ reply
        → as_counts (exec c (value d (key n stats))).1 ≡ some f
        → Runs c d reply (record v { stats = f })
    Runs-stats f e a b = record {
      replies = rw (run_reply c d, e) a;
      holds = rw (run_value c d) (record {
        pending = rw (step-other n c (value d) stats pending e refl) h.pending;
        processing = rw (step-other n c (value d) stats processing e refl) h.processing;
        delayed = rw (step-other n c (value d) stats delayed e refl) h.delayed;
        dead = rw (step-other n c (value d) stats dead e refl) h.dead;
        stats = rw (step_self n c (value d) stats e) b;
        message = λ id. rw (step-other n c (value d) stats (message id) e refl) (h.message id);
      });
    }

    pub Runs-message :
        (i : Text) (s : Option Text)
        → target c ≡ key n (message i)
        → (exec c (value d (key n (message i)))).0 ≡ reply
        → as_string (exec c (value d (key n (message i)))).1 ≡ some s
        → Runs c d reply (record v { message = put_at i s v.message })
    Runs-message i s e a b = record {
      replies = rw (run_reply c d, e) a;
      holds = rw (run_value c d) (record {
        pending = rw (step-other n c (value d) (message i) pending e refl) h.pending;
        processing = rw (step-other n c (value d) (message i) processing e refl) h.processing;
        delayed = rw (step-other n c (value d) (message i) delayed e refl) h.delayed;
        dead = rw (step-other n c (value d) (message i) dead e refl) h.dead;
        stats = rw (step-other n c (value d) (message i) stats e refl) h.stats;
        message = λ j. message_after c h i s e b j;
      });
    }
