-- ===== src/Queue/Refine/Online.antt =====
-- From one command to a script, a method and a transaction, while every call is answered.
use remix.Base.{◌≡◌, refl, ap, List, [], ◌∷◌, Result, ok, Action, Gives, Text}
use remix.Redis.Command.{Command, Reply}
use remix.Redis.Server.{Redis}
use remix.Redis.Client.{Fault, Env, call, query, checked, redis_call, transaction}
use remix.Queue.View.{View, Holds, Runs}

module _ (r : Redis) (n : Text) where
  open r use {Db}

  -- The server shows the queue `v`, and no call will be lost.
  pub record Online (v : View) (e : Env Db) : Type 0 where
    pub holds : Holds r n e.db v
    pub net : e.net ≡ []

  pub redis_call-Gives :
      {c : Command} {d : Db} {reply : Reply} {v : View}
      → Runs r n c d reply v
      → Gives (redis_call r c d) (checked reply) (λ d'. Holds r n d' v)
  redis_call-Gives s = record { returns = ap checked s.replies; leaves = s.holds }

  pub call-Gives :
      {A : Type 0} {v : View} {res : Result Fault A} (f : Action Db Fault A) (e : Env Db)
      → e.net ≡ []
      → Gives (f e.db) res (λ d'. Holds r n d' v)
      → Gives (call f e) res (Online v)
  call-Gives f e p g =
      rw p (record { returns = g.returns; leaves = record { holds = g.leaves; net = refl } })

  pub query-Gives :
      {A : Type 0} {c : Command} {reply : Reply} {v : View} (read : Reply → Result Fault A)
      (e : Env Db)
      → e.net ≡ []
      → Runs r n c e.db reply v
      → Gives (query r c read e) (read reply) (Online v)
  query-Gives read e p s =
      rw p (record { returns = ap read s.replies; leaves = record { holds = s.holds; net = refl } })

  pub transaction-nil-Gives :
      {d : Db} {v : View}
      → Holds r n d v
      → Gives (transaction r [] d) (ok tt) (λ d'. Holds r n d' v)
  unfolding transaction
  transaction-nil-Gives h = record { returns = refl; leaves = h }

  -- A transaction runs its commands in turn.
  pub transaction-cons-Gives :
      {c : Command} {d : Db} {reply : Reply} {v w : View} (cs : List Command)
      → Runs r n c d reply v
      → checked reply ≡ ok reply
      → ((d' : Db) → Holds r n d' v → Gives (transaction r cs d') (ok tt) (λ d''. Holds r n d'' w))
      → Gives (transaction r (c ∷ cs) d) (ok tt) (λ d'. Holds r n d' w)
  unfolding transaction
  transaction-cons-Gives {c} {d} cs s e k =
      let g = k (r.run c d).1 s.holds in
      record { returns = rw (s.replies, e) g.returns; leaves = g.leaves }
