-- ===== src/Redis/Client.antt =====
-- Scripts, transactions and single commands as the Go client sends them, and the network between.
use remix.Base.{ℕ, List, [], ◌∷◌, Option, none, some, Result, ok, err, Action, Text}
use remix.Redis.Command.{Command, Reply, nil, int, bulk, bulks, ints, error}
use remix.Redis.Server.{Redis}

-- The errors of the client: no answer, the nil reply (`redis.Nil`), an error reply.
pub data Fault : Type 0 where
  unreachable redis_nil error_reply : Fault

-- What happens to one call: it is answered, it never reaches the server, or it takes effect and
-- the answer is lost.
pub data Outcome : Type 0 where
  answered lost unanswered : Outcome

-- The server, and the fate of the next calls. When the list is used up, calls are answered.
pub record Env (D : Type 0) : Type 0 where
  pub db : D
  pub net : List Outcome

abbrev pub send :
    {D A : Type 0} → List Outcome → (D → Result Fault A × D) → D → Result Fault A × Env D
send [] f d = ((f d).0, record { db = (f d).1; net = [] })
send (answered ∷ n) f d = ((f d).0, record { db = (f d).1; net = n })
send (lost ∷ n) f d = (err unreachable, record { db = d; net = n })
send (unanswered ∷ n) f d = (err unreachable, record { db = (f d).1; net = n })

-- One round trip to the server.
abbrev pub call : {D A : Type 0} → Action D Fault A → Action (Env D) Fault A
call f e = send e.net f e.db

abbrev pub checked : Reply → Result Fault Reply
checked error = err error_reply
checked r = ok r

-- The readings of a reply in Go: a missing value is the error `redis.Nil`.
abbrev pub text_of : Reply → Result Fault Text
text_of (bulk s) = ok s
text_of nil = err redis_nil
text_of _ = err error_reply

abbrev pub int_of : Reply → Result Fault ℕ
int_of (int n) = ok n
int_of nil = err redis_nil
int_of _ = err error_reply

abbrev pub texts_of : Reply → Result Fault (List Text)
texts_of (bulks xs) = ok xs
texts_of _ = err error_reply

abbrev pub ints_of : Reply → Result Fault (List (Option ℕ))
ints_of (ints xs) = ok xs
ints_of _ = err error_reply

-- The same readings in Lua, where a missing value is `false`; there a reply of another kind than
-- the command's own cannot come up.
abbrev pub lua_text : Reply → Option Text
lua_text (bulk s) = some s
lua_text _ = none

abbrev pub lua_int : Reply → Option ℕ
lua_int (int n) = some n
lua_int _ = none

abbrev pub lua_texts : Reply → List Text
lua_texts (bulks xs) = xs
lua_texts _ = []

module _ (r : Redis) where
  open r use {Db, run}

  -- `redis.call` in a script, and a single command: an error reply is raised.
  abbrev pub redis_call : Command → Action Db Fault Reply
  redis_call c d = (checked (run c d).0, (run c d).1)

  -- A single command of the client, with its answer read as the method's result type.
  abbrev pub query : {A : Type 0} → Command → (Reply → Result Fault A) → Action (Env Db) Fault A
  query c read = call (λ d. (read (run c d).0, (run c d).1))

  -- MULTI ... EXEC: every queued command is run, and the first error reply is returned.
  abbrev pub worse : Result Fault (Unit {0}) → Result Fault (Unit {0}) → Result Fault (Unit {0})
  worse (ok _) s = s
  worse (err e) s = err e

  abbrev pub done : Result Fault Reply → Result Fault (Unit {0})
  done (ok _) = ok tt
  done (err e) = err e

  unfoldable pub transaction : List Command → Action Db Fault (Unit {0})
  transaction [] d = (ok tt, d)
  transaction (c ∷ cs) d =
      let rest = transaction cs (run c d).1 in (worse (done (checked (run c d).0)) rest.0, rest.1)
