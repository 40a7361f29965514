-- ===== src/Redis/Server.antt =====
-- The interface of a Redis server: a keyspace that can be read key by key, and commands that act on
-- it as documented. The server runs one command, script or transaction at a time.
use remix.Base.{◌≡◌, if◌then◌else◌, Text, text_eq}
use remix.Redis.Value.{Value}
use remix.Redis.Command.{Command, Reply, target, exec}

-- The whole keyspace after a command.
abbrev pub step : Command → (Text → Value) → Text → Value
step c ks k = if text_eq (target c) k then (exec c (ks (target c))).1 else ks k

pub record Redis : Type 1 where
  pub Db : Type 0
  pub value : Db → Text → Value
  pub run : Command → Db → Reply × Db
  pub run_reply : (c : Command) (d : Db) → (run c d).0 ≡ (exec c (value d (target c))).0
  pub run_value : (c : Command) (d : Db) → value (run c d).1 ≡ step c (value d)
