-- ===== src/Redis/Memory.antt =====
-- A server that keeps its keyspace as a function: it shows that the interface can be met.
use remix.Base.{refl, Text}
use remix.Redis.Value.{Value, absent}
use remix.Redis.Command.{target, exec}
use remix.Redis.Server.{Redis, step}

abbrev pub memory : Redis
memory = record {
  Db = Text → Value;
  value = λ d. d;
  run = λ c d. ((exec c (d (target c))).0, step c d);
  run_reply = λ c d. refl;
  run_value = λ c d. refl;
}

abbrev pub fresh : Text → Value
fresh k = absent
