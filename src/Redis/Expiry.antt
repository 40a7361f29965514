-- ===== src/Redis/Expiry.antt =====
-- TTL: what is left of a key's expiry, in nanoseconds as the client gives it; it changes nothing.
use remix.Base.{◌≡◌, ok, Action, Text, ℤ, negsuc}
use remix.Redis.Value.{absent}
use remix.Redis.Server.{Redis}
use remix.Redis.Client.{Fault, Env, call}

-- A missing key has the answer -2, a key without expiry -1.
pub record Expiries (r : Redis) : Type 0 where
  pub ttl : r.Db → Text → ℤ
  pub ttl_absent : (d : r.Db) (k : Text) → r.value d k ≡ absent → ttl d k ≡ negsuc 1

abbrev pub query_ttl : (r : Redis) → Expiries r → Text → Action (Env r.Db) Fault ℤ
query_ttl r x k = call (λ d. (ok (x.ttl d k), d))
