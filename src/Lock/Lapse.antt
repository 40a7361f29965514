-- ===== src/Lock/Lapse.antt =====
-- The expiry that the lock's script sets (SET ... EX in lock/lock.go), and the key's end by it. The
-- clock here is the server's.
use remix.Base.{ℕ, ◌+◌, ◌*◌, Bool, true, false, none, leb}
use remix.Redis.Command.{del}
use remix.Redis.Server.{Redis}
use remix.Redis.Client.{Env}
use remix.Lock.Types.{second, seconds}
use remix.Lock.Keys.{lock_key}
use remix.Lock.Ops.{Lock, World}
use remix.Lock.View
use remix.Lock.View.{View, Online}

-- Is the lease over, when the script ran at `set_at` and no renewal came after it?
abbrev pub is_over : Lock → ℕ → ℕ → Bool
is_over l set_at clock = leb (set_at + seconds l.config.lease_duration * second) clock

-- The lock whose information has expired; its counters stay.
abbrev pub lapsed : Bool → View → View
lapsed true v = record v { stored = none }
lapsed false v = v

module _ (r : Redis) (l : Lock) where
  -- An expired key is deleted.
  unfoldable pub lapse : Bool → Env r.Db → Env r.Db
  lapse true e = record e { db = (r.run (del (lock_key l.name)) e.db).1 }
  lapse false e = e

  abbrev pub lapse_world : Bool → World r.Db → World r.Db
  lapse_world over w = record w { env = lapse over w.env }

  pub lapse-Online :
      (over : Bool) {v : View} {e : Env r.Db}
      → Online r l.name v e
      → Online r l.name (lapsed over v) (lapse over e)
  unfolding lapse
  lapse-Online true o = record { holds = (View.del-stored r l.name o.holds).holds; net = o.net }
  lapse-Online false o = o
