-- ===== src/Lock/Held.antt =====
-- A lock object's holds and renewal tasks (lock/lock.go), and the end of the tasks in Unlock.
use remix.Base.{
  ℕ, zero, suc, ◌+◌, ◌-◌, arith, ◌≡◌, refl, Bool, true, false, Result, ok, err, Gives, ltb,
  if◌then◌else◌,
}
use remix.Redis.Server.{Redis}
use remix.Redis.Client.{Env}
use remix.Lock.Types.{Json, Error, stuck, panicked}
use remix.Lock.Ops.{Lock, World, Ticks, stop_renewal}
use remix.Lock.View.{View, Online}

-- The end of the renewal tasks, of which `fresh` and `stale` do not wait for the mutex: the
-- result, and the tasks of both sorts afterwards.
abbrev pub ended : Bool → ℕ → ℕ → Ticks → Result Error (Unit {0}) × ℕ × ℕ
ended false fresh stale ticks = (ok tt, ticks.fresh + fresh, ticks.stale + stale)
ended true zero zero ticks = (err stuck, ticks.fresh, ticks.stale)
ended true (suc zero) zero ticks = (ok tt, 0, ticks.fresh + ticks.stale)
ended true fresh stale ticks = (err panicked, ticks.fresh + fresh, ticks.stale + stale)

-- No task waits for the mutex.
abbrev pub no_ticks : Ticks
no_ticks = record { fresh = 0; stale = 0 }

spare : (m n : ℕ) → m + n - m ≡ n
spare m n = omega arith

several : (n : ℕ) → ltb 1 (suc (suc n)) ≡ true
several n = ground arith

nonzero : (n : ℕ) → ltb 0 (suc n) ≡ true
nonzero n = ground arith

module _ (r : Redis) (j : Json) (l : Lock) where
  -- The server shows `v`, and the object holds the lock `count` times with `running` renewal tasks
  -- on its channels and `late` ones of earlier channels.
  pub record Held (v : View) (count running late : ℕ) (w : World r.Db) : Type 0 where
    pub online : Online r l.name v w.env
    pub hold_count : w.hold_count ≡ count
    pub tasks : w.tasks ≡ running
    pub stale : w.stale ≡ late

  abbrev pub started : ℕ → ℕ
  started tasks = if l.config.auto_renewal then tasks + 1 else tasks

  -- A call changes nothing of the object but the server and the network.
  pub moved :
      {A : Type 0} {u v : View} {count tasks stale : ℕ} {res : Result Error A}
      (y : Result Error A × Env r.Db) (w : World r.Db)
      → Gives y res (Online r l.name v)
      → Held u count tasks stale w
      → Gives (y.0, record w { env = y.1 }) res (Held v count tasks stale)
  moved y w g h = record {
    returns = g.returns;
    leaves = record {
      online = g.leaves;
      hold_count = h.hold_count;
      tasks = h.tasks;
      stale = h.stale;
    };
  }

  -- The end of the tasks, by cases on renewal and the tasks that do not wait.
  pub stopped-ended :
      (auto : Bool) (fresh stale : ℕ) (ticks : Ticks) {v : View} (w : World r.Db)
      → Online r l.name v w.env
      → w.tasks ≡ ticks.fresh + fresh
      → w.stale ≡ ticks.stale + stale
      → Gives
          (if auto
            then stop_renewal r j l ticks (record w { hold_count = 0 })
            else (ok tt, record w { hold_count = 0 }))
          (ended auto fresh stale ticks).0
          (Held v 0 (ended auto fresh stale ticks).1 (ended auto fresh stale ticks).2)
  unfolding stop_renewal
  stopped-ended false fresh stale ticks w o t s = record {
    returns = refl;
    leaves = record { online = o; hold_count = refl; tasks = t; stale = s };
  }
  stopped-ended true zero zero ticks w o t s =
      rw (t, s, spare ticks.fresh 0, spare ticks.stale 0)
        (record {
          returns = refl;
          leaves = record {
            online = o;
            hold_count = refl;
            tasks = omega arith;
            stale = omega arith;
          };
        })
  stopped-ended true (suc zero) zero ticks w o t s =
      rw (t, s, spare ticks.fresh 1, spare ticks.stale 0)
        (record {
          returns = refl;
          leaves = record { online = o; hold_count = refl; tasks = refl; stale = omega arith };
        })
  stopped-ended true (suc (suc fresh)) stale ticks w o t s =
      rw (t, s, spare ticks.fresh (suc (suc fresh)), spare ticks.stale stale, several fresh)
        (record {
          returns = refl;
          leaves = record {
            online = o;
            hold_count = refl;
            tasks = omega arith;
            stale = omega arith;
          };
        })
  stopped-ended true zero (suc stale) ticks w o t s =
      rw (t, s, spare ticks.fresh 0, spare ticks.stale (suc stale), nonzero stale)
        (record {
          returns = refl;
          leaves = record {
            online = o;
            hold_count = refl;
            tasks = omega arith;
            stale = omega arith;
          };
        })
  stopped-ended true (suc zero) (suc stale) ticks w o t s =
      rw (t, s, spare ticks.fresh 1, spare ticks.stale (suc stale), nonzero stale)
        (record {
          returns = refl;
          leaves = record {
            online = o;
            hold_count = refl;
            tasks = omega arith;
            stale = omega arith;
          };
        })
