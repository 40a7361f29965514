-- ===== src/Lock/Reentrant.antt =====
-- Nested holds of one lock object: the re-entrant branches of lockInternal and Unlock (lock/lock.go).
use remix.Base.{
  ℕ, suc, ◌+◌, ◌-◌, ◌≡◌, refl, ap, sym, ◌∙◌, Bool, true, false, ◌&&◌, ◌==◌, ltb, List, some, ok,
  Gives, after-Gives, attempt-Gives, wrap-Gives, after, Text, text_eq, arith,
}
use remix.Redis.Server.{Redis}
use remix.Redis.Client.{Env, text_of, transaction}
use remix.Lock.Types.{Json, LockInfo, plain, document_of, info_of}
use remix.Lock.Keys.{holder}
use remix.Lock.Ops.{
  Lock, World, Ticks, Round, marshalled, unmarshalled, get_lock_info, info_read, update_lock_info,
  updated, lock_again, unlock_again, lock_internal, unlock,
}
use remix.Lock.View
use remix.Lock.View.{View, Online}
use remix.Lock.Held.{Held}

nested : (b : Bool) (n : ℕ) → b ≡ true → (b && ltb 0 (suc n)) ≡ true
nested b n e = ground arith

deeper : (b : Bool) (n : ℕ) → b ≡ true → (b && ltb 1 (suc n + 1)) ≡ true
deeper b n e = ground arith

not_none : (n : ℕ) → (suc n + 1 == 0) ≡ false
not_none n = ground arith

one_less : (n : ℕ) → suc n + 1 - 1 ≡ suc n
one_less n = omega arith

module _ (r : Redis) (j : Json) (l : Lock) where
  info_of-document_of : (info : LockInfo) → info_of j (document_of j info) ≡ some info
  unfolding info_of document_of
  info_of-document_of info =
      rw
        (
          j.parse-format info.acquire_time,
          j.parse-format info.expire_time,
          j.parse-format info.last_renewal_time,
        )
        refl

  -- Information of a lock that Go has written is read back by Go as it was.
  pub unmarshalled-marshalled :
      (info : LockInfo) (s : Text)
      → marshalled r j l info ≡ some s
      → unmarshalled r j l s ≡ some info
  unfolding marshalled unmarshalled
  unmarshalled-marshalled info s e =
      rw (unmarshalled, j.decode-encode (document_of j info) s e) (info_of-document_of info)

  -- The lock stores this information.
  pub record Stores (info : LockInfo) (v : View) : Type 0 where
    pub text : Text
    pub written : marshalled r j l info ≡ some text
    pub stored : v.stored ≡ some text

  pub get_lock_info-Stores :
      (info : LockInfo) {v : View} (e : Env r.Db)
      → Stores info v
      → Online r l.name v e
      → Gives (get_lock_info r j l e) (ok (some info)) (Online r l.name v)
  unfolding get_lock_info info_read
  get_lock_info-Stores info e s o =
      let g =
        View.query-Gives r l.name text_of e o.net (View.get_known r l.name o.holds s.stored) in
      after-Gives (info_read r j l) _ (attempt-Gives _ g) λ e o.
        rw (unmarshalled-marshalled info s.text s.written) (record { returns = refl; leaves = o })

  abbrev pub counted : LockInfo → ℕ → ℕ → LockInfo
  counted info count now = record info { hold_count = count; last_renewal_time = now }

  -- A new hold count in the stored information.
  update_lock_info-Stores :
      (info : LockInfo) (count now : ℕ) (u : Text) {v : View} (e : Env r.Db)
      → Stores info v
      → marshalled r j l (counted info count now) ≡ some u
      → Online r l.name v e
      → Gives
          (update_lock_info r j l count now e)
          (ok tt)
          (Online r l.name (record v { stored = some u }))
  unfolding update_lock_info updated transaction
  update_lock_info-Stores info count now u e s m o =
      after-Gives (updated r j l count now) _ (get_lock_info-Stores info e s o) λ e o. rw m (
        wrap-Gives {res = ok tt} plain _ (
          View.call-Gives r l.name _ e o.net (
            let k = View.set_expiring-stored r l.name o.holds u l.config.lease_duration in
            record { returns = rw (k.replies) refl; leaves = k.holds })))

  abbrev pub IsOurs : LockInfo → Type 0
  IsOurs info = text_eq (holder info.owner info.thread_id) (holder l.owner l.thread_id) ≡ true

  abbrev holding : Env r.Db → ℕ → ℕ → ℕ → World r.Db
  holding e count tasks stale = record { env = e; hold_count = count; tasks = tasks; stale = stale }

  holding_lem :
      {v : View} {count tasks stale : ℕ} (w : World r.Db)
      → Held r j l v count tasks stale w
      → holding w.env count tasks stale ≡ w
  holding_lem {count} {tasks} w h = sym (
      ap (λ c. holding w.env c w.tasks w.stale) h.hold_count
      ∙ ap (λ t. holding w.env count t w.stale) h.tasks
      ∙ ap (λ t. holding w.env count tasks t) h.stale)

  again_holding :
      (checked wait_timeout : ℕ) (block : Bool) (ts : List (Round r.Db)) (info : LockInfo)
      (count tasks stale : ℕ) (u : Text) {v : View} (e : Env r.Db)
      → l.config.reentrant ≡ true
      → Stores info v
      → IsOurs info
      → marshalled r j l (counted info (suc count + 1) checked) ≡ some u
      → Online r l.name v e
      → Gives
          (lock_internal r j l checked wait_timeout block ts (holding e (suc count) tasks stale))
          (ok tt)
          (Held r j l (record v { stored = some u }) (suc count + 1) tasks stale)
  unfolding lock_internal lock_again
  again_holding checked wait_timeout block ts info count tasks stale u {v} e re s own m o =
      let g = get_lock_info-Stores info e s o in
      let k =
        update_lock_info-Stores info (suc count + 1) checked u (get_lock_info r j l e).1 s m
          g.leaves in
      rw (nested l.config.reentrant count re, g.returns, own)
        (record {
          returns = k.returns;
          leaves = record { online = k.leaves; hold_count = refl; tasks = refl; stale = refl };
        })

  again_unlocking :
      (now : ℕ) (ticks : Ticks) (info : LockInfo) (count tasks stale : ℕ) (u : Text) {v : View}
      (e : Env r.Db)
      → l.config.reentrant ≡ true
      → Stores info v
      → marshalled r j l (counted info (suc count) now) ≡ some u
      → Online r l.name v e
      → Gives
          (unlock r j l now ticks (holding e (suc count + 1) tasks stale))
          (ok tt)
          (Held r j l (record v { stored = some u }) (suc count) tasks stale)
  unfolding unlock unlock_again
  again_unlocking now ticks info count tasks stale u {v} e re s m o =
      let k = update_lock_info-Stores info (suc count) now u e s m o in
      rw (not_none count, deeper l.config.reentrant count re, one_less count)
        (record {
          returns = k.returns;
          leaves = record { online = k.leaves; hold_count = refl; tasks = refl; stale = refl };
        })

  -- With every call answered, a re-entrant object that holds the lock at least once, and stored
  -- information that Go wrote and that is of this holder: locking again in any way and then Unlock
  -- succeeds, where both new informations can be written; the object has the holds and renewal
  -- tasks it had, and the stored information has that hold count and the time of Unlock as its
  -- last renewal, and its old expiry time.
  pub reentrant_round_trip :
      (checked wait_timeout later : ℕ) (ticks : Ticks) (block : Bool) (ts : List (Round r.Db))
      (info : LockInfo) (count tasks stale : ℕ) (u u' : Text) {v : View} (w : World r.Db)
      → l.config.reentrant ≡ true
      → Stores info v
      → IsOurs info
      → marshalled r j l (counted info (suc count + 1) checked) ≡ some u
      → marshalled r j l (counted info (suc count) later) ≡ some u'
      → Held r j l v (suc count) tasks stale w
      → Gives
          (after
            (lock_internal r j l checked wait_timeout block ts w)
            (λ _. unlock r j l later ticks))
          (ok tt)
          (Held r j l (record v { stored = some u' }) (suc count) tasks stale)
  reentrant_round_trip checked wait_timeout later ticks block ts info count tasks stale u u' {v} w
        re s own m m' h =
      let g =
        again_holding checked wait_timeout block ts info count tasks stale u w.env re s own m
          h.online in
      let g = rw (holding_lem w h) at g in
      after-Gives _ _ g λ w h.
        let k =
          again_unlocking later ticks (counted info (suc count + 1) checked) count tasks stale u'
            w.env re (record { text = u; written = m; stored = refl }) m' h.online in
        rw (holding_lem w h) at k
