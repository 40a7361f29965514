-- ===== src/RwLock/Nested.antt =====
-- Read locks of one holder that are taken again before they are released, and the hold count
-- (lock/rwlock.go).
use remix.Base.{
  arith, ℕ, zero, suc, ◌+◌, ◌≡◌, refl, ap, sym, ◌∙◌, true, List, [], ◌∷◌, Option, none, some, ok,
  Action, pure, fail, ◌>>=◌, ◌>>◌, Gives, after-Gives, attempt-Gives, Text, pos, pos-add, ◌+ℤ◌,
  sub_ℕ, if◌then◌else◌,
}
use remix.Redis.Value.{Cell, number, text, field, put, erase, increase, sum_of}
use remix.Redis.Server.{Redis}
use remix.Redis.Client.{Env}
use remix.Lock.Types.{Json, Error, seconds, lock_timeout}
use remix.Lock.Keys.{holder}
use remix.RwLock.Types.{Objects, lock_object}
use remix.RwLock.Keys.{read_lock_key, total_read_acquired}
use remix.RwLock.Ops.{
  ReadLock, atoi, count_read, try_acquire_read_lock, read_unlock, read_hold_count,
}
use remix.RwLock.View.{View, Online, query-Gives}
use remix.RwLock.View.Commands.{hget-counts}
use remix.RwLock.Fields.{field-put, field-erase-none}
use remix.RwLock.Readers.{erase-put}
use remix.RwLock.Spec.{read_acquired, lowered, read_released, read_released_by}
use remix.RwLock.Refine.Read.{try_acquire_read_lock-acquired, read_unlock-released}

-- A call of the holder, with its clock.
pub data Call : Type 0 where
  locks : ℕ → Call
  unlocks : Call

-- The holds after the calls; a release without a hold has none.
unfoldable pub holds_after : ℕ → List Call → Option ℕ
holds_after k [] = some k
holds_after k (locks at ∷ cs) = holds_after (suc k) cs
holds_after zero (unlocks ∷ cs) = none
holds_after (suc k) (unlocks ∷ cs) = holds_after k cs

abbrev pub count_at : ℕ → Option Cell
count_at zero = none
count_at (suc k) = some (number (pos (suc k)))

abbrev pub Reads : ℕ → Option Cell → Type 0
Reads zero c = c ≡ none
Reads (suc k) c = (d : Cell) × (c ≡ some d)

-- `me` reads `k` times, stored under one field of each hash, and nobody writes.
pub record Holding (me : Text) (k : ℕ) (v : View) : Type 0 where
  pub reader : Reads k (field me v.readers)
  pub count : field me v.counts ≡ count_at k
  pub one_reader : field me (erase me v.readers) ≡ none
  pub one_count : field me (erase me v.counts) ≡ none
  pub writer : v.writer ≡ none

module _ (j : Json) (o : Objects) (n owner thread_id : Text) where
  counted_up : (k : ℕ) → sum_of (count_at k) (pos 1) ≡ some (pos (suc k))
  counted_up zero = refl
  counted_up (suc k) =
      let e : suc k + 1 ≡ suc (suc k) = omega arith in ap some (pos-add (suc k) 1 ∙ ap pos e)

  one_less : (k : ℕ) → pos (suc k) +ℤ sub_ℕ 0 1 ≡ pos k
  unfolding ◌+ℤ◌
  one_less k = ground arith

  counted_down : (k : ℕ) → sum_of (count_at (suc k)) (sub_ℕ 0 1) ≡ some (pos k)
  counted_down k = ap some (one_less k)

  abbrev content : ℕ → ℕ → Text
  content t now = o.encode (lock_object (read_lock_key n) owner thread_id now (now + suc t))

  abbrev more : ℕ → ℕ → ℕ → View → View
  more t now k v = record v {
    readers = put (holder owner thread_id) (text (content t now)) v.readers;
    counts = put (holder owner thread_id) (number (pos (suc k))) v.counts;
    stats = increase total_read_acquired 1 v.stats;
  }

  acquired_more :
      (t now k : ℕ) (v : View)
      → Holding (holder owner thread_id) k v
      → read_acquired j o n owner thread_id (suc t) now v ≡ (ok true, more t now k v)
  unfolding read_acquired
  acquired_more t now k v h = rw (h.writer, h.count, counted_up k) refl

  more-Holding :
      (t now k : ℕ) (v : View)
      → Holding (holder owner thread_id) k v
      → Holding (holder owner thread_id) (suc k) (more t now k v)
  more-Holding t now k v h = record {
    reader = (text (content t now), field-put (holder owner thread_id) _ v.readers);
    count = field-put (holder owner thread_id) _ v.counts;
    one_reader =
        ap (field (holder owner thread_id)) (erase-put (holder owner thread_id) _ v.readers)
        ∙ h.one_reader;
    one_count =
        ap (field (holder owner thread_id)) (erase-put (holder owner thread_id) _ v.counts)
        ∙ h.one_count;
    writer = h.writer;
  }

  released_one :
      (me : Text) (k : ℕ) (v : View)
      → Holding me (suc k) v
      → read_released me v ≡ (ok true, lowered me (pos k) v)
  unfolding read_released
  released_one me k v h =
      let (d, e) = h.reader in
      ap (λ c. read_released_by me c (sum_of (field me v.counts) (sub_ℕ 0 1)) v) e
      ∙ ap (λ c. read_released_by me (some d) (sum_of c (sub_ℕ 0 1)) v) h.count
      ∙ ap (λ z. read_released_by me (some d) z v) (counted_down k)

  lowered-Holding :
      (me : Text) (k : ℕ) (v : View) → Holding me (suc k) v → Holding me k (lowered me (pos k) v)
  lowered-Holding me zero v h =
      let c : field me (erase me (put me (number (pos 0)) v.counts)) ≡ none =
        ap (field me) (erase-put me (number (pos 0)) v.counts) ∙ h.one_count in
      record {
        reader = h.one_reader;
        count = c;
        one_reader = field-erase-none me me _ h.one_reader;
        one_count = field-erase-none me me _ c;
        writer = h.writer;
      }
  lowered-Holding me (suc k) v h = record {
    reader = h.reader;
    count = field-put me _ v.counts;
    one_reader = h.one_reader;
    one_count = ap (field me) (erase-put me (number (pos (suc k))) v.counts) ∙ h.one_count;
    writer = h.writer;
  }

module _ (r : Redis) (j : Json) (o : Objects) (l : ReadLock) where
  -- The calls, each of which must succeed.
  unfoldable pub run_calls : List Call → Action (Env r.Db) Error (Unit {0})
  run_calls [] = pure tt
  run_calls (locks at ∷ cs) = do
    acquired ← try_acquire_read_lock r j o l at
    if acquired then run_calls cs else fail lock_timeout
  run_calls (unlocks ∷ cs) = do read_unlock r j o l; run_calls cs

  -- The server shows a lock that is read `k` times by this holder.
  abbrev pub Held : ℕ → Env r.Db → Type 0
  Held k e = (v : View) × Online r l.rw_lock.name v e × Holding (holder l.owner l.thread_id) k v

  run_calls-Held :
      (t : ℕ) (cs : List Call) (k m : ℕ) (e : Env r.Db)
      → seconds l.rw_lock.config.lease_duration ≡ suc t
      → holds_after k cs ≡ some m
      → Held k e
      → Gives (run_calls cs e) (ok tt) (Held m)
  unfolding run_calls holds_after
  run_calls-Held t [] k m e s a (v, p, h) =
      let q : k ≡ m = cc a in record { returns = refl; leaves = (v, p, rw (sym q) h) }
  run_calls-Held t (locks at ∷ cs) k m e s a (v, p, h) =
      let me = holder l.owner l.thread_id in
      let g = try_acquire_read_lock-acquired r j o l at e p in
      let g =
        rw (s, acquired_more j o l.rw_lock.name l.owner l.thread_id t (seconds at) k v h) at g in
      after-Gives _ _ g λ e p.
        run_calls-Held t cs (suc k) m e s a
          (_, p, more-Holding j o l.rw_lock.name l.owner l.thread_id t (seconds at) k v h)
  run_calls-Held t (unlocks ∷ cs) zero m e s a h = absurd (cc a)
  run_calls-Held t (unlocks ∷ cs) (suc k) m e s a (v, p, h) =
      let me = holder l.owner l.thread_id in
      let n = l.rw_lock.name in
      let g = read_unlock-released r j o l e p in
      let g = rw (released_one j o n l.owner l.thread_id me k v h) at g in
      after-Gives _ _ g λ e p.
        run_calls-Held t cs k m e s a (_, p, lowered-Holding j o n l.owner l.thread_id me k v h)

  counted :
      (k : ℕ) (e : Env r.Db)
      → count_read r j o l (atoi (remix.Redis.Command.cell_of (count_at k))) e ≡ (ok (pos k), e)
  unfolding count_read atoi
  counted zero e = refl
  counted (suc k) e = refl

  -- With every call answered and a lease of at least a second: for every sequence of read locks
  -- and releases of one holder in which no release is without a hold, from any number of holds
  -- with which the holder stands once in each hash, and with no writer stored, every call
  -- succeeds, and the hold count then read is the number of locks less the number of releases,
  -- added to the holds at the start.
  pub read_hold_count-holds :
      (t : ℕ) (cs : List Call) (k m : ℕ) (e : Env r.Db)
      → seconds l.rw_lock.config.lease_duration ≡ suc t
      → holds_after k cs ≡ some m
      → Held k e
      → Gives ((do run_calls cs; read_hold_count r j o l) e) (ok (pos m)) (Held m)
  unfolding read_hold_count
  read_hold_count-holds t cs k m e s a h =
      after-Gives _ _ (run_calls-Held t cs k m e s a h) λ e (v, p, h).
        after-Gives (count_read r j o l) _
          (attempt-Gives _ (
            query-Gives r l.rw_lock.name atoi e p.net
              (hget-counts r l.rw_lock.name p.holds (holder l.owner l.thread_id))))
          λ e p. rw (h.count, counted m e) (record { returns = refl; leaves = (v, p, h) })
