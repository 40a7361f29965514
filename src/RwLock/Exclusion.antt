-- ===== src/RwLock/Exclusion.antt =====
-- Readers and writers of a read-write lock keep each other out (lock/rwlock.go).
pub mod Writing
use remix.Base.{
  arith, ℕ, zero, suc, ◌+◌, ◌≤◌, ◌<◌, ◌≡◌, refl, ap, sym, subst, ◌∙◌, Bool, true, false, List, [],
  ◌∷◌, Option, none, some, Result, ok, err, Text, text_eq, text_eq→eq, text_eq_iff, ltb, length, ℤ,
}
use remix.Redis.Value.{Cell, number, text, field, put}
use remix.Redis.Client.{Fault}
use remix.Lock.Types.{Json}
use remix.Lock.Keys.{holder}
use remix.RwLock.Types.{Object, Objects, lock_object, number_of}
use remix.RwLock.Keys.{Slot, readers, counts, writer, stats, write_lock_key}
use remix.RwLock.Scripts.{joined, is_read_locked}
use remix.RwLock.View.{View}
use remix.RwLock.View.Commands.{emptied, kept}
use remix.RwLock.Fields.{field-put_other, field-erase-none, field-kept-none}
use remix.RwLock.Spec.{
  Answer, is_some, entered, guarded_owner, guarded_by, guarded_over, guarded_at, guarded_when,
  counted_read, read_acquired, dropped, is_none_left, read_released, read_released_by, write_taken,
  write_acquired, write_acquired_when, kept_out, write_released, write_released_at,
  write_released_over, write_released_by, write_released_when,
}

module _ (j : Json) (o : Objects) where
  -- A writer is stored whose lease runs at `now`.
  pub record IsWriting (w : Text) (now : ℕ) (v : View) : Type 0 where
    pub content : Text
    pub object : Object
    pub expiry : ℕ
    pub stored : v.writer ≡ some content
    pub decoded : o.decode content ≡ some object
    pub expires : number_of j object.expire_time ≡ some expiry
    pub owned : joined object.owner object.thread_id ≡ some w
    pub runs : now < expiry

  -- Beside a writer whose lease runs there is no other reader.
  abbrev pub Excludes : ℕ → View → Type 0
  Excludes now v = (w f : Text) → IsWriting w now v → text_eq w f ≡ false → field f v.readers ≡ none

  -- The scripts' guard lets only the writer itself pass.
  pub guarded-IsWriting :
      (me w : Text) (now : ℕ) (v : View)
      → IsWriting w now v
      → guarded_at j o me now v.writer ≡ ok (text_eq w me)
  guarded-IsWriting me w now v h =
      let late : ltb now h.expiry ≡ true = let p : now < h.expiry = h.runs in ground arith in
      ap (λ s. guarded_at j o me now s) h.stored
      ∙ ap (λ x. guarded_over j o me now x) h.decoded
      ∙ ap (λ t. guarded_by j o me now h.object t) h.expires
      ∙ ap (λ b. guarded_when b me h.object) late
      ∙ ap (λ m. guarded_owner me m) h.owned

  pub Excludes-later : (s t : ℕ) (v : View) → s ≤ t → Excludes s v → Excludes t v
  Excludes-later s t v le h w f p = h w f (record {
    content = p.content;
    object = p.object;
    expiry = p.expiry;
    stored = p.stored;
    decoded = p.decoded;
    expires = p.expires;
    owned = p.owned;
    runs = let q : t < p.expiry = p.runs in omega arith;
  })

  -- The same writer beside readers of whom none is new but the writer itself.
  pub Excludes-fewer :
      (now : ℕ) (v u : View)
      → u.writer ≡ v.writer
      → ((w f : Text)
          → IsWriting w now v
          → text_eq w f ≡ false
          → field f v.readers ≡ none
          → field f u.readers ≡ none)
      → Excludes now v
      → Excludes now u
  Excludes-fewer now v u e k h w f p q =
      let p : IsWriting w now v = record {
        content = p.content;
        object = p.object;
        expiry = p.expiry;
        stored = sym e ∙ p.stored;
        decoded = p.decoded;
        expires = p.expires;
        owned = p.owned;
        runs = p.runs;
      } in
      k w f p q (h w f p q)

  pub Excludes-free : (now : ℕ) (u : View) → u.writer ≡ none → Excludes now u
  Excludes-free now u e w f p q = let s : some p.content ≡ none = sym p.stored ∙ e in absurd (cc s)

  -- The holder that has passed the guard is the live writer, if there is one.
  passed_writer :
      (me w f : Text) (now : ℕ) (v : View)
      → guarded_at j o me now v.writer ≡ ok true
      → IsWriting w now v
      → text_eq w f ≡ false
      → text_eq me f ≡ false
  passed_writer me w f now v g p q =
      let e : Result.ok (text_eq w me) ≡ ok true = sym (guarded-IsWriting me w now v p) ∙ g in
      let e : text_eq w me ≡ true = cc e in subst (λ x. text_eq x f ≡ false) (text_eq→eq w me e) q

  reader_stays :
      (me content : Text) (lease now : ℕ) (v : View)
      → guarded_at j o me now v.writer ≡ ok true
      → (w f : Text) → IsWriting w now v
      → text_eq w f ≡ false
      → field f v.readers ≡ none
      → field f (kept lease (put me (text content) v.readers)) ≡ none
  reader_stays me content lease now v g w f p q a =
      field-kept-none f lease _
        (field-put_other f me (text content) v.readers (passed_writer me w f now v g p q) ∙ a)

  taken-Excludes :
      (me content : Text) (lease now : ℕ) (z : Option ℤ) (v : View)
      → guarded_at j o me now v.writer ≡ ok true
      → Excludes now v
      → Excludes now
          (counted_read me lease z
            (record v { readers = kept lease (put me (text content) v.readers) })).1
  taken-Excludes me content lease now none v g h =
      Excludes-fewer now v _ refl (reader_stays me content lease now v g) h
  taken-Excludes me content lease now (some z) v g h =
      Excludes-fewer now v _ refl (reader_stays me content lease now v g) h

  pub entered-Excludes :
      (now : ℕ) (x : Result Fault Bool) (a : Answer Bool) (v : View)
      → (x ≡ ok true → Excludes now a.1)
      → Excludes now v
      → Excludes now (entered x a v).1
  entered-Excludes now (ok true) a v k h = k refl
  entered-Excludes now (ok false) a v k h = h
  entered-Excludes now (err e) a v k h = h

  pub read_acquired-Excludes :
      (n owner thread_id : Text) (lease now : ℕ) (v : View)
      → Excludes now v
      → Excludes now (read_acquired j o n owner thread_id lease now v).1
  unfolding read_acquired
  read_acquired-Excludes n owner thread_id lease now v h =
      entered-Excludes now _ _ v (λ g. taken-Excludes (holder owner thread_id) _ lease now _ v g h)
        h

  pub dropped-Excludes :
      (me : Text) (now : ℕ) (b : Bool) (v : View) → Excludes now v → Excludes now (dropped me b v)
  dropped-Excludes me now true v h =
      Excludes-fewer now v _ refl (λ w f p q a. field-erase-none f me v.readers a) h
  dropped-Excludes me now false v h = h

  released_by-Excludes :
      (me : Text) (now : ℕ) (c : Option Cell) (z : Option ℤ) (v : View)
      → Excludes now v
      → Excludes now (read_released_by me c z v).1
  released_by-Excludes me now none z v h = h
  released_by-Excludes me now (some c) none v h = h
  released_by-Excludes me now (some c) (some z) v h =
      Excludes-fewer now
        (dropped me (is_none_left z) (record v { counts = put me (number z) v.counts })) _ refl
        (λ w f p q a. a)
        (dropped-Excludes me now (is_none_left z) _
          (Excludes-fewer now v _ refl (λ w f p q a. a) h))

  pub read_released-Excludes :
      (me : Text) (now : ℕ) (v : View) → Excludes now v → Excludes now (read_released me v).1
  unfolding read_released
  read_released-Excludes me now v h = released_by-Excludes me now _ _ v h

  pub emptied-Excludes :
      (now : ℕ) (s : Slot) (v : View) → Excludes now v → Excludes now (emptied s v)
  unfolding field
  emptied-Excludes now readers v h = λ w f p q. refl
  emptied-Excludes now counts v h = Excludes-fewer now v _ refl (λ w f p q a. a) h
  emptied-Excludes now writer v h = Excludes-free now _ refl
  emptied-Excludes now stats v h = Excludes-fewer now v _ refl (λ w f p q a. a) h
