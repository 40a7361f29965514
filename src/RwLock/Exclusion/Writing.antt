-- ===== src/RwLock/Exclusion/Writing.antt =====
-- Taking and releasing the write lock keeps readers and writers apart (lock/rwlock.go).
use remix.Base.{
  arith, ℕ, zero, suc, ◌+◌, ◌≡◌, refl, ap, sym, subst, ◌∙◌, Bool, true, false, List, [], ◌∷◌,
  Option, none, some, Text, text_eq, text_eq_iff, length,
}
use remix.Redis.Value.{Cell, field}
use remix.Lock.Types.{Json}
use remix.Lock.Keys.{holder}
use remix.RwLock.Types.{Object, Objects, lock_object}
use remix.RwLock.Keys.{write_lock_key}
use remix.RwLock.Scripts.{joined, is_read_locked}
use remix.RwLock.View.{View}
use remix.RwLock.Spec.{
  is_some, write_taken, write_acquired, write_acquired_when, kept_out, write_released,
  write_released_at, write_released_over, write_released_by, write_released_when,
}
use remix.RwLock.Exclusion.{IsWriting, Excludes, Excludes-free, entered-Excludes}

module _ (j : Json) (o : Objects) where
  -- Without other readers than `me`.
  pub kept_out_alone :
      (me f : Text) (h : List (Text × Cell))
      → is_read_locked (some (length h)) (is_some (field me h)) ≡ false
      → text_eq me f ≡ false
      → field f h ≡ none
  unfolding field
  kept_out_alone me f [] e q = refl
  kept_out_alone me f ((k, c) ∷ []) e q =
      ground (arith, text_eq_iff k me, text_eq_iff me f, text_eq_iff k f)
  kept_out_alone me f (a ∷ b ∷ h) e q = absurd (ground arith)

  IsWriting-written :
      (n w owner thread_id : Text) (lease at now : ℕ) (v : View)
      → v.writer ≡ some (o.encode (lock_object n owner thread_id at (at + lease)))
      → IsWriting j o w now v
      → holder owner thread_id ≡ w
  unfolding lock_object
  IsWriting-written n w owner thread_id lease at now v e p =
      let x : Object = lock_object n owner thread_id at (at + lease) in
      let c : some p.content ≡ some (o.encode x) = sym p.stored ∙ e in
      let c : p.content ≡ o.encode x = cc c in
      let d : some p.object ≡ some x = sym p.decoded ∙ ap o.decode c ∙ o.decode-encode x in
      let d : p.object ≡ x = cc d in
      let w : some w ≡ some (holder owner thread_id) =
        sym p.owned ∙ ap (λ (y : Object). joined y.owner y.thread_id) d in
      cc w

  write_taken-Excludes :
      (n owner thread_id : Text) (lease at now : ℕ) (v : View)
      → kept_out (holder owner thread_id) v ≡ false
      → Excludes j o now v
      → Excludes j o now
          (write_taken (o.encode (lock_object n owner thread_id at (at + lease))) lease v).1
  write_taken-Excludes n owner thread_id zero at now v e h w f p q = h w f p q
  write_taken-Excludes n owner thread_id (suc t) at now v e h w f p q =
      kept_out_alone (holder owner thread_id) f v.readers e (
        subst (λ x. text_eq x f ≡ false)
          (sym (IsWriting-written n w owner thread_id (suc t) at now _ refl p)) q)

  acquired_when-Excludes :
      (n owner thread_id : Text) (lease at now : ℕ) (b : Bool) (v : View)
      → kept_out (holder owner thread_id) v ≡ b
      → Excludes j o now v
      → Excludes j o now
          (write_acquired_when j o b
            (holder owner thread_id)
            (o.encode (lock_object n owner thread_id at (at + lease)))
            lease
            now
            v).1
  acquired_when-Excludes n owner thread_id lease at now true v e h = h
  acquired_when-Excludes n owner thread_id lease at now false v e h =
      entered-Excludes j o now _ _ v
        (λ g. write_taken-Excludes n owner thread_id lease at now v e h) h

  pub write_acquired-Excludes :
      (n owner thread_id : Text) (lease now : ℕ) (v : View)
      → Excludes j o now v
      → Excludes j o now (write_acquired j o n owner thread_id lease now v).1
  unfolding write_acquired
  write_acquired-Excludes n owner thread_id lease now v h =
      acquired_when-Excludes (write_lock_key n) owner thread_id lease now now _ v refl h

  released_at-Excludes :
      (me : Text) (now : ℕ) (s : Option Text) (v : View)
      → Excludes j o now v
      → Excludes j o now (write_released_at j o me s v).1
  released_at-Excludes me now none v h = h
  released_at-Excludes me now (some s) v h = over (o.decode s)
    where
      when : (b : Bool) → Excludes j o now (write_released_when b v).1
      when true = Excludes-free j o now _ refl
      when false = h

      by_owner : (w : Option Text) → Excludes j o now (write_released_by me w v).1
      by_owner none = h
      by_owner (some w) = when (text_eq w me)

      over : (x : Option Object) → Excludes j o now (write_released_over j o me x v).1
      over none = h
      over (some x) = by_owner (joined x.owner x.thread_id)

  pub write_released-Excludes :
      (me : Text) (now : ℕ) (v : View)
      → Excludes j o now v
      → Excludes j o now (write_released j o me v).1
  unfolding write_released
  write_released-Excludes me now v h = released_at-Excludes me now v.writer v h
