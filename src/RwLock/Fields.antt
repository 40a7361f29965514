-- ===== src/RwLock/Fields.antt =====
-- Fields of a Redis hash that a command on another field leaves alone.
use remix.Base.{
  arith, ◌≡◌, refl, false, List, [], ◌∷◌, none, some, Text, text_eq, text_eq_iff, ℕ, zero, suc,
}
use remix.Redis.Value.{Cell, field, put, erase}
use remix.RwLock.View.Commands.{kept}

pub field-put_other :
    {A : Type 0} (f g : Text) (a : A) (h : List (Text × A))
    → text_eq g f ≡ false
    → field f (put g a h) ≡ field f h
unfolding field put
field-put_other f g a [] e = rw e refl
field-put_other f g a ((k, b) ∷ h) e =
    ground (arith, field-put_other f g a h e, text_eq_iff k f, text_eq_iff k g, text_eq_iff g f)

pub field-put : {A : Type 0} (f : Text) (a : A) (h : List (Text × A)) → field f (put f a h) ≡ some a
unfolding field put
field-put f a [] = ground (arith, text_eq_iff f f)
field-put f a ((k, b) ∷ h) = ground (arith, field-put f a h, text_eq_iff k f)

pub field-erase-none :
    {A : Type 0} (f g : Text) (h : List (Text × A)) → field f h ≡ none → field f (erase g h) ≡ none
unfolding field erase
field-erase-none f g [] e = refl
field-erase-none f g ((k, b) ∷ h) e =
    ground (arith, field-erase-none f g h, text_eq_iff k f, text_eq_iff k g)

pub field-kept-none :
    (f : Text) (t : ℕ) (h : List (Text × Cell)) → field f h ≡ none → field f (kept t h) ≡ none
unfolding field
field-kept-none f zero h e = refl
field-kept-none f (suc t) h e = e
