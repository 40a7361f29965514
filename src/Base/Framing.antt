-- ===== src/Base/Framing.antt =====
-- Texts behind their lengths: the form in which the tests write documents.
use Prim.Native.Nat.{ℕ, zero, suc}
use mathlib.Core.Path.{◌≡◌, refl}
use mathlib.Core.List.{[], ◌∷◌, ◌++◌}
use mathlib.Core.Option.{Option, none, some}
use remix.Base.Bytes.{Text}
use remix.Base.Lists.{length}

-- A text behind its length, before the rest.
unfoldable pub framed : Text → Text → Text
framed s rest = length s ∷ (s ++ rest)

-- So many bytes, and the rest.
unfoldable pub read_text : ℕ → Text → Option (Text × Text)
read_text zero s = some ([], s)
read_text (suc n) [] = none
read_text (suc n) (c ∷ s) = elim (read_text n s) [
  | none ↦ none
  | some (t, rest) ↦ some (c ∷ t, rest)
]

pub read_text-append : (t rest : Text) → read_text (length t) (t ++ rest) ≡ some (t, rest)
unfolding read_text
read_text-append [] rest = refl
read_text-append (c ∷ t) rest = rw (read_text-append t rest) refl

abbrev pub with_text {ℓ} : {A : Type ℓ} → Option (Text × Text) → (Text → Text → Option A) → Option A
with_text none f = none
with_text (some (t, rest)) f = f t rest
