-- ===== src/Base/Rules.antt =====
-- What a step of the state monad returns and establishes, and how steps compose.
use mathlib.Core.Path.{◌≡◌}
use remix.Base.Actions.{Result, ok, err, Action, after, map_err}

-- The step ends with the given result, in a state where `P` holds.
pub record Gives {κ} {S E A : Type 0} (x : Result E A × S) (res : Result E A) (P : S → Type κ)
    : Type κ where
  pub returns : x.0 ≡ res
  pub leaves : P x.1

-- After a success the rest runs.
pub after-Gives {κ} :
    {S E A B : Type 0} {P Q : S → Type κ} {a : A} {res : Result E B} (f : A → Action S E B)
    (x : Result E A × S)
    → Gives x (ok a) P
    → ((s : S) → P s → Gives (f a s) res Q)
    → Gives (after x f) res Q
after-Gives {a} f (ok b, s) g k = let e : b ≡ a = cc g.returns in rw e (k s g.leaves)
after-Gives f (err e, s) g k = absurd (cc g.returns)

-- After a failure it does not.
pub after-Gives_err {κ} :
    {S E A B : Type 0} {P : S → Type κ} {e : E} (f : A → Action S E B) (x : Result E A × S)
    → Gives x (err e) P
    → Gives (after x f) (err e) P
after-Gives_err f (ok b, s) g = absurd (cc g.returns)
after-Gives_err f (err d, s) g = record { returns = cc g.returns; leaves = g.leaves }

-- A wrapped step.
pub wrap-Gives {κ} :
    {S E F A : Type 0} {P : S → Type κ} {res : Result E A} (f : E → F) (x : Result E A × S)
    → Gives x res P
    → Gives (map_err f x.0, x.1) (map_err f res) P
wrap-Gives f x g = record { returns = rw (g.returns); leaves = g.leaves }

-- A step whose error is looked at.
pub attempt-Gives {κ} :
    {S E F A : Type 0} {P : S → Type κ} {res : Result E A} (x : Result E A × S)
    → Gives x res P
    → Gives {E = F} (ok x.0, x.1) (ok res) P
attempt-Gives x g = record { returns = rw (g.returns); leaves = g.leaves }
