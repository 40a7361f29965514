-- ===== src/Base/Actions.antt =====
-- Results and the state monad in which client calls and server scripts are written: a step takes
-- the state and returns a result, which may be an error, beside the new state.

pub data Result {ℓ} (E A : Type ℓ) : Type ℓ where
  ok : A → Result E A
  err : E → Result E A

abbrev pub Action : Type 0 → Type 0 → Type 0 → Type 0
Action S E A = S → Result E A × S

abbrev pub pure : {S E A : Type 0} → A → Action S E A
pure a s = (ok a, s)

abbrev pub fail : {S E A : Type 0} → E → Action S E A
fail e s = (err e, s)

abbrev pub after : {S E A B : Type 0} → Result E A × S → (A → Action S E B) → Result E B × S
after (ok a, s) f = f a s
after (err e, s) f = (err e, s)

infixl 5 ◌>>=◌ ◌>>◌
abbrev pub ◌>>=◌ : {S E A B : Type 0} → Action S E A → (A → Action S E B) → Action S E B
◌>>=◌ m f s = after (m s) f

abbrev pub ◌>>◌ : {S E A B : Type 0} → Action S E A → Action S E B → Action S E B
◌>>◌ m k s = after (m s) (λ _. k)

-- The result as a value, for code that looks at an error instead of returning it.
abbrev pub attempt : {S E F A : Type 0} → Action S E A → Action S F (Result E A)
attempt m s = (ok (m s).0, (m s).1)

abbrev pub map_err : {E F A : Type 0} → (E → F) → Result E A → Result F A
map_err f (ok a) = ok a
map_err f (err e) = err (f e)

-- The error with its context, as `fmt.Errorf` wraps it.
abbrev pub wrap : {S E F A : Type 0} → (E → F) → Action S E A → Action S F A
wrap f m s = (map_err f (m s).0, (m s).1)
