-- ===== src/Base.antt =====
-- The names that all modules share: the libraries' and those of the children, passed on.
mod Tests
mod Lists
mod Bytes
mod Actions
mod Int
mod Rules
pub mod Framing
pub use Tests.*
unfoldable pub use Lists.*
unfoldable pub use Bytes.*
pub use Actions.*
unfoldable pub use Int.*
pub use Rules.*
pub use Prim.Native.Nat.{ℕ, zero, suc, ◌+◌, ◌-◌, ◌*◌, ◌/◌, ◌%◌, ◌≤◌, ◌<◌}
pub use mathlib.Core.Path.{◌≡◌, refl, sym, ap, subst, ◌∙◌, fun_ext}
pub use mathlib.Core.Logic.{◌≢◌, ◌↔◌, ◌⊎◌, inl, inr}
pub use mathlib.Core.Bool.{Bool, true, false, ◌&&◌, ◌||◌, not}
pub use mathlib.Core.Option.{Option, none, some}
pub use mathlib.Core.List.{List, [], ◌∷◌, ◌++◌, map}
pub use native.Mathlib.Omega.{arith}
