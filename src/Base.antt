-- ===== src/Base.antt =====
-- The names that the modules of the library share: the libraries' own, passed on, and those of
-- the children (Boolean tests, lists, integers, tables and the monad of a request).
mod Tests
mod Lists
mod Int
mod Dicts
mod Texts
mod Requests
pub use Tests.*
pub use Lists.*
unfoldable pub use Int.*
unfoldable pub use Dicts.*
unfoldable pub use Texts.*
pub use Requests.*
pub use Prim.Native.Nat.{ℕ, zero, suc, ◌+◌, ◌-◌, ◌*◌, ◌/◌, ◌%◌, ◌≤◌, ◌<◌}
pub use mathlib.Core.Path.{◌≡◌, refl, sym, ap, ◌∙◌}
pub use mathlib.Core.Logic.{◌≢◌, ◌↔◌, ◌⊎◌, inl, inr}
pub use mathlib.Core.Bool.{Bool, true, false, ◌&&◌, ◌||◌, not}
pub use mathlib.Core.Option.{Option, none, some}
pub use mathlib.Core.List.{List, [], ◌∷◌, ◌++◌, map}
pub use native.Mathlib.Omega.{arith}
