-- ===== src/Shared.antt =====
-- What every component uses: names of the libraries, Boolean tests, `dict`, `str` and the
-- exceptions that the Python code raises.
mod Tests
pub mod Dict
pub mod Text
pub mod Splitting
mod Exceptions
pub mod Action
pub mod Fnmatch
pub mod Json
pub use Tests.*
pub use Exceptions.*
pub use Prim.Native.Nat.{ℕ, zero, suc, ◌+◌, ◌-◌, ◌≤◌, ◌<◌}
pub use Prim.Native.String.{String}
pub use mathlib.Core.Path.{◌≡◌, refl, sym, ap, ◌∙◌, subst}
pub use mathlib.Core.Logic.{◌≢◌, ◌↔◌, ◌⊎◌, inl, inr}
pub use mathlib.Core.Bool.{Bool, true, false, not, ◌&&◌, ◌||◌}
pub use mathlib.Core.Option.{Option, none, some}
pub use mathlib.Core.List.{List, [], ◌∷◌, ◌++◌, map}
pub use native.Mathlib.Omega.{arith}
pub use text.Mathlib.TextEquality.{eq_iff}
pub use mathlib.Core.Option.{some-injective}
