-- ===== src/Prelude.antt =====
-- The names that every module shares: the library's, passed on, and those of the children, which
-- hold what the program takes from Python: tests, dicts, integers, texts, JSON values, exceptions.
mod Tests
mod Equality
mod Lists
mod Results
pub mod Dict
pub mod Int
pub mod Text
pub mod Cut
pub mod Numbers
pub mod Decimal
pub mod Render
pub mod Floats
pub mod Value
pub use Tests.*
unfoldable pub use Equality.*
pub use Lists.*
pub use Results.*
pub use Prim.Native.Nat.{ℕ, zero, suc, ◌+◌, ◌-◌, ◌*◌, ◌/◌, ◌%◌, ◌^◌, ◌≤◌, ◌<◌, max, min}
pub use Prim.Native.String.{String, ◌++◌ as ◌<>◌}
pub use mathlib.Core.Path.{◌≡◌, refl, sym, ap, ◌∙◌}
pub use mathlib.Core.Logic.{◌≢◌, ◌↔◌, ◌⊎◌, inl, inr}
pub use mathlib.Core.Bool.{Bool, true, false, not, ◌&&◌, ◌||◌}
pub use mathlib.Core.Option.{Option, none, some}
pub use mathlib.Core.List.{List, [], ◌∷◌, ◌++◌, map}
pub use native.Mathlib.Omega.{arith}
