-- ===== src/Prelude.antt =====
-- Names that every module shares: those of the libraries, passed on, and those of the modules
-- below: tests and lists over the native numbers, bytes, Go results and Go maps.
mod Tests
mod Lists
mod Text
mod Errors
mod Go
pub mod Preserves
pub mod Success
pub mod Split
pub mod Dict
pub mod Integers
pub mod Floats
unfoldable pub use Tests.*
unfoldable pub use Lists.*
unfoldable pub use Text.*
unfoldable pub use Errors.*
unfoldable pub use Go.*
pub use Prim.Native.Nat.{ℕ, zero, suc, ◌+◌, ◌-◌, ◌*◌, ◌/◌, ◌%◌, ◌^◌, ◌≤◌, ◌<◌}
pub use mathlib.Core.Path.{◌≡◌, refl, sym, ap, ◌∙◌}
pub use mathlib.Core.Logic.{◌≢◌, ◌↔◌, ◌⊎◌, inl, inr}
pub use mathlib.Core.Bool.{Bool, true, false, ◌&&◌, ◌||◌, not}
pub use mathlib.Core.Option.{Option, none, some}
pub use mathlib.Core.List.{List, [], ◌∷◌, ◌++◌, map}
pub use native.Mathlib.Omega.{arith}
