-- ===== src/Prelude.antt =====
-- The names that the modules of this library share: the standard library's, passed on, Boolean
-- tests, lists, Rust's `Result`, texts and 32-bit integers.
mod Tests
mod Results
mod Lists
mod Texts
mod Splits
mod Ints
mod Trims
mod Wraps
pub mod Maps
pub use Tests.*
pub use Results.*
pub use Lists.*
unfoldable pub use Texts.*
unfoldable pub use Splits.*
unfoldable pub use Ints.*
unfoldable pub use Wraps.*
pub use Trims.*
pub use Prim.Native.Nat.{ℕ, zero, suc, ◌+◌, ◌-◌, ◌*◌, ◌/◌, ◌%◌, ◌^◌, ◌≤◌, ◌<◌}
pub use Prim.Native.String.{String}
pub use mathlib.Core.Path.{◌≡◌, refl, sym, ap, ◌∙◌}
pub use mathlib.Core.Logic.{◌≢◌, ◌↔◌, ◌⊎◌, inl, inr}
pub use mathlib.Core.Bool.{Bool, true, false, not, ◌&&◌, ◌||◌}
pub use mathlib.Core.Option.{Option, none, some}
pub use mathlib.Core.List.{List, [], ◌∷◌, ◌++◌, map, reverse, append_assoc, append-nil}
pub use native.Mathlib.Omega.{arith}
