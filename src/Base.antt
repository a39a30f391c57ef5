-- ===== src/Base.antt =====
-- The names that all parts of the development share: the library's, passed on, and those of the
-- children (tests, lists, maps, text, results).
mod Tests
mod Lists
mod Results
pub mod Options
pub mod Maps
pub mod Text
pub mod Decimal
pub mod Keys
pub mod Paths
pub mod Signed
pub use Tests.*
pub use Lists.*
pub use Results.*
pub use Maps.{Map}
pub use Text.{format}
pub use Prim.Native.Nat.{ℕ, zero, suc, ◌+◌, ◌-◌, ◌*◌, ◌/◌, ◌%◌, ◌^◌, ◌≤◌, ◌<◌, min, max}
pub use Prim.Native.String.{String}
pub use mathlib.Core.Path.{◌≡◌, refl, sym, ap, ◌∙◌}
pub use mathlib.Core.Logic.{◌≢◌, ◌↔◌, ◌⊎◌, inl, inr}
pub use mathlib.Core.Bool.{Bool, true, false, not, ◌&&◌, ◌||◌}
pub use mathlib.Core.Option.{Option, none, some}
pub use mathlib.Core.List.{List, [], ◌∷◌, ◌++◌, map}
pub use native.Mathlib.Omega.{arith}
pub use text.Mathlib.Text.{◌==◌}
pub use text.Mathlib.TextEquality.{eq_iff}
pub use text.Mathlib.TextPositions.{eq_refl}
