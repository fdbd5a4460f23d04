-- ===== src/Base.antt =====
-- The names that the other modules share: library names passed on, Boolean tests, lists measured
-- by native numbers, the result of code that may throw, and text.
pub mod Tests
pub mod Lists
pub mod Results
pub mod Literals
pub mod Maps
pub use Tests.*
pub use Lists.*
pub use Results.*
pub use Literals.*
unfoldable pub use Maps.*
pub use Prim.Native.Nat.{ℕ, zero, suc, ◌+◌, ◌-◌, ◌*◌, ◌/◌, ◌%◌, ◌^◌, ◌≤◌, ◌<◌, min, max}
pub use mathlib.Core.Path.{◌≡◌, refl, sym, ap, subst, ◌∙◌}
pub use mathlib.Core.Logic.{◌≢◌, ◌↔◌, ◌⊎◌, inl, inr}
pub use mathlib.Core.Bool.{Bool, true, false, not, ◌&&◌, ◌||◌, false≢true}
pub use mathlib.Core.Option.{Option, none, some}
pub use mathlib.Core.List.{List, [], ◌∷◌, ◌++◌, map, append_assoc, append-nil}
pub use native.Mathlib.Omega.{arith}
pub use Prim.Native.String.{String}
unfoldable pub use native.Mathlib.Decide.{dec_lt, dec_le, ℕ_discrete}
