-- ===== src/Base.antt =====
-- The names that the modules of this library share: the native numbers, paths, Booleans, options
-- and lists, with tests on numbers, the length of a list and 32-bit words.
mod Tests
mod Lists
mod Words
mod Bytes
pub use Tests.*
pub use Lists.*
pub use Words.*
unfoldable pub use Bytes.{passes_below}
pub use Bytes.{passes-passes_below, same}
pub use Prim.Native.Nat.{ℕ, zero, suc, ◌+◌, ◌-◌, ◌*◌, ◌/◌, ◌%◌, ◌^◌, ◌≤◌, ◌<◌, min}
pub use mathlib.Core.Path.{◌≡◌, refl, sym, subst, ap, ap₂, ◌∙◌, fun_ext}
pub use mathlib.Core.Logic.{◌≢◌, ◌↔◌, ◌⊎◌, inl, inr}
pub use mathlib.Core.Bool.{Bool, true, false, not, ◌&&◌, ◌||◌}
pub use mathlib.Core.Option.{Option, none, some}
pub use mathlib.Core.List.{List, [], ◌∷◌, ◌++◌, map}
pub use native.Mathlib.Omega.{arith}
