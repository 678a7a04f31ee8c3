-- ===== src/Base.antt =====
-- Names and notation that every module shares: the libraries', passed on, and those of the
-- children below (Boolean tests, lists, C++ fixed-width words, outcomes).
mod Tests
mod Lists
mod Word
mod Failure
mod Count
pub use Tests.*
pub use Lists.*
pub use Word.*
pub use Failure.*
unfoldable pub use Count.*
pub use Prim.Native.Nat.{
  ℕ, zero, suc, ◌+◌, ◌-◌, ◌*◌, ◌/◌, ◌%◌, ◌^◌, ◌≤◌, ◌<◌, bit_and, bit_or, bit_xor,
}
pub use mathlib.Core.Path.{◌≡◌, refl, sym, ap, ap₂, ◌∙◌}
pub use mathlib.Core.Logic.{◌≢◌, ◌↔◌, ◌⊎◌, inl, inr}
pub use mathlib.Core.Bool.{Bool, true, false, ◌&&◌, ◌||◌, not, xor}
pub use mathlib.Core.Option.{Option, none, some}
pub use mathlib.Core.List.{List, [], ◌∷◌, ◌++◌, map}
pub use native.Mathlib.Omega.{arith}
