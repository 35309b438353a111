-- ===== src/Common.antt =====
-- Names that every module of the development shares: the library's, passed on, and those of the
-- children (Boolean tests and lists over the native numbers, machine words, the driver's monad).
mod Tests
mod Lists
mod Words
mod Monad
pub mod Bits
pub mod Arith
pub mod Masks
pub use Tests.*
pub use Lists.*
pub use Words.*
pub use Monad.*
pub use Prim.Native.Nat.{
  ℕ, zero, suc, ◌+◌, ◌-◌, ◌*◌, ◌/◌, ◌%◌, ◌^◌, ◌≤◌, ◌<◌, bit_and, bit_or, bit_xor,
}
pub use mathlib.Core.Path.{◌≡◌, refl, sym, ap, ◌∙◌}
pub use mathlib.Core.Logic.{◌≢◌, ◌↔◌, ◌⊎◌, inl, inr}
pub use mathlib.Core.Bool.{Bool, true, false, not, ◌&&◌, ◌||◌}
pub use mathlib.Core.Option.{Option, none, some}
pub use mathlib.Core.List.{List, [], ◌∷◌, ◌++◌, map}
pub use native.Mathlib.Omega.{arith}
