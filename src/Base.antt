-- ===== src/Base.antt =====
-- The names that all modules share: the libraries', passed on, and those of the children, which
-- hold Boolean tests, lists over native numbers, integers, texts, results and byte arithmetic.
mod Tests
mod Lists
mod Ints
mod Texts
pub mod Bits
pub mod Results
pub use Tests.*
pub use Lists.*
pub use Ints.*
pub use Texts.*
pub use Prim.Native.Nat.{
  ℕ, zero, suc, ◌+◌, ◌-◌, ◌*◌, ◌/◌, ◌%◌, ◌^◌, ◌≤◌, ◌<◌, min, max, bit_and, bit_or, bit_xor,
}
pub use mathlib.Core.Path.{◌≡◌, refl, sym, ap, subst, ◌∙◌}
pub use mathlib.Core.Logic.{◌≢◌, ◌↔◌, ◌⊎◌, inl, inr}
pub use mathlib.Core.Bool.{Bool, true, false, not, ◌&&◌, ◌||◌}
pub use mathlib.Core.Option.{Option, none, some}
pub use mathlib.Core.List.{List, [], ◌∷◌, ◌++◌, map, append-nil, append_assoc}
pub use Prim.Native.Char.{Char, code}
pub use Prim.Native.String.{String}
pub use native.Mathlib.Omega.{arith}
