-- ===== src/Base.antt =====
-- Names that the other modules share: the library's, passed on, and those of its children
-- (Boolean tests, C arrays as lists, machine words and bits, byte strings, C return codes).
mod Tests
mod Lists
mod Words
mod Bits
mod Codes
mod Bytes
mod Ranges
mod Masks
pub use Tests.*
pub use Lists.*
pub use Words.*
pub use Bits.*
pub use Codes.*
pub use Bytes.*
pub use Ranges.*
pub use Masks.*
unfoldable pub use Ranges.{all_below}
unfoldable pub use Bytes.{xor_bytes}
pub use Prim.Native.Nat.{ℕ, zero, suc, ◌+◌, ◌-◌, ◌*◌, ◌/◌, ◌%◌, ◌^◌, ◌≤◌, ◌<◌}
pub use Prim.Native.Nat.{bit_and, bit_or, bit_xor}
pub use mathlib.Core.Path.{◌≡◌, refl, sym, ap, ap₂, ◌∙◌}
pub use mathlib.Core.Logic.{◌≢◌, ◌↔◌, ◌⊎◌, inl, inr}
pub use mathlib.Core.Bool.{Bool, true, false, not, ◌&&◌, ◌||◌}
pub use mathlib.Core.Option.{Option, none, some}
pub use mathlib.Core.List.{List, [], ◌∷◌, ◌++◌, map, append-nil}
pub use native.Mathlib.Omega.{arith}
unfoldable pub use native.Mathlib.Decide.{dec_lt, ℕ_discrete}
