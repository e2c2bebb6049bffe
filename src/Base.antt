-- ===== src/Base.antt =====
-- The names that the other modules share: the libraries', passed on, and those of the children.
mod Tests
mod Lists
mod Bits
mod Words
mod Slices
mod Bytes
mod Loops
pub use Tests.*
pub use Lists.*
pub use Words.*
pub use Loops.{Flow, more, done, Descends, loop-Returns, loop-more, loop-done}
unfoldable pub use Loops.{loop}
unfoldable pub use Slices.{starts_with, strip_prefix, any, position, rposition}
unfoldable pub use Bytes.{to_le_bytes, from_le_bytes}
pub use Bytes.{
  length-to_le_bytes, to_le_bytes-AreBytes, from_le_bytes-to_le_bytes, to_le_bytes-from_le_bytes,
  from_le_bytes-lt,
}
unfoldable pub use Bits.{holds_below}
pub use Bits.{holds_below_at}
pub use Prim.Native.Nat.{ℕ, zero, suc, ◌+◌, ◌-◌, ◌*◌, ◌/◌, ◌%◌, ◌^◌, ◌≤◌, ◌<◌, min, max}
pub use Prim.Native.String.{String}
pub use mathlib.Core.Path.{◌≡◌, refl, sym, ap, ◌∙◌}
pub use mathlib.Core.Logic.{◌≢◌, ◌↔◌, ◌⊎◌, inl, inr}
pub use mathlib.Core.Bool.{Bool, true, false, not, ◌&&◌, ◌||◌}
pub use mathlib.Core.Option.{Option, none, some}
pub use mathlib.Core.List.{List, [], ◌∷◌, ◌++◌, map}
pub use native.Mathlib.Omega.{arith}
