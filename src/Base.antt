-- ===== src/Base.antt =====
-- The names that every module shares: the libraries' names, passed on, and those of the children.
pub mod Eq
pub mod Tests
pub mod Lists
pub mod Maps
pub mod Bits
pub mod Masks
pub mod Joins
pub mod Modular
pub mod Exclusive
pub mod Arrays
pub mod Outcome
pub mod Bytes
pub mod Net
pub mod Text
pub mod Distinct
pub mod Ipv4
pub use Tests.*
pub use Lists.*
pub use Bytes.*
pub use Net.*
pub use Prim.Native.Nat.{ℕ, zero, suc, ◌+◌, ◌-◌, ◌*◌, ◌/◌, ◌%◌, ◌^◌, ◌≤◌, ◌<◌, min, max}
pub use Prim.Native.Nat.{bit_and, bit_or, bit_xor}
pub use mathlib.Core.Path.{◌≡◌, refl, sym, ap, ap₂, ◌∙◌, subst}
pub use mathlib.Core.Logic.{◌≢◌, ◌↔◌, ◌⊎◌, inl, inr}
pub use mathlib.Core.Bool.{Bool, true, false, not, ◌&&◌, ◌||◌}
pub use mathlib.Core.Option.{Option, none, some}
pub use mathlib.Core.List.{List, [], ◌∷◌, ◌++◌, map}
pub use native.Mathlib.Omega.{arith}
