-- ===== src/Base/Modular.antt =====
-- Products and sums modulo a number.
use Prim.Native.Nat.{ℕ, ◌+◌, ◌*◌, ◌/◌, ◌%◌}
use mathlib.Core.Path.{◌≡◌, sym, ◌∙◌}
use native.Mathlib.Omega.{arith}
use native.Mathlib.Nat.{add-mul-mod_self_left, mod-add-div}

pub mod_of_multiple : (m x y q h : ℕ) → x + m * q + m * h ≡ y → y % m ≡ x % m
mod_of_multiple m x y q h e =
    rw (← e) (add-mul-mod_self_left (x + m * q) m h ∙ add-mul-mod_self_left x m q)

expand_product :
    (m a u b v x y : ℕ) → a + m * u ≡ x → b + m * v ≡ y → a * b + m * (a * v) + m * (u * y) ≡ x * y
expand_product m a u b v x y e f = rw (← e, ← f) (omega arith)

-- Factors may be reduced before they are multiplied.
pub mod-mul-mod : (m x y : ℕ) → (x % m) * (y % m) % m ≡ x * y % m
mod-mul-mod m x y = sym (
    mod_of_multiple m _ _ _ _
      (expand_product m (x % m) (x / m) (y % m) (y / m) x y (mod-add-div x m) (mod-add-div y m)))

pub mod-mul_left : (m x y : ℕ) → (x % m) * y % m ≡ x * y % m
mod-mul_left m x y = sym (
    mod_of_multiple m _ _ _ _
      (expand_product m (x % m) (x / m) y 0 x y (mod-add-div x m) (omega arith)))
