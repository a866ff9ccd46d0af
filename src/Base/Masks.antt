-- ===== src/Base/Masks.antt =====
-- Masks of leading ones as arithmetic, at every width.
use Prim.Native.Nat.{ℕ, zero, suc, ◌+◌, ◌-◌, ◌*◌, ◌/◌, ◌%◌, ◌^◌, ◌≤◌, ◌<◌, max, bit_and, bit_or}
use mathlib.Core.Path.{◌≡◌, ap, ◌∙◌}
use native.Mathlib.Omega.{arith}
use native.Mathlib.Nat.{mod-one, div-one, div-div-eq-div-mul, mod-eq_of_lt, add-mul-mod_self_left}
use package.akur_ai_vpn.Base.Bits.{
  bit_or_digit, bit_or-zero_right, bit_and_digit, bit_and-zero, mod_double, two-pow-suc,
}

pub pow-add : (m k : ℕ) → 2 ^ (m + k) ≡ 2 ^ m * 2 ^ k
pow-add zero k = ap (λ (t : ℕ). 2 ^ t) (zero_add k) ∙ omega arith
  where
    zero_add : (k : ℕ) → 0 + k ≡ k
    zero_add k = omega arith
pow-add (suc m) k =
    ap (λ (t : ℕ). 2 ^ t) (suc_add m k)
    ∙ omega (arith, two-pow-suc (m + k), pow-add m k, ap (λ (t : ℕ). t * 2 ^ k) (two-pow-suc m))
  where
    suc_add : (m k : ℕ) → suc m + k ≡ suc (m + k)
    suc_add m k = omega arith

pub one_le_pow : (k : ℕ) → 1 ≤ 2 ^ k
one_le_pow zero = omega arith
one_le_pow (suc k) = omega (arith, two-pow-suc k, one_le_pow k)

-- `x & (2^m - 1)`
pub bit_and-low : (m x : ℕ) → bit_and x (2 ^ m - 1) ≡ x % 2 ^ m
bit_and-low zero x = omega (arith, bit_and-zero x, mod-one x)
bit_and-low (suc m) x = omega (
  arith,
  bit_and_digit x (2 ^ suc m - 1),
  ap (bit_and (x / 2)) half,
  bit_and-low m (x / 2),
  mod_double x (2 ^ m),
  ap (λ (t : ℕ). x % t) (two-pow-suc m),
  two-pow-suc m,
  one_le_pow m,
)
  where
    half : (2 ^ suc m - 1) / 2 ≡ 2 ^ m - 1
    half = omega (arith, two-pow-suc m, one_le_pow m)

-- `x & ((2^m - 1) << k)`
pub bit_and-high : (m k x : ℕ) → bit_and x ((2 ^ m - 1) * 2 ^ k) ≡ x / 2 ^ k % 2 ^ m * 2 ^ k
bit_and-high m zero x =
    omega (arith, ap (bit_and x) unit, bit_and-low m x, ap (λ (t : ℕ). t % 2 ^ m) (div-one x))
  where
    unit : (2 ^ m - 1) * 1 ≡ 2 ^ m - 1
    unit = omega arith
bit_and-high m (suc k) x = omega (
  arith,
  bit_and_digit x ((2 ^ m - 1) * 2 ^ suc k),
  ap (bit_and (x / 2)) half,
  bit_and-high m k (x / 2),
  ap (λ (t : ℕ). t % 2 ^ m * 2 ^ k) (div-div-eq-div-mul x 2 (2 ^ k)),
  ap (λ (t : ℕ). x / t % 2 ^ m * 2 ^ k) (two-pow-suc k),
  ap (λ (t : ℕ). x / 2 ^ suc k % 2 ^ m * t) (two-pow-suc k),
  double,
)
  where
    double : (2 ^ m - 1) * 2 ^ suc k ≡ 2 * ((2 ^ m - 1) * 2 ^ k)
    double = omega (arith, ap (λ (t : ℕ). (2 ^ m - 1) * t) (two-pow-suc k))

    half : (2 ^ m - 1) * 2 ^ suc k / 2 ≡ (2 ^ m - 1) * 2 ^ k
    half = omega (arith, double)

ones_split : (a b w : ℕ) → 1 ≤ a → 1 ≤ b → w ≡ a * b → (w - 1) * b ≡ (a - 1) * b + w * (b - 1)
ones_split zero b w p q e = absurd (omega arith)
ones_split (suc a) zero w p q e = absurd (omega arith)
ones_split (suc a) (suc b) w p q e = omega (
  arith,
  ap (λ (t : ℕ). t * suc b) less_one,
  ap (λ (t : ℕ). t * b) e,
  ap (λ (t : ℕ). t * suc b) a_is,
  ap (λ (t : ℕ). w * t) b_is,
)
  where
    less_one : w - 1 ≡ a * b + a + b
    less_one = omega arith

    a_is : suc a - 1 ≡ a
    a_is = omega arith

    b_is : suc b - 1 ≡ b
    b_is = omega arith

ones_small : (a b w : ℕ) → 1 ≤ a → 1 ≤ b → w ≡ a * b → (a - 1) * b < w
ones_small zero b w p q e = absurd (omega arith)
ones_small (suc a) b w p q e = omega (arith, ap (λ (t : ℕ). t * b) a_is)
  where
    a_is : suc a - 1 ≡ a
    a_is = omega arith

-- `MAX << k` in `m + k` bits.
pub ones-shift : (m k : ℕ) → (2 ^ (m + k) - 1) * 2 ^ k % 2 ^ (m + k) ≡ (2 ^ m - 1) * 2 ^ k
ones-shift m k =
    ap (λ (t : ℕ). t % 2 ^ (m + k)) split
    ∙ add-mul-mod_self_left ((2 ^ m - 1) * 2 ^ k) (2 ^ (m + k)) (2 ^ k - 1)
    ∙ mod-eq_of_lt small
  where
    size : 2 ^ (m + k) ≡ 2 ^ m * 2 ^ k
    size = pow-add m k

    split : (2 ^ (m + k) - 1) * 2 ^ k ≡ (2 ^ m - 1) * 2 ^ k + 2 ^ (m + k) * (2 ^ k - 1)
    split = ones_split (2 ^ m) (2 ^ k) (2 ^ (m + k)) (one_le_pow m) (one_le_pow k) size

    small : (2 ^ m - 1) * 2 ^ k < 2 ^ (m + k)
    small = ones_small (2 ^ m) (2 ^ k) (2 ^ (m + k)) (one_le_pow m) (one_le_pow k) size

-- A number below `2 ^ k` is laid beside a multiple of `2 ^ k` by `bit_or`.
pub bit_or-disjoint : (k h x : ℕ) → x < 2 ^ k → bit_or (h * 2 ^ k) x ≡ h * 2 ^ k + x
bit_or-disjoint zero h x lt =
    ap (bit_or (h * 1)) (none_left x lt) ∙ bit_or-zero_right (h * 1) ∙ omega (arith, none_left x lt)
  where
    none_left : (x : ℕ) → x < 1 → x ≡ 0
    none_left x lt = omega arith
bit_or-disjoint (suc k) h x lt =
    bit_or_digit (h * 2 ^ suc k) x
    ∙ ap (λ (t : ℕ). bit_or t (x / 2) * 2 + max (h * 2 ^ suc k % 2) (x % 2)) half
    ∙ ap (λ (t : ℕ). t * 2 + max (h * 2 ^ suc k % 2) (x % 2))
        (bit_or-disjoint k h (x / 2) (omega (arith, two-pow-suc k)))
    ∙ omega (arith, double)
  where
    double : h * 2 ^ suc k ≡ 2 * (h * 2 ^ k)
    double = omega (arith, ap (λ (t : ℕ). h * t) (two-pow-suc k))

    half : h * 2 ^ suc k / 2 ≡ h * 2 ^ k
    half = omega (arith, double)
