-- ===== src/Base/Joins.antt =====
-- `bit_or` in either order, and beside zeros.
use Prim.Native.Nat.{ℕ, zero, suc, ◌+◌, ◌*◌, ◌/◌, ◌%◌, ◌^◌, ◌≤◌, ◌<◌, bit_or, bit_and}
use mathlib.Core.Path.{◌≡◌, refl, ap, ap₂, ◌∙◌}
use mathlib.Core.Bool.{Bool, true, ◌&&◌}
use package.akur_ai_vpn.Base.Tests.{◌==◌, ==_iff}
use native.Mathlib.Omega.{arith}
use native.Mathlib.Nat.{mod-add-div'}
use package.akur_ai_vpn.Base.Bits.{
  bit_or_digit, bit_and_digit, bit_or-zero_right, two-pow-suc, bit_and-zero,
}
use package.akur_ai_vpn.Base.Masks.{bit_or-disjoint}

bit_or_comm_fuel : (n a b : ℕ) → a + b ≤ n → bit_or a b ≡ bit_or b a
bit_or_comm_fuel n zero zero h = refl
bit_or_comm_fuel zero zero (suc b) h = absurd (omega arith)
bit_or_comm_fuel zero (suc a) b h = absurd (omega arith)
bit_or_comm_fuel (suc n) zero (suc b) h = omega (
  arith,
  bit_or_digit 0 (suc b),
  bit_or_digit (suc b) 0,
  bit_or_comm_fuel n 0 (suc b / 2) (omega arith),
)
bit_or_comm_fuel (suc n) (suc a) b h = omega (
  arith,
  bit_or_digit (suc a) b,
  bit_or_digit b (suc a),
  bit_or_comm_fuel n (suc a / 2) (b / 2) (omega arith),
)

pub bit_or_comm : (a b : ℕ) → bit_or a b ≡ bit_or b a
bit_or_comm a b = bit_or_comm_fuel (a + b) a b (omega arith)

bit_and_comm_fuel : (n a b : ℕ) → a + b ≤ n → bit_and a b ≡ bit_and b a
bit_and_comm_fuel n zero zero h = refl
bit_and_comm_fuel zero zero (suc b) h = absurd (omega arith)
bit_and_comm_fuel zero (suc a) b h = absurd (omega arith)
bit_and_comm_fuel (suc n) zero (suc b) h = omega (
  arith,
  bit_and_digit 0 (suc b),
  bit_and_digit (suc b) 0,
  bit_and_comm_fuel n 0 (suc b / 2) (omega arith),
)
bit_and_comm_fuel (suc n) (suc a) b h = omega (
  arith,
  bit_and_digit (suc a) b,
  bit_and_digit b (suc a),
  bit_and_comm_fuel n (suc a / 2) (b / 2) (omega arith),
)

pub bit_and_comm : (a b : ℕ) → bit_and a b ≡ bit_and b a
bit_and_comm a b = bit_and_comm_fuel (a + b) a b (omega arith)

pub bit_or-zero_left : (a : ℕ) → bit_or 0 a ≡ a
bit_or-zero_left a = bit_or_comm 0 a ∙ bit_or-zero_right a

-- A number below `2 ^ k` and a multiple of `2 ^ k`.
pub bit_or-low : (k a b : ℕ) → a < 2 ^ k → b % 2 ^ k ≡ 0 → bit_or a b ≡ a + b
bit_or-low k a b h e =
    bit_or_comm a b
    ∙ ap (λ (t : ℕ). bit_or t a) split
    ∙ bit_or-disjoint k (b / 2 ^ k) a h
    ∙ omega (arith, split)
  where
    split : b ≡ b / 2 ^ k * 2 ^ k
    split = omega (arith, mod-add-div' b (2 ^ k), e)

-- A test that holds of every number below a bound.
pub holds_below : ℕ → (ℕ → Bool) → Bool
holds_below zero test = true
holds_below (suc n) test = test n && holds_below n test

pub holds_below-at :
    (n : ℕ) (test : ℕ → Bool) (x : ℕ) → holds_below n test ≡ true → x < n → test x ≡ true
unfolding holds_below
holds_below-at zero test x h lt = absurd (omega arith)
holds_below-at (suc n) test x h lt = ground (arith, holds_below-at n test x)

or_64_table : holds_below 128 (λ x. bit_or x 64 == 64 + x % 64) ≡ true
unfolding holds_below
or_64_table = refl

pub bit_or-64 : (x : ℕ) → x < 128 → bit_or x 64 ≡ 64 + x % 64
bit_or-64 x h = (==_iff _ _).0 (holds_below-at 128 _ x or_64_table h)

pub bit_or-lt : (k a b : ℕ) → a < 2 ^ k → b < 2 ^ k → bit_or a b < 2 ^ k
bit_or-lt zero zero zero h g = omega arith
bit_or-lt zero zero (suc b) h g = absurd (omega arith)
bit_or-lt zero (suc a) b h g = absurd (omega arith)
bit_or-lt (suc k) a b h g = omega (
  arith,
  bit_or_digit a b,
  two-pow-suc k,
  bit_or-lt k (a / 2) (b / 2) (omega (arith, two-pow-suc k)) (omega (arith, two-pow-suc k)),
)

-- `bit_and` of the low and the high parts apart.
pub bit_and-split :
    (k x m a b : ℕ)
    → x < 2 ^ k
    → m < 2 ^ k
    → bit_and (x + 2 ^ k * a) (m + 2 ^ k * b) ≡ bit_and x m + 2 ^ k * bit_and a b
bit_and-split zero x m a b hx hm =
    ap₂ bit_and (whole x a hx) (whole m b hm)
    ∙ omega (arith, ap₂ bit_and (none x hx) (none m hm), bit_and-zero 0)
  where
    none : (x : ℕ) → x < 2 ^ zero → x ≡ 0
    none x h = omega arith

    whole : (x a : ℕ) → x < 2 ^ zero → x + 2 ^ zero * a ≡ a
    whole x a h = omega arith
bit_and-split (suc k) x m a b hx hm = omega (
  arith,
  bit_and_digit (x + 2 ^ suc k * a) (m + 2 ^ suc k * b),
  bit_and_digit x m,
  ap₂ bit_and (half x a) (half m b),
  bit_and-split k (x / 2) (m / 2) a b (omega (arith, two-pow-suc k)) (omega (arith, two-pow-suc k)),
  twice a,
  twice b,
  twice (bit_and a b),
)
  where
    twice : (a : ℕ) → 2 ^ suc k * a ≡ 2 * (2 ^ k * a)
    twice a = rw (two-pow-suc k) (omega arith)

    half : (x a : ℕ) → (x + 2 ^ suc k * a) / 2 ≡ x / 2 + 2 ^ k * a
    half x a = omega (arith, twice a)
