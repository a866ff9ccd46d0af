-- ===== src/Base/Bits.antt =====
-- Facts about the bits of a number, at every width.
use Prim.Native.Nat.{
  ℕ, zero, suc, ◌+◌, ◌*◌, ◌/◌, ◌%◌, ◌^◌, ◌≤◌, ◌<◌, min, max, bit_and, bit_or, bit_xor, digits,
  differ, bitwise, bit_and-bitwise, bit_or-bitwise, bit_xor-bitwise,
}
use mathlib.Core.Logic.{◌≢◌}
use mathlib.Core.Path.{◌≡◌, refl, ap, sym, ◌∙◌}
use native.Mathlib.Omega.{arith}
use native.Mathlib.Nat.{
  le_refl, pow-suc, add-zero, mul-one, div-add-mod, mod-lt, mod-zero, mod-eq_of_lt,
  add-mul-mod_self_left,
}

-- More fuel than is enough changes no digit of a bitwise operation.
module _ (rest : ℕ → ℕ) (op : ℕ → ℕ → ℕ) where
  digits_enough :
      (few many x y : ℕ) → x ≤ few → x ≤ many → digits rest op few x y ≡ digits rest op many x y
  digits_enough few many zero y small small' = both few many
    where
      both : (few many : ℕ) → digits rest op few zero y ≡ digits rest op many zero y
      both zero zero = refl
      both zero (suc many) = refl
      both (suc few) zero = refl
      both (suc few) (suc many) = refl
  digits_enough zero many (suc x) y small small' = absurd (omega arith)
  digits_enough (suc few) zero (suc x) y small small' = absurd (omega arith)
  digits_enough (suc few) (suc many) (suc x) y small small' =
      rw (digits_enough few many (suc x / 2) (y / 2) (omega arith) (omega arith))

  halved : ℕ → ℕ → ℕ
  halved x y = bitwise rest op (x / 2) (y / 2)

  bitwise-unfold :
      (x y : ℕ) → bitwise rest op (suc x) y ≡ halved (suc x) y * 2 + op (suc x % 2) (y % 2)
  unfolding halved
  bitwise-unfold x y =
      let same = digits_enough x (suc x / 2) (suc x / 2) (y / 2) (omega arith) (le_refl _) in
      omega (arith, same)

pub bit_or_digit : (x y : ℕ) → bit_or x y ≡ bit_or (x / 2) (y / 2) * 2 + max (x % 2) (y % 2)
bit_or_digit zero b = simp bit_or-bitwise (omega arith)
bit_or_digit (suc a) b = simp bit_or-bitwise (unfold halved in bitwise-unfold (λ y. y) max a b)

pub bit_and_digit : (x y : ℕ) → bit_and x y ≡ bit_and (x / 2) (y / 2) * 2 + min (x % 2) (y % 2)
bit_and_digit zero b = simp bit_and-bitwise (omega arith)
bit_and_digit (suc a) b = simp bit_and-bitwise (unfold halved in bitwise-unfold (λ y. 0) min a b)

pub bit_xor_digit : (x y : ℕ) → bit_xor x y ≡ bit_xor (x / 2) (y / 2) * 2 + differ (x % 2) (y % 2)
bit_xor_digit zero b = simp bit_xor-bitwise (omega arith)
bit_xor_digit (suc a) b = simp bit_xor-bitwise (unfold halved in bitwise-unfold (λ y. y) differ a b)

-- Bit `i` of `n`, counted from the lowest: 0 or 1.
unfoldable pub bit : ℕ → ℕ → ℕ
bit n zero = n % 2
bit n (suc i) = bit (n / 2) i

pub bit-le : (n i : ℕ) → bit n i ≤ 1
unfolding bit
bit-le n zero = omega arith
bit-le n (suc i) = bit-le (n / 2) i

pub bit-zero : (i : ℕ) → bit 0 i ≡ 0
unfolding bit
bit-zero zero = refl
bit-zero (suc i) = bit-zero i

pub bit-or : (a b i : ℕ) → bit (bit_or a b) i ≡ max (bit a i) (bit b i)
unfolding bit
bit-or a b zero = omega (arith, bit_or_digit a b)
bit-or a b (suc i) = rw half (bit-or (a / 2) (b / 2) i)
  where
    half : bit_or a b / 2 ≡ bit_or (a / 2) (b / 2)
    half = omega (arith, bit_or_digit a b)

pub bit-and : (a b i : ℕ) → bit (bit_and a b) i ≡ min (bit a i) (bit b i)
unfolding bit
bit-and a b zero = omega (arith, bit_and_digit a b)
bit-and a b (suc i) = rw half (bit-and (a / 2) (b / 2) i)
  where
    half : bit_and a b / 2 ≡ bit_and (a / 2) (b / 2)
    half = omega (arith, bit_and_digit a b)

pub two-pow-suc : (k : ℕ) → 2 ^ suc k ≡ 2 * 2 ^ k
two-pow-suc k = omega (arith, pow-suc 2 k)

pub bit-two_pow_self : (k : ℕ) → bit (2 ^ k) k ≡ 1
unfolding bit
bit-two_pow_self zero = refl
bit-two_pow_self (suc k) = rw half (bit-two_pow_self k)
  where
    half : 2 ^ suc k / 2 ≡ 2 ^ k
    half = omega (arith, two-pow-suc k)

pub bit-two_pow_ne : (k i : ℕ) → i ≢ k → bit (2 ^ k) i ≡ 0
unfolding bit
bit-two_pow_ne zero zero h = absurd (h refl)
bit-two_pow_ne zero (suc i) h = bit-zero i
bit-two_pow_ne (suc k) zero h = omega (arith, two-pow-suc k)
bit-two_pow_ne (suc k) (suc i) h = rw half (bit-two_pow_ne k i (omega arith))
  where
    half : 2 ^ suc k / 2 ≡ 2 ^ k
    half = omega (arith, two-pow-suc k)

-- `n << s` moves bit `i` to bit `i + s`, and clears what it moves away from.
pub bit-shift : (n s i : ℕ) → bit (n * 2 ^ s) (i + s) ≡ bit n i
unfolding bit
bit-shift n zero i = simp (add-zero, mul-one)
bit-shift n (suc s) i = rw index (ap (λ (t : ℕ). bit t (i + s)) half ∙ bit-shift n s i)
  where
    index : i + suc s ≡ suc (i + s)
    index = omega arith

    half : n * 2 ^ suc s / 2 ≡ n * 2 ^ s
    half = omega (arith, ap (λ (t : ℕ). n * t) (two-pow-suc s))

pub bit-shift_below : (n s i : ℕ) → i < s → bit (n * 2 ^ s) i ≡ 0
unfolding bit
bit-shift_below n zero i h = absurd (omega arith)
bit-shift_below n (suc s) zero h = omega (arith, ap (λ (t : ℕ). n * t) (two-pow-suc s))
bit-shift_below n (suc s) (suc i) h = rw half (bit-shift_below n s i (omega arith))
  where
    half : n * 2 ^ suc s / 2 ≡ n * 2 ^ s
    half = omega (arith, ap (λ (t : ℕ). n * t) (two-pow-suc s))

pub mod_double : (n p : ℕ) → n % (2 * p) ≡ n / 2 % p * 2 + n % 2
mod_double n zero = omega (arith, mod-zero n, mod-zero (n / 2))
mod_double n (suc q) = ap (λ (t : ℕ). t % (2 * suc q)) whole ∙ at_once
  where
    low : ℕ
    low = n / 2 % suc q * 2 + n % 2

    whole : n ≡ low + 2 * suc q * (n / 2 / suc q)
    whole = omega (arith, ap (λ (t : ℕ). 2 * t) (div-add-mod (n / 2) (suc q)))

    at_once : (low + 2 * suc q * (n / 2 / suc q)) % (2 * suc q) ≡ low
    at_once =
        add-mul-mod_self_left low (2 * suc q) (n / 2 / suc q)
        ∙ mod-eq_of_lt (omega (arith, mod-lt (n / 2) {m = suc q} (omega arith)))

mod_half : (n p : ℕ) → n % (2 * p) / 2 ≡ n / 2 % p
mod_half n p = omega (arith, mod_double n p)

-- Keeping the low `w` bits.
pub bit-mod : (n w i : ℕ) → i < w → bit (n % 2 ^ w) i ≡ bit n i
unfolding bit
bit-mod n zero i h = absurd (omega arith)
bit-mod n (suc w) zero h = rw (two-pow-suc w) (omega (arith, mod_double n (2 ^ w)))
bit-mod n (suc w) (suc i) h = rw half (bit-mod (n / 2) w i (omega arith))
  where
    half : n % 2 ^ suc w / 2 ≡ n / 2 % 2 ^ w
    half = rw (two-pow-suc w) (mod_half n (2 ^ w))

-- A number that has no bit at all is 0, so two numbers with the same bits are one.
pub bit-of_zero : (n i : ℕ) → n ≡ 0 → bit n i ≡ 0
bit-of_zero n i e = rw e (bit-zero i)

-- Nothing is left of a number under an empty mask; `fuel` bounds its halvings.
bit_and-zero_fuel : (fuel x : ℕ) → x ≤ fuel → bit_and x 0 ≡ 0
bit_and-zero_fuel fuel zero small = refl
bit_and-zero_fuel zero (suc x) small = absurd (omega arith)
bit_and-zero_fuel (suc fuel) (suc x) small =
    let halved = bit_and-zero_fuel fuel (suc x / 2) (omega arith) in
    omega (arith, halved, bit_and_digit (suc x) 0)

pub bit_and-zero : (x : ℕ) → bit_and x 0 ≡ 0
bit_and-zero x = bit_and-zero_fuel x x (omega arith)

bit_or-zero_right_fuel : (n a : ℕ) → a ≤ n → bit_or a 0 ≡ a
bit_or-zero_right_fuel n zero h = refl
bit_or-zero_right_fuel zero (suc a) h = absurd (omega arith)
bit_or-zero_right_fuel (suc n) (suc a) h =
    omega (arith, bit_or_digit (suc a) 0, bit_or-zero_right_fuel n (suc a / 2) (omega arith))

pub bit_or-zero_right : (a : ℕ) → bit_or a 0 ≡ a
bit_or-zero_right a = bit_or-zero_right_fuel a a (omega arith)

-- A mask of one bit picks that bit.
pub bit_and-two_pow : (m k : ℕ) → bit_and m (2 ^ k) ≡ bit m k * 2 ^ k
unfolding bit
bit_and-two_pow m zero = omega (arith, bit_and_digit m 1, bit_and-zero (m / 2))
bit_and-two_pow m (suc k) = omega (
  arith,
  bit_and_digit m (2 ^ suc k),
  ap (bit_and (m / 2)) half,
  bit_and-two_pow (m / 2) k,
  two-pow-suc k,
  ap (λ (t : ℕ). bit (m / 2) k * t) (two-pow-suc k),
)
  where
    half : 2 ^ suc k / 2 ≡ 2 ^ k
    half = omega (arith, two-pow-suc k)

pub bit_and-two_pow_test : (m k : ℕ) → bit_and m (2 ^ k) ≡ 0 → bit m k ≡ 0
bit_and-two_pow_test m k h =
    omega (arith, bit-and m (2 ^ k) k, ap (λ (t : ℕ). bit t k) h, bit-zero k, bit-two_pow_self k)

differ_undo : (x y : ℕ) → x < 2 → y < 2 → differ (differ x y) y ≡ x
differ_undo zero zero p q = refl
differ_undo zero (suc zero) p q = refl
differ_undo (suc zero) zero p q = refl
differ_undo (suc zero) (suc zero) p q = refl
differ_undo (suc (suc x)) y p q = absurd (omega arith)
differ_undo x (suc (suc y)) p q = absurd (omega arith)

differ-le : (x y : ℕ) → x < 2 → y < 2 → differ x y ≤ 1
differ-le zero y p q = omega arith
differ-le (suc zero) zero p q = omega arith
differ-le (suc zero) (suc y) p q = omega arith
differ-le (suc (suc x)) y p q = absurd (omega arith)

differ_self : (x : ℕ) → x < 2 → differ x x ≡ 0
differ_self zero p = refl
differ_self (suc zero) p = refl
differ_self (suc (suc x)) p = absurd (omega arith)

xor_undo_step :
    (a k : ℕ) → bit_xor (bit_xor (a / 2) (k / 2)) (k / 2) ≡ a / 2 → bit_xor (bit_xor a k) k ≡ a
xor_undo_step a k ih = omega (
  arith,
  bit_xor_digit (bit_xor a k) k,
  ap (λ (t : ℕ). bit_xor t (k / 2)) upper,
  ap (λ (t : ℕ). differ t (k % 2)) lower,
  differ_undo (a % 2) (k % 2) (omega arith) (omega arith),
  ih,
)
  where
    small : differ (a % 2) (k % 2) ≤ 1
    small = differ-le (a % 2) (k % 2) (omega arith) (omega arith)

    upper : bit_xor a k / 2 ≡ bit_xor (a / 2) (k / 2)
    upper = omega (arith, bit_xor_digit a k, small)

    lower : bit_xor a k % 2 ≡ differ (a % 2) (k % 2)
    lower = omega (arith, bit_xor_digit a k, small)

-- `^` undoes itself, at every width.
bit_xor_undo_fuel : (n a k : ℕ) → a + k ≤ n → bit_xor (bit_xor a k) k ≡ a
bit_xor_undo_fuel n zero zero h = refl
bit_xor_undo_fuel zero zero (suc k) h = absurd (omega arith)
bit_xor_undo_fuel zero (suc a) k h = absurd (omega arith)
bit_xor_undo_fuel (suc n) (suc a) k h =
    xor_undo_step (suc a) k (bit_xor_undo_fuel n (suc a / 2) (k / 2) (omega arith))
bit_xor_undo_fuel (suc n) zero (suc k) h =
    xor_undo_step 0 (suc k) (bit_xor_undo_fuel n 0 (suc k / 2) (omega arith))

pub bit_xor_undo : (a k : ℕ) → bit_xor (bit_xor a k) k ≡ a
bit_xor_undo a k = bit_xor_undo_fuel (a + k) a k (omega arith)

bit_xor_self_fuel : (n a : ℕ) → a ≤ n → bit_xor a a ≡ 0
bit_xor_self_fuel n zero h = refl
bit_xor_self_fuel zero (suc a) h = absurd (omega arith)
bit_xor_self_fuel (suc n) (suc a) h = omega (
  arith,
  bit_xor_digit (suc a) (suc a),
  bit_xor_self_fuel n (suc a / 2) (omega arith),
  differ_self (suc a % 2) (omega arith),
)

pub bit_xor_self : (a : ℕ) → bit_xor a a ≡ 0
bit_xor_self a = bit_xor_self_fuel a a (omega arith)

zero-bit_xor : (b : ℕ) → bit_xor 0 b ≡ b
zero-bit_xor b = bit_xor-bitwise 0 b

zero-bit_or : (b : ℕ) → bit_or 0 b ≡ b
zero-bit_or b = bit_or-bitwise 0 b

pub bit_xor-eq : (a b : ℕ) → bit_xor a b ≡ 0 → a ≡ b
bit_xor-eq a b h = sym (bit_xor_undo a b) ∙ ap (λ (t : ℕ). bit_xor t b) h ∙ zero-bit_xor b

bit_or_zero_fuel : (n a b : ℕ) → a + b ≤ n → bit_or a b ≡ 0 → a + b ≡ 0
bit_or_zero_fuel zero a b h e = omega arith
bit_or_zero_fuel (suc n) zero b h e = omega (arith, zero-bit_or b)
bit_or_zero_fuel (suc n) (suc a) b h e = omega (
  arith,
  bit_or_digit (suc a) b,
  bit_or_zero_fuel n (suc a / 2) (b / 2) (omega arith) (omega (arith, bit_or_digit (suc a) b)),
)

-- A union is empty only if both sets are.
pub bit_or-zero : (a b : ℕ) → bit_or a b ≡ 0 → (a ≡ 0) × (b ≡ 0)
bit_or-zero a b h = (
  omega (arith, bit_or_zero_fuel (a + b) a b (omega arith) h),
  omega (arith, bit_or_zero_fuel (a + b) a b (omega arith) h),
)
