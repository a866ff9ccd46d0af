-- ===== src/Crypto/X25519/ScalarBits.antt =====
-- crates/akurai-crypto/src/x25519.rs: the bits of the scalar that `ladder` reads.
use native.Mathlib.Nat.{pow-suc, div-div-eq-div-mul}
use akur_ai_vpn.Base.{
  ℕ, zero, suc, ◌+◌, ◌*◌, ◌/◌, ◌%◌, ◌^◌, ◌<◌, ◌≤◌, ◌≡◌, ap, sym, refl, ◌∙◌, arith, List, [], ◌∷◌,
  All, IsByte, of_le, drop, get_or,
}
use akur_ai_vpn.Base.Arrays.{of_le-drop}
use akur_ai_vpn.Base.Masks.{bit_and-low, pow-add}
use akur_ai_vpn.Crypto.X25519.{scalar_bit}

pow_of_bytes : (q : ℕ) → 2 ^ (8 * q) ≡ 256 ^ q
pow_of_bytes zero = refl
pow_of_bytes (suc q) =
    ap (λ (n : ℕ). 2 ^ n) next
    ∙ pow-add 8 (8 * q)
    ∙ ap (λ (t : ℕ). 256 * t) (pow_of_bytes q)
    ∙ omega (arith, pow-suc 256 q)
  where
    next : 8 * suc q ≡ 8 + 8 * q
    next = omega arith

pow_split : (t : ℕ) → 2 ^ t ≡ 256 ^ (t / 8) * 2 ^ (t % 8)
pow_split t =
    ap (λ (n : ℕ). 2 ^ n) parts
    ∙ pow-add (8 * (t / 8)) (t % 8)
    ∙ ap (λ (n : ℕ). n * 2 ^ (t % 8)) (pow_of_bytes (t / 8))
  where
    parts : t ≡ 8 * (t / 8) + t % 8
    parts = omega arith

of_le-place :
    (q : ℕ) (xs : List ℕ) → of_le (drop q xs) ≡ get_or xs q 0 + 256 * of_le (drop (suc q) xs)
of_le-place zero [] = refl
of_le-place zero (x ∷ xs) = refl
of_le-place (suc q) [] = refl
of_le-place (suc q) (x ∷ xs) = of_le-place q xs

bit_of_byte : (r b n : ℕ) → r < 8 → (b + 256 * n) / 2 ^ r % 2 ≡ b / 2 ^ r % 2
bit_of_byte zero b n h = omega arith
bit_of_byte (suc zero) b n h = omega arith
bit_of_byte (suc (suc zero)) b n h = omega arith
bit_of_byte (suc (suc (suc zero))) b n h = omega arith
bit_of_byte (suc (suc (suc (suc zero)))) b n h = omega arith
bit_of_byte (suc (suc (suc (suc (suc zero))))) b n h = omega arith
bit_of_byte (suc (suc (suc (suc (suc (suc zero)))))) b n h = omega arith
bit_of_byte (suc (suc (suc (suc (suc (suc (suc zero))))))) b n h = omega arith
bit_of_byte (suc (suc (suc (suc (suc (suc (suc (suc r)))))))) b n h = absurd (omega arith)

-- The bit read from byte `t / 8` is bit `t` of the number.
pub scalar_bit_lem : (k : List ℕ) (t : ℕ) → All IsByte k → scalar_bit k t ≡ of_le k / 2 ^ t % 2
unfolding scalar_bit
scalar_bit_lem k t h =
    bit_and-low 1 (get_or k (t / 8) 0 / 2 ^ (t % 8))
    ∙ sym (bit_of_byte (t % 8) (get_or k (t / 8) 0) (of_le (drop (suc (t / 8)) k)) (omega arith))
    ∙ ap (λ (n : ℕ). n / 2 ^ (t % 8) % 2) (sym (of_le-place (t / 8) k) ∙ of_le-drop (t / 8) k h)
    ∙ ap (λ (n : ℕ). n % 2) (div-div-eq-div-mul (of_le k) (256 ^ (t / 8)) (2 ^ (t % 8)))
    ∙ ap (λ (n : ℕ). of_le k / n % 2) (sym (pow_split t))

pub scalar_bit-le : (k : List ℕ) (t : ℕ) → scalar_bit k t ≤ 1
unfolding scalar_bit
scalar_bit-le k t = omega (arith, bit_and-low 1 (get_or k (t / 8) 0 / 2 ^ (t % 8)))
