-- ===== src/Crypto/Field25519.antt =====
-- crates/akurai-crypto/src/x25519.rs: the field of X25519 on five limbs of 51 bits. `u64` and `u128`
-- wrap, as they do in a release build.
pub mod Reduction
pub mod Arithmetic
pub mod Residue
pub mod Inverse
pub mod Canonical
use akur_ai_vpn.Base.{
  ℕ, zero, suc, ◌+◌, ◌-◌, ◌*◌, ◌/◌, ◌%◌, ◌^◌, List, [], ◌∷◌, ◌++◌, ltb, if◌then◌else◌, take, set,
  get_or, replicate, bit_and, bit_or, bit_xor, u64_le,
}
use akur_ai_vpn.Crypto.Word.{add64, sub64, shl64, shl128, shr, sub}

abbrev pub mask51 : ℕ
mask51 = 2 ^ 51 - 1

-- An array of five limbs.
pub record Fe : Type 0 where
  pub l0 : ℕ
  pub l1 : ℕ
  pub l2 : ℕ
  pub l3 : ℕ
  pub l4 : ℕ

abbrev pub fe_zero : Fe
fe_zero = record { l0 = 0; l1 = 0; l2 = 0; l3 = 0; l4 = 0 }

abbrev pub fe_one : Fe
fe_one = record { l0 = 1; l1 = 0; l2 = 0; l3 = 0; l4 = 0 }

abbrev pub add128 : ℕ → ℕ → ℕ
add128 a b = (a + b) % 2 ^ 128

abbrev pub mul128 : ℕ → ℕ → ℕ
mul128 a b = a * b % 2 ^ 128

unfoldable pub load64_le : List ℕ → ℕ
load64_le b =
    let at = λ (i : ℕ). get_or b i 0 in
    let b01 = bit_or (at 0) (shl64 (at 1) 8) in
    let b03 = bit_or (bit_or b01 (shl64 (at 2) 16)) (shl64 (at 3) 24) in
    let b05 = bit_or (bit_or b03 (shl64 (at 4) 32)) (shl64 (at 5) 40) in
    bit_or (bit_or b05 (shl64 (at 6) 48)) (shl64 (at 7) 56)

unfoldable pub fadd : Fe → Fe → Fe
fadd a b = record {
  l0 = add64 a.l0 b.l0;
  l1 = add64 a.l1 b.l1;
  l2 = add64 a.l2 b.l2;
  l3 = add64 a.l3 b.l3;
  l4 = add64 a.l4 b.l4;
}

unfoldable pub fsub : Fe → Fe → Fe
fsub a b = record {
  l0 = sub64 (add64 a.l0 0xFFFFFFFFFFFDA) b.l0;
  l1 = sub64 (add64 a.l1 0xFFFFFFFFFFFFE) b.l1;
  l2 = sub64 (add64 a.l2 0xFFFFFFFFFFFFE) b.l2;
  l3 = sub64 (add64 a.l3 0xFFFFFFFFFFFFE) b.l3;
  l4 = sub64 (add64 a.l4 0xFFFFFFFFFFFFE) b.l4;
}

unfoldable pub carry_reduce : ℕ → ℕ → ℕ → ℕ → ℕ → Fe
carry_reduce r0 r1 r2 r3 r4 =
    let s1 = add128 r1 (shr r0 51) in
    let s2 = add128 r2 (shr s1 51) in
    let s3 = add128 r3 (shr s2 51) in
    let s4 = add128 r4 (shr s3 51) in
    let s0 = add128 (bit_and r0 mask51) (mul128 19 (shr s4 51)) in
    record {
      l0 = bit_and s0 mask51 % 2 ^ 64;
      l1 = add128 (bit_and s1 mask51) (shr s0 51) % 2 ^ 64;
      l2 = bit_and s2 mask51 % 2 ^ 64;
      l3 = bit_and s3 mask51 % 2 ^ 64;
      l4 = bit_and s4 mask51 % 2 ^ 64;
    }

-- A sum of five products of `u128`.
unfoldable pub dot : ℕ → ℕ → ℕ → ℕ → ℕ → ℕ → ℕ → ℕ → ℕ → ℕ → ℕ
dot a b c d e f g h i j =
    add128 (add128 (add128 (add128 (mul128 a b) (mul128 c d)) (mul128 e f)) (mul128 g h))
      (mul128 i j)

unfoldable pub fmul : Fe → Fe → Fe
fmul a b =
    let a1_19 = mul128 19 a.l1 in
    let a2_19 = mul128 19 a.l2 in
    let a3_19 = mul128 19 a.l3 in
    let a4_19 = mul128 19 a.l4 in
    carry_reduce (dot a.l0 b.l0 a1_19 b.l4 a2_19 b.l3 a3_19 b.l2 a4_19 b.l1)
      (dot a.l0 b.l1 a.l1 b.l0 a2_19 b.l4 a3_19 b.l3 a4_19 b.l2)
      (dot a.l0 b.l2 a.l1 b.l1 a.l2 b.l0 a3_19 b.l4 a4_19 b.l3)
      (dot a.l0 b.l3 a.l1 b.l2 a.l2 b.l1 a.l3 b.l0 a4_19 b.l4)
      (dot a.l0 b.l4 a.l1 b.l3 a.l2 b.l2 a.l3 b.l1 a.l4 b.l0)

unfoldable pub fsquare : Fe → Fe
fsquare a = fmul a a

unfoldable pub fmul121665 : Fe → Fe
fmul121665 a =
    carry_reduce (mul128 a.l0 121665) (mul128 a.l1 121665) (mul128 a.l2 121665) (mul128 a.l3 121665)
      (mul128 a.l4 121665)

unfoldable pub carry_propagate : Fe → Fe
carry_propagate v = record {
  l0 = add64 (bit_and v.l0 mask51) (shr v.l4 51 * 19 % 2 ^ 64);
  l1 = add64 (bit_and v.l1 mask51) (shr v.l0 51);
  l2 = add64 (bit_and v.l2 mask51) (shr v.l1 51);
  l3 = add64 (bit_and v.l3 mask51) (shr v.l2 51);
  l4 = add64 (bit_and v.l4 mask51) (shr v.l3 51);
}

-- The part of `reduce_canonical` behind the light carry.
unfoldable pub subtract_p : Fe → Fe
subtract_p t =
    let c0 = shr (add64 t.l0 19) 51 in
    let c1 = shr (add64 t.l1 c0) 51 in
    let c2 = shr (add64 t.l2 c1) 51 in
    let c3 = shr (add64 t.l3 c2) 51 in
    let c = shr (add64 t.l4 c3) 51 in
    let l0 = add64 t.l0 (19 * c % 2 ^ 64) in
    let l1 = add64 t.l1 (shr l0 51) in
    let l2 = add64 t.l2 (shr l1 51) in
    let l3 = add64 t.l3 (shr l2 51) in
    let l4 = add64 t.l4 (shr l3 51) in
    record {
      l0 = bit_and l0 mask51;
      l1 = bit_and l1 mask51;
      l2 = bit_and l2 mask51;
      l3 = bit_and l3 mask51;
      l4 = bit_and l4 mask51;
    }

unfoldable pub reduce_canonical : Fe → Fe
reduce_canonical v = subtract_p (carry_propagate v)

-- `for _ in 0..n { t = fsquare(&t); }`
unfoldable pub square_times : ℕ → Fe → Fe
square_times zero t = t
square_times (suc n) t = square_times n (fsquare t)

-- The first steps of `finvert`, up to z^(2^5 - 1).
unfoldable pub z2_5_0 : Fe → Fe → Fe
z2_5_0 z9 z11 = fmul (fsquare z11) z9

unfoldable pub finvert : Fe → Fe
unfolding z2_5_0
finvert z =
    let z2 = fsquare z in
    let z9 = fmul (fsquare (fsquare z2)) z in
    let z11 = fmul z9 z2 in
    let t5 = z2_5_0 z9 z11 in
    let t10 = fmul (square_times 4 (fsquare t5)) t5 in
    let t20 = fmul (square_times 9 (fsquare t10)) t10 in
    let t40 = fmul (square_times 19 (fsquare t20)) t20 in
    let t50 = fmul (square_times 9 (fsquare t40)) t10 in
    let t100 = fmul (square_times 49 (fsquare t50)) t50 in
    let t200 = fmul (square_times 99 (fsquare t100)) t100 in
    let t250 = fmul (square_times 49 (fsquare t200)) t50 in fmul (square_times 4 (fsquare t250)) z11
