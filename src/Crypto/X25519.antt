-- ===== src/Crypto/X25519.antt =====
-- crates/akurai-crypto/src/x25519.rs: the codec and the Montgomery ladder over the field. Arrays are
-- lists of the length that their type fixes.
pub mod Bytes
pub mod Swap
pub mod Curve
pub mod Rounds
pub mod ScalarBits
pub mod Multiplication
pub mod Agreement
pub mod Decoding
use akur_ai_vpn.Base.{
  ℕ, zero, suc, ◌+◌, ◌*◌, ◌/◌, ◌%◌, ◌^◌, List, [], ◌∷◌, ◌++◌, ltb, if◌then◌else◌, take, set, get_or,
  replicate, bit_and, bit_or, bit_xor, u64_le,
}
use akur_ai_vpn.Crypto.Field25519.{
  Fe, mask51, fe_zero, fe_one, load64_le, fadd, fsub, fmul, fsquare, fmul121665, reduce_canonical,
  finvert,
}
use akur_ai_vpn.Crypto.Word.{sub64, shl128, shr, sub}

-- `0u64.wrapping_sub(swap & 1)`
abbrev pub swap_mask : ℕ → ℕ
swap_mask swap = sub64 0 (bit_and swap 1)

abbrev pub swap_first : ℕ → ℕ → ℕ → ℕ
swap_first swap a b = bit_xor a (bit_and (swap_mask swap) (bit_xor a b))

abbrev pub swap_second : ℕ → ℕ → ℕ → ℕ
swap_second swap a b = bit_xor b (bit_and (swap_mask swap) (bit_xor a b))

unfoldable pub cswap : ℕ → Fe → Fe → Fe × Fe
cswap swap a b = (
  record {
    l0 = swap_first swap a.l0 b.l0;
    l1 = swap_first swap a.l1 b.l1;
    l2 = swap_first swap a.l2 b.l2;
    l3 = swap_first swap a.l3 b.l3;
    l4 = swap_first swap a.l4 b.l4;
  },
  record {
    l0 = swap_second swap a.l0 b.l0;
    l1 = swap_second swap a.l1 b.l1;
    l2 = swap_second swap a.l2 b.l2;
    l3 = swap_second swap a.l3 b.l3;
    l4 = swap_second swap a.l4 b.l4;
  },
)

-- `t[31] &= 0x7f`
unfoldable pub mask_top : List ℕ → List ℕ
mask_top u = set u 31 (bit_and (get_or u 31 0) 0x7f)

unfoldable pub limbs_of : List ℕ → Fe
limbs_of t = record {
  l0 = bit_and (load64_le (sub t 0 8)) mask51;
  l1 = bit_and (shr (load64_le (sub t 6 8)) 3) mask51;
  l2 = bit_and (shr (load64_le (sub t 12 8)) 6) mask51;
  l3 = bit_and (shr (load64_le (sub t 19 8)) 1) mask51;
  l4 = bit_and (shr (load64_le (sub t 24 8)) 12) mask51;
}

unfoldable pub decode_u : List ℕ → Fe
unfolding mask_top limbs_of
decode_u u = limbs_of (mask_top u)

unfoldable pub decode_scalar : List ℕ → List ℕ
decode_scalar scalar =
    let k = set scalar 0 (bit_and (get_or scalar 0 0) 248) in
    let k' = set k 31 (bit_and (get_or k 31 0) 127) in set k' 31 (bit_or (get_or k' 31 0) 64)

-- `u128::to_le_bytes`
abbrev pub u128_le : ℕ → List ℕ
u128_le n = u64_le n ++ u64_le (n / 2 ^ 64)

-- `out[off] |= byte`, for each byte that falls within the array.
abbrev pub or_bytes : ℕ → List ℕ → List ℕ → List ℕ
or_bytes off [] out = out
or_bytes off (b ∷ bs) out =
    or_bytes (suc off) bs (if ltb off 32 then set out off (bit_or (get_or out off 0) b) else out)

abbrev pub or_limb : ℕ → ℕ → List ℕ → List ℕ
or_limb i limb = or_bytes (i * 51 / 8) (take 8 (u128_le (shl128 limb (i * 51 % 8))))

-- The loops of `encode` over the reduced limbs.
unfoldable pub write_limbs : Fe → List ℕ
write_limbs l =
    or_limb 4 l.l4
      (or_limb 3 l.l3 (or_limb 2 l.l2 (or_limb 1 l.l1 (or_limb 0 l.l0 (replicate 32 0)))))

unfoldable pub encode : Fe → List ℕ
unfolding write_limbs
encode v = write_limbs (reduce_canonical v)

pub record Ladder : Type 0 where
  pub x2 : Fe
  pub z2 : Fe
  pub x3 : Fe
  pub z3 : Fe
  pub swap : ℕ

-- One round, without the swaps at its start.
unfoldable pub double_add : Fe → Fe → Fe → Fe → Fe → ℕ → Ladder
double_add x1 x2 z2 x3 z3 bit =
    let a = fadd x2 z2 in
    let aa = fsquare a in
    let b = fsub x2 z2 in
    let bb = fsquare b in
    let e = fsub aa bb in
    let c = fadd x3 z3 in
    let d = fsub x3 z3 in
    let da = fmul d a in
    let cb = fmul c b in
    record {
      x2 = fmul aa bb;
      z2 = fmul e (fadd aa (fmul121665 e));
      x3 = fsquare (fadd da cb);
      z3 = fmul x1 (fsquare (fsub da cb));
      swap = bit;
    }

-- `(scalar[t >> 3] >> (t & 7)) & 1`
unfoldable pub scalar_bit : List ℕ → ℕ → ℕ
scalar_bit scalar t = bit_and (get_or scalar (t / 8) 0 / 2 ^ (t % 8)) 1

unfoldable pub round : Fe → ℕ → Ladder → Ladder
unfolding cswap double_add
round x1 bit s =
    let swap = bit_xor s.swap bit in
    let (x2, x3) = cswap swap s.x2 s.x3 in
    let (z2, z3) = cswap swap s.z2 s.z3 in double_add x1 x2 z2 x3 z3 bit

-- The rounds for the bits below `t`, from the highest.
unfoldable pub rounds : List ℕ → Fe → ℕ → Ladder → Ladder
unfolding round scalar_bit
rounds scalar x1 zero s = s
rounds scalar x1 (suc t) s = rounds scalar x1 t (round x1 (scalar_bit scalar t) s)

-- The swaps and the division behind the loop.
unfoldable pub quotient : Ladder → Fe
unfolding cswap
quotient s =
    let (x2, x3) = cswap s.swap s.x2 s.x3 in
    let (z2, z3) = cswap s.swap s.z2 s.z3 in fmul x2 (finvert z2)

abbrev pub start : Fe → Ladder
start u = record { x2 = fe_one; z2 = fe_zero; x3 = u; z3 = fe_one; swap = 0 }

-- `ladder`, for the number of bits that its loop starts from.
unfoldable pub ladder_from : ℕ → List ℕ → Fe → Fe
unfolding rounds quotient
ladder_from bits scalar u = quotient (rounds scalar u bits (start u))

unfoldable pub ladder : List ℕ → Fe → Fe
ladder = ladder_from 255

unfoldable pub x25519 : List ℕ → List ℕ → List ℕ
x25519 scalar u = encode (ladder (decode_scalar scalar) (decode_u u))

-- The base point 9.
unfoldable pub public_key : List ℕ → List ℕ
public_key secret = x25519 secret (9 ∷ replicate 31 0)

unfoldable pub shared_secret : List ℕ → List ℕ → List ℕ
shared_secret secret peer_public = x25519 secret peer_public
