-- ===== src/Crypto/Poly1305.antt =====
-- crates/akurai-crypto/src/chacha20poly1305.rs: `poly1305_mac` on five limbs of 26 bits. Every
-- operation on `u64` and `u128` wraps, as it does in a release build.
pub mod Multiply
pub mod Blocks
pub mod Reduce
pub mod Clamp
pub mod Polynomial
use akur_ai_vpn.Base.{
  ℕ, zero, suc, ◌+◌, ◌-◌, ◌/◌, ◌%◌, ◌^◌, List, [], ◌∷◌, ◌++◌, length, take, drop, set, get_or,
  replicate, bit_and, bit_or, of_le, u64_le,
}
use akur_ai_vpn.Crypto.Word.{add64, sub64, mul64, shl64, shl128, shr, not64, sub}

pub record Limbs : Type 0 where
  pub l0 : ℕ
  pub l1 : ℕ
  pub l2 : ℕ
  pub l3 : ℕ
  pub l4 : ℕ

abbrev pub limb_mask : ℕ
limb_mask = 0x3ffffff

abbrev mask_at : ℕ → ℕ → List ℕ → List ℕ
mask_at i m s = set s i (bit_and (get_or s i 0) m)

unfoldable pub clamp : List ℕ → List ℕ
clamp r = mask_at 12 0xfc (
    mask_at 8 0xfc
      (mask_at 4 0xfc (mask_at 15 0x0f (mask_at 11 0x0f (mask_at 7 0x0f (mask_at 3 0x0f r))))))

-- Limbs of a `u128`.
unfoldable pub split_limbs : ℕ → Limbs
split_limbs n = record {
  l0 = bit_and n limb_mask;
  l1 = bit_and (shr n 26) limb_mask;
  l2 = bit_and (shr n 52) limb_mask;
  l3 = bit_and (shr n 78) limb_mask;
  l4 = bit_and (shr n 104) limb_mask;
}

-- A chunk of at most 16 bytes, with the high bit behind it, padded to 17 bytes.
unfoldable pub pad_block : List ℕ → List ℕ
pad_block chunk = (chunk ++ 1 ∷ []) ++ replicate (16 - length chunk) 0

unfoldable pub add_block : Limbs → List ℕ → Limbs
unfolding pad_block
add_block h chunk =
    let block = pad_block chunk in
    let n0 = of_le (sub block 0 8) in
    let n1 = of_le (sub block 8 8) in
    let n2 = get_or block 16 0 in
    record {
      l0 = add64 h.l0 (bit_and n0 limb_mask);
      l1 = add64 h.l1 (bit_and (shr n0 26) limb_mask);
      l2 = add64 h.l2 (bit_and (bit_or (shr n0 52) (shl64 n1 12)) limb_mask);
      l3 = add64 h.l3 (bit_and (shr n1 14) limb_mask);
      l4 = add64 h.l4 (bit_and (bit_or (shr n1 40) (shl64 n2 24)) limb_mask);
    }

-- A sum of five products.
abbrev dot : ℕ → ℕ → ℕ → ℕ → ℕ → ℕ → ℕ → ℕ → ℕ → ℕ → ℕ
dot a b c d e f g i j k =
    add64 (add64 (add64 (add64 (mul64 a b) (mul64 c d)) (mul64 e f)) (mul64 g i)) (mul64 j k)

unfoldable pub multiply : Limbs → Limbs → Limbs
multiply r h =
    let s1 = mul64 r.l1 5 in
    let s2 = mul64 r.l2 5 in
    let s3 = mul64 r.l3 5 in
    let s4 = mul64 r.l4 5 in
    record {
      l0 = dot h.l0 r.l0 h.l1 s4 h.l2 s3 h.l3 s2 h.l4 s1;
      l1 = dot h.l0 r.l1 h.l1 r.l0 h.l2 s4 h.l3 s3 h.l4 s2;
      l2 = dot h.l0 r.l2 h.l1 r.l1 h.l2 r.l0 h.l3 s4 h.l4 s3;
      l3 = dot h.l0 r.l3 h.l1 r.l2 h.l2 r.l1 h.l3 r.l0 h.l4 s4;
      l4 = dot h.l0 r.l4 h.l1 r.l3 h.l2 r.l2 h.l3 r.l1 h.l4 r.l0;
    }

-- The carry propagation at the end of each round.
unfoldable pub carry : Limbs → Limbs
carry d =
    let c0 = shr d.l0 26 in
    let t1 = add64 d.l1 c0 in
    let t2 = add64 d.l2 (shr t1 26) in
    let t3 = add64 d.l3 (shr t2 26) in
    let t4 = add64 d.l4 (shr t3 26) in
    let h0 = add64 (bit_and d.l0 limb_mask) (mul64 (shr t4 26) 5) in
    record {
      l0 = bit_and h0 limb_mask;
      l1 = add64 (bit_and t1 limb_mask) (shr h0 26);
      l2 = bit_and t2 limb_mask;
      l3 = bit_and t3 limb_mask;
      l4 = bit_and t4 limb_mask;
    }

-- The loop over the message, 16 bytes a round: as much fuel as there are bytes is enough.
unfoldable pub absorb : ℕ → Limbs → Limbs → List ℕ → Limbs
unfolding add_block multiply carry
absorb zero r h msg = h
absorb (suc fuel) r h [] = h
absorb (suc fuel) r h (b ∷ bs) =
    let msg : List ℕ = b ∷ bs in
    absorb fuel r (carry (multiply r (add_block h (take 16 msg)))) (drop 16 msg)

-- The final carry propagation; here the carry starts at limb 1.
unfoldable pub final_carry : Limbs → Limbs
final_carry h =
    let t2 = add64 h.l2 (shr h.l1 26) in
    let t3 = add64 h.l3 (shr t2 26) in
    let t4 = add64 h.l4 (shr t3 26) in
    let h0 = add64 h.l0 (mul64 (shr t4 26) 5) in
    record {
      l0 = bit_and h0 limb_mask;
      l1 = add64 (bit_and h.l1 limb_mask) (shr h0 26);
      l2 = bit_and t2 limb_mask;
      l3 = bit_and t3 limb_mask;
      l4 = bit_and t4 limb_mask;
    }

-- `h - p`, with limb 4 wrapped where it is negative.
unfoldable pub minus_p : Limbs → Limbs
minus_p h =
    let g0 = add64 h.l0 5 in
    let g1 = add64 h.l1 (shr g0 26) in
    let g2 = add64 h.l2 (shr g1 26) in
    let g3 = add64 h.l3 (shr g2 26) in
    record {
      l0 = bit_and g0 limb_mask;
      l1 = bit_and g1 limb_mask;
      l2 = bit_and g2 limb_mask;
      l3 = bit_and g3 limb_mask;
      l4 = sub64 (add64 h.l4 (shr g3 26)) (2 ^ 26);
    }

abbrev pick : ℕ → ℕ → ℕ → ℕ
pick mask h g = bit_or (bit_and h (not64 mask)) (bit_and g mask)

unfoldable pub select : Limbs → Limbs → Limbs
select h g =
    let mask = sub64 (shr g.l4 63) 1 in
    record {
      l0 = pick mask h.l0 g.l0;
      l1 = pick mask h.l1 g.l1;
      l2 = pick mask h.l2 g.l2;
      l3 = pick mask h.l3 g.l3;
      l4 = pick mask h.l4 g.l4;
    }

-- The 128-bit value of the limbs.
unfoldable pub join_limbs : Limbs → ℕ
join_limbs h =
    bit_or (bit_or (bit_or (bit_or h.l0 (shl128 h.l1 26)) (shl128 h.l2 52)) (shl128 h.l3 78))
      (shl128 h.l4 104)

abbrev pub u128_le : ℕ → List ℕ
u128_le n = u64_le (n % 2 ^ 64) ++ u64_le (n / 2 ^ 64)

unfoldable pub poly1305_mac : List ℕ → List ℕ → List ℕ
unfolding clamp split_limbs absorb final_carry minus_p select join_limbs
poly1305_mac key msg =
    let r = split_limbs (of_le (clamp (take 16 key))) in
    let h =
      final_carry (absorb (length msg) r (record { l0 = 0; l1 = 0; l2 = 0; l3 = 0; l4 = 0 }) msg) in
    let h128 = join_limbs (select h (minus_p h)) in
    u128_le ((h128 + of_le (sub key 16 16)) % 2 ^ 128)
