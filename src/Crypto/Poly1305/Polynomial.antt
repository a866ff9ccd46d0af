-- ===== src/Crypto/Poly1305/Polynomial.antt =====
-- crates/akurai-crypto/src/chacha20poly1305.rs: `poly1305_mac` against RFC 8439 on numbers.
use native.Mathlib.Nat.{mod-add-mod}
use akur_ai_vpn.Base.{
  ℕ, zero, suc, subst, ◌+◌, ◌*◌, ◌%◌, ◌^◌, ◌<◌, ◌≤◌, ◌≡◌, refl, sym, ap, ◌∙◌, arith, List, [], ◌∷◌,
  length, take, drop, get_or, All, All-take, All-drop, IsByte, of_le, length-take, bit_and,
}
use akur_ai_vpn.Base.Arrays.{IsArray, set-IsByte, length-set, of_le-lt}
use akur_ai_vpn.Base.Modular.{mod_of_multiple, mod-mul_left}
use akur_ai_vpn.Crypto.Poly1305.Clamp.{of_le-clamp}
use akur_ai_vpn.Base.Masks.{bit_and-low, bit_and-high}
use akur_ai_vpn.Crypto.Poly1305.Blocks.{
  block_number, value-add_block, add_block-IsBelow, split_limbs_lem,
}
use akur_ai_vpn.Crypto.Poly1305.Multiply.{
  modulus, value, IsBelow, IsTight, product-IsTight, value-product,
}
use akur_ai_vpn.Crypto.Poly1305.Reduce.{finish_lem, of_le-u128_le}
use akur_ai_vpn.Crypto.Poly1305.{
  Limbs, absorb, add_block, multiply, carry, clamp, mask_at, split_limbs, poly1305_mac, final_carry,
  minus_p, select, join_limbs, u128_le,
}
use akur_ai_vpn.Crypto.Word.{sub}

-- The accumulator of RFC 8439, section 2.5: for each block of at most 16 bytes, its number is added and the
-- sum multiplied by `r`, modulo 2^130 - 5.
unfoldable pub accumulate : ℕ → ℕ → ℕ → List ℕ → ℕ
accumulate zero r acc msg = acc
accumulate (suc fuel) r acc [] = acc
accumulate (suc fuel) r acc (b ∷ bs) =
    let msg : List ℕ = b ∷ bs in
    accumulate fuel r ((acc + block_number (take 16 msg)) * r % modulus) (drop 16 msg)

module _ (r h : Limbs) (hr : IsBelow (2 ^ 26) r) (t : IsTight h) (chunk : List ℕ)
    (bytes : All IsByte chunk) (l : length chunk ≤ 16) where
  round-IsTight : IsTight (carry (multiply r (add_block h chunk)))
  round-IsTight = product-IsTight r (add_block h chunk) hr (add_block-IsBelow h t chunk bytes l)

  round-residue :
      value (carry (multiply r (add_block h chunk))) % modulus
      ≡ (value h % modulus + block_number chunk) * value r % modulus
  round-residue =
      let (q, f, e) =
        value-product r (add_block h chunk) hr (add_block-IsBelow h t chunk bytes l) in
      sym (mod_of_multiple modulus _ _ q f e)
      ∙ ap (λ (n : ℕ). n * value r % modulus) (value-add_block h t chunk bytes l)
      ∙ sym (mod-mul_left modulus (value h + block_number chunk) (value r))
      ∙ ap (λ (n : ℕ). n * value r % modulus)
          (sym (mod-add-mod (value h) modulus (block_number chunk)))
      ∙ mod-mul_left modulus (value h % modulus + block_number chunk) (value r)

absorb-accumulate :
    (fuel : ℕ) (r h : Limbs) (msg : List ℕ)
    → IsBelow (2 ^ 26) r
    → IsTight h
    → All IsByte msg
    → IsTight (absorb fuel r h msg)
      × (value (absorb fuel r h msg) % modulus ≡ accumulate fuel (value r) (value h % modulus) msg)
unfolding accumulate absorb
absorb-accumulate zero r h msg hr t b = (t, refl)
absorb-accumulate (suc fuel) r h [] hr t b = (t, refl)
absorb-accumulate (suc fuel) r h (m ∷ ms) hr t b =
    let chunk = take 16 (m ∷ ms) in
    let cb = All-take IsByte 16 (m ∷ ms) b in
    let cl = short_chunk (m ∷ ms) in
    let (tight, same) =
      absorb-accumulate fuel r (carry (multiply r (add_block h chunk))) (drop 16 (m ∷ ms)) hr
        (round-IsTight r h hr t chunk cb cl) (All-drop IsByte 16 (m ∷ ms) b) in
    (
      tight,
      same
          ∙ ap (λ (n : ℕ). accumulate fuel (value r) n (drop 16 (m ∷ ms)))
              (round-residue r h hr t chunk cb cl),
    )
  where
    short_chunk : (xs : List ℕ) → length (take 16 xs) ≤ 16
    short_chunk xs = omega (arith, length-take 16 xs)

low_mask-IsByte : (x : ℕ) → bit_and x 0x0f < 256
low_mask-IsByte x = omega (arith, bit_and-low 4 x)

high_mask-IsByte : (x : ℕ) → bit_and x 0xfc < 256
high_mask-IsByte x = omega (arith, bit_and-high 6 2 x)

mask_at-IsArray :
    (i m : ℕ) (s : List ℕ)
    → ((x : ℕ) → bit_and x m < 256)
    → IsArray 16 s
    → IsArray 16 (mask_at i m s)
mask_at-IsArray i m s b h = record {
  size = length-set i _ s ∙ h.size;
  bytes = set-IsByte i _ s (b (get_or s i 0)) h.bytes;
}

clamp-IsArray : (r : List ℕ) → IsArray 16 r → IsArray 16 (clamp r)
unfolding clamp
clamp-IsArray r h =
    let h3 = mask_at-IsArray 3 0x0f _ low_mask-IsByte h in
    let h7 = mask_at-IsArray 7 0x0f _ low_mask-IsByte h3 in
    let h11 = mask_at-IsArray 11 0x0f _ low_mask-IsByte h7 in
    let h15 = mask_at-IsArray 15 0x0f _ low_mask-IsByte h11 in
    let h4 = mask_at-IsArray 4 0xfc _ high_mask-IsByte h15 in
    let h8 = mask_at-IsArray 8 0xfc _ high_mask-IsByte h4 in
    mask_at-IsArray 12 0xfc _ high_mask-IsByte h8

-- The multiplier of a key in RFC 8439: the number of its first half, masked.
abbrev pub multiplier : List ℕ → ℕ
multiplier key = bit_and (of_le (take 16 key)) 0x0ffffffc0ffffffc0ffffffc0fffffff

abbrev nothing_yet : Limbs
nothing_yet = record { l0 = 0; l1 = 0; l2 = 0; l3 = 0; l4 = 0 }

nothing_yet-IsTight : IsTight nothing_yet
nothing_yet-IsTight = record {
  b0 = omega arith;
  b1 = omega arith;
  b2 = omega arith;
  b3 = omega arith;
  b4 = omega arith;
}

module _ (key msg : List ℕ) (hk : IsArray 32 key) (hm : All IsByte msg) where
  first-IsArray : IsArray 16 (take 16 key)
  first-IsArray = record {
    size = omega (arith, length-take 16 key, hk.size);
    bytes = All-take IsByte 16 key hk.bytes;
  }

  clamped : of_le (clamp (take 16 key)) ≡ multiplier key
  clamped = of_le-clamp (take 16 key) first-IsArray

  multiplier-lt : multiplier key < 2 ^ 128
  multiplier-lt =
      let c = clamp-IsArray (take 16 key) first-IsArray in
      subst (λ (n : ℕ). n < 2 ^ 128) clamped (rw c.size at (of_le-lt (clamp (take 16 key)) c.bytes))

  abbrev limbs : Limbs
  limbs = absorb (length msg) (split_limbs (multiplier key)) nothing_yet msg

  limbs_lem :
      IsTight limbs × (value limbs % modulus ≡ accumulate (length msg) (multiplier key) 0 msg)
  limbs_lem =
      let (number, below) = split_limbs_lem (multiplier key) multiplier-lt in
      let (tight, same) =
        absorb-accumulate (length msg) (split_limbs (multiplier key)) nothing_yet msg below
          nothing_yet-IsTight hm in
      (tight, same ∙ ap (λ (n : ℕ). accumulate (length msg) n 0 msg) number)

  -- The number before the second half of the key is added, for a multiplier.
  abbrev of_multiplier : ℕ → ℕ
  of_multiplier n =
      let h = final_carry (absorb (length msg) (split_limbs n) nothing_yet msg) in
      join_limbs (select h (minus_p h))

  -- The tag of a message of bytes under a key of 32 bytes, least byte first, is the number of RFC 8439: the
  -- accumulator after all blocks, multiplied for each by the first half of the key under the mask
  -- 0x0ffffffc0ffffffc0ffffffc0fffffff, and the second half of the key, modulo 2^128.
  pub poly1305_mac-accumulate :
      of_le (poly1305_mac key msg)
      ≡ (accumulate (length msg) (multiplier key) 0 msg + of_le (sub key 16 16)) % 2 ^ 128
  unfolding poly1305_mac
  poly1305_mac-accumulate =
      let (tight, same) = limbs_lem in
      ap (λ (n : ℕ). of_le (u128_le ((of_multiplier n + of_le (sub key 16 16)) % 2 ^ 128))) clamped
      ∙ of_le-u128_le _ (omega arith)
      ∙ ap (λ (n : ℕ). (n + of_le (sub key 16 16)) % 2 ^ 128) (finish_lem limbs tight)
      ∙ mod-add-mod (value limbs % modulus) (2 ^ 128) (of_le (sub key 16 16))
      ∙ ap (λ (n : ℕ). (n + of_le (sub key 16 16)) % 2 ^ 128) same
