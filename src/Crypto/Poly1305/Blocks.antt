-- ===== src/Crypto/Poly1305/Blocks.antt =====
-- crates/akurai-crypto/src/chacha20poly1305.rs: the blocks that `poly1305_mac` adds.
use native.Mathlib.Nat.{pow-suc, mul-zero, add-mul-mod_self_left, mod-eq_of_lt}
use akur_ai_vpn.Base.{
  ℕ, zero, suc, ◌+◌, ◌-◌, ◌*◌, ◌/◌, ◌%◌, ◌^◌, ◌<◌, ◌≤◌, ◌≡◌, refl, sym, ap, ◌∙◌, arith, List, [],
  ◌∷◌, ◌++◌, length, take, drop, get_or, replicate, All, All-append, All-take, All-drop, IsByte,
  of_le, bit_and, bit_or, length-append, length-take,
}
use akur_ai_vpn.Base.Arrays.{of_le-lt, of_le-drop, of_le-top}
use akur_ai_vpn.Base.Joins.{bit_or-low}
use akur_ai_vpn.Crypto.Poly1305.Multiply.{value, IsBelow, IsTight, low26}
use akur_ai_vpn.Crypto.Poly1305.{Limbs, limb_mask, pad_block, add_block, split_limbs}
use akur_ai_vpn.Crypto.Word.{add64, shl64, shr, sub}

-- The number of a block: its bytes from the lowest, and a 1 behind them.
abbrev pub block_number : List ℕ → ℕ
block_number chunk = of_le (chunk ++ 1 ∷ [])

of_le-zeros : (n : ℕ) → of_le (replicate n 0) ≡ 0
of_le-zeros zero = refl
of_le-zeros (suc n) = omega (arith, of_le-zeros n)

zeros-IsByte : (n : ℕ) → All IsByte (replicate n 0)
zeros-IsByte zero = tt
zeros-IsByte (suc n) = (omega arith, zeros-IsByte n)

of_le-append_zeros : (xs : List ℕ) (n : ℕ) → of_le (xs ++ replicate n 0) ≡ of_le xs
of_le-append_zeros [] n = of_le-zeros n
of_le-append_zeros (x ∷ xs) n = ap (λ (t : ℕ). x + 256 * t) (of_le-append_zeros xs n)

length-replicate : (n : ℕ) → length {A = ℕ} (replicate n 0) ≡ n
length-replicate zero = refl
length-replicate (suc n) = ap suc (length-replicate n)

of_le-split : (k : ℕ) (xs : List ℕ) → of_le xs ≡ of_le (take k xs) + 256 ^ k * of_le (drop k xs)
of_le-split zero xs = omega arith
of_le-split (suc k) [] = omega (arith, mul-zero (256 ^ suc k))
of_le-split (suc k) (x ∷ xs) = rw (pow-suc 256 k) (omega (arith, of_le-split k xs))

of_le-take-lt : (k : ℕ) (xs : List ℕ) → All IsByte xs → of_le (take k xs) < 256 ^ k
of_le-take-lt zero xs h = omega arith
of_le-take-lt (suc k) [] h = omega (arith, of_le-take-lt k [] tt, pow-suc 256 k)
of_le-take-lt (suc k) (x ∷ xs) h = omega (arith, of_le-take-lt k xs h.1, pow-suc 256 k)

-- A chunk of at most `n` bytes with the 1 behind it.
block_number-lt :
    (n : ℕ) (chunk : List ℕ)
    → All IsByte chunk
    → length chunk ≤ n
    → block_number chunk < 2 * 256 ^ n
block_number-lt zero [] h l = omega arith
block_number-lt zero (x ∷ xs) h l = absurd (omega arith)
block_number-lt (suc n) [] h l = omega (arith, block_number-lt n [] tt (omega arith), pow-suc 256 n)
block_number-lt (suc n) (x ∷ xs) h l =
    omega (arith, block_number-lt n xs h.1 (omega arith), pow-suc 256 n)

of_le-take : (k : ℕ) (xs : List ℕ) → All IsByte xs → of_le (take k xs) ≡ of_le xs % 256 ^ k
of_le-take k xs h = sym (
    ap (λ (n : ℕ). n % 256 ^ k) (of_le-split k xs)
    ∙ add-mul-mod_self_left (of_le (take k xs)) (256 ^ k) (of_le (drop k xs))
    ∙ mod-eq_of_lt (of_le-take-lt k xs h))

module _ (chunk : List ℕ) (h : All IsByte chunk) (l : length chunk ≤ 16) where
  pad_block-IsByte : All IsByte (pad_block chunk)
  unfolding pad_block
  pad_block-IsByte =
      All-append IsByte (chunk ++ 1 ∷ []) _ (All-append IsByte chunk (1 ∷ []) h (omega arith, tt))
        (zeros-IsByte _)

  length-pad_block : length (pad_block chunk) ≡ 17
  unfolding pad_block
  length-pad_block = omega (
    arith,
    length-append (chunk ++ 1 ∷ []) (replicate (16 - length chunk) 0),
    length-append chunk (1 ∷ []),
    length-replicate (16 - length chunk),
  )

  of_le-pad_block : of_le (pad_block chunk) ≡ block_number chunk
  unfolding pad_block
  of_le-pad_block = of_le-append_zeros (chunk ++ 1 ∷ []) (16 - length chunk)

-- The three words of a block.
module _ (b : List ℕ) (h : All IsByte b) (l : length b ≡ 17) where
  word0 : of_le (sub b 0 8) ≡ of_le b % 2 ^ 64
  word0 = of_le-take 8 b h

  word1 : of_le (sub b 8 8) ≡ of_le b / 2 ^ 64 % 2 ^ 64
  word1 =
      of_le-take 8 (drop 8 b) (All-drop IsByte 8 b h)
      ∙ ap (λ (n : ℕ). n % 2 ^ 64) (of_le-drop 8 b h)

  word2 : get_or b 16 0 ≡ of_le b / 2 ^ 128
  word2 = omega (
    arith,
    of_le-top 16 b l,
    rw (length-take 16 b, l) at (of_le-lt (take 16 b) (All-take IsByte 16 b h)),
  )

pub split_limbs_lem :
    (n : ℕ) → n < 2 ^ 128 → (value (split_limbs n) ≡ n) × IsBelow (2 ^ 26) (split_limbs n)
unfolding split_limbs
split_limbs_lem n h = (
  omega (arith, low26),
  record {
    b0 = omega (arith, low26);
    b1 = omega (arith, low26);
    b2 = omega (arith, low26);
    b3 = omega (arith, low26);
    b4 = omega (arith, low26);
  },
)

-- The limbs of the three words of a block, added to the sum.
abbrev add_words : Limbs → ℕ → ℕ → ℕ → Limbs
add_words h n0 n1 n2 = record {
  l0 = add64 h.l0 (bit_and n0 limb_mask);
  l1 = add64 h.l1 (bit_and (shr n0 26) limb_mask);
  l2 = add64 h.l2 (bit_and (bit_or (shr n0 52) (shl64 n1 12)) limb_mask);
  l3 = add64 h.l3 (bit_and (shr n1 14) limb_mask);
  l4 = add64 h.l4 (bit_and (bit_or (shr n1 40) (shl64 n2 24)) limb_mask);
}

module _ (h : Limbs) (t : IsTight h) (n : ℕ) (small : n < 2 ^ 129) where
  abbrev sum : Limbs
  sum = add_words h (n % 2 ^ 64) (n / 2 ^ 64 % 2 ^ 64) (n / 2 ^ 128)

  mixed2 :
      bit_or (n % 2 ^ 64 / 2 ^ 52) (shl64 (n / 2 ^ 64 % 2 ^ 64) 12)
      ≡ n % 2 ^ 64 / 2 ^ 52 + shl64 (n / 2 ^ 64 % 2 ^ 64) 12
  mixed2 = bit_or-low 12 _ _ (omega arith) (omega arith)

  mixed4 :
      bit_or (n / 2 ^ 64 % 2 ^ 64 / 2 ^ 40) (shl64 (n / 2 ^ 128) 24)
      ≡ n / 2 ^ 64 % 2 ^ 64 / 2 ^ 40 + shl64 (n / 2 ^ 128) 24
  mixed4 = bit_or-low 24 _ _ (omega arith) (omega arith)

  value-sum : value sum ≡ value h + n
  value-sum = omega (arith, low26, mixed2, mixed4)

  sum-IsBelow : IsBelow (2 ^ 28) sum
  sum-IsBelow = record {
    b0 = omega (arith, low26);
    b1 = omega (arith, low26);
    b2 = omega (arith, low26);
    b3 = omega (arith, low26);
    b4 = omega (arith, low26);
  }

module _ (h : Limbs) (t : IsTight h) (chunk : List ℕ) (bytes : All IsByte chunk)
    (l : length chunk ≤ 16) where
  number_bound : of_le (pad_block chunk) < 2 ^ 129
  number_bound = rw (of_le-pad_block chunk bytes l) (block_number-lt 16 chunk bytes l)

  add_block-sum : add_block h chunk ≡ sum h t (of_le (pad_block chunk)) number_bound
  unfolding add_block
  add_block-sum =
      let b = pad_block chunk in
      let isb = pad_block-IsByte chunk bytes l in
      let len = length-pad_block chunk bytes l in
      ap (λ (n : ℕ). add_words h n (of_le (sub b 8 8)) (get_or b 16 0)) (word0 b isb len)
      ∙ ap (λ (n : ℕ). add_words h (of_le b % 2 ^ 64) n (get_or b 16 0)) (word1 b isb len)
      ∙ ap (λ (n : ℕ). add_words h (of_le b % 2 ^ 64) (of_le b / 2 ^ 64 % 2 ^ 64) n)
          (word2 b isb len)

  pub value-add_block : value (add_block h chunk) ≡ value h + block_number chunk
  value-add_block =
      ap value add_block-sum
      ∙ value-sum h t (of_le (pad_block chunk)) number_bound
      ∙ ap (λ (n : ℕ). value h + n) (of_le-pad_block chunk bytes l)

  pub add_block-IsBelow : IsBelow (2 ^ 28) (add_block h chunk)
  add_block-IsBelow = rw add_block-sum (sum-IsBelow h t (of_le (pad_block chunk)) number_bound)
