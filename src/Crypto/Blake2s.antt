-- ===== src/Crypto/Blake2s.antt =====
-- crates/akurai-crypto/src/blake2s.rs: BLAKE2s-256 and HMAC over it. The arrays are lists of their
-- fixed length, and a digest has 32 bytes in every use of the crate.
use akur_ai_vpn.Base.{
  ℕ, zero, suc, ◌+◌, ◌-◌, ◌*◌, ◌%◌, ◌^◌, Bool, true, false, List, [], ◌∷◌, ◌++◌, map, ltb, ◌==◌,
  if◌then◌else◌, length, take, drop, get_or, set, replicate, min, bit_xor, of_le, u32_le,
}
use akur_ai_vpn.Crypto.Word.{add32, rotl32}

abbrev pub iv : List ℕ
iv =
    0x6A09E667 ∷ 0xBB67AE85 ∷ 0x3C6EF372 ∷ 0xA54FF53A ∷ 0x510E527F ∷ 0x9B05688C ∷ 0x1F83D9AB
    ∷ 0x5BE0CD19 ∷ []

abbrev pub sigma : List (List ℕ)
sigma =
    (0 ∷ 1 ∷ 2 ∷ 3 ∷ 4 ∷ 5 ∷ 6 ∷ 7 ∷ 8 ∷ 9 ∷ 10 ∷ 11 ∷ 12 ∷ 13 ∷ 14 ∷ 15 ∷ [])
    ∷ (14 ∷ 10 ∷ 4 ∷ 8 ∷ 9 ∷ 15 ∷ 13 ∷ 6 ∷ 1 ∷ 12 ∷ 0 ∷ 2 ∷ 11 ∷ 7 ∷ 5 ∷ 3 ∷ [])
    ∷ (11 ∷ 8 ∷ 12 ∷ 0 ∷ 5 ∷ 2 ∷ 15 ∷ 13 ∷ 10 ∷ 14 ∷ 3 ∷ 6 ∷ 7 ∷ 1 ∷ 9 ∷ 4 ∷ [])
    ∷ (7 ∷ 9 ∷ 3 ∷ 1 ∷ 13 ∷ 12 ∷ 11 ∷ 14 ∷ 2 ∷ 6 ∷ 5 ∷ 10 ∷ 4 ∷ 0 ∷ 15 ∷ 8 ∷ [])
    ∷ (9 ∷ 0 ∷ 5 ∷ 7 ∷ 2 ∷ 4 ∷ 10 ∷ 15 ∷ 14 ∷ 1 ∷ 11 ∷ 12 ∷ 6 ∷ 8 ∷ 3 ∷ 13 ∷ [])
    ∷ (2 ∷ 12 ∷ 6 ∷ 10 ∷ 0 ∷ 11 ∷ 8 ∷ 3 ∷ 4 ∷ 13 ∷ 7 ∷ 5 ∷ 15 ∷ 14 ∷ 1 ∷ 9 ∷ [])
    ∷ (12 ∷ 5 ∷ 1 ∷ 15 ∷ 14 ∷ 13 ∷ 4 ∷ 10 ∷ 0 ∷ 7 ∷ 6 ∷ 3 ∷ 9 ∷ 2 ∷ 8 ∷ 11 ∷ [])
    ∷ (13 ∷ 11 ∷ 7 ∷ 14 ∷ 12 ∷ 1 ∷ 3 ∷ 9 ∷ 5 ∷ 0 ∷ 15 ∷ 4 ∷ 8 ∷ 6 ∷ 2 ∷ 10 ∷ [])
    ∷ (6 ∷ 15 ∷ 14 ∷ 9 ∷ 11 ∷ 3 ∷ 0 ∷ 8 ∷ 12 ∷ 2 ∷ 13 ∷ 7 ∷ 1 ∷ 4 ∷ 10 ∷ 5 ∷ [])
    ∷ (10 ∷ 2 ∷ 8 ∷ 4 ∷ 7 ∷ 6 ∷ 1 ∷ 5 ∷ 15 ∷ 11 ∷ 9 ∷ 14 ∷ 3 ∷ 12 ∷ 13 ∷ 0 ∷ [])
    ∷ []

abbrev pub block_len : ℕ
block_len = 64

pub record State : Type 0 where
  pub h : List ℕ
  pub t_lo : ℕ
  pub t_hi : ℕ
  pub buf : List ℕ
  pub buflen : ℕ
  pub outlen : ℕ

-- `v[a] = v[a].wrapping_add(v[b]).wrapping_add(x)`
abbrev add_three : ℕ → ℕ → ℕ → List ℕ → List ℕ
add_three a b x v = set v a (add32 (add32 (get_or v a 0) (get_or v b 0)) x)

-- `v[c] = v[c].wrapping_add(v[d])`
abbrev add_two : ℕ → ℕ → List ℕ → List ℕ
add_two c d v = set v c (add32 (get_or v c 0) (get_or v d 0))

-- `v[d] = (v[d] ^ v[a]).rotate_right(k)`
abbrev xor_rotate : ℕ → ℕ → ℕ → List ℕ → List ℕ
xor_rotate d a k v = set v d (rotl32 (bit_xor (get_or v d 0) (get_or v a 0)) (32 - k))

unfoldable pub g : ℕ → ℕ → ℕ → ℕ → ℕ → ℕ → List ℕ → List ℕ
g a b c d x y v0 =
    let v1 = xor_rotate d a 16 (add_three a b x v0) in
    let v2 = xor_rotate b c 12 (add_two c d v1) in
    let v3 = xor_rotate d a 8 (add_three a b y v2) in xor_rotate b c 7 (add_two c d v3)

-- The key, zero-padded to one block.
abbrev key_block : List ℕ → List ℕ
key_block key = key ++ replicate (block_len - length key) 0

-- `State::new`, whose asserts hold of every call in the crate's own hashes: `outlen` is 32, and the
-- key is empty.
unfoldable pub new : ℕ → List ℕ → State
new outlen key = record {
  h =
      set iv 0
        (bit_xor (get_or iv 0 0) (bit_xor (bit_xor 0x01010000 (length key * 256 % 2 ^ 32)) outlen));
  t_lo = 0;
  t_hi = 0;
  buf = if ltb 0 (length key) then key_block key else replicate block_len 0;
  buflen = if ltb 0 (length key) then block_len else 0;
  outlen = outlen;
}

unfoldable pub increment_counter : State → ℕ → State
increment_counter s n =
    let lo = add32 s.t_lo n in
    record s { t_lo = lo; t_hi = if ltb lo n then add32 s.t_hi 1 else s.t_hi }

-- The message words of a block.
abbrev words : ℕ → List ℕ → List ℕ
words zero bytes = []
words (suc n) bytes = of_le (take 4 bytes) ∷ words n (drop 4 bytes)

unfoldable pub round : List ℕ → List ℕ → List ℕ → List ℕ
unfolding g
round m s v =
    let word : ℕ → ℕ = λ i. get_or m (get_or s i 0) 0 in
    g 3 4 9 14 (word 14) (word 15) (
      g 2 7 8 13 (word 12) (word 13) (
        g 1 6 11 12 (word 10) (word 11) (
          g 0 5 10 15 (word 8) (word 9) (
            g 3 7 11 15 (word 6) (word 7) (
              g 2 6 10 14 (word 4) (word 5)
                (g 1 5 9 13 (word 2) (word 3) (g 0 4 8 12 (word 0) (word 1) v)))))))

abbrev rounds : List ℕ → List (List ℕ) → List ℕ → List ℕ
rounds m [] v = v
rounds m (s ∷ ss) v = rounds m ss (round m s v)

-- `v` before the rounds.
abbrev work_vector : State → Bool → List ℕ
work_vector s last =
    let v = s.h ++ iv in
    let v = set v 12 (bit_xor (get_or v 12 0) s.t_lo) in
    let v = set v 13 (bit_xor (get_or v 13 0) s.t_hi) in
    if last then set v 14 (bit_xor (get_or v 14 0) 0xFFFFFFFF) else v

-- `h[i] ^= v[i] ^ v[i + 8]`
abbrev fold_in : List ℕ → List ℕ → List ℕ → List ℕ
fold_in (h ∷ hs) (a ∷ xs) (b ∷ ys) = bit_xor h (bit_xor a b) ∷ fold_in hs xs ys
fold_in _ _ _ = []

unfoldable pub compress : State → List ℕ → Bool → State
unfolding round
compress s block last =
    let v = rounds (words 16 block) sigma (work_vector s last) in
    record s { h = fold_in s.h (take 8 v) (drop 8 v) }

-- The flush of a full buffer, before more bytes are taken.
unfoldable pub flush : State → State
unfolding compress increment_counter
flush s =
    if s.buflen == block_len
    then record (compress (increment_counter s block_len) s.buf false) { buflen = 0 }
    else s

abbrev fill : State → List ℕ → State
fill s bytes = record s {
  buf = take s.buflen s.buf ++ bytes ++ drop (s.buflen + length bytes) s.buf;
  buflen = s.buflen + length bytes;
}

-- The loop of `update`. Behind a flush the buffer has room, so each round takes a byte at least, and
-- as much fuel as there are bytes is enough.
unfoldable pub update_loop : ℕ → State → List ℕ → State
unfolding flush
update_loop zero s bytes = s
update_loop (suc fuel) s [] = s
update_loop (suc fuel) s (b ∷ bs) =
    let bytes : List ℕ = b ∷ bs in
    let s = flush s in
    let n = min (block_len - s.buflen) (length bytes) in
    update_loop fuel (fill s (take n bytes)) (drop n bytes)

unfoldable pub update : State → List ℕ → State
unfolding update_loop
update s bytes = update_loop (length bytes) s bytes

abbrev serialize : List ℕ → List ℕ
serialize [] = []
serialize (w ∷ ws) = u32_le w ++ serialize ws

unfoldable pub finalize : State → List ℕ
unfolding compress increment_counter
finalize s =
    let s = increment_counter s s.buflen in
    let block = take s.buflen s.buf ++ replicate (block_len - s.buflen) 0 in
    take s.outlen (serialize (compress s block true).h) ++ replicate (32 - s.outlen) 0

unfoldable pub hash : List ℕ → List ℕ
unfolding new update finalize
hash input = finalize (update (new 32 []) input)

unfoldable pub hmac : List ℕ → List ℕ → List ℕ
unfolding new update finalize hash
hmac key message =
    let k = key_block (if ltb block_len (length key) then hash key else key) in
    let ipad = map (λ b. bit_xor b 0x36) k in
    let opad = map (λ b. bit_xor b 0x5C) k in
    let inner = finalize (update (update (new 32 []) ipad) message) in
    finalize (update (update (new 32 []) opad) inner)
