-- ===== src/Crypto/Chacha20.antt =====
-- crates/akurai-crypto/src/chacha20poly1305.rs: the ChaCha20 block function and key stream.
use akur_ai_vpn.Base.{
  ℕ, zero, suc, List, [], ◌∷◌, ◌++◌, length, take, drop, get_or, set, bit_xor, of_le, u32_le,
}
use akur_ai_vpn.Crypto.Word.{add32, rotl32, sub}

-- `ChaChaState` is its 16 words.
unfoldable pub new : List ℕ → List ℕ → ℕ → List ℕ
new key nonce counter =
    0x61707865
    ∷ 0x3320646e
    ∷ 0x79622d32
    ∷ 0x6b206574
    ∷ of_le (sub key 0 4)
    ∷ of_le (sub key 4 4)
    ∷ of_le (sub key 8 4)
    ∷ of_le (sub key 12 4)
    ∷ of_le (sub key 16 4)
    ∷ of_le (sub key 20 4)
    ∷ of_le (sub key 24 4)
    ∷ of_le (sub key 28 4)
    ∷ counter
    ∷ of_le (sub nonce 0 4)
    ∷ of_le (sub nonce 4 4)
    ∷ of_le (sub nonce 8 4)
    ∷ []

-- `s[a] = s[a].wrapping_add(s[b])`
abbrev add_into : ℕ → ℕ → List ℕ → List ℕ
add_into a b s = set s a (add32 (get_or s a 0) (get_or s b 0))

-- `s[d] ^= s[a]; s[d] = s[d].rotate_left(k)`
abbrev mix_into : ℕ → ℕ → ℕ → List ℕ → List ℕ
mix_into d a k s = set s d (rotl32 (bit_xor (get_or s d 0) (get_or s a 0)) k)

unfoldable pub qr : ℕ → ℕ → ℕ → ℕ → List ℕ → List ℕ
qr a b c d s0 =
    let s1 = mix_into d a 16 (add_into a b s0) in
    let s2 = mix_into b c 12 (add_into c d s1) in
    let s3 = mix_into d a 8 (add_into a b s2) in mix_into b c 7 (add_into c d s3)

-- One pass of the loop in `block`: the column rounds and the diagonal rounds.
unfoldable pub double_round : List ℕ → List ℕ
unfolding qr
double_round s0 =
    let s1 = qr 3 7 11 15 (qr 2 6 10 14 (qr 1 5 9 13 (qr 0 4 8 12 s0))) in
    qr 3 4 9 14 (qr 2 7 8 13 (qr 1 6 11 12 (qr 0 5 10 15 s1)))

unfoldable pub rounds : ℕ → List ℕ → List ℕ
unfolding double_round
rounds zero s = s
rounds (suc n) s = rounds n (double_round s)

-- The words of both states, added and laid out in bytes.
unfoldable pub lay_out : List ℕ → List ℕ → List ℕ
lay_out (w ∷ work) (s ∷ state) = u32_le (add32 w s) ++ lay_out work state
lay_out _ _ = []

unfoldable pub block : List ℕ → List ℕ
unfolding rounds lay_out
block s = lay_out (rounds 10 s) s

-- `data[pos + i] ^= block[i]` for the bytes that are left, 64 at most.
unfoldable pub xor_with : List ℕ → List ℕ → List ℕ
xor_with [] ks = []
xor_with (d ∷ ds) [] = d ∷ ds
xor_with (d ∷ ds) (k ∷ ks) = bit_xor d k ∷ xor_with ds ks

-- The loop of `chacha20_xor` at the bytes from `pos` on. Each round takes one byte at least, so as much
-- fuel as there are bytes is enough.
unfoldable pub xor_loop : ℕ → List ℕ → List ℕ → List ℕ
unfolding block xor_with
xor_loop zero s bytes = bytes
xor_loop (suc fuel) s [] = []
xor_loop (suc fuel) s (b ∷ bs) =
    let bytes : List ℕ = b ∷ bs in
    xor_with (take 64 bytes) (block s)
    ++ xor_loop fuel (set s 12 (add32 (get_or s 12 0) 1)) (drop 64 bytes)

unfoldable pub chacha20_xor : List ℕ → List ℕ → ℕ → List ℕ → List ℕ
unfolding new xor_loop
chacha20_xor key nonce counter bytes = xor_loop (length bytes) (new key nonce counter) bytes
