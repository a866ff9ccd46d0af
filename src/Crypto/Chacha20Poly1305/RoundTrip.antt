-- ===== src/Crypto/Chacha20Poly1305/RoundTrip.antt =====
-- crates/akurai-crypto/src/chacha20poly1305.rs: `seal` and `open` against each other.
use akur_ai_vpn.Base.{
  ℕ, zero, suc, ◌+◌, ◌-◌, ◌≤◌, ◌≡◌, refl, ap, ap₂, sym, ◌∙◌, inl, inr, min, le_or_lt, false, List,
  [], ◌∷◌, ◌++◌, some, arith, ltb, length, take, drop, set, get_or, bit_or, bit_xor, length-append,
  length-drop, cut-append, empty_of_length, take-append-drop, length-take,
}
use akur_ai_vpn.Base.Bits.{bit_xor_undo, bit_xor_self, bit_xor-eq, bit_or-zero}
use akur_ai_vpn.Crypto.Word.{add32}
use akur_ai_vpn.Crypto.Chacha20.{new, block, xor_with, xor_loop, chacha20_xor}
use akur_ai_vpn.Crypto.Poly1305.{poly1305_mac}
use akur_ai_vpn.Crypto.Chacha20Poly1305.{one_time_key, mac_data, tag_of, seal, difference, unseal}

xor_with_undo : (ds ks : List ℕ) → xor_with (xor_with ds ks) ks ≡ ds
unfolding xor_with
xor_with_undo [] ks = refl
xor_with_undo (d ∷ ds) [] = refl
xor_with_undo (d ∷ ds) (k ∷ ks) = ap₂ ◌∷◌ (bit_xor_undo d k) (xor_with_undo ds ks)

length-xor_with : (ds ks : List ℕ) → length (xor_with ds ks) ≡ length ds
unfolding xor_with
length-xor_with [] ks = refl
length-xor_with (d ∷ ds) [] = refl
length-xor_with (d ∷ ds) (k ∷ ks) = ap suc (length-xor_with ds ks)

-- The next state of the loop.
abbrev bump : List ℕ → List ℕ
bump s = set s 12 (add32 (get_or s 12 0) 1)

length-xor_loop : (fuel : ℕ) (s bytes : List ℕ) → length (xor_loop fuel s bytes) ≡ length bytes
unfolding xor_loop
length-xor_loop zero s bytes = refl
length-xor_loop (suc fuel) s [] = refl
length-xor_loop (suc fuel) s (b ∷ bs) = omega (
  arith,
  length-append (xor_with (take 64 (b ∷ bs)) (block s)) (xor_loop fuel (bump s) (drop 63 bs)),
  length-xor_with (take 64 (b ∷ bs)) (block s),
  length-xor_loop fuel (bump s) (drop 63 bs),
  length-take 63 bs,
  length-drop 63 bs,
)

xor_loop-nil : (fuel : ℕ) (s : List ℕ) → xor_loop fuel s [] ≡ []
unfolding xor_loop
xor_loop-nil zero s = refl
xor_loop-nil (suc fuel) s = refl

-- One round, on any bytes.
xor_loop-suc :
    (fuel : ℕ) (s bytes : List ℕ)
    → xor_loop (suc fuel) s bytes
      ≡ xor_with (take 64 bytes) (block s) ++ xor_loop fuel (bump s) (drop 64 bytes)
unfolding xor_loop xor_with
xor_loop-suc fuel s [] = sym (xor_loop-nil fuel (bump s))
xor_loop-suc fuel s (b ∷ bs) = refl

-- The bytes of one round are cut off again by the next use of the loop.
round_cut :
    (fuel : ℕ) (s bytes : List ℕ)
    → let front = xor_with (take 64 bytes) (block s) in
      let back = xor_loop fuel (bump s) (drop 64 bytes) in
      (take 64 (front ++ back) ≡ front) × (drop 64 (front ++ back) ≡ back)
round_cut fuel s bytes =
    cut-append 64 (xor_with (take 64 bytes) (block s)) (xor_loop fuel (bump s) (drop 64 bytes))
      (elim (le_or_lt 64 (length bytes)) [
        | inl long ↦ inl (omega (arith, front_size))
        | inr short ↦ inr (omega (arith, front_size), empty_of_length _ (omega (arith, back_size)))
      ])
  where
    front_size : length (xor_with (take 64 bytes) (block s)) ≡ min 64 (length bytes)
    front_size = length-xor_with (take 64 bytes) (block s) ∙ length-take 64 bytes

    back_size : length (xor_loop fuel (bump s) (drop 64 bytes)) ≡ length bytes - 64
    back_size = length-xor_loop fuel (bump s) (drop 64 bytes) ∙ length-drop 64 bytes

xor_loop_undo : (fuel : ℕ) (s bytes : List ℕ) → xor_loop fuel s (xor_loop fuel s bytes) ≡ bytes
xor_loop_undo zero s bytes = unfold xor_loop in refl
xor_loop_undo (suc fuel) s bytes =
    let (t, d) = round_cut fuel s bytes in
    rw
      (
        xor_loop-suc fuel s bytes,
        xor_loop-suc fuel s,
        t,
        d,
        xor_with_undo,
        xor_loop_undo fuel (bump s) (drop 64 bytes),
      )
      (take-append-drop 64 bytes)

-- More fuel than there are bytes changes nothing, so the fuel that `chacha20_xor` takes is enough.
xor_loop-fuel :
    (n m : ℕ) (s bytes : List ℕ)
    → length bytes ≤ n
    → length bytes ≤ m
    → xor_loop n s bytes ≡ xor_loop m s bytes
xor_loop-fuel n m s [] p q = xor_loop-nil n s ∙ sym (xor_loop-nil m s)
xor_loop-fuel zero m s (b ∷ bs) p q = absurd (omega arith)
xor_loop-fuel (suc n) zero s (b ∷ bs) p q = absurd (omega arith)
xor_loop-fuel (suc n) (suc m) s (b ∷ bs) p q =
    rw (xor_loop-suc n s (b ∷ bs), xor_loop-suc m s (b ∷ bs))
      (ap (◌++◌ (xor_with (take 64 (b ∷ bs)) (block s))) (
        xor_loop-fuel n m (bump s) (drop 63 bs) (omega (arith, length-drop 63 bs))
          (omega (arith, length-drop 63 bs))))

chacha20_xor_undo :
    (key nonce : List ℕ) (counter : ℕ) (bytes : List ℕ)
    → chacha20_xor key nonce counter (chacha20_xor key nonce counter bytes) ≡ bytes
unfolding chacha20_xor
chacha20_xor_undo key nonce counter bytes =
    rw (length-xor_loop (length bytes) (new key nonce counter) bytes)
      (xor_loop_undo (length bytes) (new key nonce counter) bytes)

difference_self : (xs : List ℕ) → difference 0 xs xs ≡ 0
unfolding difference
difference_self [] = refl
difference_self (x ∷ xs) = rw (bit_xor_self x) (difference_self xs)

length-poly1305_mac : (key msg : List ℕ) → length (poly1305_mac key msg) ≡ 16
unfolding poly1305_mac
length-poly1305_mac key msg = refl

length-tag_of : (key nonce aad ct : List ℕ) → length (tag_of key nonce aad ct) ≡ 16
unfolding tag_of
length-tag_of key nonce aad ct = length-poly1305_mac (one_time_key key nonce) (mac_data aad ct)

-- What was sealed opens to the plaintext, under the same key, nonce and additional data.
pub unseal-seal :
    (key nonce aad plaintext : List ℕ)
    → unseal key nonce aad (seal key nonce aad plaintext) ≡ some plaintext
unfolding unseal seal
unseal-seal key nonce aad plaintext =
    rw (not_short, cut.0, cut.1, difference_self tag, chacha20_xor_undo key nonce 1 plaintext)
  where
    ct : List ℕ
    ct = chacha20_xor key nonce 1 plaintext

    tag : List ℕ
    tag = tag_of key nonce aad ct

    size : length (ct ++ tag) ≡ length ct + 16
    size = omega (arith, length-append ct tag, length-tag_of key nonce aad ct)

    not_short : ltb (length (ct ++ tag)) 16 ≡ false
    not_short = ground (arith, size)

    cut :
        (take (length (ct ++ tag) - 16) (ct ++ tag) ≡ ct)
        × (drop (length (ct ++ tag) - 16) (ct ++ tag) ≡ tag)
    cut = cut-append (length (ct ++ tag) - 16) ct tag (inl (omega (arith, size)))

difference-zero :
    (acc : ℕ) (xs ys : List ℕ)
    → length xs ≡ length ys
    → difference acc xs ys ≡ 0
    → (acc ≡ 0) × (xs ≡ ys)
unfolding difference
difference-zero acc [] [] e h = (h, refl)
difference-zero acc [] (y ∷ ys) e h = absurd (omega arith)
difference-zero acc (x ∷ xs) [] e h = absurd (omega arith)
difference-zero acc (x ∷ xs) (y ∷ ys) e h =
    let (both, same) = difference-zero (bit_or acc (bit_xor x y)) xs ys (omega arith) h in
    let (a, b) = bit_or-zero acc (bit_xor x y) both in (a, ap₂ ◌∷◌ (bit_xor-eq x y b) same)

-- `open` past its two guards.
unseal-opens :
    (key nonce aad sealed : List ℕ) {plaintext : List ℕ}
    → unseal key nonce aad sealed ≡ some plaintext
    → let ct = take (length sealed - 16) sealed in
      (16 ≤ length sealed)
      × (difference 0 (tag_of key nonce aad ct) (drop (length sealed - 16) sealed) ≡ 0)
      × (chacha20_xor key nonce 1 ct ≡ plaintext)
unfolding unseal
unseal-opens key nonce aad sealed h = ground arith

-- Whatever opens to a plaintext is what `seal` makes of that plaintext under the same key, nonce
-- and associated data.
pub seal-unseal :
    (key nonce aad sealed plaintext : List ℕ)
    → unseal key nonce aad sealed ≡ some plaintext
    → sealed ≡ seal key nonce aad plaintext
unfolding seal
seal-unseal key nonce aad sealed plaintext h =
    let (long, zero_difference, decrypted) = unseal-opens key nonce aad sealed h in
    let n = length sealed - 16 in
    let ct = take n sealed in
    let same_size : length (tag_of key nonce aad ct) ≡ length (drop n sealed) =
      omega (arith, length-tag_of key nonce aad ct, length-drop n sealed) in
    let tag_is : tag_of key nonce aad ct ≡ drop n sealed =
      (difference-zero 0 (tag_of key nonce aad ct) (drop n sealed) same_size zero_difference).1 in
    let ct_is : chacha20_xor key nonce 1 plaintext ≡ ct =
      rw (sym decrypted) (chacha20_xor_undo key nonce 1 ct) in
    rw (ct_is, tag_is) (sym (take-append-drop n sealed))

-- The tag is all that a sealed message is longer than its plaintext.
pub length-seal :
    (key nonce aad plaintext : List ℕ)
    → length (seal key nonce aad plaintext) ≡ length plaintext + 16
unfolding seal chacha20_xor
length-seal key nonce aad plaintext = omega (
  arith,
  length-append (chacha20_xor key nonce 1 plaintext)
      (tag_of key nonce aad (chacha20_xor key nonce 1 plaintext)),
  length-tag_of key nonce aad (chacha20_xor key nonce 1 plaintext),
  length-xor_loop (length plaintext) (new key nonce 1) plaintext,
)
