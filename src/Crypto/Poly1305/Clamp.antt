-- ===== src/Crypto/Poly1305/Clamp.antt =====
-- crates/akurai-crypto/src/chacha20poly1305.rs: `clamp` against the mask of RFC 8439 on numbers.
use akur_ai_vpn.Base.{
  ℕ, ◌+◌, ◌*◌, ◌<◌, ◌≡◌, refl, ap, sym, ◌∙◌, arith, List, [], ◌∷◌, length, All, IsByte, of_le,
  bit_and,
}
use akur_ai_vpn.Base.Arrays.{IsArray}
use akur_ai_vpn.Base.Joins.{bit_and-split}
use akur_ai_vpn.Base.Masks.{bit_and-low}
use akur_ai_vpn.Crypto.Poly1305.{clamp}

-- Byte by byte.
abbrev and_bytes : List ℕ → List ℕ → List ℕ
and_bytes (x ∷ xs) (m ∷ ms) = bit_and x m ∷ and_bytes xs ms
and_bytes _ _ = []

of_le-and_bytes :
    (xs ms : List ℕ)
    → length xs ≡ length ms
    → All IsByte xs
    → All IsByte ms
    → of_le (and_bytes xs ms) ≡ bit_and (of_le xs) (of_le ms)
of_le-and_bytes [] [] l hx hm = refl
of_le-and_bytes [] (m ∷ ms) l hx hm = absurd (omega arith)
of_le-and_bytes (x ∷ xs) [] l hx hm = absurd (omega arith)
of_le-and_bytes (x ∷ xs) (m ∷ ms) l hx hm =
    ap (λ (n : ℕ). bit_and x m + 256 * n) (of_le-and_bytes xs ms (omega arith) hx.1 hm.1)
    ∙ sym (bit_and-split 8 x m (of_le xs) (of_le ms) hx.0 hm.0)

-- The mask of RFC 8439, least byte first.
abbrev mask_bytes : List ℕ
mask_bytes =
    0xff ∷ 0xff ∷ 0xff ∷ 0x0f ∷ 0xfc ∷ 0xff ∷ 0xff ∷ 0x0f ∷ 0xfc ∷ 0xff ∷ 0xff ∷ 0x0f ∷ 0xfc ∷ 0xff
    ∷ 0xff ∷ 0x0f ∷ []

whole_byte : (x : ℕ) → x < 256 → bit_and x 0xff ≡ x
whole_byte x h = omega (arith, bit_and-low 8 x)

clamp-and_bytes : (r : List ℕ) → IsArray 16 r → clamp r ≡ and_bytes r mask_bytes
unfolding clamp
clamp-and_bytes (a ∷ b ∷ c ∷ d ∷ e ∷ f ∷ g ∷ h ∷ i ∷ j ∷ k ∷ l ∷ m ∷ n ∷ o ∷ q ∷ []) r =
    rw
      (
        whole_byte a (r.bytes.0),
        whole_byte b (r.bytes.1.0),
        whole_byte c (r.bytes.1.1.0),
        whole_byte f (r.bytes.1.1.1.1.1.0),
        whole_byte g (r.bytes.1.1.1.1.1.1.0),
        whole_byte j (r.bytes.1.1.1.1.1.1.1.1.1.0),
        whole_byte k (r.bytes.1.1.1.1.1.1.1.1.1.1.0),
        whole_byte n (r.bytes.1.1.1.1.1.1.1.1.1.1.1.1.1.0),
        whole_byte o (r.bytes.1.1.1.1.1.1.1.1.1.1.1.1.1.1.0),
      )
      refl
clamp-and_bytes _ r = absurd (omega (arith, r.size))

pub of_le-clamp :
    (r : List ℕ)
    → IsArray 16 r
    → of_le (clamp r) ≡ bit_and (of_le r) 0x0ffffffc0ffffffc0ffffffc0fffffff
of_le-clamp r h =
    ap of_le (clamp-and_bytes r h) ∙ of_le-and_bytes r mask_bytes h.size h.bytes (omega arith)
