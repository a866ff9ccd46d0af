-- ===== src/Crypto/X25519/Agreement.antt =====
-- crates/akurai-crypto/src/x25519.rs: the two sides of an exchange.
use akur_ai_vpn.Base.{
  ℕ, zero, suc, ◌+◌, ◌*◌, ◌/◌, ◌%◌, ◌^◌, ◌<◌, ◌≡◌, ap, ap₂, refl, sym, ◌∙◌, arith, List, [], ◌∷◌,
  All, All-take, All-append, IsByte, of_le, u64_le, get_or, take, replicate, ltb, Bool-cases, inl,
  inr, ◌↔◌,
}
use akur_ai_vpn.Base.Arrays.{IsArray, length-set, set-IsByte, get_or-IsByte}
use akur_ai_vpn.Base.Joins.{bit_or-lt}
use akur_ai_vpn.Crypto.Field25519.{Fe, reduce_canonical}
use akur_ai_vpn.Crypto.Field25519.Reduction.{p}
use akur_ai_vpn.Crypto.Field25519.Residue.{mul_p}
use akur_ai_vpn.Crypto.Word.{shl128}
use akur_ai_vpn.Crypto.X25519.Curve.{scalar_multiple, multiple_from}
use akur_ai_vpn.Crypto.X25519.Multiplication.{x25519-scalar_multiple}
use akur_ai_vpn.Crypto.X25519.{
  u128_le, or_bytes, or_limb, write_limbs, encode, x25519, public_key, shared_secret, ladder,
  decode_scalar, decode_u,
}

u64_le-IsByte : (n : ℕ) → All IsByte (u64_le n)
u64_le-IsByte n = omega arith

u128_le-IsByte : (n : ℕ) → All IsByte (u128_le n)
u128_le-IsByte n =
    All-append IsByte (u64_le n) (u64_le (n / 2 ^ 64)) (u64_le-IsByte n)
      (u64_le-IsByte (n / 2 ^ 64))

or_bytes-IsArray :
    (off : ℕ) (bytes out : List ℕ)
    → All IsByte bytes
    → IsArray 32 out
    → IsArray 32 (or_bytes off bytes out)
or_bytes-IsArray off [] out hb ho = ho
or_bytes-IsArray off (b ∷ bs) out hb ho = elim (Bool-cases (ltb off 32)) [
  | inl t ↦ rw t (
      or_bytes-IsArray (suc off) bs _ hb.1 (record {
        size = length-set off _ out ∙ ho.size;
        bytes =
            set-IsByte off _ out
              (bit_or-lt 8 (get_or out off 0) b (get_or-IsByte off out ho.bytes) hb.0) ho.bytes;
      }))
  | inr t ↦ rw t (or_bytes-IsArray (suc off) bs out hb.1 ho)
]

or_limb-IsArray : (i limb : ℕ) (out : List ℕ) → IsArray 32 out → IsArray 32 (or_limb i limb out)
or_limb-IsArray i limb out h =
    or_bytes-IsArray (i * 51 / 8) (take 8 (u128_le (shl128 limb (i * 51 % 8)))) out
      (All-take IsByte 8 (u128_le (shl128 limb (i * 51 % 8)))
        (u128_le-IsByte (shl128 limb (i * 51 % 8))))
      h

encode-IsArray : (v : Fe) → IsArray 32 (encode v)
unfolding encode write_limbs
encode-IsArray v =
    let l = reduce_canonical v in
    let out0 = or_limb 0 l.l0 (replicate 32 0) in
    let out1 = or_limb 1 l.l1 out0 in
    let out2 = or_limb 2 l.l2 out1 in
    let out3 = or_limb 3 l.l3 out2 in
    or_limb-IsArray 4 l.l4 out3 (
      or_limb-IsArray 3 l.l3 out2 (
        or_limb-IsArray 2 l.l2 out1 (
          or_limb-IsArray 1 l.l1 out0 (
            or_limb-IsArray 0 l.l0 (replicate 32 0)
              (record { size = refl; bytes = omega arith })))))

pub x25519-IsArray : (scalar u : List ℕ) → IsArray 32 (x25519 scalar u)
unfolding x25519
x25519-IsArray scalar u = encode-IsArray (ladder (decode_scalar scalar) (decode_u u))

pub public_key-IsArray : (secret : List ℕ) → IsArray 32 (public_key secret)
unfolding public_key
public_key-IsArray secret = x25519-IsArray secret (9 ∷ replicate 31 0)

shared_secret-IsArray : (secret peer : List ℕ) → IsArray 32 (shared_secret secret peer)
unfolding shared_secret
shared_secret-IsArray secret peer = x25519-IsArray secret peer

-- Arrays of one length that spell the same number are the same.
of_le_inj : (n : ℕ) (xs ys : List ℕ) → IsArray n xs → IsArray n ys → of_le xs ≡ of_le ys → xs ≡ ys
of_le_inj n [] [] hx hy e = refl
of_le_inj n [] (y ∷ ys) hx hy e = absurd (omega (arith, hx.size, hy.size))
of_le_inj n (x ∷ xs) [] hx hy e = absurd (omega (arith, hx.size, hy.size))
of_le_inj zero (x ∷ xs) (y ∷ ys) hx hy e = absurd (omega (arith, hx.size))
of_le_inj (suc n) (x ∷ xs) (y ∷ ys) hx hy e =
    ap₂ ◌∷◌ (omega (arith, hx.bytes.0, hy.bytes.0, e))
      (of_le_inj n xs ys (tail x xs hx) (tail y ys hy) (omega (arith, hx.bytes.0, hy.bytes.0, e)))
  where
    tail : (z : ℕ) (zs : List ℕ) → IsArray (suc n) (z ∷ zs) → IsArray n zs
    tail z zs h = record { size = omega (arith, h.size); bytes = h.bytes.1 }

-- The scalar of a secret: its three lowest bits cleared, bit 254 set and bit 255 cleared.
abbrev pub scalar_of : List ℕ → ℕ
scalar_of secret = 2 ^ 254 + of_le secret / 8 * 8 % 2 ^ 254

-- The curve's points of two secrets commute: `a * (b * 9)` is `b * (a * 9)`.
abbrev pub Commutes : List ℕ → List ℕ → Type 0
Commutes a b =
    scalar_multiple (scalar_of a) (scalar_multiple (scalar_of b) 9)
    ≡ scalar_multiple (scalar_of b) (scalar_multiple (scalar_of a) 9)

scalar_multiple-lt : (k u : ℕ) → scalar_multiple k u < p
unfolding scalar_multiple multiple_from mul_p
scalar_multiple-lt k u = omega arith

of_le-public_key :
    (a : List ℕ) → IsArray 32 a → of_le (public_key a) ≡ scalar_multiple (scalar_of a) 9
unfolding public_key
of_le-public_key a h =
    x25519-scalar_multiple a (9 ∷ replicate 31 0) h (record { size = refl; bytes = omega arith })

-- What two sides compute, as numbers of the curve.
of_le-shared_secret :
    (a b : List ℕ)
    → IsArray 32 a
    → IsArray 32 b
    → of_le (shared_secret a (public_key b))
      ≡ scalar_multiple (scalar_of a) (scalar_multiple (scalar_of b) 9)
unfolding shared_secret
of_le-shared_secret a b ha hb =
    x25519-scalar_multiple a (public_key b) ha (public_key-IsArray b)
    ∙ ap (scalar_multiple (scalar_of a)) (
        ap (λ (n : ℕ). n % 2 ^ 255 % p) (of_le-public_key b hb)
        ∙ omega (arith, scalar_multiple-lt (scalar_of b) 9))

-- Two sides of an exchange agree on their secret exactly if the multiples of the base point commute on
-- the curve of RFC 7748.
pub shared_secret-Commutes :
    (a b : List ℕ)
    → IsArray 32 a
    → IsArray 32 b
    → (shared_secret a (public_key b) ≡ shared_secret b (public_key a)) ↔ Commutes a b
shared_secret-Commutes a b ha hb = (
  λ e. sym (of_le-shared_secret a b ha hb) ∙ ap of_le e ∙ of_le-shared_secret b a hb ha,
  λ c.
      of_le_inj 32 _ _ (shared_secret-IsArray a _) (shared_secret-IsArray b _)
        (of_le-shared_secret a b ha hb ∙ c ∙ sym (of_le-shared_secret b a hb ha)),
)
