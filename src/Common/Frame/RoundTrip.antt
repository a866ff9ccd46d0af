-- ===== src/Common/Frame/RoundTrip.antt =====
-- crates/akurai-common/src/frame.rs: `encode` and `decode` against each other.
use akur_ai_vpn.Base.{
  ℕ, ◌/◌, ◌%◌, ◌≤◌, ◌≡◌, refl, ◌∙◌, ◌⊎◌, inl, inr, List, [], ◌∷◌, ◌++◌, Option, none, some, arith,
  ltb, ◌==◌, length, take, drop, All, subst, take-append, take-append-drop, length-append,
  length-take, IsByte, IsU32, u16_of_be, Bool-cases, Option-cases, ◌&&◌, ◌||◌, ipv4,
}
use akur_ai_vpn.Base.Outcome.{done}
use akur_ai_vpn.Common.Frame.{
  FrameKind, keepalive, handshake_init, handshake_resp, payload_data, peer_addr, to_byte, from_byte,
  Frame, encode, decode_body, decode, max_payload, version, header_len,
}

-- What `Frame::new` and the address type guarantee of a frame.
pub record IsFrame (f : Frame) : Type 0 where
  pub dest_fits : IsU32 f.dest
  pub src_fits : IsU32 f.src
  pub payload_fits : length f.payload ≤ max_payload

pub from_byte-to_byte : (k : FrameKind) → from_byte (to_byte k) ≡ some k
unfolding from_byte to_byte
from_byte-to_byte keepalive = refl
from_byte-to_byte handshake_init = refl
from_byte-to_byte handshake_resp = refl
from_byte-to_byte payload_data = refl
from_byte-to_byte peer_addr = refl

pub to_byte-from_byte : (b : ℕ) (k : FrameKind) → from_byte b ≡ some k → to_byte k ≡ b
unfolding from_byte to_byte
to_byte-from_byte b k h = ground arith

-- A buffer with its header laid out.
module _ (m0 m1 v t d0 d1 d2 d3 s0 s1 s2 s3 l0 l1 : ℕ) (rest : List ℕ) where
  abbrev header : List ℕ
  header = m0 ∷ m1 ∷ v ∷ t ∷ d0 ∷ d1 ∷ d2 ∷ d3 ∷ s0 ∷ s1 ∷ s2 ∷ s3 ∷ l0 ∷ l1 ∷ rest

  abbrev len : ℕ
  len = u16_of_be l0 l1

  abbrev body : FrameKind → Frame
  body k = record {
    kind = k;
    dest = ipv4 d0 d1 d2 d3;
    src = ipv4 s0 s1 s2 s3;
    payload = take len rest;
  }

  decode_body_fits :
      (k : FrameKind)
      → len ≤ max_payload
      → len ≤ length rest
      → decode_body k header ≡ done (some (body k))
  unfolding decode_body
  decode_body_fits k p q = ground arith

  decode_body_cases :
      (k : FrameKind)
      → (decode_body k header ≡ done none)
        ⊎ ((len ≤ max_payload)
            × (len ≤ length rest)
            × (decode_body k header ≡ done (some (body k))))
  unfolding decode_body
  decode_body_cases k = elim (Bool-cases (ltb max_payload len || ltb (length rest) len)) [
    | inl lies ↦ inl (ground arith)
    | inr fits ↦ inr (ground arith, ground arith, ground arith)
  ]

  decode-accepts :
      (k : FrameKind)
      → m0 ≡ 0xAC
      → m1 ≡ 0x01
      → v ≡ version
      → from_byte t ≡ some k
      → decode header ≡ decode_body k header
  unfolding decode
  decode-accepts k p q r e = ground arith

  decode_cases :
      (decode header ≡ done none)
      ⊎ ((k : FrameKind) × (m0 ≡ 0xAC)
          × (m1 ≡ 0x01)
          × (v ≡ version)
          × (from_byte t ≡ some k)
          × (decode header ≡ decode_body k header))
  unfolding decode
  decode_cases = elim (Bool-cases (m0 == 0xAC && m1 == 0x01 && v == version)) [
    | inr bad ↦ inl (ground arith)
    | inl good ↦ elim (Option-cases (from_byte t)) [
      | inl unknown ↦ inl (ground arith)
      | inr (k, e) ↦ inr (k, ground arith, ground arith, ground arith, e, ground arith)
    ]
  ]

  decode-header_total : (r : Option Frame) × (decode header ≡ done r)
  decode-header_total = elim decode_cases [
    | inl e ↦ (none, e)
    | inr (k, _, _, _, _, e) ↦ elim (decode_body_cases k) [
      | inl e' ↦ (none, e ∙ e')
      | inr (_, _, e') ↦ (some (body k), e ∙ e')
    ]
  ]

-- The octets and the length written for a number below the width read back as the number.
ipv4-octets :
    (n : ℕ) → IsU32 n → ipv4 (n / 16777216 % 256) (n / 65536 % 256) (n / 256 % 256) (n % 256) ≡ n
ipv4-octets n h = omega arith

written_len : ℕ → ℕ
written_len n = u16_of_be (n % 65536 / 256 % 256) (n % 65536 % 256)

written_len_lem : (n : ℕ) → n ≤ max_payload → written_len n ≡ n
unfolding written_len
written_len_lem n h = omega arith

-- Decoding what `encode` wrote gives the frame back, and bytes behind it are ignored.
pub decode-encode :
    (f : Frame) (rest : List ℕ) → IsFrame f → decode (encode f ++ rest) ≡ done (some f)
unfolding encode written_len
decode-encode f rest v =
    decode-accepts _ _ _ _ _ _ _ _ _ _ _ _ _ _ _ f.kind refl refl refl (from_byte-to_byte f.kind)
    ∙ decode_body_fits _ _ _ _ _ _ _ _ _ _ _ _ _ _ _ f.kind
        (omega (arith, same_len, v.payload_fits))
        (omega (arith, same_len, length-append f.payload rest))
    ∙ rw (
      same_len,
      ipv4-octets f.dest v.dest_fits,
      ipv4-octets f.src v.src_fits,
      take-append f.payload rest,
    )
  where
    same_len : written_len (length f.payload) ≡ length f.payload
    same_len = written_len_lem (length f.payload) v.payload_fits

-- `decode` indexes within its buffer, whatever the buffer holds.
pub decode_total : (buf : List ℕ) → (r : Option Frame) × (decode buf ≡ done r)
unfolding decode
decode_total (m0 ∷ m1 ∷ v ∷ t ∷ d0 ∷ d1 ∷ d2 ∷ d3 ∷ s0 ∷ s1 ∷ s2 ∷ s3 ∷ l0 ∷ l1 ∷ rest) =
    decode-header_total m0 m1 v t d0 d1 d2 d3 s0 s1 s2 s3 l0 l1 rest
decode_total _ = (none, refl)

-- A laid-out header of bytes is what `encode` writes for the frame that it stands for.
encode-body :
    (m0 m1 v t d0 d1 d2 d3 s0 s1 s2 s3 l0 l1 : ℕ) (rest : List ℕ) (k : FrameKind)
    → All IsByte (d0 ∷ d1 ∷ d2 ∷ d3 ∷ s0 ∷ s1 ∷ s2 ∷ s3 ∷ l0 ∷ l1 ∷ [])
    → m0 ≡ 0xAC
    → m1 ≡ 0x01
    → v ≡ version
    → from_byte t ≡ some k
    → u16_of_be l0 l1 ≤ max_payload
    → u16_of_be l0 l1 ≤ length rest
    → let f = body m0 m1 v t d0 d1 d2 d3 s0 s1 s2 s3 l0 l1 rest k in
      IsFrame f
      × (header m0 m1 v t d0 d1 d2 d3 s0 s1 s2 s3 l0 l1 rest
          ≡ encode f ++ drop (length f.payload) rest)
unfolding encode
encode-body m0 m1 v t d0 d1 d2 d3 s0 s1 s2 s3 l0 l1 rest k b p q r e fits there = (
  record { dest_fits = omega arith; src_fits = omega arith; payload_fits = omega (arith, size) },
  ground (arith, to_byte-from_byte t k e, size, take-append-drop (u16_of_be l0 l1) rest),
)
  where
    size : length (take (u16_of_be l0 l1) rest) ≡ u16_of_be l0 l1
    size = omega (arith, length-take (u16_of_be l0 l1) rest)

abbrev pub EncodesPrefix : List ℕ → Frame → Type 0
EncodesPrefix buf f = IsFrame f × (buf ≡ encode f ++ drop (length f.payload) (drop header_len buf))

-- A buffer that decodes begins with the encoding of the frame it decodes to, and that frame is
-- within the bounds.
pub encode-decode :
    (buf : List ℕ) (f : Frame) → All IsByte buf → decode buf ≡ done (some f) → EncodesPrefix buf f
unfolding decode
encode-decode (m0 ∷ m1 ∷ v ∷ t ∷ d0 ∷ d1 ∷ d2 ∷ d3 ∷ s0 ∷ s1 ∷ s2 ∷ s3 ∷ l0 ∷ l1 ∷ rest) f b e =
    elim (decode_cases m0 m1 v t d0 d1 d2 d3 s0 s1 s2 s3 l0 l1 rest) [
      | inl e' ↦ cc
      | inr (k, p, q, r, e1, e2) ↦
          elim (decode_body_cases m0 m1 v t d0 d1 d2 d3 s0 s1 s2 s3 l0 l1 rest k) [
            | inl e' ↦ cc
            | inr (fits, there, e3) ↦
                subst (EncodesPrefix (header m0 m1 v t d0 d1 d2 d3 s0 s1 s2 s3 l0 l1 rest)) (cc) (
                  encode-body m0 m1 v t d0 d1 d2 d3 s0 s1 s2 s3 l0 l1 rest k (omega arith) p q r e1
                    fits there)
          ]
    ]
encode-decode _ f b e = cc
