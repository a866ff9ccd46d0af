-- ===== src/Common/Frame.antt =====
-- crates/akurai-common/src/frame.rs: the relay envelope.
pub mod RoundTrip
use akur_ai_vpn.Base.{
  ℕ, ◌+◌, ◌%◌, Bool, not, ◌&&◌, ◌||◌, List, [], ◌∷◌, ◌++◌, Option, none, some, ltb, ◌==◌,
  if◌then◌else◌, length, u16_be, u16_of_be, Ipv4Addr, octets, ipv4,
}
use akur_ai_vpn.Base.Outcome.{Outcome, done, panic, ◌>>=◌, at, slice}

abbrev pub magic : List ℕ
magic = 0xAC ∷ 0x01 ∷ []

abbrev pub version : ℕ
version = 1

abbrev pub header_len : ℕ
header_len = 14

abbrev pub max_payload : ℕ
max_payload = 2048

pub data FrameKind : Type 0 where
  keepalive handshake_init handshake_resp payload_data peer_addr : FrameKind

unfoldable pub to_byte : FrameKind → ℕ
to_byte keepalive = 1
to_byte handshake_init = 2
to_byte handshake_resp = 3
to_byte payload_data = 4
to_byte peer_addr = 5

unfoldable pub from_byte : ℕ → Option FrameKind
from_byte b =
    if b == 1
    then some keepalive
    else if b == 2
    then some handshake_init
    else if b == 3
    then some handshake_resp
    else if b == 4
    then some payload_data
    else if b == 5
    then some peer_addr
    else none

pub record Frame : Type 0 where
  pub kind : FrameKind
  pub dest : Ipv4Addr
  pub src : Ipv4Addr
  pub payload : List ℕ

-- `Frame::new`
unfoldable pub new : FrameKind → Ipv4Addr → Ipv4Addr → List ℕ → Option Frame
new kind src dest payload =
    if ltb max_payload (length payload)
    then none
    else some (record { kind = kind; dest = dest; src = src; payload = payload })

-- `Frame::encode`; the cast to `u16` keeps the low 16 bits of the length.
unfoldable pub encode : Frame → List ℕ
unfolding to_byte
encode f =
    magic
    ++ version
      ∷ to_byte f.kind
      ∷ (octets f.dest ++ (octets f.src ++ (u16_be (length f.payload % 65536) ++ f.payload)))

-- The rest of `Frame::decode` once the type byte is known.
unfoldable pub decode_body : FrameKind → List ℕ → Outcome (Option Frame)
decode_body kind buf = do
  d0 ← at buf 4
  d1 ← at buf 5
  d2 ← at buf 6
  d3 ← at buf 7
  s0 ← at buf 8
  s1 ← at buf 9
  s2 ← at buf 10
  s3 ← at buf 11
  l0 ← at buf 12
  l1 ← at buf 13
  let len = u16_of_be l0 l1
  if ltb max_payload len || ltb (length buf) (header_len + len) then done none else do
    payload ← slice buf header_len (header_len + len)
    done (
        some (record {
          kind = kind;
          dest = ipv4 d0 d1 d2 d3;
          src = ipv4 s0 s1 s2 s3;
          payload = payload;
        }))

-- `Frame::decode`
unfoldable pub decode : List ℕ → Outcome (Option Frame)
unfolding decode_body from_byte
decode buf = if ltb (length buf) header_len then done none else do
  m0 ← at buf 0
  m1 ← at buf 1
  v ← at buf 2
  if not (m0 == 0xAC && m1 == 0x01) || not (v == version) then done none else do
    t ← at buf 3
    elim (from_byte t) [ none ↦ done none | some kind ↦ decode_body kind buf ]
