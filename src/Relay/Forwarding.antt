-- ===== src/Relay/Forwarding.antt =====
-- crates/akurai-relay/src/forward.rs: what the relay puts on the wire.
use akur_ai_vpn.Base.{
  ℕ, ◌≡◌, refl, inl, inr, ◌⊎◌, true, false, List, [], ◌∷◌, ◌++◌, none, some, arith, if◌then◌else◌,
  Ipv4Addr, SocketAddr, Option-cases, Bool-cases, All, IsByte, IsU32, IsU16, octets, u16_be,
}
use mathlib.Core.List.{append-nil}
use akur_ai_vpn.Base.Eq.{nat_eq}
use akur_ai_vpn.Base.Maps.{get}
use akur_ai_vpn.Base.Outcome.{done}
use akur_ai_vpn.Common.Frame.{FrameKind, Frame, peer_addr, decode, encode}
use akur_ai_vpn.Common.Frame.RoundTrip.{IsFrame, decode-encode, encode-decode}
use akur_ai_vpn.Node.Paths.{parse_addr}
use akur_ai_vpn.Relay.{Relay, Effect, learn, dispatch, handle, hint, is_keepalive, is_handshake}

-- A datagram that tells a node where another one is: the frame it carries names both, and its
-- payload reads back as the address.
pub record Tells (src dest : Ipv4Addr) (place : SocketAddr) (datagram : List ℕ) : Type 0 where
  pub frame : Frame
  pub decodes : decode datagram ≡ done (some frame)
  pub is_hint : frame.kind ≡ peer_addr
  pub about : frame.src ≡ src
  pub told : frame.dest ≡ dest
  pub where_it_is : parse_addr frame.payload ≡ some place

module _ (src dest : Ipv4Addr) (ip port : ℕ) (to : SocketAddr) where
  abbrev hint_frame : Frame
  hint_frame = record {
    kind = peer_addr;
    dest = dest;
    src = src;
    payload = octets ip ++ u16_be port;
  }

  hint_v4 : hint src dest (SocketAddr.v4 ip port) to ≡ (encode hint_frame, to) ∷ []
  unfolding hint
  hint_v4 = refl

  hint-Tells :
      IsU32 src
      → IsU32 dest
      → IsU32 ip
      → IsU16 port
      → Tells src dest (SocketAddr.v4 ip port) (encode hint_frame)
  unfolding parse_addr
  hint-Tells s d i p = record {
    frame = hint_frame;
    decodes = rw append-nil at (decode-encode hint_frame [] fits);
    is_hint = refl;
    about = refl;
    told = refl;
    where_it_is = ground arith;
  }
    where
      fits : IsFrame hint_frame
      fits = record { dest_fits = d; src_fits = s; payload_fits = omega arith }

abbrev hints : Frame → SocketAddr → SocketAddr → List (List ℕ × SocketAddr)
hints f from to =
    if is_handshake f.kind then hint f.src f.dest from to ++ hint f.dest f.src to from else []

sent-dispatch :
    (r : Relay) (f : Frame) (d : List ℕ) (from to : SocketAddr)
    → get f.dest r.table ≡ some to
    → ((dispatch r f d from).sent ≡ (d, to) ∷ hints f from to)
      × ((dispatch r f d from).after.table ≡ r.table)
unfolding dispatch
sent-dispatch r f d from to e = rw (e, dispatch) (refl, refl)

handle-moves :
    (r : Relay) (f : Frame) (d : List ℕ) (from : SocketAddr)
    → is_keepalive f.kind ≡ false
    → handle r (some f) d from ≡ dispatch (learn r f.src from) f d from
unfolding handle
handle-moves r f d from e = rw e

-- Nothing is sent, and then the frame is a keepalive or for an unknown node; or the datagram goes out
-- as it came.
abbrev pub Sends : Frame → List ℕ → Effect → Type 0
Sends f d e =
    ((e.sent ≡ []) × ((is_keepalive f.kind ≡ true) ⊎ (get f.dest e.after.table ≡ none)))
    ⊎ ((to : SocketAddr) × (hints : List (List ℕ × SocketAddr)) × (get f.dest e.after.table
          ≡ some to)
        × (e.sent ≡ (d, to) ∷ hints)
        × (is_keepalive f.kind ≡ false)
        × (is_handshake f.kind ≡ false → hints ≡ []))

dispatch-Sends :
    (r : Relay) (f : Frame) (d : List ℕ) (from : SocketAddr)
    → is_keepalive f.kind ≡ false
    → Sends f d (dispatch r f d from)
unfolding dispatch
dispatch-Sends r f d from e = elim (Option-cases (get f.dest r.table)) [
  | inl e' ↦ inl (rw (e', dispatch) (refl, inr e'))
  | inr (to, e') ↦
      let (s, t) = sent-dispatch r f d from to e' in
      inr (to, hints f from to, rw t e', s, e, λ h. rw h)
]

-- The relay sends a datagram on unchanged to the endpoint that its table holds for the frame's
-- destination, with hints behind it for a handshake only. It sends nothing for a keepalive and nothing
-- for an unknown destination, and in no other case is the datagram held back.
pub sent-handle :
    (r : Relay) (f : Frame) (d : List ℕ) (from : SocketAddr) → Sends f d (handle r (some f) d from)
sent-handle r f d from = elim (Bool-cases (is_keepalive f.kind)) [
  | inl e ↦ inl (unfold handle in rw e (refl, inl refl))
  | inr e ↦ rw (handle-moves r f d from e) (dispatch-Sends (learn r f.src from) f d from e)
]

not_keepalive : (k : FrameKind) → is_handshake k ≡ true → is_keepalive k ≡ false
not_keepalive k h = ground arith

-- For a handshake frame whose destination the relay knows, both ends on IPv4: behind the datagram
-- itself the relay sends the destination a hint with the address of the source, and the source
-- one with the address of the destination, and each reads back as that address at the node.
pub sent-introduces :
    (r : Relay) (d : List ℕ) (f : Frame) (a p b q : ℕ)
    → All IsByte d
    → decode d ≡ done (some f)
    → is_handshake f.kind ≡ true
    → IsU32 a
    → IsU16 p
    → IsU32 b
    → IsU16 q
    → let from = SocketAddr.v4 a p in
      let to = SocketAddr.v4 b q in
      get f.dest (learn r f.src from).table ≡ some to
      → (h1 h2 : List ℕ) × ((handle r (some f) d from).sent ≡ (d, to) ∷ (h1, to) ∷ (h2, from) ∷ [])
        × Tells f.src f.dest from h1
        × Tells f.dest f.src to h2
sent-introduces r d f a p b q bytes e hs ha hp hb hq known =
    let from : SocketAddr = SocketAddr.v4 a p in
    let to : SocketAddr = SocketAddr.v4 b q in
    let v = (encode-decode d f bytes e).0 in
    (
      encode (hint_frame f.src f.dest a p to),
      encode (hint_frame f.dest f.src b q from),
      rw
          (
            handle-moves r f d from (not_keepalive f.kind hs),
            (sent-dispatch (learn r f.src from) f d from to known).0,
            hs,
            hint_v4 f.src f.dest a p to,
            hint_v4 f.dest f.src b q from,
          )
          refl,
      hint-Tells f.src f.dest a p to v.src_fits v.dest_fits ha hp,
      hint-Tells f.dest f.src b q from v.dest_fits v.src_fits hb hq,
    )
