-- ===== src/Node/Tunnel/Inbound.antt =====
-- crates/akurai-node/src/tunnel.rs: one pass of `udp_pump`, from the network to the TUN.
use akur_ai_vpn.Base.{
  ℕ, Bool, true, not, ◌&&◌, List, [], ◌∷◌, Option, none, some, ◌>>=◌, if◌then◌else◌, Ipv4Addr,
  SocketAddr,
}
use akur_ai_vpn.Base.Eq.{nat_eq, list_eq, ◌===◌}
use akur_ai_vpn.Base.Maps.{get, insert}
use akur_ai_vpn.Base.Net.{socket_beq}
use akur_ai_vpn.Common.Frame.{
  Frame, FrameKind, keepalive, handshake_init, handshake_resp, payload_data, peer_addr, encode,
  new as new_frame,
}
use akur_ai_vpn.Transport.Aead.{Aead}
use akur_ai_vpn.Transport.Noise.{Dh, Initiator, respond, finalize}
use akur_ai_vpn.Transport.Session.{Session, decrypt, new as new_session}
use akur_ai_vpn.Node.Paths.{PeerState, parse_addr}
use akur_ai_vpn.Node.Peers.{Peer, lookup}
use akur_ai_vpn.Node.Tunnel.{
  Table, Config, Pass, nothing, may_start, entry, send_frame, is_known, is_hint, start_handshake,
}

module _ (aead : Aead) (dh : Dh) where
  -- `accept_handshake`
  unfoldable pub accept_handshake :
      Config → Option (List ℕ) → Frame → Option (Ipv4Addr × Session × Frame)
  accept_handshake cfg eph frame = eph >>= λ eph.
      respond aead dh cfg.kp eph frame.payload >>= λ (keys, msg2, init_pub).
      lookup cfg.peers frame.src >>= λ peer.
      if not (peer.public_key === init_pub)
      then none
      else new_frame handshake_resp cfg.my_ip frame.src msg2 >>= λ response.
          some (frame.src, new_session keys, response)

  -- `finish_handshake`
  unfoldable pub finish_handshake : Initiator → List ℕ → Option Session
  finish_handshake state payload =
      finalize aead dh state payload >>= λ keys. some (new_session keys)

  -- The direct path, taken from any frame of a known peer that does not come from the relay.
  unfoldable pub confirm_path : Config → Table → Frame → SocketAddr → Table
  confirm_path cfg t frame from =
      if not (socket_beq from cfg.relay)
        && not (is_hint frame.kind)
        && is_known (lookup cfg.peers frame.src)
      then insert frame.src (record (entry frame.src t) { direct = some from }) t
      else t

  abbrev remember : Option SocketAddr → SocketAddr → PeerState → PeerState
  remember (some direct) addr st = st
  remember none addr st = record st { candidate = some addr }

  abbrev on_addr : Config → Table → Frame → Option SocketAddr → Bool → Pass
  on_addr cfg t frame (some addr) true =
      let st = entry frame.src t in
      record {
        table = insert frame.src (remember st.direct addr st) t;
        sent = send_frame (new_frame keepalive cfg.my_ip 0 []) (addr ∷ []);
        written = [];
      }
  on_addr cfg t frame _ _ = nothing t

  -- The arm `FrameKind::PeerAddr` of `udp_pump`
  unfoldable pub on_peer_addr : Config → Table → Frame → Pass
  on_peer_addr cfg t frame =
      on_addr cfg t frame (parse_addr frame.payload) (is_known (lookup cfg.peers frame.src))

  abbrev pub on_accepted : Table → SocketAddr → Option (Ipv4Addr × Session × Frame) → Pass
  on_accepted t from none = nothing t
  on_accepted t from (some (peer_ip, session, reply)) = record {
    table = insert peer_ip (record (entry peer_ip t) { session = some session; pending = none }) t;
    sent = (encode reply, from) ∷ [];
    written = [];
  }

  -- The arm `FrameKind::HandshakeInit`
  unfoldable pub on_handshake_init : Config → Table → Option (List ℕ) → Frame → SocketAddr → Pass
  on_handshake_init cfg t eph frame from = on_accepted t from (accept_handshake cfg eph frame)

  abbrev finished : Option Session → PeerState → PeerState
  finished none st = st
  finished (some session) st = record st { session = some session }

  abbrev take_pending : Option (Initiator × ℕ) → List ℕ → PeerState → PeerState
  take_pending none payload st = st
  take_pending (some (state, started)) payload st =
      finished (finish_handshake state payload) (record st { pending = none })

  -- The arm `FrameKind::HandshakeResp`
  unfoldable pub on_handshake_resp : Table → Frame → Pass
  on_handshake_resp t frame =
      let st = entry frame.src t in
      nothing (insert frame.src (take_pending st.pending frame.payload st) t)

  abbrev both_ways : SocketAddr → SocketAddr → List SocketAddr
  both_ways from relay = if not (socket_beq from relay) then from ∷ relay ∷ [] else from ∷ []

  abbrev restart : Config → Table → ℕ → Frame → SocketAddr → Option Peer → Option (List ℕ) → Pass
  restart cfg t now frame from (some peer) (some eph) =
      let st = entry frame.src t in
      if may_start st.pending now
      then (let (f, st') = start_handshake aead dh cfg frame.src peer.public_key now eph st in
          record {
            table = insert frame.src (record st' { session = none }) t;
            sent = send_frame f (both_ways from cfg.relay);
            written = [];
          })
      else nothing (insert frame.src st t)
  restart cfg t now frame from _ _ = nothing t

  -- The arm `FrameKind::Data` where nothing was decrypted.
  unfoldable pub recover : Config → Table → ℕ → Option (List ℕ) → Frame → SocketAddr → Pass
  recover cfg t now eph frame from = restart cfg t now frame from (lookup cfg.peers frame.src) eph

  abbrev pub deliver :
      Config → Table → ℕ → Option (List ℕ) → Frame → SocketAddr → Option (List ℕ) → Pass
  deliver cfg t now eph frame from (some plaintext) = record {
    table = t;
    sent = [];
    written = plaintext ∷ [];
  }
  deliver cfg t now eph frame from none = recover cfg t now eph frame from

  abbrev decrypt_with : Table → Frame → PeerState → Option Session → Option (List ℕ) × Table
  decrypt_with t frame st none = (none, t)
  decrypt_with t frame st (some sess) =
      let (plaintext, sess') = decrypt aead sess frame.payload in
      (plaintext, insert frame.src (record st { session = some sess' }) t)

  -- The session decrypts in place; a peer without one decrypts nothing.
  abbrev pub decrypt_in : Table → Frame → Option PeerState → Option (List ℕ) × Table
  decrypt_in t frame none = (none, t)
  decrypt_in t frame (some st) = decrypt_with t frame st st.session

  -- The arm `FrameKind::Data`
  unfoldable pub on_data : Config → Table → ℕ → Option (List ℕ) → Frame → SocketAddr → Pass
  on_data cfg t now eph frame from =
      let (plaintext, t') = decrypt_in t frame (get frame.src t) in
      deliver cfg t' now eph frame from plaintext

  abbrev pub by_kind : Config → Table → ℕ → Option (List ℕ) → Frame → SocketAddr → FrameKind → Pass
  by_kind cfg t now eph frame from peer_addr = on_peer_addr cfg t frame
  by_kind cfg t now eph frame from handshake_init = on_handshake_init cfg t eph frame from
  by_kind cfg t now eph frame from handshake_resp = on_handshake_resp t frame
  by_kind cfg t now eph frame from payload_data = on_data cfg t now eph frame from
  by_kind cfg t now eph frame from keepalive = nothing t

  -- One pass of `udp_pump` over a frame that was decoded.
  unfoldable pub on_frame : Config → Table → ℕ → Option (List ℕ) → Frame → SocketAddr → Pass
  on_frame cfg t now eph frame from =
      by_kind cfg (confirm_path cfg t frame from) now eph frame from frame.kind
