-- ===== src/Node/Tunnel.antt =====
-- crates/akurai-node/src/tunnel.rs: one pass of each pump loop, with the time and the ephemeral secret
-- (nothing where the system gives no entropy) of the pass as arguments.
pub mod Outbound
pub mod Inbound
pub mod Egress
pub mod Ingress
pub mod Sessions
use akur_ai_vpn.Base.{
  ℕ, ◌+◌, ◌-◌, ◌*◌, ◌/◌, Bool, true, false, not, ◌&&◌, List, [], ◌∷◌, ◌++◌, map, Option, none, some,
  ◌>>=◌, leb, ◌==◌, if◌then◌else◌, length, take, drop, get_or, of_be, ipv4, IpAddr, Ipv4Addr,
  SocketAddr,
}
use akur_ai_vpn.Base.Eq.{nat_eq, list_eq, ◌===◌}
use akur_ai_vpn.Base.Maps.{get, insert}
use akur_ai_vpn.Base.Net.{socket_beq}
use akur_ai_vpn.Common.Frame.{
  Frame, FrameKind, keepalive, handshake_init, handshake_resp, payload_data, peer_addr, encode,
  new as new_frame,
}
use akur_ai_vpn.Transport.Aead.{Aead}
use akur_ai_vpn.Transport.Noise.{Dh, Keypair, Initiator, initiate, respond, finalize}
use akur_ai_vpn.Transport.Session.{TransportKeys, Session, encrypt, decrypt, new as new_session}
use akur_ai_vpn.Node.Acl.{Acl, permits}
use akur_ai_vpn.Node.Paths.{PeerState, no_state, parse_addr, handshake_paths}
use akur_ai_vpn.Node.Peers.{Peer, PeerTable, lookup, route_to_ip}

abbrev pub Table : Type 0
Table = List (Ipv4Addr × PeerState)

-- The handles of `Pump` that a pass reads.
pub record Config : Type 0 where
  pub peers : PeerTable
  pub kp : Keypair
  pub my_ip : Ipv4Addr
  pub relay : SocketAddr
  pub acl : Option Acl

-- The table behind a pass, the datagrams sent, and the packets written to the TUN.
pub record Pass : Type 0 where
  pub table : Table
  pub sent : List (List ℕ × SocketAddr)
  pub written : List (List ℕ)

abbrev pub nothing : Table → Pass
nothing t = record { table = t; sent = []; written = [] }

-- `HANDSHAKE_RETRY_AFTER`
abbrev pub handshake_retry_after : ℕ
handshake_retry_after = 3000

-- `is_none_or(|(_, started)| started.elapsed() >= HANDSHAKE_RETRY_AFTER)`
abbrev pub may_start : Option (Initiator × ℕ) → ℕ → Bool
may_start none now = true
may_start (some (state, started)) now = leb handshake_retry_after (now - started)

abbrev pub or_default : Option PeerState → PeerState
or_default none = no_state
or_default (some st) = st

-- `t.entry(ip).or_default()`
abbrev pub entry : Ipv4Addr → Table → PeerState
entry ip t = or_default (get ip t)

abbrev pub send_frame : Option Frame → List SocketAddr → List (List ℕ × SocketAddr)
send_frame none addrs = []
send_frame (some f) addrs = map (λ (a : SocketAddr). (encode f, a)) addrs

abbrev pub is_known : Option Peer → Bool
is_known none = false
is_known (some p) = true

abbrev pub is_hint : FrameKind → Bool
is_hint peer_addr = true
is_hint _ = false

module _ (aead : Aead) (dh : Dh) where
  -- `noise::initiate` and the frame of its message, for the paths given.
  unfoldable pub start_handshake :
      Config → Ipv4Addr → List ℕ → ℕ → List ℕ → PeerState → Option Frame × PeerState
  start_handshake cfg ip public_key now eph st =
      let (state, msg1) = initiate aead dh cfg.kp public_key eph in
      (new_frame handshake_init cfg.my_ip ip msg1, record st { pending = some (state, now) })
