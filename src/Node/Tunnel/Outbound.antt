-- ===== src/Node/Tunnel/Outbound.antt =====
-- crates/akurai-node/src/tunnel.rs: one pass of `tun_pump`, from the TUN to the network.
use akur_ai_vpn.Base.{
  ℕ, ◌/◌, Bool, true, not, ◌&&◌, List, [], ◌∷◌, Option, none, some, ◌>>=◌, leb, ◌==◌, if◌then◌else◌,
  length, take, drop, get_or, of_be, ipv4, IpAddr, SocketAddr,
}
use akur_ai_vpn.Base.Eq.{nat_eq, list_eq}
use akur_ai_vpn.Base.Maps.{insert}
use akur_ai_vpn.Common.Frame.{Frame, payload_data, new as new_frame}
use akur_ai_vpn.Transport.Aead.{Aead}
use akur_ai_vpn.Transport.Noise.{Dh}
use akur_ai_vpn.Transport.Session.{Session, encrypt}
use akur_ai_vpn.Node.Acl.{Acl, permits}
use akur_ai_vpn.Node.Paths.{PeerState, handshake_paths}
use akur_ai_vpn.Node.Peers.{Peer, route_to_ip}
use akur_ai_vpn.Node.Tunnel.{
  Table, Config, Pass, nothing, may_start, entry, send_frame, start_handshake,
}

-- The destination in the header of an IPv4 or an IPv6 packet.
unfoldable pub dest_of : List ℕ → Option IpAddr
dest_of pkt =
    let version = get_or pkt 0 0 / 16 in
    if version == 4 && leb 20 (length pkt)
    then some
        (IpAddr.v4 (ipv4 (get_or pkt 16 0) (get_or pkt 17 0) (get_or pkt 18 0) (get_or pkt 19 0)))
    else if version == 6 && leb 40 (length pkt)
    then some (IpAddr.v6 (of_be 0 (take 16 (drop 24 pkt))))
    else none

abbrev pub is_permitted : Option Acl → Peer → Bool
is_permitted none peer = true
is_permitted (some acl) peer = permits acl peer

module _ (aead : Aead) (dh : Dh) where
  abbrev pub on_paths :
      SocketAddr
      → Option SocketAddr
      → Option Frame × PeerState
      → List (List ℕ × SocketAddr) × PeerState
  on_paths relay endpoint (none, st) = ([], st)
  on_paths relay endpoint (some f, st) =
      let (addrs, st') = handshake_paths st relay endpoint in (send_frame (some f) addrs, st')

  -- `tun_pump` to a peer without a session.
  abbrev pub first_contact :
      Config → Peer → ℕ → Option (List ℕ) → PeerState → List (List ℕ × SocketAddr) × PeerState
  first_contact cfg peer now none st = ([], st)
  first_contact cfg peer now (some eph) st =
      if may_start st.pending now
      then on_paths cfg.relay peer.endpoint
          (start_handshake aead dh cfg peer.overlay_ip peer.public_key now eph st)
      else ([], st)

  -- `tun_pump` once the peer is known and permitted.
  abbrev pub send_to :
      Config
      → Peer
      → ℕ
      → Option (List ℕ)
      → List ℕ
      → PeerState
      → Option Session
      → List (List ℕ × SocketAddr) × PeerState
  send_to cfg peer now eph pkt st (some sess) =
      let (ct, sess') = encrypt aead sess pkt in
      (
        send_frame (new_frame payload_data cfg.my_ip peer.overlay_ip ct) (cfg.relay ∷ []),
        record st { session = some sess' },
      )
  send_to cfg peer now eph pkt st none = first_contact cfg peer now eph st

  abbrev pub to_peer : Config → Table → ℕ → Option (List ℕ) → List ℕ → Option Peer → Pass
  to_peer cfg t now eph pkt none = nothing t
  to_peer cfg t now eph pkt (some peer) =
      if not (is_permitted cfg.acl peer)
      then nothing t
      else let st = entry peer.overlay_ip t in
        let (sent, st') = send_to cfg peer now eph pkt st st.session in
        record { table = insert peer.overlay_ip st' t; sent = sent; written = [] }

  -- One pass of `tun_pump` over the packet read.
  unfoldable pub on_packet : Config → Table → ℕ → Option (List ℕ) → List ℕ → Pass
  on_packet cfg t now eph pkt = to_peer cfg t now eph pkt (dest_of pkt >>= route_to_ip cfg.peers)
