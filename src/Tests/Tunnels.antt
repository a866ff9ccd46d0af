-- ===== src/Tests/Tunnels.antt =====
-- The pumps at a concrete table, with stand-ins for the cipher and for X25519 whose runs are short.
use akur_ai_vpn.Base.{
  ℕ, ◌+◌, ◌-◌, ◌≡◌, ◌≢◌, ◌⊎◌, inl, refl, ap, List, [], ◌∷◌, ◌++◌, Option, none, some, arith, ipv4,
  length, take, replicate, cut-append, length-append, In, here, Ipv4Addr, SocketAddr,
}
use akur_ai_vpn.Base.Eq.{nat_eq}
use akur_ai_vpn.Base.Maps.{get}
use akur_ai_vpn.Common.Frame.{Frame, FrameKind, handshake_init, payload_data, new as new_frame}
use akur_ai_vpn.Transport.Aead.{Aead}
use akur_ai_vpn.Transport.Noise.{Dh, Keypair, from_secret, initiate, respond, respond_static, reply}
use akur_ai_vpn.Transport.Session.{TransportKeys, Session, new as new_session, decrypt}
use akur_ai_vpn.Node.Paths.{no_state}
use akur_ai_vpn.Node.Peers.{Peer, lookup}
use akur_ai_vpn.Node.Tunnel.{Table, Config, nothing}
use akur_ai_vpn.Node.Tunnel.Outbound.{on_packet}
use akur_ai_vpn.Node.Tunnel.Inbound.{accept_handshake, confirm_path, on_data, on_frame}
use akur_ai_vpn.Node.Tunnel.Egress.{IsPermitted, Handed, on_packet-Handed}
use akur_ai_vpn.Node.Tunnel.Ingress.{accept_handshake-known, on_frame-other}
use akur_ai_vpn.Node.Tunnel.Sessions.{session_of, on_frame-written, Restarts, on_data-session_of}

abbrev cut : List ℕ → Option (List ℕ)
cut c = some (take (length c - 16) c)

cut-seal : (p : List ℕ) → cut (p ++ replicate 16 0) ≡ some p
cut-seal p =
    ap some ((cut-append (length (p ++ replicate 16 0) - 16) p (replicate 16 0) (inl size)).0)
  where
    size : length p ≡ length (p ++ replicate 16 0) - 16
    size = omega (arith, length-append p (replicate 16 0))

abbrev plain : Aead
plain = record {
  seal = λ k n a p. p ++ replicate 16 0;
  unseal = λ k n a c. cut c;
  unseal-seal = λ k n a p. cut-seal p;
  length-seal = λ k n a p. length-append p (replicate 16 0);
}

abbrev first_of : List ℕ → ℕ
first_of [] = 0
first_of (x ∷ xs) = x

abbrev sums : Dh
sums = record {
  public_key = λ a. length a ∷ replicate 31 0;
  shared_secret = λ a p. (length a + first_of p) ∷ [];
  length-public_key = λ a. refl;
}

abbrev left : Keypair
left = from_secret sums (1 ∷ [])

abbrev right : Keypair
right = from_secret sums (2 ∷ 2 ∷ [])

abbrev left_peer : Peer
left_peer = record {
  overlay_ip = ipv4 100 88 0 2;
  public_key = left.public;
  name = [];
  endpoint = none;
  advertised = [];
  tags = [];
}

abbrev relay : SocketAddr
relay = SocketAddr.v4 (ipv4 1 2 3 4) 51820

abbrev config : Config
config = record {
  peers = record { by_ip = (ipv4 100 88 0 2, left_peer) ∷ [] };
  kp = right;
  my_ip = ipv4 100 88 0 3;
  relay = relay;
  acl = none;
}

abbrev session : Session
session = new_session (record { send = []; recv = [] })

abbrev table : Table
table = (ipv4 100 88 0 2, record no_state { session = some session }) ∷ []

abbrev frame_of : FrameKind → List ℕ → Frame
frame_of kind payload = record {
  kind = kind;
  dest = ipv4 100 88 0 3;
  src = ipv4 100 88 0 2;
  payload = payload;
}

-- The packet with counter 0 of the plaintext 5
abbrev packet : List ℕ
packet = replicate 8 0 ++ (5 ∷ replicate 16 0)

on_frame-other_example :
    get
      (ipv4 100 88 0 9)
      (on_frame plain sums config table 0 none (frame_of payload_data packet) relay).table
    ≡ get (ipv4 100 88 0 9) table
on_frame-other_example =
    on_frame-other plain sums config table 0 none (frame_of payload_data packet) relay
      (ipv4 100 88 0 9) (omega arith)

packet-written :
    In
      (5 ∷ [])
      (on_frame plain sums config table 0 none (frame_of payload_data packet) relay).written
unfolding on_frame on_data confirm_path decrypt new_session
packet-written = here refl

on_frame-written_example :
    (sess : Session) × (session_of (ipv4 100 88 0 2) table ≡ some sess)
    × ((decrypt plain sess packet).0 ≡ some (5 ∷ []))
on_frame-written_example =
    on_frame-written plain sums config table 0 none (frame_of payload_data packet) relay (5 ∷ [])
      packet-written

abbrev ip_packet : List ℕ
ip_packet = 0x45 ∷ (replicate 15 0 ++ (100 ∷ 88 ∷ 0 ∷ 2 ∷ []))

on_packet-Handed_example :
    (on_packet plain sums config table 0 none ip_packet ≡ nothing table
      × ((peer : Peer) → IsPermitted plain sums config table 0 none ip_packet peer → ⊥))
    ⊎ ((peer : Peer) × IsPermitted plain sums config table 0 none ip_packet peer
        × Handed plain sums config table 0 none ip_packet peer
            (on_packet plain sums config table 0 none ip_packet)
        × ((on_packet plain sums config table 0 none ip_packet).written ≡ [])
        × ((ip : Ipv4Addr)
            → ip ≢ peer.overlay_ip
            → get ip (on_packet plain sums config table 0 none ip_packet).table ≡ get ip table))
on_packet-Handed_example = on_packet-Handed plain sums config table 0 none ip_packet

on_data-session_of_example :
    ((session_of
          (ipv4 100 88 0 2)
          (on_data plain sums config table 0 (some (3 ∷ [])) (frame_of payload_data []) relay).table
        ≡ none)
      × ((decrypt plain session []).0 ≡ none)
      × Restarts plain sums config table 0 (some (3 ∷ [])) (frame_of payload_data []))
    ⊎ ((session_of
            (ipv4 100 88 0 2)
            (on_data plain sums config table 0
              (some (3 ∷ []))
              (frame_of payload_data [])
              relay).table
          ≡ some (decrypt plain session []).1)
        × ((decrypt plain session []).0 ≡ none
            → Restarts plain sums config table 0 (some (3 ∷ [])) (frame_of payload_data [])
            → ⊥))
on_data-session_of_example =
    on_data-session_of plain sums config table 0 (some (3 ∷ [])) (frame_of payload_data []) relay
      session refl

abbrev msg1 : List ℕ
msg1 = (initiate plain sums left right.public (3 ∷ 3 ∷ 3 ∷ [])).1

abbrev accepted_session : Option (Ipv4Addr × Session × Frame) → Session
accepted_session none = session
accepted_session (some r) = r.1

abbrev accepted_reply : Option (Ipv4Addr × Session × Frame) → Frame
accepted_reply none = frame_of payload_data []
accepted_reply (some r) = r.2

abbrev accepted : Option (Ipv4Addr × Session × Frame)
accepted = accept_handshake plain sums config (some (4 ∷ [])) (frame_of handshake_init msg1)

msg1-accepted :
    accepted ≡ some (ipv4 100 88 0 2, accepted_session accepted, accepted_reply accepted)
unfolding accept_handshake initiate respond respond_static reply new_frame
msg1-accepted = refl

accept_handshake-known_example :
    (e : List ℕ) × (keys : TransportKeys) × (msg2 : List ℕ) × (peer : Peer) × (ipv4 100 88 0 2
      ≡ ipv4 100 88 0 2)
    × (lookup config.peers (ipv4 100 88 0 2) ≡ some peer)
    × (respond plain sums config.kp e msg1 ≡ some (keys, msg2, peer.public_key))
    × (accepted_session accepted ≡ new_session keys)
accept_handshake-known_example =
    accept_handshake-known plain sums config (some (4 ∷ [])) (frame_of handshake_init msg1)
      (ipv4 100 88 0 2) (accepted_session accepted) (accepted_reply accepted) msg1-accepted
