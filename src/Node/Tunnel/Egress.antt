-- ===== src/Node/Tunnel/Egress.antt =====
-- crates/akurai-node/src/tunnel.rs: which packets leave a node, and as what.
use akur_ai_vpn.Base.{
  ◌≡◌, ◌≢◌, refl, sym, subst, ap, ◌∙◌, ◌⊎◌, inl, inr, Option-cases, Bool-cases, ℕ, true, false,
  List, [], ◌∷◌, Option, none, some, ◌>>=◌, IpAddr, Ipv4Addr, SocketAddr,
}
use akur_ai_vpn.Base.Eq.{nat_eq, list_eq}
use akur_ai_vpn.Base.Maps.{get, insert, get-insert_self}
use akur_ai_vpn.Common.Frame.{payload_data, handshake_init, new as new_frame}
use akur_ai_vpn.Transport.Aead.{Aead}
use akur_ai_vpn.Transport.Noise.{Dh, Initiator, initiate}
use akur_ai_vpn.Transport.Session.{Session, encrypt}
use akur_ai_vpn.Node.Paths.{PeerState, handshake_paths}
use akur_ai_vpn.Node.Peers.{Peer, route_to_ip}
use akur_ai_vpn.Node.Tunnel.{
  Table, Config, Pass, nothing, may_start, or_default, entry, send_frame, start_handshake,
}
use akur_ai_vpn.Node.Tunnel.Outbound.{dest_of, is_permitted, send_to, on_paths, to_peer, on_packet}
use akur_ai_vpn.Node.Tunnel.Ingress.{get-insert_other}
use akur_ai_vpn.Node.Tunnel.Sessions.{session_of, session_of-entry, session_of-insert}

paths-pending :
    (st : PeerState) (relay : SocketAddr) (advertised : Option SocketAddr)
    (pending : Option (Initiator × ℕ))
    → ((handshake_paths (record st { pending = pending }) relay advertised).0
        ≡ (handshake_paths st relay advertised).0)
      × ((handshake_paths (record st { pending = pending }) relay advertised).1.pending ≡ pending)
unfolding handshake_paths
paths-pending st relay advertised pending = elim (Option-cases st.direct) [
  | inl n ↦ rw n (refl, refl)
  | inr (a, d) ↦ rw d (refl, refl)
]

-- The first message of a handshake, and what is kept of it.
greeting :
    (aead : Aead) (dh : Dh) (cfg : Config) (peer : Peer) (now : ℕ) (e : List ℕ) (st : PeerState)
    → let o =
        on_paths aead dh cfg.relay peer.endpoint
          (start_handshake aead dh cfg peer.overlay_ip peer.public_key now e st) in
      (o.0
        ≡ send_frame
            (new_frame handshake_init cfg.my_ip peer.overlay_ip
              (initiate aead dh cfg.kp peer.public_key e).1)
            (handshake_paths st cfg.relay peer.endpoint).0)
      × (o.1.pending ≡ some ((initiate aead dh cfg.kp peer.public_key e).0, now))
unfolding start_handshake
greeting aead dh cfg peer now e st =
    elim (Option-cases (
      new_frame handshake_init cfg.my_ip peer.overlay_ip
        (initiate aead dh cfg.kp peer.public_key e).1)) [
          | inl n ↦ rw n (refl, refl)
          | inr (f, made) ↦
              let (same, kept) =
                paths-pending st cfg.relay peer.endpoint
                  (some ((initiate aead dh cfg.kp peer.public_key e).0, now)) in
              rw made (ap (send_frame (some f)) same, kept)
        ]

module _ (aead : Aead) (dh : Dh) (cfg : Config) (t : Table) (now : ℕ) (eph : Option (List ℕ))
    (pkt : List ℕ) where
  -- What a packet becomes that is for a peer: with a session, the frame that carries its encryption, to
  -- the relay, and the session advanced; without one, the first message of a new handshake, on the paths
  -- of the peer, and the handshake pending; and nothing while an earlier handshake is fresh or the system
  -- gives no entropy.
  pub data Handed (peer : Peer) (q : Pass) : Type 0 where
    encrypted :
        (sess : Session)
        → session_of peer.overlay_ip t ≡ some sess
        → q.sent
          ≡ send_frame
              (new_frame payload_data cfg.my_ip peer.overlay_ip (encrypt aead sess pkt).0)
              (cfg.relay ∷ [])
        → session_of peer.overlay_ip q.table ≡ some (encrypt aead sess pkt).1
        → Handed peer q
    greeted :
        (e : List ℕ)
        → session_of peer.overlay_ip t ≡ none
        → eph ≡ some e
        → may_start (entry peer.overlay_ip t).pending now ≡ true
        → q.sent
          ≡ send_frame
              (new_frame handshake_init cfg.my_ip peer.overlay_ip
                (initiate aead dh cfg.kp peer.public_key e).1)
              (handshake_paths (entry peer.overlay_ip t) cfg.relay peer.endpoint).0
        → (entry peer.overlay_ip q.table).pending
          ≡ some ((initiate aead dh cfg.kp peer.public_key e).0, now)
        → Handed peer q
    waiting :
        session_of peer.overlay_ip t ≡ none
        → (eph ≡ none) ⊎ (may_start (entry peer.overlay_ip t).pending now ≡ false)
        → q.sent ≡ []
        → session_of peer.overlay_ip q.table ≡ none
        → Handed peer q

  -- What leaves for a peer, and its state afterwards.
  abbrev outcome : Peer → List (List ℕ × SocketAddr) × PeerState
  outcome peer =
      let st = entry peer.overlay_ip t in send_to aead dh cfg peer now eph pkt st st.session

  -- The pass of a peer that is permitted.
  abbrev pass_to : Peer → Pass
  pass_to peer = record {
    table = insert peer.overlay_ip (outcome peer).1 t;
    sent = (outcome peer).0;
    written = [];
  }

  outcome-waiting :
      (peer : Peer)
      → (entry peer.overlay_ip t).session ≡ none
      → (eph ≡ none) ⊎ (may_start (entry peer.overlay_ip t).pending now ≡ false)
      → outcome peer ≡ ([], entry peer.overlay_ip t)
  outcome-waiting peer n (inl e) = rw (n, e) refl
  outcome-waiting peer n (inr m) = elim (Option-cases eph) [
    | inl e ↦ rw (n, e) refl
    | inr (e, h) ↦ rw (n, h, m) refl
  ]

  outcome-greeted :
      (peer : Peer) (e : List ℕ)
      → (entry peer.overlay_ip t).session ≡ none
      → eph ≡ some e
      → may_start (entry peer.overlay_ip t).pending now ≡ true
      → outcome peer
        ≡ on_paths aead dh cfg.relay peer.endpoint (
            start_handshake aead dh cfg peer.overlay_ip peer.public_key now e
              (entry peer.overlay_ip t))
  outcome-greeted peer e n h m = rw (n, h, m) refl

  waiting-Handed :
      (peer : Peer)
      → (entry peer.overlay_ip t).session ≡ none
      → (eph ≡ none) ⊎ (may_start (entry peer.overlay_ip t).pending now ≡ false)
      → Handed peer (pass_to peer)
  waiting-Handed peer n w =
      waiting (sym (session_of-entry peer.overlay_ip t) ∙ n) w
        (ap (λ (o : List (List ℕ × SocketAddr) × PeerState). o.0) (outcome-waiting peer n w))
        (session_of-insert peer.overlay_ip _ t
          ∙ ap (λ (o : List (List ℕ × SocketAddr) × PeerState). o.1.session)
              (outcome-waiting peer n w)
          ∙ n)

  greeted-Handed :
      (peer : Peer) (e : List ℕ)
      → (entry peer.overlay_ip t).session ≡ none
      → eph ≡ some e
      → may_start (entry peer.overlay_ip t).pending now ≡ true
      → Handed peer (pass_to peer)
  greeted-Handed peer e n h m =
      let (sent, kept) = greeting aead dh cfg peer now e (entry peer.overlay_ip t) in
      greeted e (sym (session_of-entry peer.overlay_ip t) ∙ n) h m
        (ap (λ (o : List (List ℕ × SocketAddr) × PeerState). o.0) (outcome-greeted peer e n h m)
          ∙ sent)
        (ap (λ (o : Option PeerState). (or_default o).pending) (get-insert_self peer.overlay_ip _ t)
          ∙ ap (λ (o : List (List ℕ × SocketAddr) × PeerState). o.1.pending)
              (outcome-greeted peer e n h m)
          ∙ kept)

  pass_to-Handed : (peer : Peer) → Handed peer (pass_to peer)
  pass_to-Handed peer = elim (Option-cases (entry peer.overlay_ip t).session) [
    | inr (sess, e) ↦
        encrypted sess (sym (session_of-entry peer.overlay_ip t) ∙ e) (rw e refl)
          (session_of-insert peer.overlay_ip _ t ∙ rw e refl)
    | inl n ↦ elim (Option-cases eph) [
      | inl e ↦ waiting-Handed peer n (inl e)
      | inr (e, h) ↦ elim (Bool-cases (may_start (entry peer.overlay_ip t).pending now)) [
        | inl m ↦ greeted-Handed peer e n h m
        | inr m ↦ waiting-Handed peer n (inr m)
      ]
    ]
  ]

  -- The peer that a packet may go to.
  abbrev pub IsPermitted : Peer → Type 0
  IsPermitted peer =
      (dest : IpAddr) × (dest_of pkt ≡ some dest)
      × (route_to_ip cfg.peers dest ≡ some peer)
      × (is_permitted cfg.acl peer ≡ true)

  -- A packet is dropped, with nothing sent and no state kept, exactly where its destination is routed to
  -- no peer that the access list permits. Any other is handed to the peer that it is routed to, as the
  -- frame, the handshake or the wait of `Handed`; nothing is written to the TUN, and what the node keeps
  -- of the other peers stays.
  pub on_packet-Handed :
      (on_packet aead dh cfg t now eph pkt ≡ nothing t × ((peer : Peer) → IsPermitted peer → ⊥))
      ⊎ ((peer : Peer) × IsPermitted peer
          × Handed peer (on_packet aead dh cfg t now eph pkt)
          × ((on_packet aead dh cfg t now eph pkt).written ≡ [])
          × ((ip : Ipv4Addr)
              → ip ≢ peer.overlay_ip
              → get ip (on_packet aead dh cfg t now eph pkt).table ≡ get ip t))
  unfolding on_packet
  on_packet-Handed = elim (Option-cases (dest_of pkt)) [
    | inl e ↦ inl (rw e refl, λ peer (dest, d, to, ok). cc (e, d))
    | inr (dest, e) ↦ elim (Option-cases (route_to_ip cfg.peers dest)) [
      | inl none_to ↦ inl (rw (e, none_to) refl, λ peer (dest', d, to, ok). cc (e, d, none_to, to))
      | inr (peer, to) ↦ elim (Bool-cases (is_permitted cfg.acl peer)) [
        | inl ok ↦ inr (
          peer,
          (dest, e, to, ok),
          subst (Handed peer) (passed e to ok) (pass_to-Handed peer),
          ap (λ (q : Pass). q.written) (sym (passed e to ok)),
          λ ip ne.
              ap (λ (q : Pass). get ip q.table) (sym (passed e to ok))
              ∙ get-insert_other ip peer.overlay_ip _ t ne,
        )
        | inr denied ↦
            inl
              (rw (e, to, denied) refl, λ peer' (dest', d, to', ok). cc (e, d, to, to', denied, ok))
      ]
    ]
  ]
    where
      passed :
          {dest : IpAddr} {peer : Peer}
          → dest_of pkt ≡ some dest
          → route_to_ip cfg.peers dest ≡ some peer
          → is_permitted cfg.acl peer ≡ true
          → pass_to peer ≡ to_peer aead dh cfg t now eph pkt (dest_of pkt >>= route_to_ip cfg.peers)
      passed e to ok = rw (e, to, ok) refl
