-- ===== src/Node/Tunnel/Ingress.antt =====
-- crates/akurai-node/src/tunnel.rs: what a received frame changes, and what it delivers.
use akur_ai_vpn.Base.{
  ◌≡◌, refl, inl, inr, Option-cases, Bool-cases, arith, ◌≢◌, sym, ap, ◌∙◌, >>=-eq-some, ℕ, Bool,
  true, false, not, ◌&&◌, List, Option, none, some, if◌then◌else◌, Ipv4Addr, SocketAddr,
}
use akur_ai_vpn.Base.Eq.{nat_eq, list_eq, ◌===◌, ===_eq}
use akur_ai_vpn.Base.Maps.{get, insert, get-insert}
use akur_ai_vpn.Base.Net.{socket_beq}
use akur_ai_vpn.Common.Frame.{
  Frame, FrameKind, keepalive, handshake_init, handshake_resp, payload_data, peer_addr,
  new as new_frame,
}
use akur_ai_vpn.Transport.Aead.{Aead}
use akur_ai_vpn.Transport.Noise.{Dh, respond}
use akur_ai_vpn.Transport.Session.{TransportKeys, Session, new as new_session}
use akur_ai_vpn.Node.Paths.{PeerState, parse_addr}
use akur_ai_vpn.Node.Peers.{Peer, lookup}
use akur_ai_vpn.Node.Tunnel.{Table, Config, may_start, entry, is_known, is_hint}
use akur_ai_vpn.Node.Tunnel.Inbound.{
  accept_handshake, confirm_path, on_peer_addr, on_accepted, on_handshake_init, on_handshake_resp,
  recover, deliver, decrypt_in, by_kind, on_data, on_frame,
}

pub get-insert_other :
    (ip src : Ipv4Addr) (st : PeerState) (t : Table)
    → ip ≢ src
    → get ip (insert src st t) ≡ get ip t
get-insert_other ip src st t ne = ground (arith, get-insert src ip st t)

-- An `if` that gives nothing where its test fails has given something.
unless_none :
    {A : Type 0} {a : A} (b : Bool) (m : Option A)
    → (if not b then none else m) ≡ some a
    → (b ≡ true) × (m ≡ some a)
unless_none true m h = (refl, h)
unless_none false m h = cc

module _ (aead : Aead) (dh : Dh) where
  -- An accepted handshake is for the sender of the frame, whose key in the peer table is the one that
  -- the handshake proved.
  pub accept_handshake-known :
      (cfg : Config) (eph : Option (List ℕ)) (frame : Frame) (ip : Ipv4Addr) (session : Session)
      (reply : Frame)
      → accept_handshake aead dh cfg eph frame ≡ some (ip, session, reply)
      → (e : List ℕ) × (keys : TransportKeys) × (msg2 : List ℕ) × (peer : Peer) × (ip ≡ frame.src)
        × (lookup cfg.peers frame.src ≡ some peer)
        × (respond aead dh cfg.kp e frame.payload ≡ some (keys, msg2, peer.public_key))
        × (session ≡ new_session keys)
  unfolding accept_handshake
  accept_handshake-known cfg eph frame ip session reply h =
      let (e, _, h1) = >>=-eq-some eph _ h in
      let (r, answered, h2) = >>=-eq-some (respond aead dh cfg.kp e frame.payload) _ h1 in
      let (peer, known, h3) = >>=-eq-some (lookup cfg.peers frame.src) _ h2 in
      let (same, h4) = unless_none (peer.public_key === r.2) _ h3 in
      let (response, _, h5) = >>=-eq-some (new_frame handshake_resp cfg.my_ip frame.src r.1) _ h4 in
      let key : peer.public_key ≡ r.2 = ===_eq peer.public_key r.2 same in
      (
        e,
        r.0,
        r.1,
        peer,
        cc,
        known,
        answered ∙ ap (λ (k : List ℕ). some (r.0, r.1, k)) (sym key),
        cc,
      )

  on_accepted-other :
      (t : Table) (frame : Frame) (from : SocketAddr) (ip : Ipv4Addr)
      (r : Option (Ipv4Addr × Session × Frame))
      → ((peer_ip : Ipv4Addr) (s : Session) (f : Frame)
          → r ≡ some (peer_ip, s, f)
          → peer_ip ≡ frame.src)
      → ip ≢ frame.src
      → get ip (on_accepted aead dh t from r).table ≡ get ip t
  on_accepted-other t frame from ip none h ne = refl
  on_accepted-other t frame from ip (some (peer_ip, s, f)) h ne =
      get-insert_other ip peer_ip _ t (λ e. ne (e ∙ h peer_ip s f refl))

  on_handshake_init-other :
      (cfg : Config) (t : Table) (eph : Option (List ℕ)) (frame : Frame) (from : SocketAddr)
      (ip : Ipv4Addr)
      → ip ≢ frame.src
      → get ip (on_handshake_init aead dh cfg t eph frame from).table ≡ get ip t
  unfolding on_handshake_init
  on_handshake_init-other cfg t eph frame from ip ne =
      on_accepted-other t frame from ip (accept_handshake aead dh cfg eph frame)
        (λ p s f h.
          let (e, keys, msg2, peer, same, known, answered, made) =
            accept_handshake-known cfg eph frame p s f h in
          same)
        ne

  confirm_path-other :
      (cfg : Config) (t : Table) (frame : Frame) (from : SocketAddr) (ip : Ipv4Addr)
      → ip ≢ frame.src
      → get ip (confirm_path aead dh cfg t frame from) ≡ get ip t
  unfolding confirm_path
  confirm_path-other cfg t frame from ip ne =
      elim (Bool-cases (
        not (socket_beq from cfg.relay)
        && not (is_hint frame.kind)
        && is_known (lookup cfg.peers frame.src))) [
          | inl c ↦ rw c (get-insert_other ip frame.src _ t ne)
          | inr c ↦ rw c refl
        ]

  on_peer_addr-other :
      (cfg : Config) (t : Table) (frame : Frame) (ip : Ipv4Addr)
      → ip ≢ frame.src
      → get ip (on_peer_addr aead dh cfg t frame).table ≡ get ip t
  unfolding on_peer_addr
  on_peer_addr-other cfg t frame ip ne = elim (Option-cases (parse_addr frame.payload)) [
    | inl e ↦ rw e refl
    | inr (a, e) ↦ elim (Bool-cases (is_known (lookup cfg.peers frame.src))) [
      | inl k ↦ rw (e, k) (get-insert_other ip frame.src _ t ne)
      | inr u ↦ rw (e, u) refl
    ]
  ]

  recover-other :
      (cfg : Config) (t : Table) (now : ℕ) (eph : Option (List ℕ)) (frame : Frame)
      (from : SocketAddr) (ip : Ipv4Addr)
      → ip ≢ frame.src
      → get ip (recover aead dh cfg t now eph frame from).table ≡ get ip t
  unfolding recover
  recover-other cfg t now none frame from ip ne = elim (Option-cases (lookup cfg.peers frame.src)) [
    | inl u ↦ rw u refl
    | inr (peer, k) ↦ rw k refl
  ]
  recover-other cfg t now (some eph) frame from ip ne =
      elim (Option-cases (lookup cfg.peers frame.src)) [
        | inl u ↦ rw u refl
        | inr (peer, k) ↦ elim (Bool-cases (may_start (entry frame.src t).pending now)) [
          | inl c ↦ rw (k, c) (get-insert_other ip frame.src _ t ne)
          | inr c ↦ rw (k, c) (get-insert_other ip frame.src _ t ne)
        ]
      ]

  decrypt_in-other :
      (t : Table) (frame : Frame) (ip : Ipv4Addr) (st : Option PeerState)
      → ip ≢ frame.src
      → get ip (decrypt_in aead dh t frame st).1 ≡ get ip t
  decrypt_in-other t frame ip none ne = refl
  decrypt_in-other t frame ip (some st) ne = elim (Option-cases st.session) [
    | inl e ↦ rw e refl
    | inr (sess, e) ↦ rw e (get-insert_other ip frame.src _ t ne)
  ]

  deliver-other :
      (cfg : Config) (t : Table) (now : ℕ) (eph : Option (List ℕ)) (frame : Frame)
      (from : SocketAddr) (ip : Ipv4Addr) (p : Option (List ℕ))
      → ip ≢ frame.src
      → get ip (deliver aead dh cfg t now eph frame from p).table ≡ get ip t
  deliver-other cfg t now eph frame from ip none ne = recover-other cfg t now eph frame from ip ne
  deliver-other cfg t now eph frame from ip (some p) ne = refl

  on_data-other :
      (cfg : Config) (t : Table) (now : ℕ) (eph : Option (List ℕ)) (frame : Frame)
      (from : SocketAddr) (ip : Ipv4Addr)
      → ip ≢ frame.src
      → get ip (on_data aead dh cfg t now eph frame from).table ≡ get ip t
  unfolding on_data
  on_data-other cfg t now eph frame from ip ne =
      let d = decrypt_in aead dh t frame (get frame.src t) in
      deliver-other cfg d.1 now eph frame from ip d.0 ne
      ∙ decrypt_in-other t frame ip (get frame.src t) ne

  by_kind-other :
      (cfg : Config) (t : Table) (now : ℕ) (eph : Option (List ℕ)) (frame : Frame)
      (from : SocketAddr) (ip : Ipv4Addr) (k : FrameKind)
      → ip ≢ frame.src
      → get ip (by_kind aead dh cfg t now eph frame from k).table ≡ get ip t
  unfolding on_handshake_resp
  by_kind-other cfg t now eph frame from ip keepalive ne = refl
  by_kind-other cfg t now eph frame from ip handshake_init ne =
      on_handshake_init-other cfg t eph frame from ip ne
  by_kind-other cfg t now eph frame from ip handshake_resp ne = get-insert_other ip frame.src _ t ne
  by_kind-other cfg t now eph frame from ip payload_data ne =
      on_data-other cfg t now eph frame from ip ne
  by_kind-other cfg t now eph frame from ip peer_addr ne = on_peer_addr-other cfg t frame ip ne

  -- A frame changes the state of no peer but the one whose address it carries as its source.
  pub on_frame-other :
      (cfg : Config) (t : Table) (now : ℕ) (eph : Option (List ℕ)) (frame : Frame)
      (from : SocketAddr) (ip : Ipv4Addr)
      → ip ≢ frame.src
      → get ip (on_frame aead dh cfg t now eph frame from).table ≡ get ip t
  unfolding on_frame
  on_frame-other cfg t now eph frame from ip ne =
      by_kind-other cfg (confirm_path aead dh cfg t frame from) now eph frame from ip frame.kind ne
      ∙ confirm_path-other cfg t frame from ip ne
