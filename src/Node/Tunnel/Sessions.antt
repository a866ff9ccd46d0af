-- ===== src/Node/Tunnel/Sessions.antt =====
-- crates/akurai-node/src/tunnel.rs: what becomes of a peer's session, and what is read with it.
use akur_ai_vpn.Base.{
  subst, ◌≡◌, refl, ◌⊎◌, inl, inr, Option-cases, Bool-cases, sym, ap, ◌∙◌, In, here, there, ℕ, true,
  not, ◌&&◌, List, [], Option, none, some, Ipv4Addr, SocketAddr,
}
use akur_ai_vpn.Base.Eq.{nat_eq, list_eq}
use akur_ai_vpn.Base.Maps.{get, insert}
use akur_ai_vpn.Base.Net.{socket_beq}
use akur_ai_vpn.Common.Frame.{
  Frame, FrameKind, keepalive, handshake_init, handshake_resp, payload_data, peer_addr,
}
use akur_ai_vpn.Transport.Aead.{Aead}
use akur_ai_vpn.Transport.Noise.{Dh, Initiator}
use akur_ai_vpn.Transport.Session.{Session, decrypt}
use akur_ai_vpn.Node.Paths.{PeerState, parse_addr}
use akur_ai_vpn.Node.Peers.{Peer, lookup}
use akur_ai_vpn.Node.Tunnel.{Table, Config, or_default, may_start, entry, is_known, is_hint}
use akur_ai_vpn.Node.Tunnel.Inbound.{
  accept_handshake, confirm_path, on_peer_addr, on_handshake_init, on_handshake_resp, recover,
  deliver, decrypt_in, by_kind, on_data, on_frame,
}
use akur_ai_vpn.Base.Maps.{get-insert_self}

abbrev session_in : Option PeerState → Option Session
session_in none = none
session_in (some st) = st.session

-- The session that the table holds for an address.
abbrev pub session_of : Ipv4Addr → Table → Option Session
session_of ip t = session_in (get ip t)

pub session_of-entry : (ip : Ipv4Addr) (t : Table) → (entry ip t).session ≡ session_of ip t
session_of-entry ip t = elim (Option-cases (get ip t)) [
  | inl e ↦ rw e refl
  | inr (st, e) ↦ rw e refl
]

pub session_of-insert :
    (ip : Ipv4Addr) (st : PeerState) (t : Table) → session_of ip (insert ip st t) ≡ st.session
session_of-insert ip st t = ap session_in (get-insert_self ip st t)

not-In_empty : {A : Type 0} {a : A} {xs : List A} → xs ≡ [] → In a xs → ⊥
not-In_empty {a = a} e m = elim (subst (In a) e m) [ ]

module _ (aead : Aead) (dh : Dh) where
  session_of-confirm_path :
      (cfg : Config) (t : Table) (frame : Frame) (from : SocketAddr)
      → session_of frame.src (confirm_path aead dh cfg t frame from) ≡ session_of frame.src t
  unfolding confirm_path
  session_of-confirm_path cfg t frame from =
      elim (Bool-cases (
        not (socket_beq from cfg.relay)
        && not (is_hint frame.kind)
        && is_known (lookup cfg.peers frame.src))) [
          | inl c ↦ rw c (session_of-insert frame.src _ t ∙ session_of-entry frame.src t)
          | inr c ↦ rw c refl
        ]

  -- What decrypting in place gives, by the session that the table holds.
  decrypt_in-none :
      (t : Table) (frame : Frame)
      → session_of frame.src t ≡ none
      → decrypt_in aead dh t frame (get frame.src t) ≡ (none, t)
  decrypt_in-none t frame h = elim (Option-cases (get frame.src t)) [
    | inl e ↦ rw e refl
    | inr (st, e) ↦ rw (e, sym (ap session_in e) ∙ h) refl
  ]

  decrypt_in-some :
      (t : Table) (frame : Frame) (sess : Session)
      → session_of frame.src t ≡ some sess
      → (decrypt_in aead dh t frame (get frame.src t)).0 ≡ (decrypt aead sess frame.payload).0
  decrypt_in-some t frame sess h = elim (Option-cases (get frame.src t)) [
    | inl e ↦ cc (h, ap session_in e)
    | inr (st, e) ↦ rw (e, sym (ap session_in e) ∙ h) refl
  ]

  recover-written :
      (cfg : Config) (t : Table) (now : ℕ) (eph : Option (List ℕ)) (frame : Frame)
      (from : SocketAddr)
      → (recover aead dh cfg t now eph frame from).written ≡ []
  unfolding recover
  recover-written cfg t now none frame from = elim (Option-cases (lookup cfg.peers frame.src)) [
    | inl u ↦ rw u refl
    | inr (peer, k) ↦ rw k refl
  ]
  recover-written cfg t now (some eph) frame from =
      elim (Option-cases (lookup cfg.peers frame.src)) [
        | inl u ↦ rw u refl
        | inr (peer, k) ↦ elim (Bool-cases (may_start (entry frame.src t).pending now)) [
          | inl c ↦ rw (k, c) refl
          | inr c ↦ rw (k, c) refl
        ]
      ]

  on_peer_addr-written :
      (cfg : Config) (t : Table) (frame : Frame) → (on_peer_addr aead dh cfg t frame).written ≡ []
  unfolding on_peer_addr
  on_peer_addr-written cfg t frame = elim (Option-cases (parse_addr frame.payload)) [
    | inl e ↦ rw e refl
    | inr (a, e) ↦ elim (Bool-cases (is_known (lookup cfg.peers frame.src))) [
      | inl k ↦ rw (e, k) refl
      | inr u ↦ rw (e, u) refl
    ]
  ]

  on_handshake_init-written :
      (cfg : Config) (t : Table) (eph : Option (List ℕ)) (frame : Frame) (from : SocketAddr)
      → (on_handshake_init aead dh cfg t eph frame from).written ≡ []
  unfolding on_handshake_init
  on_handshake_init-written cfg t eph frame from =
      elim (Option-cases (accept_handshake aead dh cfg eph frame)) [
        | inl e ↦ rw e refl
        | inr (r, e) ↦ rw e refl
      ]

  on_handshake_resp-written :
      (t : Table) (frame : Frame) → (on_handshake_resp aead dh t frame).written ≡ []
  unfolding on_handshake_resp
  on_handshake_resp-written t frame = refl

  -- What the arm for data writes, by the session that the table holds.
  on_data-written :
      (cfg : Config) (t : Table) (now : ℕ) (eph : Option (List ℕ)) (frame : Frame)
      (from : SocketAddr) (pt : List ℕ)
      → In pt (on_data aead dh cfg t now eph frame from).written
      → (decrypt_in aead dh t frame (get frame.src t)).0 ≡ some pt
  unfolding on_data
  on_data-written cfg t now eph frame from pt m =
      by_plaintext (decrypt_in aead dh t frame (get frame.src t)).0
        (decrypt_in aead dh t frame (get frame.src t)).1 m
    where
      by_plaintext :
          (p : Option (List ℕ)) (t : Table)
          → In pt (deliver aead dh cfg t now eph frame from p).written
          → p ≡ some pt
      by_plaintext none t m = absurd (not-In_empty (recover-written cfg t now eph frame from) m)
      by_plaintext (some p) t (here e) = ap some (sym e)
      by_plaintext (some p) t (there m) = elim m [ ]

  decrypted_by :
      (t : Table) (frame : Frame) (pt : List ℕ)
      → (decrypt_in aead dh t frame (get frame.src t)).0 ≡ some pt
      → (sess : Session) × (session_of frame.src t ≡ some sess)
        × ((decrypt aead sess frame.payload).0 ≡ some pt)
  decrypted_by t frame pt h = elim (Option-cases (session_of frame.src t)) [
    | inl e ↦ cc (h, decrypt_in-none t frame e)
    | inr (sess, e) ↦ (sess, e, sym (decrypt_in-some t frame sess e) ∙ h)
  ]

  -- A packet is written to the TUN only if the session that the table holds for the frame's sender
  -- decrypts the frame to it.
  pub on_frame-written :
      (cfg : Config) (t : Table) (now : ℕ) (eph : Option (List ℕ)) (frame : Frame)
      (from : SocketAddr) (pt : List ℕ)
      → In pt (on_frame aead dh cfg t now eph frame from).written
      → (sess : Session) × (session_of frame.src t ≡ some sess)
        × ((decrypt aead sess frame.payload).0 ≡ some pt)
  unfolding on_frame
  on_frame-written cfg t now eph frame from pt m =
      let t' = confirm_path aead dh cfg t frame from in
      let (sess, e, h) = decrypted_by t' frame pt (by_arm t' frame.kind m) in
      (sess, sym (session_of-confirm_path cfg t frame from) ∙ e, h)
    where
      by_arm :
          (t : Table) (k : FrameKind)
          → In pt (by_kind aead dh cfg t now eph frame from k).written
          → (decrypt_in aead dh t frame (get frame.src t)).0 ≡ some pt
      by_arm t payload_data m = on_data-written cfg t now eph frame from pt m
      by_arm t keepalive m = elim m [ ]
      by_arm t handshake_init m =
          absurd (not-In_empty (on_handshake_init-written cfg t eph frame from) m)
      by_arm t handshake_resp m = absurd (not-In_empty (on_handshake_resp-written t frame) m)
      by_arm t peer_addr m = absurd (not-In_empty (on_peer_addr-written cfg t frame) m)

  -- What starts a new handshake for a frame that was not decrypted: its sender is a peer, the system gives
  -- entropy, and no fresh handshake is under way.
  abbrev pub Restarts : Config → Table → ℕ → Option (List ℕ) → Frame → Type 0
  Restarts cfg t now eph frame =
      ((peer : Peer) × (lookup cfg.peers frame.src ≡ some peer))
      × ((e : List ℕ) × (eph ≡ some e))
      × (may_start (entry frame.src t).pending now ≡ true)

  recover-session_of :
      (cfg : Config) (t : Table) (now : ℕ) (eph : Option (List ℕ)) (frame : Frame)
      (from : SocketAddr)
      → ((session_of frame.src (recover aead dh cfg t now eph frame from).table ≡ none)
          × Restarts cfg t now eph frame)
        ⊎ ((session_of frame.src (recover aead dh cfg t now eph frame from).table
              ≡ session_of frame.src t)
            × (Restarts cfg t now eph frame → ⊥))
  unfolding recover
  recover-session_of cfg t now eph frame from = elim (Option-cases (lookup cfg.peers frame.src)) [
    | inl u ↦ inr (rw u refl, λ r. cc (u, r.0.1))
    | inr (peer, k) ↦ elim (Option-cases eph) [
      | inl u ↦ inr (rw (k, u) refl, λ r. cc (u, r.1.1))
      | inr (e, h) ↦ elim (Bool-cases (may_start (entry frame.src t).pending now)) [
        | inl c ↦ inl (rw (k, h, c) (session_of-insert frame.src _ t), ((peer, k), (e, h), c))
        | inr c ↦ inr (
          rw (k, h, c)
              (session_of-insert frame.src (entry frame.src t) t ∙ session_of-entry frame.src t),
          λ r. cc (c, r.2),
        )
      ]
    ]
  ]

  state_of :
      (ip : Ipv4Addr) (t : Table) (sess : Session)
      → session_of ip t ≡ some sess
      → (st : PeerState) × (get ip t ≡ some st) × (st.session ≡ some sess)
  state_of ip t sess h = elim (Option-cases (get ip t)) [
    | inl e ↦ cc (h, ap session_in e)
    | inr (st, e) ↦ (st, e, sym (ap session_in e) ∙ h)
  ]

  -- The table after a session has decrypted in place.
  abbrev advanced : Table → Frame → PeerState → Session → Table
  advanced t frame st sess =
      insert frame.src (record st { session = some (decrypt aead sess frame.payload).1 }) t

  delivered :
      (cfg : Config) (t : Table) (now : ℕ) (eph : Option (List ℕ)) (frame : Frame)
      (from : SocketAddr) (sess : Session) (st : PeerState)
      → get frame.src t ≡ some st
      → st.session ≡ some sess
      → on_data aead dh cfg t now eph frame from
        ≡ deliver aead dh cfg
            (advanced t frame st sess)
            now
            eph
            frame
            from
            (decrypt aead sess frame.payload).0
  unfolding on_data
  delivered cfg t now eph frame from sess st e h = rw (e, h) refl

  advanced-pending :
      (t : Table) (frame : Frame) (st : PeerState) (sess : Session)
      → get frame.src t ≡ some st
      → (entry frame.src (advanced t frame st sess)).pending ≡ (entry frame.src t).pending
  advanced-pending t frame st sess e =
      ap (λ (o : Option PeerState). (or_default o).pending) (get-insert_self frame.src _ t)
      ∙ sym (ap (λ (o : Option PeerState). (or_default o).pending) e)

  -- What a data frame leaves of the session that is held for its sender. The session ends if it does not
  -- decrypt the frame, the sender is a peer, the system gives entropy, and no fresh handshake is under
  -- way, whoever sent the frame; and in no other case, where it is the session behind the attempt to
  -- decrypt.
  pub on_data-session_of :
      (cfg : Config) (t : Table) (now : ℕ) (eph : Option (List ℕ)) (frame : Frame)
      (from : SocketAddr) (sess : Session)
      → session_of frame.src t ≡ some sess
      → ((session_of frame.src (on_data aead dh cfg t now eph frame from).table ≡ none)
          × ((decrypt aead sess frame.payload).0 ≡ none)
          × Restarts cfg t now eph frame)
        ⊎ ((session_of frame.src (on_data aead dh cfg t now eph frame from).table
              ≡ some (decrypt aead sess frame.payload).1)
            × ((decrypt aead sess frame.payload).0 ≡ none → Restarts cfg t now eph frame → ⊥))
  on_data-session_of cfg t now eph frame from sess has =
      let (st, e, h) = state_of frame.src t sess has in
      rw (delivered cfg t now eph frame from sess st e h)
        (elim (Option-cases (decrypt aead sess frame.payload).0) [
          | inr (p, d) ↦ inr (rw d (session_of-insert frame.src _ t), λ n r. cc (n, d))
          | inl d ↦ elim (recover-session_of cfg (advanced t frame st sess) now eph frame from) [
            | inl (ends, (k, g, c)) ↦ inl (rw d ends, d, (k, g, moved st e ∙ c))
            | inr (stays, never) ↦ inr (
              rw d (stays ∙ session_of-insert frame.src _ t),
              λ n (k, g, c). never (k, g, sym (moved st e) ∙ c),
            )
          ]
        ])
    where
      moved :
          (st : PeerState)
          → get frame.src t ≡ some st
          → may_start (entry frame.src t).pending now
            ≡ may_start (entry frame.src (advanced t frame st sess)).pending now
      moved st e =
          ap (λ (p : Option (Initiator × ℕ)). may_start p now)
            (sym (advanced-pending t frame st sess e))
