-- ===== src/Transport/Session/Replay.antt =====
-- crates/akurai-transport/src/session.rs: `decrypt` against a receiver that remembers everything.
use akur_ai_vpn.Base.{
  ℕ, ◌≡◌, refl, ap, ap₂, subst, sym, ◌∙◌, inl, inr, true, false, not, List, [], ◌∷◌, Option, none,
  some, arith, ltb, if◌then◌else◌, Bool-cases, length, drop,
}
use akur_ai_vpn.Transport.Aead.{Aead}
use akur_ai_vpn.Transport.Session.{
  TransportKeys, Session, new, nonce, hopeless, counter_of, slide, authenticated, decrypt,
  decrypt_all,
}
use akur_ai_vpn.Transport.Session.Window.{Agrees, slide-Refines, fresh, seen_before}

pub new-Agrees : (keys : TransportKeys) → Agrees (new keys) []
unfolding new
new-Agrees keys = record { unstarted = λ h. refl; top = λ h. cc; marks = λ c h. cc }

hopeless-not_fresh :
    (s : Session) (seen : List ℕ) (c : ℕ)
    → Agrees s seen
    → hopeless s c ≡ true
    → fresh seen c ≡ false
hopeless-not_fresh s seen c v h = elim (Bool-cases s.recv_started) [
  | inl e ↦ ground (arith, v.top e)
  | inr e ↦ cc
]

-- What the receiver does once the tag has been looked at.
unfoldable pub verdict : List ℕ → ℕ → Option (List ℕ) → Option (List ℕ) × List ℕ
verdict seen c o =
    if not (fresh seen c)
    then (none, seen)
    else elim o [ none ↦ (none, seen) | some plaintext ↦ (some plaintext, c ∷ seen) ]

verdict-keeps :
    (seen : List ℕ) (d c : ℕ) (o : Option (List ℕ))
    → seen_before c seen ≡ true
    → seen_before c (verdict seen d o).1 ≡ true
unfolding verdict
verdict-keeps seen d c none h = ground arith
verdict-keeps seen d c (some plaintext) h = ground arith

verdict-remembers :
    (seen : List ℕ) (c : ℕ) (o : Option (List ℕ)) {plaintext : List ℕ}
    → (verdict seen c o).0 ≡ some plaintext
    → seen_before c (verdict seen c o).1 ≡ true
unfolding verdict
verdict-remembers seen c none h = ground arith
verdict-remembers seen c (some p) h = ground arith

verdict-seen :
    (seen : List ℕ) (c : ℕ) (o : Option (List ℕ))
    → seen_before c seen ≡ true
    → (verdict seen c o).0 ≡ none
unfolding verdict
verdict-seen seen c o h = rw h

module _ (aead : Aead) (key : List ℕ) where
  -- The specification of one packet: authentic, and with a fresh counter.
  unfoldable pub receive : List ℕ → List ℕ → Option (List ℕ) × List ℕ
  unfolding nonce verdict
  receive seen packet =
      let c = counter_of packet in
      if ltb (length packet) 8
      then (none, seen)
      else verdict seen c (aead.unseal key (nonce c) [] (drop 8 packet))

  unfoldable pub receive_all : List ℕ → List (List ℕ) → List (Option (List ℕ)) × List ℕ
  unfolding receive
  receive_all seen [] = ([], seen)
  receive_all seen (p ∷ ps) =
      let (r, seen') = receive seen p in let (rs, seen'') = receive_all seen' ps in (r ∷ rs, seen'')

-- The results of both, and the states that they go on with.
pub record Matches {R : Type 0} (s : Session) (d : R × Session) (r : R × List ℕ) : Type 0 where
  pub same_result : d.0 ≡ r.0
  pub agrees : Agrees d.1 r.1
  pub same_key : d.1.recv_key ≡ s.recv_key

recv_key-slide : (s s' : Session) (c : ℕ) → slide s c ≡ some s' → s'.recv_key ≡ s.recv_key
unfolding slide
recv_key-slide s s' c h = ground arith

refused :
    (s : Session) (seen : List ℕ)
    → Agrees s seen
    → Matches {R = Option (List ℕ)} s (none, s) (none, seen)
refused s seen v = record { same_result = refl; agrees = v; same_key = refl }

authenticated-Matches :
    (s : Session) (seen : List ℕ) (c : ℕ) (o : Option (List ℕ)) (aead : Aead)
    → Agrees s seen
    → Matches s (authenticated aead s c o) (verdict seen c o)
unfolding authenticated verdict
authenticated-Matches s seen c none aead v = elim (Bool-cases (fresh seen c)) [
  | inl e ↦ rw e (refused s seen v)
  | inr e ↦ rw e (refused s seen v)
]
authenticated-Matches s seen c (some plaintext) aead v = elim (slide-Refines s seen c v) [
  | inl (e, f) ↦ rw (e, f, authenticated) (refused s seen v)
  | inr (s', e, f, w) ↦
      rw (e, f, authenticated)
        (record { same_result = refl; agrees = w; same_key = recv_key-slide s s' c e })
]

module _ (aead : Aead) where
  decrypt-Matches :
      (s : Session) (seen packet : List ℕ)
      → Agrees s seen
      → Matches s (decrypt aead s packet) (receive aead s.recv_key seen packet)
  unfolding decrypt receive
  decrypt-Matches s seen packet v = elim (Bool-cases (ltb (length packet) 8)) [
    | inl short ↦ rw short (refused s seen v)
    | inr long ↦ elim (Bool-cases (hopeless s (counter_of packet))) [
      | inl old ↦
          rw (long, old, hopeless-not_fresh s seen (counter_of packet) v old) (refused s seen v)
      | inr new ↦ rw (long, new) (authenticated-Matches s seen (counter_of packet) _ aead v)
    ]
  ]

  -- Over any sequence of packets a session that agrees with a set of counters seen returns
  -- exactly what the receiver returns that remembers every counter: a plaintext for an authentic
  -- packet with a fresh counter, and nothing otherwise. Afterwards the two still agree.
  pub decrypt_all-receive_all :
      (s : Session) (seen : List ℕ) (packets : List (List ℕ))
      → Agrees s seen
      → Matches s (decrypt_all aead s packets) (receive_all aead s.recv_key seen packets)
  unfolding decrypt_all receive_all
  decrypt_all-receive_all s seen [] v = record { same_result = refl; agrees = v; same_key = refl }
  decrypt_all-receive_all s seen (p ∷ ps) v =
      let m = decrypt-Matches s seen p v in
      let rest =
        decrypt_all-receive_all (decrypt aead s p).1 (receive aead s.recv_key seen p).1 ps
          m.agrees in
      record {
        same_result = ap₂ ◌∷◌ m.same_result (
            rest.same_result
            ∙ ap (λ (k : List ℕ). (receive_all aead k (receive aead s.recv_key seen p).1 ps).0)
                m.same_key);
        agrees =
            subst
              (λ k.
                Agrees (decrypt_all aead (decrypt aead s p).1 ps).1
                  (receive_all aead k (receive aead s.recv_key seen p).1 ps).1)
              m.same_key rest.agrees;
        same_key = rest.same_key ∙ m.same_key;
      }

  -- A counter that the receiver remembers is never taken again.
  pub receive-seen :
      (key seen packet : List ℕ)
      → seen_before (counter_of packet) seen ≡ true
      → (receive aead key seen packet).0 ≡ none
  unfolding receive
  receive-seen key seen packet h = elim (Bool-cases (ltb (length packet) 8)) [
    | inl e ↦ rw e
    | inr e ↦ rw e (verdict-seen seen (counter_of packet) _ h)
  ]

  receive-keeps :
      (key seen packet : List ℕ) (c : ℕ)
      → seen_before c seen ≡ true
      → seen_before c (receive aead key seen packet).1 ≡ true
  unfolding receive
  receive-keeps key seen packet c h = elim (Bool-cases (ltb (length packet) 8)) [
    | inl e ↦ rw e h
    | inr e ↦ rw e (verdict-keeps seen (counter_of packet) c _ h)
  ]

  receive_all-keeps :
      (key seen : List ℕ) (packets : List (List ℕ)) (c : ℕ)
      → seen_before c seen ≡ true
      → seen_before c (receive_all aead key seen packets).1 ≡ true
  unfolding receive_all
  receive_all-keeps key seen [] c h = h
  receive_all-keeps key seen (p ∷ ps) c h =
      receive_all-keeps key (receive aead key seen p).1 ps c (receive-keeps key seen p c h)

  receive-remembers :
      (key seen packet plaintext : List ℕ)
      → (receive aead key seen packet).0 ≡ some plaintext
      → seen_before (counter_of packet) (receive aead key seen packet).1 ≡ true
  unfolding receive
  receive-remembers key seen packet plaintext h = elim (Bool-cases (ltb (length packet) 8)) [
    | inl e ↦ cc (rw e at h)
    | inr e ↦ rw e (verdict-remembers seen (counter_of packet) _ (rw e at h))
  ]

  -- In a session that agrees with a set of counters seen: once a packet is accepted, no later
  -- packet with its counter is, whatever is received in between.
  pub no_replay :
      (s : Session) (seen : List ℕ) (first later : List ℕ) (between : List (List ℕ))
      (plaintext : List ℕ)
      → Agrees s seen
      → (decrypt aead s first).0 ≡ some plaintext
      → counter_of later ≡ counter_of first
      → (decrypt aead (decrypt_all aead (decrypt aead s first).1 between).1 later).0 ≡ none
  no_replay s seen first later between plaintext v h same =
      let m1 = decrypt-Matches s seen first v in
      let s1 = (decrypt aead s first).1 in
      let seen1 = (receive aead s.recv_key seen first).1 in
      let m2 = decrypt_all-receive_all s1 seen1 between m1.agrees in
      let s2 = (decrypt_all aead s1 between).1 in
      let seen2 = (receive_all aead s1.recv_key seen1 between).1 in
      let remembered = receive-remembers s.recv_key seen first plaintext (sym m1.same_result ∙ h) in
      let kept = receive_all-keeps s1.recv_key seen1 between (counter_of first) remembered in
      (decrypt-Matches s2 seen2 later m2.agrees).same_result
      ∙ receive-seen s2.recv_key seen2 later (rw same kept)
