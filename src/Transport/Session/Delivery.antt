-- ===== src/Transport/Session/Delivery.antt =====
-- crates/akurai-transport/src/session.rs: `encrypt` and `decrypt` against each other.
use akur_ai_vpn.Base.{
  ℕ, ◌+◌, ◌%◌, ◌^◌, ◌<◌, ◌≡◌, refl, ap, ap₂, sym, ◌∙◌, subst, ◌⊎◌, inl, inr, true, false, List, [],
  ◌∷◌, ◌++◌, map, Option, some, arith, ltb, length, u64_be,
}
use akur_ai_vpn.Transport.Aead.{Aead}
use akur_ai_vpn.Transport.Session.{
  TransportKeys, Session, new, nonce, counter_of, encrypt, decrypt_all,
}
use akur_ai_vpn.Transport.Session.Window.{fresh, highest, unseen_above}
use akur_ai_vpn.Transport.Session.Replay.{
  verdict, receive, receive_all, new-Agrees, decrypt_all-receive_all,
}

counter_of-written : (c : ℕ) (rest : List ℕ) → c < 2 ^ 64 → counter_of (u64_be c ++ rest) ≡ c
counter_of-written c rest h = omega arith

not_short : (c : ℕ) (rest : List ℕ) → ltb (length (u64_be c ++ rest)) 8 ≡ false
not_short c rest = ground arith

module _ (aead : Aead) where
  -- The packets that a session writes for a sequence of plaintexts, and the session after it.
  unfoldable pub encrypt_all : Session → List (List ℕ) → List (List ℕ) × Session
  unfolding encrypt
  encrypt_all s [] = ([], s)
  encrypt_all s (m ∷ ms) =
      let (p, s') = encrypt aead s m in let (ps, s'') = encrypt_all s' ms in (p ∷ ps, s'')

  abbrev packet : List ℕ → ℕ → List ℕ → List ℕ
  packet key c m = u64_be c ++ aead.seal key (nonce c) [] m

  -- The receiver takes a packet written under its key with a counter above all it has seen.
  receive-packet :
      (key seen m : List ℕ) (c : ℕ)
      → c < 2 ^ 64
      → fresh seen c ≡ true
      → receive aead key seen (packet key c m) ≡ (some m, c ∷ seen)
  unfolding receive
  receive-packet key seen m c h f = rw (
    counter_of-written c (aead.seal key (nonce c) [] m) h,
    aead.unseal-seal key (nonce c) [] m,
    verdict,
    f,
    not_short c (aead.seal key (nonce c) [] m),
    counter_of-written c (aead.seal key (nonce c) [] m) h,
  )

  -- Every counter seen lies below the next one.
  abbrev Behind : List ℕ → ℕ → Type 0
  Behind seen c = (seen ≡ []) ⊎ (highest seen < c)

  fresh-Behind : (seen : List ℕ) (c : ℕ) → Behind seen c → fresh seen c ≡ true
  fresh-Behind seen c (inl e) = rw e (ground arith)
  fresh-Behind seen c (inr h) = ground (arith, unseen_above c seen)

  Behind-next : (seen : List ℕ) (c : ℕ) → Behind seen c → Behind (c ∷ seen) (c + 1)
  Behind-next seen c (inl e) = rw e (inr (omega arith))
  Behind-next seen c (inr h) = inr (omega arith)

  next :
      (c : ℕ)
      → c + 1 < 2 ^ 64
      → (seen : List ℕ) → Behind seen c
      → Behind (c ∷ seen) ((c + 1) % 2 ^ 64)
  next c h seen v = subst (Behind (c ∷ seen)) (omega arith) (Behind-next seen c v)

  receive_all-encrypt_all :
      (s : Session) (seen : List ℕ) (ms : List (List ℕ))
      → s.send_counter + length ms < 2 ^ 64
      → Behind seen s.send_counter
      → (receive_all aead s.send_key seen (encrypt_all s ms).0).0 ≡ map some ms
  unfolding receive_all encrypt_all encrypt
  receive_all-encrypt_all s seen [] h v = refl
  receive_all-encrypt_all s seen (m ∷ ms) h v =
      let c = s.send_counter in
      let here = receive-packet s.send_key seen m c (omega arith) (fresh-Behind seen c v) in
      let s' : Session = record s { send_counter = (c + 1) % 2 ^ 64 } in
      ap₂ ◌∷◌ (ap (λ (t : Option (List ℕ) × List ℕ). t.0) here) (
        rw here
          (receive_all-encrypt_all s' (c ∷ seen) ms (omega arith) (next c (omega arith) seen v)))

  -- A receiver with the sender's key reads, in order, exactly the plaintexts that the sender wrote: a
  -- new session on each side, fewer than 2 ^ 64 packets, none lost.
  pub decrypt_all-encrypt_all :
      (a b : TransportKeys) (ms : List (List ℕ))
      → a.send ≡ b.recv
      → length ms < 2 ^ 64
      → (decrypt_all aead (new b) (encrypt_all (new a) ms).0).0 ≡ map some ms
  unfolding new
  decrypt_all-encrypt_all a b ms same h =
      (decrypt_all-receive_all aead (new b) [] _ (new-Agrees b)).same_result
      ∙ rw (sym same) (receive_all-encrypt_all (new a) [] ms (omega arith) (inl refl))
