-- ===== src/Transport/Session.antt =====
-- crates/akurai-transport/src/session.rs: data packets and the replay window.
pub mod Window
pub mod Replay
pub mod Delivery
use akur_ai_vpn.Base.{
  ℕ, ◌+◌, ◌-◌, ◌*◌, ◌/◌, ◌%◌, ◌^◌, Bool, true, false, not, ◌&&◌, List, [], ◌∷◌, ◌++◌, Option, none,
  some, ltb, leb, ◌==◌, if◌then◌else◌, length, take, drop, bit_and, bit_or, u64_be, u64_le, of_be,
}
use akur_ai_vpn.Transport.Aead.{Aead}

abbrev pub window : ℕ
window = 64

-- `TransportKeys`
pub record TransportKeys : Type 0 where
  pub send : List ℕ
  pub recv : List ℕ

pub record Session : Type 0 where
  pub send_key : List ℕ
  pub recv_key : List ℕ
  pub send_counter : ℕ
  pub recv_max : ℕ
  pub recv_mask : ℕ
  pub recv_started : Bool

unfoldable pub nonce : ℕ → List ℕ
nonce counter = 0 ∷ 0 ∷ 0 ∷ 0 ∷ u64_le counter

unfoldable pub new : TransportKeys → Session
new keys = record {
  send_key = keys.send;
  recv_key = keys.recv;
  send_counter = 0;
  recv_max = 0;
  recv_mask = 0;
  recv_started = false;
}

-- `decrypt` before it looks at the tag: too far below the highest counter.
abbrev pub hopeless : Session → ℕ → Bool
hopeless s counter = s.recv_started && (leb window s.recv_max && leb counter (s.recv_max - window))

-- `recv_mask << shift` in 64 bits, and 0 where nothing of the window is left.
abbrev pub shifted : ℕ → ℕ → ℕ
shifted mask shift = if leb window shift then 0 else mask * 2 ^ shift % 2 ^ 64

-- `decrypt` after the tag is verified: the session with the counter marked, or nothing for a replay
-- or a counter below the window.
unfoldable pub slide : Session → ℕ → Option Session
slide s c =
    if not s.recv_started
    then some (record s { recv_max = c; recv_mask = 1; recv_started = true })
    else if ltb s.recv_max c
    then some
        (record s { recv_max = c; recv_mask = bit_or (shifted s.recv_mask (c - s.recv_max)) 1 })
    else if leb window (s.recv_max - c)
    then none
    else if not (bit_and s.recv_mask (2 ^ (s.recv_max - c)) == 0)
    then none
    else some (record s { recv_mask = bit_or s.recv_mask (2 ^ (s.recv_max - c)) })

abbrev pub counter_of : List ℕ → ℕ
counter_of packet = of_be 0 (take 8 packet)

module _ (aead : Aead) where
  -- The counter is a `u64`.
  unfoldable pub encrypt : Session → List ℕ → List ℕ × Session
  unfolding nonce
  encrypt s plaintext =
      let counter = s.send_counter in
      (
        u64_be counter ++ aead.seal s.send_key (nonce counter) [] plaintext,
        record s { send_counter = (counter + 1) % 2 ^ 64 },
      )

  -- The tag's verdict on the packet, and then the window's.
  unfoldable pub authenticated : Session → ℕ → Option (List ℕ) → Option (List ℕ) × Session
  unfolding slide
  authenticated s counter none = (none, s)
  authenticated s counter (some plaintext) = elim (slide s counter) [
    | none ↦ (none, s)
    | some s' ↦ (some plaintext, s')
  ]

  unfoldable pub decrypt : Session → List ℕ → Option (List ℕ) × Session
  unfolding nonce authenticated
  decrypt s packet =
      if ltb (length packet) 8
      then (none, s)
      else if hopeless s (counter_of packet)
      then (none, s)
      else authenticated s (counter_of packet)
          (aead.unseal s.recv_key (nonce (counter_of packet)) [] (drop 8 packet))

  -- The plaintexts that a sequence of packets gives, and the session after it.
  unfoldable pub decrypt_all : Session → List (List ℕ) → List (Option (List ℕ)) × Session
  unfolding decrypt
  decrypt_all s [] = ([], s)
  decrypt_all s (p ∷ ps) =
      let (r, s') = decrypt s p in let (rs, s'') = decrypt_all s' ps in (r ∷ rs, s'')
