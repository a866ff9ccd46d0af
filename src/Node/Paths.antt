-- ===== src/Node/Paths.antt =====
-- crates/akurai-node/src/tunnel.rs: what a node keeps of a peer, and the addresses on which it tries to
-- reach it.
use akur_ai_vpn.Base.{
  ℕ, not, List, [], ◌∷◌, Option, none, some, if◌then◌else◌, SocketAddr, ipv4, u16_of_be,
}
use akur_ai_vpn.Base.Net.{socket_beq}
use akur_ai_vpn.Transport.Noise.{Initiator}
use akur_ai_vpn.Transport.Session.{Session}

-- An `Instant` is a number of milliseconds.
pub record PeerState : Type 0 where
  pub session : Option Session
  pub pending : Option (Initiator × ℕ)
  pub direct : Option SocketAddr
  pub candidate : Option SocketAddr

-- `PeerState::default`
abbrev pub no_state : PeerState
no_state = record { session = none; pending = none; direct = none; candidate = none }

unfoldable pub parse_addr : List ℕ → Option SocketAddr
parse_addr (a ∷ b ∷ c ∷ d ∷ p ∷ q ∷ []) = some (SocketAddr.v4 (ipv4 a b c d) (u16_of_be p q))
parse_addr _ = none

abbrev or_else : Option SocketAddr → Option SocketAddr → Option SocketAddr
or_else none advertised = advertised
or_else (some a) advertised = some a

-- The paths of a peer without a direct path: the candidate, unless it is the relay, and the relay.
abbrev with_candidate : Option SocketAddr → SocketAddr → List SocketAddr
with_candidate none relay = relay ∷ []
with_candidate (some c) relay = if not (socket_beq c relay) then c ∷ relay ∷ [] else relay ∷ []

abbrev paths_of :
    Option SocketAddr → PeerState → SocketAddr → Option SocketAddr → List SocketAddr × PeerState
paths_of (some direct) st relay advertised = (direct ∷ [], st)
paths_of none st relay advertised =
    let candidate = or_else st.candidate advertised in
    (with_candidate candidate relay, record st { candidate = candidate })

unfoldable pub handshake_paths :
    PeerState → SocketAddr → Option SocketAddr → List SocketAddr × PeerState
handshake_paths st relay advertised = paths_of st.direct st relay advertised
