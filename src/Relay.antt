-- ===== src/Relay.antt =====
-- crates/akurai-relay/src/forward.rs: the forward loop of the relay, one datagram at a time.
pub mod Learning
pub mod Forwarding
pub mod Counters
use akur_ai_vpn.Base.{
  ℕ, ◌+◌, ◌/◌, ◌%◌, ◌^◌, Bool, true, false, not, ◌&&◌, List, [], ◌∷◌, ◌++◌, Option, none, some,
  ◌==◌, if◌then◌else◌, Ipv4Addr, SocketAddr, octets, u16_be,
}
use akur_ai_vpn.Base.Eq.{nat_eq}
use akur_ai_vpn.Base.Net.{socket_beq}
use akur_ai_vpn.Base.Maps.{get, insert}
use akur_ai_vpn.Base.Outcome.{Outcome, done, ◌>>=◌}
use akur_ai_vpn.Common.Frame
use akur_ai_vpn.Common.Frame.{
  FrameKind, keepalive, handshake_init, handshake_resp, payload_data, peer_addr, Frame, encode,
  decode,
}

pub record Stats : Type 0 where
  pub learned : ℕ
  pub forwarded : ℕ
  pub dropped_unknown : ℕ
  pub malformed : ℕ

abbrev pub Table : Type 0
Table = List (Ipv4Addr × SocketAddr)

pub record Relay : Type 0 where
  pub table : Table
  pub stats : Stats

pub data Action : Type 0 where
  malformed : Action
  learned : Ipv4Addr → Action
  forwarded : Ipv4Addr → SocketAddr → Action
  dropped_unknown : Ipv4Addr → Action

-- What one call does: the new state, the datagrams it hands to the socket in order, and its result.
-- Errors of `send_to` are discarded by the source.
pub record Effect : Type 0 where
  pub after : Relay
  pub sent : List (List ℕ × SocketAddr)
  pub action : Action

-- `AtomicU64::fetch_add(1)`
abbrev pub count : ℕ → ℕ
count n = (n + 1) % 2 ^ 64

-- `table.insert(..) != Some(from)`
abbrev pub moved : Option SocketAddr → SocketAddr → Bool
moved none from = true
moved (some old) from = not (socket_beq old from)

-- `Ipv4Addr::is_unspecified`
abbrev pub is_unspecified : Ipv4Addr → Bool
is_unspecified ip = ip == 0

unfoldable pub sockaddr_v4_bytes : SocketAddr → Option (List ℕ)
sockaddr_v4_bytes (SocketAddr.v4 ip port) = some (octets ip ++ u16_be port)
sockaddr_v4_bytes (SocketAddr.v6 ip port flow_info scope_id) = none

unfoldable pub learn : Relay → Ipv4Addr → SocketAddr → Relay
learn r src from = if is_unspecified src then r else record {
  table = insert src from r.table;
  stats =
      if moved (get src r.table) from
      then record (r.stats) { learned = count r.stats.learned }
      else r.stats;
}

-- The hint that tells `to` (the node `dest`) where the node `src` is reachable.
unfoldable pub hint : Ipv4Addr → Ipv4Addr → SocketAddr → SocketAddr → List (List ℕ × SocketAddr)
unfolding sockaddr_v4_bytes Frame.new Frame.encode
hint src dest place to = elim (sockaddr_v4_bytes place) [
  | none ↦ []
  | some b ↦ elim (Frame.new peer_addr src dest b) [ none ↦ [] | some f ↦ (encode f, to) ∷ [] ]
]

abbrev pub is_handshake : FrameKind → Bool
is_handshake handshake_init = true
is_handshake handshake_resp = true
is_handshake _ = false

unfoldable pub dispatch : Relay → Frame → List ℕ → SocketAddr → Effect
unfolding hint
dispatch r f datagram from = elim (get f.dest r.table) [
  | none ↦ record {
    after = record r {
      stats = record (r.stats) { dropped_unknown = count r.stats.dropped_unknown };
    };
    sent = [];
    action = dropped_unknown f.dest;
  }
  | some dest_addr ↦ record {
    after = record r { stats = record (r.stats) { forwarded = count r.stats.forwarded } };
    sent =
        (datagram, dest_addr)
        ∷ (if is_handshake f.kind
            then hint f.src f.dest from dest_addr ++ hint f.dest f.src dest_addr from
            else []);
    action = forwarded f.dest dest_addr;
  }
]

abbrev pub is_keepalive : FrameKind → Bool
is_keepalive keepalive = true
is_keepalive _ = false

-- What `forward_one` does with a datagram, once decoded.
unfoldable pub handle : Relay → Option Frame → List ℕ → SocketAddr → Effect
unfolding learn dispatch
handle r none datagram from = record {
  after = record r { stats = record (r.stats) { malformed = count r.stats.malformed } };
  sent = [];
  action = malformed;
}
handle r (some f) datagram from =
    let r' = learn r f.src from in
    if is_keepalive f.kind
    then record { after = r'; sent = []; action = learned f.src }
    else dispatch r' f datagram from

unfoldable pub forward_one : Relay → List ℕ → SocketAddr → Outcome Effect
unfolding handle decode
forward_one r datagram from = do frame ← decode datagram; done (handle r frame datagram from)

-- The loop of `run` over the datagrams that the socket delivers.
unfoldable pub run : Relay → List (List ℕ × SocketAddr) → Outcome Relay
unfolding forward_one
run r [] = done r
run r ((datagram, from) ∷ rest) = do effect ← forward_one r datagram from; run effect.after rest

abbrev pub empty : Relay
empty = record {
  table = [];
  stats = record { learned = 0; forwarded = 0; dropped_unknown = 0; malformed = 0 };
}
