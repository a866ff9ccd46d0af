-- ===== src/Node/Peers.antt =====
-- crates/akurai-node/src/peers.rs: the peer table. A `HashMap` is the list of its entries in the order
-- in which it happens to be walked; what is proved of a table holds in any order.
pub mod Routing
use akur_ai_vpn.Base.{
  ℕ, ◌+◌, ◌-◌, ◌^◌, ◌%◌, ◌≡◌, Bool, List, [], ◌∷◌, ◌++◌, map, Option, none, some, ◌>>=◌, any, find,
  ◌==◌, if◌then◌else◌, IpAddr, Ipv4Addr, Ipv6Addr, SocketAddr,
}
use akur_ai_vpn.Base.Eq.{nat_eq, list_eq, ◌===◌}
use akur_ai_vpn.Base.Maps.{get, insert}
use akur_ai_vpn.Base.Text.{Str, trim, is_empty, to_ascii_lowercase}
use akur_ai_vpn.Common.Cidr.{Cidr, contains}
use akur_ai_vpn.Common.Overlay.{from_index_v6, overlay_ipv4_net}
use akur_ai_vpn.Common.Policy.{Principal, tag}

pub record Peer : Type 0 where
  pub overlay_ip : Ipv4Addr
  pub public_key : List ℕ
  pub name : Str
  pub endpoint : Option SocketAddr
  pub advertised : List Cidr
  pub tags : List Str

pub record PeerTable : Type 0 where
  pub by_ip : List (Ipv4Addr × Peer)

abbrev insert_all : List Peer → List (Ipv4Addr × Peer) → List (Ipv4Addr × Peer)
insert_all [] m = m
insert_all (p ∷ ps) m = insert_all ps (insert p.overlay_ip p m)

-- `PeerTable::from_peers`
unfoldable pub from_peers : List Peer → PeerTable
from_peers peers = record { by_ip = insert_all peers [] }

abbrev pub lookup : PeerTable → Ipv4Addr → Option Peer
lookup t ip = get ip t.by_ip

abbrev pub peer_principals : Peer → List Principal
peer_principals peer = map tag peer.tags

abbrev pub values : PeerTable → List Peer
values t = map (λ (e : Ipv4Addr × Peer). e.1) t.by_ip

abbrev pub advertises : Ipv4Addr → Peer → Bool
advertises dest p = any (λ (c : Cidr). contains c (IpAddr.v4 dest)) p.advertised

abbrev pub or_gateway : Option Peer → Option Peer → Option Peer
or_gateway none gateway = gateway
or_gateway (some p) gateway = some p

unfoldable pub route_to : PeerTable → Ipv4Addr → Option Peer
route_to t dest = or_gateway (lookup t dest) (find (advertises dest) (values t))

-- `u32::from(p.overlay_ip).wrapping_sub(u32::from(OVERLAY_IPV4_NET))`
abbrev pub host_index : Peer → ℕ
host_index p = (p.overlay_ip + 2 ^ 32 - overlay_ipv4_net) % 2 ^ 32

abbrev pub has_v6 : Ipv6Addr → Peer → Bool
has_v6 v6 p = (from_index_v6 (host_index p)).addr == v6

unfoldable pub route_to_ip : PeerTable → IpAddr → Option Peer
route_to_ip t (IpAddr.v4 v4) = route_to t v4
route_to_ip t (IpAddr.v6 v6) = find (has_v6 v6) (values t)

abbrev named : Str → Peer → Bool
named want p = to_ascii_lowercase p.name === want

unfoldable pub resolve_name : PeerTable → Str → Option Ipv4Addr
resolve_name t name =
    let want = to_ascii_lowercase (trim name) in
    if is_empty want then none else find (named want) (values t) >>= λ p. some p.overlay_ip

abbrev advertised_by : List Peer → List (Cidr × Ipv4Addr)
advertised_by [] = []
advertised_by (p ∷ ps) = map (λ (c : Cidr). (c, p.overlay_ip)) p.advertised ++ advertised_by ps

unfoldable pub advertised_routes : PeerTable → List (Cidr × Ipv4Addr)
advertised_routes t = advertised_by (values t)
