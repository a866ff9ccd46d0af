-- ===== src/Tests/Access.antt =====
-- Rules and routes at concrete peers.
use akur_ai_vpn.Base.{ℕ, ◌≡◌, refl, ◌↔◌, true, List, [], ◌∷◌, none, some, ipv4, IpAddr}
use akur_ai_vpn.Common.Cidr.{contains, v4_mask}
use akur_ai_vpn.Common.Policy.{Principal, user, tag, wildcard, Policy}
use akur_ai_vpn.Node.Acl.{Acl, permits}
use akur_ai_vpn.Node.Acl.Grants.{Grants, permits-Grants}
use akur_ai_vpn.Node.Peers.{Peer, PeerTable, route_to}
use akur_ai_vpn.Node.Peers.Routing.{IsRoute, route_to-IsRoute}

-- The user "o", and the tag "s"
abbrev oli : Principal
oli = user (111 ∷ [])

abbrev server : List ℕ
server = 115 ∷ []

abbrev rules : Policy
rules = record { rules = record { from = oli; to = tag wildcard } ∷ [] }

abbrev gateway : Peer
gateway = record {
  overlay_ip = ipv4 100 88 0 3;
  public_key = [];
  name = [];
  endpoint = none;
  advertised = record { addr = IpAddr.v4 (ipv4 192 168 50 0); prefix_len = 24 } ∷ [];
  tags = server ∷ [];
}

abbrev acl : Acl
acl = record { policy = rules; my_principals = oli ∷ [] }

permits-Grants_example : (permits acl gateway ≡ true) ↔ Grants acl gateway
permits-Grants_example = permits-Grants acl gateway

abbrev peers : PeerTable
peers = record { by_ip = (ipv4 100 88 0 3, gateway) ∷ [] }

lan-route_to : route_to peers (ipv4 192 168 50 9) ≡ some gateway
unfolding route_to contains v4_mask
lan-route_to = refl

route_to-IsRoute_example : IsRoute peers (ipv4 192 168 50 9) gateway
route_to-IsRoute_example = route_to-IsRoute peers (ipv4 192 168 50 9) gateway lan-route_to
