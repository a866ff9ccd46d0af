-- ===== src/Node/Peers/Routing.antt =====
-- crates/akurai-node/src/peers.rs: the peer that carries a packet.
use akur_ai_vpn.Base.{
  ◌≡◌, ap, sym, ◌∙◌, ◌⊎◌, inl, inr, true, Option, none, some, Option-cases, find, find-some, any→In,
  In, IpAddr, Ipv4Addr,
}
use akur_ai_vpn.Common.Cidr.{Cidr, contains}
use akur_ai_vpn.Node.Peers.{Peer, PeerTable, lookup, values, advertises, or_gateway, route_to}

-- Where a destination is routed: to the peer of that address, else to a gateway of the table that
-- advertises a block with the destination in it.
abbrev pub IsRoute : PeerTable → Ipv4Addr → Peer → Type 0
IsRoute t dest p =
    (lookup t dest ≡ some p)
    ⊎ ((lookup t dest ≡ none)
        × In p (values t)
        × (c : Cidr) × In c p.advertised
        × (contains c (IpAddr.v4 dest) ≡ true))

-- A route that `route_to` finds is one.
pub route_to-IsRoute :
    (t : PeerTable) (dest : Ipv4Addr) (p : Peer) → route_to t dest ≡ some p → IsRoute t dest p
unfolding route_to
route_to-IsRoute t dest p e = elim (Option-cases (lookup t dest)) [
  | inr (q, found) ↦ inl (
      found
      ∙ sym (ap (λ (o : Option Peer). or_gateway o (find (advertises dest) (values t))) found)
      ∙ e)
  | inl missing ↦
      let (m, q) = find-some (advertises dest) (values t) (
        sym (ap (λ (o : Option Peer). or_gateway o (find (advertises dest) (values t))) missing)
        ∙ e) in
      let (c, k, h) = any→In (λ (c : Cidr). contains c (IpAddr.v4 dest)) p.advertised q in
      inr (missing, m, c, k, h)
]
