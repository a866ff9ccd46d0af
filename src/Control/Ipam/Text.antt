-- ===== src/Control/Ipam/Text.antt =====
-- crates/akurai-control/src/ipam.rs: the text of an address in `allowed_ips`.
use akur_ai_vpn.Base.{◌-◌, ◌^◌, ◌<◌, ◌≡◌, true, [], ◌∷◌, some, arith}
use akur_ai_vpn.Base.Ipv4.{show_ipv4}
use akur_ai_vpn.Base.Ipv4.RoundTrip.{parse-show_ipv4, show_ipv4-IsPlain, before-plain, trim-plain}
use akur_ai_vpn.Common.Overlay.{OverlayIpv4, contains, overlay_ipv4_net}
use akur_ai_vpn.Control.Ipam.{parse_overlay_index, overlay_cidr}

-- The entry that `overlay_cidr` writes for an address of the overlay is read back as its index.
pub parse_overlay_index-overlay_cidr :
    (ip : OverlayIpv4)
    → ip.addr < 2 ^ 32
    → contains ip.addr ≡ true
    → parse_overlay_index (overlay_cidr ip) ≡ some (ip.addr - overlay_ipv4_net)
unfolding parse_overlay_index overlay_cidr contains
parse_overlay_index-overlay_cidr ip h c =
    rw
      (
        before-plain (show_ipv4 ip.addr) (51 ∷ 50 ∷ []) (show_ipv4-IsPlain ip.addr),
        trim-plain (show_ipv4 ip.addr) (show_ipv4-IsPlain ip.addr),
        parse-show_ipv4 ip.addr h,
      )
      (ground arith)
