-- ===== src/Common/Overlay.antt =====
-- crates/akurai-common/src/overlay.rs: the address plan of the overlay.
use akur_ai_vpn.Base.{
  ℕ, ◌+◌, ◌-◌, ◌*◌, ◌^◌, Bool, ◌&&◌, ltb, ◌==◌, if◌then◌else◌, bit_or, get_or, octets, ipv4,
  segment, Ipv4Addr, Ipv6Addr,
}

abbrev pub overlay_ipv4_net : Ipv4Addr
overlay_ipv4_net = ipv4 100 88 0 0

abbrev pub overlay_ipv4_prefix_len : ℕ
overlay_ipv4_prefix_len = 16

-- `fd88::`, the `u128` whose first segment is `0xfd88`
abbrev pub overlay_ipv6_net : Ipv6Addr
overlay_ipv6_net = 0xfd88 * 2 ^ 112

pub data OverlayError : Type 0 where
  index_out_of_range : (index max : ℕ) → OverlayError

pub record OverlayIpv4 : Type 0 where
  pub addr : Ipv4Addr

pub record OverlayIpv6 : Type 0 where
  pub addr : Ipv6Addr

pub data Allocated : Type 0 where
  ok : OverlayIpv4 → Allocated
  err : OverlayError → Allocated

abbrev pub max_index : ℕ
max_index = 2 ^ (32 - overlay_ipv4_prefix_len) - 1

-- `OverlayIpv4::from_index`
unfoldable pub from_index : ℕ → Allocated
from_index index =
    if ltb max_index index
    then err (index_out_of_range index max_index)
    else ok (record { addr = overlay_ipv4_net + index })

-- `OverlayIpv4::contains`
unfoldable pub contains : Ipv4Addr → Bool
contains addr = let o = octets addr in get_or o 0 0 == 100 && get_or o 1 0 == 88

-- `OverlayIpv6::from_index`
unfoldable pub from_index_v6 : ℕ → OverlayIpv6
from_index_v6 index = record { addr = bit_or overlay_ipv6_net index }

-- `OverlayIpv6::contains`
unfoldable pub contains_v6 : Ipv6Addr → Bool
contains_v6 addr = segment addr 0 == 0xfd88 && segment addr 1 == 0 && segment addr 2 == 0
