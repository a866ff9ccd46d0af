-- ===== src/Common/Cidr.antt =====
-- crates/akurai-common/src/cidr.rs: route blocks and membership.
pub mod Membership
use akur_ai_vpn.Base.{
  ℕ, ◌+◌, ◌-◌, ◌*◌, ◌%◌, ◌^◌, Bool, false, ltb, ◌==◌, if◌then◌else◌, bit_and, IpAddr, Ipv4Addr,
}

pub data CidrError : Type 0 where
  prefix_too_long : (prefix_len max : ℕ) → CidrError

pub record Cidr : Type 0 where
  pub addr : IpAddr
  pub prefix_len : ℕ

pub data Created : Type 0 where
  ok : Cidr → Created
  err : CidrError → Created

abbrev pub width : IpAddr → ℕ
width (IpAddr.v4 ip) = 32
width (IpAddr.v6 ip) = 128

-- `Cidr::new`
unfoldable pub new : IpAddr → ℕ → Created
new addr prefix_len =
    if ltb (width addr) prefix_len
    then err (prefix_too_long prefix_len (width addr))
    else ok (record { addr = addr; prefix_len = prefix_len })

unfoldable pub v4_mask : ℕ → ℕ
v4_mask prefix_len = if prefix_len == 0 then 0 else (2 ^ 32 - 1) * 2 ^ (32 - prefix_len) % 2 ^ 32

unfoldable pub v6_mask : ℕ → ℕ
v6_mask prefix_len = if prefix_len == 0 then 0 else (2 ^ 128 - 1) * 2 ^ (128 - prefix_len) % 2 ^ 128

abbrev contains_at : ℕ → IpAddr → IpAddr → Bool
contains_at prefix_len (IpAddr.v4 net) (IpAddr.v4 test) =
    bit_and net (v4_mask prefix_len) == bit_and test (v4_mask prefix_len)
contains_at prefix_len (IpAddr.v6 net) (IpAddr.v6 test) =
    bit_and net (v6_mask prefix_len) == bit_and test (v6_mask prefix_len)
contains_at prefix_len _ _ = false

unfoldable pub contains : Cidr → IpAddr → Bool
unfolding v4_mask v6_mask
contains c ip = contains_at c.prefix_len c.addr ip
