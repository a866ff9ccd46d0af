-- ===== src/Base/Net.antt =====
-- The address types of the standard library, as numbers: an `Ipv4Addr` is its `u32`, an `Ipv6Addr`
-- its `u128`.
use Prim.Native.Nat.{ℕ, ◌-◌, ◌*◌, ◌/◌, ◌%◌, ◌^◌}
use mathlib.Core.Path.{◌≡◌}
use mathlib.Core.Logic.{◌↔◌}
use mathlib.Core.Bool.{Bool, true, false, ◌&&◌}
use mathlib.Core.List.{List}
use native.Mathlib.Omega.{arith}
use package.akur_ai_vpn.Base.Tests.{◌==◌}
use package.akur_ai_vpn.Base.Bytes.{u32_be, u32_of_be}
use package.akur_ai_vpn.Base.Eq.{Eq}

abbrev pub Ipv4Addr : Type 0
Ipv4Addr = ℕ

abbrev pub Ipv6Addr : Type 0
Ipv6Addr = ℕ

-- `octets`, and `Ipv4Addr::new`
abbrev pub octets : Ipv4Addr → List ℕ
octets = u32_be

abbrev pub ipv4 : ℕ → ℕ → ℕ → ℕ → Ipv4Addr
ipv4 = u32_of_be

-- `Ipv6Addr::segments()[i]`
abbrev pub segment : Ipv6Addr → ℕ → ℕ
segment ip i = ip / 2 ^ (112 - 16 * i) % 65536

pub data IpAddr : Type 0 where
  v4 : Ipv4Addr → IpAddr
  v6 : Ipv6Addr → IpAddr

pub data SocketAddr : Type 0 where
  v4 : (ip port : ℕ) → SocketAddr
  v6 : (ip port flow_info scope_id : ℕ) → SocketAddr

abbrev pub socket_beq : SocketAddr → SocketAddr → Bool
socket_beq (SocketAddr.v4 a p) (SocketAddr.v4 b q) = a == b && p == q
socket_beq (SocketAddr.v6 a p f s) (SocketAddr.v6 b q g t) = a == b && p == q && f == g && s == t
socket_beq _ _ = false

pub socket_beq_iff : (a b : SocketAddr) → (socket_beq a b ≡ true) ↔ (a ≡ b)
socket_beq_iff (SocketAddr.v4 a p) (SocketAddr.v4 b q) = ground arith
socket_beq_iff (SocketAddr.v4 a p) (SocketAddr.v6 b q g t) = ground arith
socket_beq_iff (SocketAddr.v6 a p f s) (SocketAddr.v4 b q) = ground arith
socket_beq_iff (SocketAddr.v6 a p f s) (SocketAddr.v6 b q g t) = ground arith

instance abbrev pub socket_eq : Eq SocketAddr
socket_eq = record { beq = socket_beq; beq_iff = socket_beq_iff }
