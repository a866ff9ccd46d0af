-- ===== src/Control/Ipam.antt =====
-- crates/akurai-control/src/ipam.rs: which overlay address a device receives. A `BTreeSet` of indices
-- is the list of its elements, of which the code asks only whether an index is one of them.
pub mod Text
pub mod Allocation
pub mod Pass
pub mod Assignment
use akur_ai_vpn.Base.{
  ℕ, zero, suc, ◌+◌, ◌-◌, ◌^◌, ◌%◌, Bool, true, false, not, ◌&&◌, List, [], ◌∷◌, ◌++◌, map, Option,
  none, some, any, leb, ◌==◌, if◌then◌else◌, ◌>>=◌, Ipv4Addr,
}
use akur_ai_vpn.Base.Text.{Str, before, trim}
use akur_ai_vpn.Base.Ipv4.{parse_ipv4, show_ipv4}
use akur_ai_vpn.Common.Overlay.{
  OverlayIpv4, Allocated, ok, err, from_index, contains, max_index, overlay_ipv4_net,
}
use akur_ai_vpn.Control.VpnEndpoint.{VpnEndpoint}

abbrev pub control_plane_index : ℕ
control_plane_index = 1

abbrev pub first_node_index : ℕ
first_node_index = control_plane_index + 1

-- `wrapping_sub` on `u32`
abbrev pub index_of : Ipv4Addr → ℕ
index_of addr = (addr + 2 ^ 32 - overlay_ipv4_net) % 2 ^ 32

abbrev overlay_index : Ipv4Addr → Option ℕ
overlay_index addr = if contains addr then some (index_of addr) else none

-- 47 is the slash
unfoldable pub parse_overlay_index : Str → Option ℕ
parse_overlay_index entry = parse_ipv4 (trim (before 47 entry)) >>= overlay_index

abbrev pub or_else : Option ℕ → Option ℕ → Option ℕ
or_else none later = later
or_else (some i) later = some i

abbrev pub and_then_all : Option ℕ → List ℕ → List ℕ
and_then_all none later = later
and_then_all (some i) later = i ∷ later

unfoldable pub overlay_index_of : List Str → Option ℕ
overlay_index_of [] = none
overlay_index_of (e ∷ es) = or_else (parse_overlay_index e) (overlay_index_of es)

unfoldable pub overlay_indices_of : List Str → List ℕ
overlay_indices_of [] = []
overlay_indices_of (e ∷ es) = and_then_all (parse_overlay_index e) (overlay_indices_of es)

unfoldable pub used_indices : List VpnEndpoint → List ℕ
used_indices [] = []
used_indices (e ∷ es) = overlay_indices_of e.allowed_ips ++ used_indices es

-- `BTreeSet::contains`
abbrev pub is_used : List ℕ → ℕ → Bool
is_used used i = any (λ j. i == j) used

-- `Result::ok`
abbrev pub to_option : Allocated → Option OverlayIpv4
to_option (ok ip) = some ip
to_option (err e) = none

-- `find` on the range of `n` indices from `from` on.
unfoldable pub find_free : List ℕ → ℕ → ℕ → Option ℕ
find_free used zero from = none
find_free used (suc n) from =
    let later = find_free used n (from + 1) in if is_used used from then later else some from

unfoldable pub allocate : List ℕ → Option OverlayIpv4
allocate used = find_free used (max_index + 1 - first_node_index) first_node_index >>= λ idx.
    to_option (from_index idx)

unfoldable pub choose_for_enrollment : Option ℕ → List ℕ → Option OverlayIpv4
choose_for_enrollment none used = allocate used
choose_for_enrollment (some idx) used =
    if leb first_node_index idx && leb idx max_index && not (is_used used idx)
    then to_option (from_index idx)
    else allocate used

-- "/32"
unfoldable pub overlay_cidr : OverlayIpv4 → Str
overlay_cidr ip = show_ipv4 ip.addr ++ (47 ∷ 51 ∷ 50 ∷ [])

unfoldable pub overlay_addr_string : List Str → Option Str
overlay_addr_string allowed_ips = overlay_index_of allowed_ips >>= λ idx.
    to_option (from_index idx) >>= λ ip. some (show_ipv4 ip.addr)

-- `e.allowed_ips.insert(0, overlay_cidr(ip))`
abbrev pub with_overlay : VpnEndpoint → OverlayIpv4 → VpnEndpoint
with_overlay e ip = record {
  id = e.id;
  name = e.name;
  public_key = e.public_key;
  endpoint_addr = e.endpoint_addr;
  allowed_ips = overlay_cidr ip ∷ e.allowed_ips;
  added_by = e.added_by;
  added_at = e.added_at;
  organization_id = e.organization_id;
  workspace_id = e.workspace_id;
  revoked_at = e.revoked_at;
  token_rotated_at = e.token_rotated_at;
  node_token = e.node_token;
}

-- The loop's state: the indices in use, and the number of endpoints changed so far.
pub record Progress : Type 0 where
  pub used : List ℕ
  pub changed : ℕ

abbrev assign_new : VpnEndpoint → Progress → Option OverlayIpv4 → VpnEndpoint × Progress
assign_new e s none = (e, s)
assign_new e s (some ip) =
    (with_overlay e ip, record { used = index_of ip.addr ∷ s.used; changed = s.changed + 1 })

abbrev assign_if_missing : VpnEndpoint → Progress → Option ℕ → VpnEndpoint × Progress
assign_if_missing e s (some i) = (e, s)
assign_if_missing e s none = assign_new e s (allocate s.used)

-- One pass of the loop's body: the endpoint, and the state behind it.
unfoldable pub assign_one : VpnEndpoint → Progress → VpnEndpoint × Progress
assign_one e s = assign_if_missing e s (overlay_index_of e.allowed_ips)

unfoldable pub assign_loop : List VpnEndpoint → Progress → List VpnEndpoint × Progress
assign_loop [] s = ([], s)
assign_loop (e ∷ es) s =
    let (e', s') = assign_one e s in let (es', s'') = assign_loop es s' in (e' ∷ es', s'')

unfoldable pub assign_missing : List VpnEndpoint → List VpnEndpoint × ℕ
assign_missing endpoints =
    let (endpoints', s) =
      assign_loop endpoints (record { used = used_indices endpoints; changed = 0 }) in
    (endpoints', s.changed)
