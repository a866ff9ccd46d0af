-- ===== src/Tests/Addresses.antt =====
-- Blocks, the address plan and the allocator at concrete addresses.
use akur_ai_vpn.Base.{
  ℕ, ◌<◌, ◌≤◌, ◌≡◌, refl, ◌↔◌, ◌⊎◌, true, List, [], ◌∷◌, none, some, arith, ipv4, IpAddr, In,
}
use akur_ai_vpn.Base.Text.{Str}
use akur_ai_vpn.Base.Distinct.{IsDistinct}
use akur_ai_vpn.Base.Ipv4.{parse_ipv4}
use akur_ai_vpn.Common.Cidr.{Cidr, ok, new, contains}
use akur_ai_vpn.Common.Cidr.Membership.{Covers, contains-Covers}
use akur_ai_vpn.Common.Overlay
use akur_ai_vpn.Control.VpnEndpoint.{VpnEndpoint}
use akur_ai_vpn.Control.Ipam.{
  first_node_index, parse_overlay_index, overlay_indices_of, used_indices, find_free, allocate,
  choose_for_enrollment, assign_missing,
}
use akur_ai_vpn.Control.Ipam.Allocation.{
  IsFree, at_index, allocate-IsFree, allocate-exhausted, choose_for_enrollment-supplied,
}
use akur_ai_vpn.Control.Ipam.Assignment.{assign_missing-IsDistinct, assign_missing-idempotent}

abbrev lan : Cidr
lan = record { addr = IpAddr.v4 (ipv4 192 168 50 0); prefix_len = 24 }

lan-new : new (IpAddr.v4 (ipv4 192 168 50 0)) 24 ≡ ok lan
unfolding new
lan-new = refl

contains-Covers_example :
    (contains lan (IpAddr.v4 (ipv4 192 168 50 9)) ≡ true)
    ↔ Covers lan (IpAddr.v4 (ipv4 192 168 50 9))
contains-Covers_example =
    contains-Covers (IpAddr.v4 (ipv4 192 168 50 0)) (IpAddr.v4 (ipv4 192 168 50 9)) 24 lan
      (omega arith) (omega arith) lan-new

abbrev taken : List ℕ
taken = 2 ∷ 4 ∷ []

taken-allocate : allocate taken ≡ some (at_index 3)
unfolding allocate find_free Overlay.from_index
taken-allocate = refl

allocate-IsFree_example :
    (i : ℕ) × IsFree taken i
    × (at_index 3 ≡ at_index i)
    × ((j : ℕ) → first_node_index ≤ j → j < i → In j taken)
allocate-IsFree_example = allocate-IsFree taken (at_index 3) taken-allocate

allocate-exhausted_example : (allocate taken ≡ none) ↔ ((i : ℕ) → IsFree taken i → ⊥)
allocate-exhausted_example = allocate-exhausted taken

choose_for_enrollment-supplied_example :
    (IsFree taken 2 × (choose_for_enrollment (some 2) taken ≡ some (at_index 2)))
    ⊎ ((IsFree taken 2 → ⊥) × (choose_for_enrollment (some 2) taken ≡ allocate taken))
choose_for_enrollment-supplied_example = choose_for_enrollment-supplied 2 taken

-- A device with the entries given.
abbrev device : List Str → VpnEndpoint
device ips = record {
  id = [];
  name = [];
  public_key = [];
  endpoint_addr = [];
  allowed_ips = ips;
  added_by = [];
  added_at = 0;
  organization_id = [];
  workspace_id = [];
  revoked_at = 0;
  token_rotated_at = 0;
  node_token = [];
}

-- "100.88.0.9/32"
abbrev entry_nine : Str
entry_nine = 49 ∷ 48 ∷ 48 ∷ 46 ∷ 56 ∷ 56 ∷ 46 ∷ 48 ∷ 46 ∷ 57 ∷ 47 ∷ 51 ∷ 50 ∷ []

abbrev devices : List VpnEndpoint
devices = device [] ∷ device (entry_nine ∷ []) ∷ device [] ∷ []

devices-used : used_indices devices ≡ 9 ∷ []
unfolding used_indices overlay_indices_of parse_overlay_index parse_ipv4 Overlay.contains
devices-used = refl

devices-IsDistinct : IsDistinct (used_indices devices)
devices-IsDistinct = rw devices-used (λ m. elim m [ ], tt)

assign_missing-IsDistinct_example : IsDistinct (used_indices (assign_missing devices).0)
assign_missing-IsDistinct_example = assign_missing-IsDistinct devices devices-IsDistinct

assign_missing-idempotent_example :
    assign_missing (assign_missing devices).0 ≡ ((assign_missing devices).0, 0)
assign_missing-idempotent_example = assign_missing-idempotent devices
