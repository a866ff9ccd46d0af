-- ===== src/Control/VpnEndpoint.antt =====
-- crates/akurai-control/src/vpn_endpoint.rs: the registry's record of one device.
use akur_ai_vpn.Base.{ℕ, Bool, ◌&&◌, List, ◌==◌}
use akur_ai_vpn.Base.Eq.{nat_eq, list_eq, ◌===◌}
use akur_ai_vpn.Base.Text.{Str}

pub record VpnEndpoint : Type 0 where
  pub id : Str
  pub name : Str
  pub public_key : Str
  pub endpoint_addr : Str
  pub allowed_ips : List Str
  pub added_by : Str
  pub added_at : ℕ
  pub organization_id : Str
  pub workspace_id : Str
  pub revoked_at : ℕ
  pub token_rotated_at : ℕ
  pub node_token : Str

abbrev pub is_active : VpnEndpoint → Bool
is_active e = e.revoked_at == 0

abbrev pub belongs_to : VpnEndpoint → Str → Str → Bool
belongs_to e organization_id workspace_id =
    e.organization_id === organization_id && e.workspace_id === workspace_id
