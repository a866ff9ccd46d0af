-- ===== src/Control/Registry/Enrollment.antt =====
-- crates/akurai-control/src/listener.rs: the handler that registers a device. What the operating system
-- gives and whether `save` succeeded are arguments.
use akur_ai_vpn.Base.{
  ℕ, Bool, true, false, not, ◌&&◌, ◌||◌, List, [], ◌∷◌, ◌++◌, Option, none, some, find,
  if◌then◌else◌,
}
use akur_ai_vpn.Base.Eq.{nat_eq, list_eq, ◌===◌}
use akur_ai_vpn.Base.Text.{Str, is_empty}
use akur_ai_vpn.Common.Overlay.{OverlayIpv4}
use akur_ai_vpn.Control.Ipam.{
  overlay_index_of, overlay_cidr, overlay_addr_string, used_indices, choose_for_enrollment,
}
use akur_ai_vpn.Control.VpnEndpoint.{VpnEndpoint}
use akur_ai_vpn.Control.Registry.{
  AuthUser, AuthSession, AppState, Reply, tenant_scope, in_tenant, csrf_valid, is_own, registered,
  bad_request, not_saved,
}

-- What a request to enroll names, and what the system adds to it.
pub record Enrollment : Type 0 where
  pub name : Str
  pub public_key : Str
  pub endpoint_addr : Str
  pub allowed_ips : List Str

pub record Fresh : Type 0 where
  pub id : Str
  pub node_token : Str
  pub now : ℕ

abbrev pub is_none : Option ℕ → Bool
is_none none = true
is_none (some i) = false

unfoldable pub without_overlay : List Str → List Str
without_overlay [] = []
without_overlay (e ∷ es) =
    let rest = without_overlay es in if is_none (overlay_index_of (e ∷ [])) then e ∷ rest else rest

abbrev pub insert_overlay : Option OverlayIpv4 → List Str → List Str
insert_overlay none allowed_ips = allowed_ips
insert_overlay (some ip) allowed_ips = overlay_cidr ip ∷ allowed_ips

unfoldable pub one_overlay : List Str → List ℕ → List Str
one_overlay allowed_ips used =
    insert_overlay (choose_for_enrollment (overlay_index_of allowed_ips) used)
      (without_overlay allowed_ips)

unfoldable pub new_endpoint : Enrollment → AuthUser → Str → Str → Fresh → List ℕ → VpnEndpoint
new_endpoint r user organization_id workspace_id fresh used = record {
  id = fresh.id;
  name = r.name;
  public_key = r.public_key;
  endpoint_addr = r.endpoint_addr;
  allowed_ips = one_overlay r.allowed_ips used;
  added_by = user.email;
  added_at = fresh.now;
  organization_id = organization_id;
  workspace_id = workspace_id;
  revoked_at = 0;
  token_rotated_at = 0;
  node_token = fresh.node_token;
}

abbrev pub unwrap_or_default : Option Str → Str
unwrap_or_default none = []
unwrap_or_default (some s) = s

abbrev pub registration : VpnEndpoint → Reply
registration e = registered e.id (unwrap_or_default (overlay_addr_string e.allowed_ips))

-- The device is pushed, and popped again if the registry cannot be saved.
abbrev pub push_saved : Bool → VpnEndpoint → AppState → Reply × AppState
push_saved true e st =
    (registration e, record { endpoints = st.endpoints ++ (e ∷ []); heartbeats = st.heartbeats })
push_saved false e st = (not_saved, st)

abbrev pub reuse_or_push : Option VpnEndpoint → Bool → VpnEndpoint → AppState → Reply × AppState
reuse_or_push (some existing) saved e st = (registration existing, st)
reuse_or_push none saved e st = push_saved saved e st

unfoldable pub do_add_endpoint : Enrollment → AuthUser → Fresh → Bool → AppState → Reply × AppState
do_add_endpoint r user fresh saved st = in_tenant (tenant_scope user) st (λ org ws.
    reuse_or_push (find (λ e. is_own org ws e && e.public_key === r.public_key) st.endpoints) saved
      (new_endpoint r user org ws fresh (used_indices st.endpoints)) st)

unfoldable pub add_endpoint_json :
    Option Str → Enrollment → AuthSession → Fresh → Bool → AppState → Reply × AppState
add_endpoint_json csrf r session fresh saved st =
    if not (csrf_valid csrf session)
    then (bad_request, st)
    else if is_empty r.name || is_empty r.public_key
    then (bad_request, st)
    else do_add_endpoint r session.user fresh saved st
