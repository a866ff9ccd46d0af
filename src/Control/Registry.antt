-- ===== src/Control/Registry.antt =====
-- crates/akurai-control/src/listener.rs: the handlers that change the registry of devices. What the
-- operating system gives (the clock, a random token) and whether `save` succeeded are arguments; the
-- state's lock is never poisoned. Of a request a handler receives the fields that the readers of its
-- headers and body have found.
pub mod Enrollment
pub mod Authentication
pub mod Steps
pub mod Addresses
pub mod Tenants
pub mod Tokens
pub mod Revocation
use akur_ai_vpn.Base.{
  ℕ, Bool, true, false, not, ◌&&◌, ◌||◌, List, [], ◌∷◌, ◌++◌, Option, none, some, any, find,
  if◌then◌else◌, ◌>>=◌,
}
use akur_ai_vpn.Base.Eq.{nat_eq, list_eq, ◌===◌}
use akur_ai_vpn.Base.Maps.{insert, remove, get}
use akur_ai_vpn.Base.Text.{Str, is_empty, trim, strip_prefix}
use akur_ai_vpn.Common.Overlay.{OverlayIpv4}
use akur_ai_vpn.Control.Heartbeat.{Heartbeat}
use akur_ai_vpn.Control.Ipam.{
  overlay_index_of, overlay_cidr, overlay_addr_string, used_indices, choose_for_enrollment,
}
use akur_ai_vpn.Control.VpnEndpoint.{VpnEndpoint, is_active, belongs_to}

pub record AuthUser : Type 0 where
  pub sub : Str
  pub email : Str
  pub name : Str
  pub organization_id : Str
  pub workspace_id : Str

pub record AuthSession : Type 0 where
  pub user : AuthUser
  pub csrf_token : Str

pub record AppState : Type 0 where
  pub endpoints : List VpnEndpoint
  pub heartbeats : List (Str × Heartbeat)

-- The responses: 200 with a device's id and overlay address, 200 without, 400, 404, 403 and 500.
pub data Reply : Type 0 where
  registered : Str → Str → Reply
  done : Reply
  bad_request : Reply
  not_found : Reply
  forbidden : Reply
  not_saved : Reply

unfoldable pub tenant_scope : AuthUser → Option (Str × Str)
tenant_scope user =
    if not (is_empty user.organization_id) && not (is_empty user.workspace_id)
    then some (user.organization_id, user.workspace_id)
    else none

-- `Err` of `tenant_required` is the response 403.
abbrev pub in_tenant :
    Option (Str × Str) → AppState → (Str → Str → Reply × AppState) → Reply × AppState
in_tenant none st handler = (forbidden, st)
in_tenant (some (organization_id, workspace_id)) st handler = handler organization_id workspace_id

abbrev pub csrf_valid : Option Str → AuthSession → Bool
csrf_valid none session = false
csrf_valid (some presented) session = presented === session.csrf_token

-- The devices that a user may act on.
abbrev pub is_own : Str → Str → VpnEndpoint → Bool
is_own organization_id workspace_id e = is_active e && belongs_to e organization_id workspace_id

abbrev pub is_named : Str → Str → Str → VpnEndpoint → Bool
is_named organization_id workspace_id id e = e.id === id && is_own organization_id workspace_id e

-- `iter_mut().find(test)`, with the change that is made through the reference; `none` if no element
-- passes.
unfoldable pub change_first :
    (VpnEndpoint → Bool)
    → (VpnEndpoint → VpnEndpoint)
    → List VpnEndpoint
    → Option (List VpnEndpoint)
change_first test change [] = none
change_first test change (e ∷ es) =
    let rest = change_first test change es >>= λ es'. some (e ∷ es') in
    if test e then some (change e ∷ es) else rest

abbrev pub revoked : ℕ → VpnEndpoint → VpnEndpoint
revoked now e = record {
  id = e.id;
  name = e.name;
  public_key = e.public_key;
  endpoint_addr = e.endpoint_addr;
  allowed_ips = e.allowed_ips;
  added_by = e.added_by;
  added_at = e.added_at;
  organization_id = e.organization_id;
  workspace_id = e.workspace_id;
  revoked_at = now;
  token_rotated_at = e.token_rotated_at;
  node_token = e.node_token;
}

abbrev pub rotated : Str → ℕ → VpnEndpoint → VpnEndpoint
rotated token now e = record {
  id = e.id;
  name = e.name;
  public_key = e.public_key;
  endpoint_addr = e.endpoint_addr;
  allowed_ips = e.allowed_ips;
  added_by = e.added_by;
  added_at = e.added_at;
  organization_id = e.organization_id;
  workspace_id = e.workspace_id;
  revoked_at = e.revoked_at;
  token_rotated_at = now;
  node_token = token;
}

-- The state keeps the change whether or not it could be saved.
abbrev pub answer_saved : Bool → Reply
answer_saved true = done
answer_saved false = not_saved

abbrev pub after_revocation : Option (List VpnEndpoint) → Str → Bool → AppState → Reply × AppState
after_revocation none id saved st = (not_found, st)
after_revocation (some es) id saved st =
    (answer_saved saved, record { endpoints = es; heartbeats = remove id st.heartbeats })

unfoldable pub delete_endpoint :
    Option Str → Str → AuthSession → ℕ → Bool → AppState → Reply × AppState
delete_endpoint csrf id session now saved st =
    if not (csrf_valid csrf session)
    then (bad_request, st)
    else in_tenant (tenant_scope session.user) st (λ org ws.
      after_revocation (change_first (is_named org ws id) (revoked now) st.endpoints) id saved st)

abbrev pub after_rotation : Option (List VpnEndpoint) → Bool → AppState → Reply × AppState
after_rotation none saved st = (not_found, st)
after_rotation (some es) saved st =
    (answer_saved saved, record { endpoints = es; heartbeats = st.heartbeats })

unfoldable pub rotate_token :
    Option Str → Str → AuthSession → Str → ℕ → Bool → AppState → Reply × AppState
rotate_token csrf id session token now saved st =
    if not (csrf_valid csrf session)
    then (bad_request, st)
    else in_tenant (tenant_scope session.user) st (λ org ws.
      after_rotation (change_first (is_named org ws id) (rotated token now) st.endpoints) saved st)

abbrev pub seen : Str → Str → ℕ → AppState → AppState
seen id endpoint now st = record {
  endpoints = st.endpoints;
  heartbeats = insert id (record { endpoint = endpoint; last_seen = now }) st.heartbeats;
}

abbrev pub record_if_own : Str → Str → Str → Str → ℕ → AppState → Reply × AppState
record_if_own org ws id endpoint now st =
    if any (is_named org ws id) st.endpoints
    then (done, seen id endpoint now st)
    else (not_found, st)

unfoldable pub handle_heartbeat :
    Option Str → Str → Str → AuthSession → ℕ → AppState → Reply × AppState
handle_heartbeat csrf id endpoint session now st =
    if not (csrf_valid csrf session)
    then (bad_request, st)
    else if is_empty id
    then (bad_request, st)
    else in_tenant (tenant_scope session.user) st
        (λ org ws. record_if_own org ws id endpoint now st)

unfoldable pub handle_heartbeat_token : Str → Str → AuthUser → Str → ℕ → AppState → Reply × AppState
handle_heartbeat_token body_id endpoint user token_ep_id now st =
    let id = if is_empty body_id then token_ep_id else body_id in
    if not (is_empty body_id) && not (body_id === token_ep_id)
    then (not_found, st)
    else if is_empty id
    then (bad_request, st)
    else record_if_own user.organization_id user.workspace_id id endpoint now st
