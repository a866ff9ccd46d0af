-- ===== src/Control/Registry/Authentication.antt =====
-- crates/akurai-control/src/listener.rs: the authentication of a device by its token.
use akur_ai_vpn.Base.{Bool, not, ◌&&◌, List, [], ◌∷◌, Option, none, some, find, ◌>>=◌}
use akur_ai_vpn.Base.Eq.{nat_eq, list_eq, ◌===◌}
use akur_ai_vpn.Base.Maps.{get}
use akur_ai_vpn.Base.Text.{Str, is_empty, trim, strip_prefix}
use akur_ai_vpn.Control.VpnEndpoint.{VpnEndpoint, is_active}
use akur_ai_vpn.Control.Registry.{AuthUser, AppState}

abbrev pub Headers : Type 0
Headers = List (Str × Str)

-- "authorization", "x-node-token" and "Bearer "
abbrev pub authorization : Str
authorization = 97 ∷ 117 ∷ 116 ∷ 104 ∷ 111 ∷ 114 ∷ 105 ∷ 122 ∷ 97 ∷ 116 ∷ 105 ∷ 111 ∷ 110 ∷ []

abbrev pub x_node_token : Str
x_node_token = 120 ∷ 45 ∷ 110 ∷ 111 ∷ 100 ∷ 101 ∷ 45 ∷ 116 ∷ 111 ∷ 107 ∷ 101 ∷ 110 ∷ []

abbrev pub bearer : Str
bearer = 66 ∷ 101 ∷ 97 ∷ 114 ∷ 101 ∷ 114 ∷ 32 ∷ []

abbrev pub nonempty : Str → Option Str
nonempty [] = none
nonempty (c ∷ cs) = some (c ∷ cs)

abbrev pub or_token : Option Str → Option Str → Option Str
or_token none later = later
or_token (some t) later = some t

unfoldable pub node_token_from_req : Headers → Option Str
node_token_from_req headers =
    or_token
      (get authorization headers >>= λ h. strip_prefix bearer h >>= λ rest. nonempty (trim rest))
      (get x_node_token headers >>= λ t. nonempty (trim t))

abbrev pub user_of : VpnEndpoint → AuthUser
user_of e = record {
  sub = e.added_by;
  email = e.added_by;
  name = [];
  organization_id = e.organization_id;
  workspace_id = e.workspace_id;
}

abbrev pub carries : Str → VpnEndpoint → Bool
carries token e = is_active e && not (is_empty e.node_token) && e.node_token === token

unfoldable pub auth_node : Headers → AppState → Option (AuthUser × Str)
auth_node headers st = node_token_from_req headers >>= λ token.
    find (carries token) st.endpoints >>= λ e. some (user_of e, e.id)
