-- ===== src/Control/Registry/Tenants.antt =====
-- crates/akurai-control/src/listener.rs: what a user's requests leave of the devices of others.
use akur_ai_vpn.Base.{true, ◌≡◌, refl, List, [], ◌∷◌, ◌++◌, some, arith, if◌then◌else◌}
use akur_ai_vpn.Base.Eq.{nat_eq, list_eq, ===_self}
use akur_ai_vpn.Base.Text.{Str}
use akur_ai_vpn.Control.Ipam.{used_indices}
use akur_ai_vpn.Control.VpnEndpoint.{VpnEndpoint, belongs_to}
use akur_ai_vpn.Control.Registry.{AuthUser, AppState, tenant_scope, is_named, revoked, rotated}
use akur_ai_vpn.Control.Registry.Enrollment.{new_endpoint}
use akur_ai_vpn.Control.Registry.Steps.{
  Request, add, delete, rotate, heartbeat, heartbeat_token, handle, Changed, at, behind, Effect,
  unchanged, pushed, revokes, rotates, handle-Effect,
}

-- The user whose session or device a request comes from.
abbrev pub user_of_request : Request → AuthUser
user_of_request (add csrf r session fresh saved) = session.user
user_of_request (delete csrf id session now saved) = session.user
user_of_request (rotate csrf id session token now saved) = session.user
user_of_request (heartbeat csrf id endpoint session now) = session.user
user_of_request (heartbeat_token body_id endpoint user token_ep_id now) = user

-- The devices that do not belong to a tenant, in order.
abbrev pub others : Str → Str → List VpnEndpoint → List VpnEndpoint
others org ws [] = []
others org ws (e ∷ es) =
    let rest = others org ws es in if belongs_to e org ws then rest else e ∷ rest

pub scope_is :
    (user : AuthUser) (org ws : Str)
    → tenant_scope user ≡ some (org, ws)
    → (user.organization_id ≡ org) × (user.workspace_id ≡ ws)
unfolding tenant_scope
scope_is user org ws h = (ground arith, ground arith)

others-push :
    (org ws : Str) (es : List VpnEndpoint) (e : VpnEndpoint)
    → belongs_to e org ws ≡ true
    → others org ws (es ++ (e ∷ [])) ≡ others org ws es
others-push org ws [] e b = rw b refl
others-push org ws (x ∷ es) e b = rw (others-push org ws es e b) refl

Changed-others :
    (org ws id : Str) (change : VpnEndpoint → VpnEndpoint)
    → ((e : VpnEndpoint) → belongs_to (change e) org ws ≡ belongs_to e org ws)
    → {es es' : List VpnEndpoint} → Changed (is_named org ws id) change es es'
    → others org ws es' ≡ others org ws es
Changed-others org ws id change keeps (at e es t) = ground (arith, keeps e)
Changed-others org ws id change keeps (behind e t c) =
    rw (Changed-others org ws id change keeps c) refl

Effect-others :
    {r : Request} {es es' : List VpnEndpoint}
    → Effect r es es'
    → others (user_of_request r).organization_id (user_of_request r).workspace_id es'
      ≡ others (user_of_request r).organization_id (user_of_request r).workspace_id es
unfolding new_endpoint
Effect-others (unchanged r es) = refl
Effect-others (pushed csrf r session fresh org ws es t) =
    let (p, q) = scope_is session.user org ws t in
    rw (p, q)
      (others-push org ws es (new_endpoint r session.user org ws fresh (used_indices es))
        (ground (arith, ===_self org, ===_self ws)))
Effect-others (revokes csrf id session now saved org ws t c) =
    let (p, q) = scope_is session.user org ws t in
    rw (p, q) (Changed-others org ws id (revoked now) (λ e. refl) c)
Effect-others (rotates csrf id session token now saved org ws t c) =
    let (p, q) = scope_is session.user org ws t in
    rw (p, q) (Changed-others org ws id (rotated token now) (λ e. refl) c)

-- A request leaves every device that does not belong to its user's tenant as it was, and in its
-- place among the others, whatever it asks for.
pub handle-others :
    (r : Request) (st : AppState)
    → others
        (user_of_request r).organization_id
        (user_of_request r).workspace_id
        (handle r st).1.endpoints
      ≡ others (user_of_request r).organization_id (user_of_request r).workspace_id st.endpoints
handle-others r st = Effect-others (handle-Effect r st)
