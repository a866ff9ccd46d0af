-- ===== src/Control/PeerMap/Heartbeats.antt =====
-- crates/akurai-control/src/listener.rs: whose heartbeats a request changes.
use akur_ai_vpn.Base.{
  ℕ, Bool, true, false, ◌≡◌, refl, ◌∙◌, ◌⊎◌, inl, inr, List, Option, none, some, arith, Bool-cases,
  Option-cases, In, here, there, any, any→In, if◌then◌else◌, ◌&&◌, ◌||◌, not, find,
}
use akur_ai_vpn.Base.Eq.{nat_eq, list_eq, ◌===◌, ===_eq}
use akur_ai_vpn.Base.Maps.{get, get-insert, get-remove}
use akur_ai_vpn.Base.Text.{Str, is_empty}
use akur_ai_vpn.Control.Ipam.{used_indices}
use akur_ai_vpn.Control.VpnEndpoint.{VpnEndpoint, belongs_to}
use akur_ai_vpn.Control.Registry.{
  AuthUser, AppState, Reply, bad_request, not_found, tenant_scope, in_tenant, csrf_valid, is_own,
  is_named, change_first, revoked, rotated, after_revocation, after_rotation, delete_endpoint,
  rotate_token, record_if_own, handle_heartbeat, handle_heartbeat_token,
}
use akur_ai_vpn.Control.Registry.Enrollment.{
  new_endpoint, reuse_or_push, do_add_endpoint, add_endpoint_json,
}
use akur_ai_vpn.Control.Registry.Steps.{
  Request, add, delete, rotate, heartbeat, heartbeat_token, handle, Changed, at, behind,
  change_first-Changed,
}
use akur_ai_vpn.Control.Registry.Tenants.{user_of_request, scope_is}

-- A device with the id that belongs to the tenant.
pub record Owned (org ws k : Str) (es : List VpnEndpoint) : Type 0 where
  pub device : VpnEndpoint
  pub registered : In device es
  pub in_tenant : belongs_to device org ws ≡ true
  pub has_id : device.id ≡ k

-- The heartbeat of an id is as it was, or the id is that of a device of the tenant.
abbrev pub Kept : Str → Str → Str → AppState → AppState → Type 0
Kept org ws k st st' = (get k st'.heartbeats ≡ get k st.heartbeats) ⊎ Owned org ws k st.endpoints

is_named-Owned :
    (org ws id k : Str) (es : List VpnEndpoint) (d : VpnEndpoint)
    → In d es
    → is_named org ws id d ≡ true
    → (id === k) ≡ true
    → Owned org ws k es
is_named-Owned org ws id k es d m named same = record {
  device = d;
  registered = m;
  in_tenant = ground arith;
  has_id = ===_eq d.id id (ground arith) ∙ ===_eq id k same;
}

in_tenant-Kept :
    (user : AuthUser) (k : Str) (st : AppState) (handler : Str → Str → Reply × AppState)
    → ((org ws : Str) → Kept org ws k st (handler org ws).1)
    → Kept user.organization_id user.workspace_id k st (in_tenant (tenant_scope user) st handler).1
in_tenant-Kept user k st handler kept = elim (Option-cases (tenant_scope user)) [
  | inl t ↦ rw t (inl refl)
  | inr ((org, ws), t) ↦ let (p, q) = scope_is user org ws t in rw (t, p, q) (kept org ws)
]

record_if_own-Kept :
    (org ws id endpoint : Str) (now : ℕ) (k : Str) (st : AppState)
    → Kept org ws k st (record_if_own org ws id endpoint now st).1
record_if_own-Kept org ws id endpoint now k st =
    elim (Bool-cases (any (is_named org ws id) st.endpoints)) [
      | inr a ↦ rw a (inl refl)
      | inl a ↦ elim (Bool-cases (id === k)) [
        | inr n ↦ rw a (inl (get-insert id k _ st.heartbeats ∙ rw n refl))
        | inl same ↦
            let (d, m, named) = any→In (is_named org ws id) st.endpoints a in
            inr (is_named-Owned org ws id k st.endpoints d m named same)
      ]
    ]

changed_one :
    (test : VpnEndpoint → Bool) (change : VpnEndpoint → VpnEndpoint) {es es' : List VpnEndpoint}
    → Changed test change es es'
    → (d : VpnEndpoint) × In d es × (test d ≡ true)
changed_one test change (at e es t) = (e, here refl, t)
changed_one test change (behind e t c) =
    let (d, m, h) = changed_one test change c in (d, there m, h)

after_revocation-Kept :
    (org ws id : Str) (now : ℕ) (saved : Bool) (k : Str) (st : AppState)
    → Kept org ws k st
        (after_revocation
          (change_first (is_named org ws id) (revoked now) st.endpoints)
          id
          saved
          st).1
after_revocation-Kept org ws id now saved k st =
    elim (Option-cases (change_first (is_named org ws id) (revoked now) st.endpoints)) [
      | inl n ↦ rw n (inl refl)
      | inr (es, found) ↦ elim (Bool-cases (id === k)) [
        | inr n ↦ rw found (inl (get-remove id k st.heartbeats ∙ rw n refl))
        | inl same ↦
            let (d, m, named) = changed_one _ _ (change_first-Changed _ _ st.endpoints found) in
            inr (is_named-Owned org ws id k st.endpoints d m named same)
      ]
    ]

after_rotation-Kept :
    (org ws : Str) (k : Str) (changed : Option (List VpnEndpoint)) (saved : Bool) (st : AppState)
    → Kept org ws k st (after_rotation changed saved st).1
after_rotation-Kept org ws k none saved st = inl refl
after_rotation-Kept org ws k (some es) saved st = inl refl

reuse_or_push-Kept :
    (org ws k : Str) (existing : Option VpnEndpoint) (saved : Bool) (e : VpnEndpoint)
    (st : AppState)
    → Kept org ws k st (reuse_or_push existing saved e st).1
reuse_or_push-Kept org ws k (some d) saved e st = inl refl
reuse_or_push-Kept org ws k none true e st = inl refl
reuse_or_push-Kept org ws k none false e st = inl refl

unless :
    (b : Bool) (reply : Reply) (org ws k : Str) (st : AppState) (r : Reply × AppState)
    → Kept org ws k st r.1
    → Kept org ws k st (if b then (reply, st) else r).1
unless true reply org ws k st r h = inl refl
unless false reply org ws k st r h = h

-- A request changes the heartbeats of devices of its user's tenant only.
pub handle-Kept :
    (r : Request) (k : Str) (st : AppState)
    → Kept (user_of_request r).organization_id (user_of_request r).workspace_id k st (handle r st).1
unfolding add_endpoint_json do_add_endpoint delete_endpoint rotate_token handle_heartbeat
    handle_heartbeat_token
handle-Kept (add csrf r session fresh saved) k st =
    unless (not (csrf_valid csrf session)) bad_request _ _ k st _ (
      unless (is_empty r.name || is_empty r.public_key) bad_request _ _ k st _ (
        in_tenant-Kept session.user k st _ (λ org ws.
          reuse_or_push-Kept org ws k
            (find (λ e. is_own org ws e && e.public_key === r.public_key) st.endpoints) saved
            (new_endpoint r session.user org ws fresh (used_indices st.endpoints)) st)))
handle-Kept (delete csrf id session now saved) k st =
    unless (not (csrf_valid csrf session)) bad_request _ _ k st _ (
      in_tenant-Kept session.user k st _ (λ org ws. after_revocation-Kept org ws id now saved k st))
handle-Kept (rotate csrf id session token now saved) k st =
    unless (not (csrf_valid csrf session)) bad_request _ _ k st _ (
      in_tenant-Kept session.user k st _ (λ org ws.
        after_rotation-Kept org ws k
          (change_first (is_named org ws id) (rotated token now) st.endpoints) saved st))
handle-Kept (heartbeat csrf id endpoint session now) k st =
    unless (not (csrf_valid csrf session)) bad_request _ _ k st _ (
      unless (is_empty id) bad_request _ _ k st _ (
        in_tenant-Kept session.user k st _
          (λ org ws. record_if_own-Kept org ws id endpoint now k st)))
handle-Kept (heartbeat_token body_id endpoint user token_ep_id now) k st =
    unless (not (is_empty body_id) && not (body_id === token_ep_id)) not_found _ _ k st _ (
      unless (is_empty (if is_empty body_id then token_ep_id else body_id)) bad_request _ _ k st _ (
        record_if_own-Kept user.organization_id user.workspace_id
          (if is_empty body_id then token_ep_id else body_id) endpoint now k st))
