-- ===== src/Control/Registry/Revocation.antt =====
-- crates/akurai-control/src/listener.rs: a token that was withdrawn.
use akur_ai_vpn.Base.{
  ℕ, Bool, true, ◌≡◌, ◌≢◌, refl, ap, sym, subst, ◌∙◌, List, [], ◌∷◌, Option, none, some, arith,
  ==_iff, Bool-cases, Option-cases, In, here, there, find, find-some, inl, inr,
}
use akur_ai_vpn.Base.Distinct.{IsDistinct}
use akur_ai_vpn.Base.Eq.{nat_eq, list_eq, ===_self, ===_eq}
use akur_ai_vpn.Base.Text.{Str}
use akur_ai_vpn.Control.VpnEndpoint.{VpnEndpoint, is_active}
use akur_ai_vpn.Control.Registry.{
  AuthUser, AuthSession, AppState, tenant_scope, csrf_valid, is_own, is_named, revoked, rotated,
  change_first, delete_endpoint, rotate_token,
}
use akur_ai_vpn.Control.Registry.Authentication.{
  Headers, node_token_from_req, user_of, carries, auth_node,
}
use akur_ai_vpn.Control.Registry.Steps.{Request, run, Changed, at, behind, change_first-Changed}
use akur_ai_vpn.Control.Registry.Tokens.{
  ids, tokens, IsDead, all_issued, In-map_lem, run-IsDead, auth_node-IsDead,
}

-- An element that passes the test is changed, or one before it is.
change_first_of_In :
    (test : VpnEndpoint → Bool) (change : VpnEndpoint → VpnEndpoint) (e : VpnEndpoint)
    (es : List VpnEndpoint)
    → In e es
    → test e ≡ true
    → (es' : List VpnEndpoint) × (change_first test change es ≡ some es')
unfolding change_first
change_first_of_In test change e [] m t = elim m [ ]
change_first_of_In test change e (d ∷ es) (here p) t =
    (change d ∷ es, rw (sym (ap test p) ∙ t) refl)
change_first_of_In test change e (d ∷ es) (there n) t = elim (Bool-cases (test d)) [
  | inl b ↦ (change d ∷ es, rw b refl)
  | inr b ↦
      let (es', found) = change_first_of_In test change e es n t in (d ∷ es', rw (b, found) refl)
]

-- A change of the one device that is named withdraws its token, if what it makes of the device is
-- inactive or carries another token.
named-IsDead :
    (org ws : Str) (change : VpnEndpoint → VpnEndpoint) (e : VpnEndpoint)
    → (is_active (change e) ≡ true → (change e).node_token ≡ e.node_token → ⊥)
    → is_own org ws e ≡ true
    → {es es' : List VpnEndpoint} → Changed (is_named org ws e.id) change es es'
    → In e es
    → IsDistinct (ids es)
    → IsDistinct (tokens es)
    → IsDead e.node_token es'
named-IsDead org ws change e kills own (at d es t) (here p) i k x (here q) =
    subst (λ (y : VpnEndpoint). is_active y ≡ true → y.node_token ≡ e.node_token → ⊥)
      (ap change p ∙ sym q) kills
named-IsDead org ws change e kills own (at d es t) (here p) i k x (there m) = λ active same. k.0 (
    subst (λ (s : Str). In s (tokens es)) (same ∙ ap (λ (y : VpnEndpoint). y.node_token) p)
      (In-map_lem (λ y. y.node_token) es m))
named-IsDead org ws change e kills own (at d es t) (there n) i k x m = absurd (
    i.0 (
      subst (λ (s : Str). In s (ids es)) (sym (===_eq d.id e.id (ground arith)))
        (In-map_lem (λ y. y.id) es n)))
named-IsDead org ws change e kills own (behind d t c) (here p) i k x m =
    absurd (ground (arith, ===_self e.id, ap (is_named org ws e.id) p))
named-IsDead org ws change e kills own (behind d {es} t c) (there n) i k x (here q) = λ active same.
    k.0 (
      subst (λ (s : Str). In s (tokens es))
        (sym (sym (ap (λ (y : VpnEndpoint). y.node_token) q) ∙ same))
        (In-map_lem (λ y. y.node_token) es n))
named-IsDead org ws change e kills own (behind d t c) (there n) i k x (there m) =
    named-IsDead org ws change e kills own c n i.1 k.1 x m

own_device :
    (e : VpnEndpoint) → is_active e ≡ true → is_own e.organization_id e.workspace_id e ≡ true
own_device e active = ground (arith, ===_self e.organization_id, ===_self e.workspace_id)

pair_of :
    {a b : AuthUser} {x y : Str}
    → ◌≡◌ {A = Option (AuthUser × Str)} (some (a, x)) (some (b, y))
    → (a ≡ b) × (x ≡ y)
pair_of {a} {x = x} p = (ap (λ o. (or_pair o).0) p, ap (λ o. (or_pair o).1) p)
  where
    or_pair : Option (AuthUser × Str) → AuthUser × Str
    or_pair none = (a, x)
    or_pair (some r) = r

-- Whom a token has authenticated.
auth_node-some :
    (headers : Headers) (st : AppState) (user : AuthUser) (id : Str)
    → auth_node headers st ≡ some (user, id)
    → (e : VpnEndpoint) × In e st.endpoints
      × (node_token_from_req headers ≡ some e.node_token)
      × (is_active e ≡ true)
      × (user_of e ≡ user)
      × (e.id ≡ id)
unfolding auth_node
auth_node-some headers st user id h = elim (Option-cases (node_token_from_req headers)) [
  | inl n ↦ cc
  | inr (token, given) ↦ elim (Option-cases (find (carries token) st.endpoints)) [
    | inl n ↦ cc
    | inr (e, found) ↦
        let (m, c) = find-some (carries token) st.endpoints found in
        (
          e,
          m,
          given ∙ ap some (sym (===_eq e.node_token token (ground arith))),
          ground arith,
          (pair_of (answer token e given found)).0,
          (pair_of (answer token e given found)).1,
        )
  ]
]
  where
    answer :
        (token : Str) (e : VpnEndpoint)
        → node_token_from_req headers ≡ some token
        → find (carries token) st.endpoints ≡ some e
        → ◌≡◌ {A = Option (AuthUser × Str)} (some (user_of e, e.id)) (some (user, id))
    answer token e given found = sym (rw (given, found) refl) ∙ h

-- The state after the withdrawal of a token, by whatever change of the device, and any requests.
withdrawn :
    (headers : Headers) (st' : AppState) (rs : List Request) (e : VpnEndpoint)
    → node_token_from_req headers ≡ some e.node_token
    → ((token : Str) → node_token_from_req headers ≡ some token → In token (all_issued rs) → ⊥)
    → IsDead e.node_token st'.endpoints
    → auth_node headers (run rs st') ≡ none
withdrawn headers st' rs e given new dead =
    auth_node-IsDead e.node_token headers (run rs st') given
      (run-IsDead e.node_token rs st' (new e.node_token given) dead)

-- Let no two devices share an id or a token, and let a token authenticate a device. If a user of the
-- device's tenant deletes the device, at a time other than 0, with a valid CSRF token, then the token
-- authenticates nobody, whether or not the registry was saved, and whatever requests follow, as long
-- as none of them generates that token again.
pub delete_endpoint-auth_node :
    (headers : Headers) (st : AppState) (user : AuthUser) (id : Str) (csrf : Option Str)
    (session : AuthSession) (now : ℕ) (saved : Bool) (rs : List Request)
    → auth_node headers st ≡ some (user, id)
    → IsDistinct (ids st.endpoints)
    → IsDistinct (tokens st.endpoints)
    → csrf_valid csrf session ≡ true
    → tenant_scope session.user ≡ some (user.organization_id, user.workspace_id)
    → now ≢ 0
    → ((token : Str) → node_token_from_req headers ≡ some token → In token (all_issued rs) → ⊥)
    → auth_node headers (run rs (delete_endpoint csrf id session now saved st).1) ≡ none
unfolding delete_endpoint
delete_endpoint-auth_node headers st user id csrf session now saved rs h i k c t n new =
    let (e, m, given, active, is_user, is_id) = auth_node-some headers st user id h in
    let own = own_device e active in
    let (es', found) =
      change_first_of_In (is_named e.organization_id e.workspace_id e.id) (revoked now) e
        st.endpoints m (ground (arith, ===_self e.id, own)) in
    withdrawn headers _ rs e given new (
      rw (c, t, sym is_user, sym is_id, found)
        (named-IsDead e.organization_id e.workspace_id (revoked now) e
          (λ still same. n ((==_iff now 0).0 still)) own
          (change_first-Changed _ _ st.endpoints found) m i k))

-- Let no two devices share an id or a token, and let a token authenticate a device. If a user of the
-- device's tenant rotates the device's token, with a valid CSRF token, and the new token is another
-- one, then the old token authenticates nobody, whether or not the registry was saved, and whatever
-- requests follow, as long as none of them generates that token again.
pub rotate_token-auth_node :
    (headers : Headers) (st : AppState) (user : AuthUser) (id : Str) (csrf : Option Str)
    (session : AuthSession) (fresh : Str) (now : ℕ) (saved : Bool) (rs : List Request)
    → auth_node headers st ≡ some (user, id)
    → IsDistinct (ids st.endpoints)
    → IsDistinct (tokens st.endpoints)
    → csrf_valid csrf session ≡ true
    → tenant_scope session.user ≡ some (user.organization_id, user.workspace_id)
    → node_token_from_req headers ≢ some fresh
    → ((token : Str) → node_token_from_req headers ≡ some token → In token (all_issued rs) → ⊥)
    → auth_node headers (run rs (rotate_token csrf id session fresh now saved st).1) ≡ none
unfolding rotate_token
rotate_token-auth_node headers st user id csrf session fresh now saved rs h i k c t n new =
    let (e, m, given, active, is_user, is_id) = auth_node-some headers st user id h in
    let own = own_device e active in
    let (es', found) =
      change_first_of_In (is_named e.organization_id e.workspace_id e.id) (rotated fresh now) e
        st.endpoints m (ground (arith, ===_self e.id, own)) in
    withdrawn headers _ rs e given new (
      rw (c, t, sym is_user, sym is_id, found)
        (named-IsDead e.organization_id e.workspace_id (rotated fresh now) e
          (λ still same. n (given ∙ ap some (sym same))) own
          (change_first-Changed _ _ st.endpoints found) m i k))
