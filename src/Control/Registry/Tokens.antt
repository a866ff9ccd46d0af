-- ===== src/Control/Registry/Tokens.antt =====
-- crates/akurai-control/src/listener.rs: the tokens that authenticate a device.
use akur_ai_vpn.Base.{
  true, ◌≡◌, refl, ap, sym, subst, ◌∙◌, List, [], ◌∷◌, ◌++◌, map, none, some, arith, Option-cases,
  In, here, there, find, find-some, In-append_left, inl, inr,
}
use akur_ai_vpn.Base.Distinct.{In-append_cases, In-append_right}
use akur_ai_vpn.Base.Eq.{nat_eq, list_eq, ===_eq}
use akur_ai_vpn.Base.Text.{Str}
use akur_ai_vpn.Control.VpnEndpoint.{VpnEndpoint, is_active}
use akur_ai_vpn.Control.Registry.{AppState, is_named, revoked, rotated}
use akur_ai_vpn.Control.Registry.Enrollment.{new_endpoint}
use akur_ai_vpn.Control.Registry.Authentication.{Headers, node_token_from_req, carries, auth_node}
use akur_ai_vpn.Control.Registry.Steps.{
  Request, add, rotate, handle, run, Changed, at, behind, Effect, unchanged, pushed, revokes,
  rotates, handle-Effect,
}

abbrev pub ids : List VpnEndpoint → List Str
ids es = map (λ e. e.id) es

abbrev pub tokens : List VpnEndpoint → List Str
tokens es = map (λ e. e.node_token) es

pub In-map_lem :
    (f : VpnEndpoint → Str) {e : VpnEndpoint} (es : List VpnEndpoint)
    → In e es
    → In (f e) (map f es)
In-map_lem f [] m = elim m [ ]
In-map_lem f (x ∷ es) (here p) = here (ap f p)
In-map_lem f (x ∷ es) (there m) = there (In-map_lem f es m)

-- No active device carries the token.
abbrev pub IsDead : Str → List VpnEndpoint → Type 0
IsDead token es = (e : VpnEndpoint) → In e es → is_active e ≡ true → e.node_token ≡ token → ⊥

-- The tokens that the system generates for a request.
abbrev pub issued : Request → List Str
issued (add csrf r session fresh saved) = fresh.node_token ∷ []
issued (rotate csrf id session token now saved) = token ∷ []
issued _ = []

abbrev pub all_issued : List Request → List Str
all_issued [] = []
all_issued (r ∷ rs) = issued r ++ all_issued rs

Changed-IsDead :
    (org ws id token : Str) (change : VpnEndpoint → VpnEndpoint)
    → ((e : VpnEndpoint)
        → is_active e ≡ true
        → (e.node_token ≡ token → ⊥)
        → is_active (change e) ≡ true
        → (change e).node_token ≡ token
        → ⊥)
    → {es es' : List VpnEndpoint} → Changed (is_named org ws id) change es es'
    → IsDead token es
    → IsDead token es'
Changed-IsDead org ws id token change kills (at d es t) dead e (here p) =
    subst (λ (x : VpnEndpoint). is_active x ≡ true → x.node_token ≡ token → ⊥) (sym p)
      (kills d (ground arith) (dead d (here refl) (ground arith)))
Changed-IsDead org ws id token change kills (at d es t) dead e (there m) = dead e (there m)
Changed-IsDead org ws id token change kills (behind d t c) dead e (here p) = dead e (here p)
Changed-IsDead org ws id token change kills (behind d t c) dead e (there m) =
    Changed-IsDead org ws id token change kills c (λ x n. dead x (there n)) e m

Effect-IsDead :
    (token : Str) {r : Request} {es es' : List VpnEndpoint}
    → Effect r es es'
    → (In token (issued r) → ⊥)
    → IsDead token es
    → IsDead token es'
unfolding new_endpoint
Effect-IsDead token (unchanged r es) new dead = dead
Effect-IsDead token (pushed csrf r session fresh org ws es t) new dead = λ e m.
    elim (In-append_cases e es _ m) [
      | inl a ↦ dead e a
      | inr (here p) ↦
          λ active same. new (here (sym same ∙ ap (λ (x : VpnEndpoint). x.node_token) p))
      | inr (there n) ↦ elim n [ ]
    ]
Effect-IsDead token (revokes csrf id session now saved org ws t c) new dead =
    Changed-IsDead org ws id token (revoked now) (λ e active other still same. other same) c dead
Effect-IsDead token (rotates csrf id session given now saved org ws t c) new dead =
    Changed-IsDead org ws id token (rotated given now)
      (λ e active other still same. new (here (sym same))) c dead

pub run-IsDead :
    (token : Str) (rs : List Request) (st : AppState)
    → (In token (all_issued rs) → ⊥)
    → IsDead token st.endpoints
    → IsDead token (run rs st).endpoints
unfolding run
run-IsDead token [] st new dead = dead
run-IsDead token (r ∷ rs) st new dead =
    run-IsDead token rs (handle r st).1
      (λ m. new (In-append_right token (issued r) (all_issued rs) m))
      (Effect-IsDead token (handle-Effect r st)
        (λ m. new (In-append_left token (issued r) (all_issued rs) m)) dead)

pub auth_node-IsDead :
    (token : Str) (headers : Headers) (st : AppState)
    → node_token_from_req headers ≡ some token
    → IsDead token st.endpoints
    → auth_node headers st ≡ none
unfolding auth_node
auth_node-IsDead token headers st h dead = elim (Option-cases (find (carries token) st.endpoints)) [
  | inl n ↦ rw (h, n) refl
  | inr (e, found) ↦
      let (m, c) = find-some (carries token) st.endpoints found in
      absurd (dead e m (ground arith) (===_eq e.node_token token (ground arith)))
]
