-- ===== src/Control/PeerMap/Isolation.antt =====
-- crates/akurai-control/src/peermap.rs: what other tenants' requests do to the view.
use akur_ai_vpn.Base.{
  ℕ, true, false, ◌≡◌, refl, ap, ap₂, sym, subst, ◌∙◌, inl, inr, List, [], ◌∷◌, ◌++◌, Option, arith,
  Bool-cases, In, here, there, ◌&&◌, map,
}
use akur_ai_vpn.Base.Distinct.{IsDistinct}
use akur_ai_vpn.Base.Eq.{nat_eq, list_eq, ===_eq, ===_self}
use akur_ai_vpn.Base.Maps.{get}
use akur_ai_vpn.Base.Text.{Str}
use akur_ai_vpn.Control.Heartbeat.{Heartbeat}
use akur_ai_vpn.Control.Ipam.{used_indices}
use akur_ai_vpn.Control.VpnEndpoint.{VpnEndpoint, belongs_to}
use akur_ai_vpn.Control.Registry.{AppState, is_own, is_named, revoked, rotated}
use akur_ai_vpn.Control.Registry.Enrollment.{new_endpoint}
use akur_ai_vpn.Control.Registry.Steps.{
  Request, handle, Changed, at, behind, Effect, unchanged, pushed, revokes, rotates, handle-Effect,
}
use akur_ai_vpn.Control.Registry.Tenants.{user_of_request, scope_is}
use akur_ai_vpn.Control.Registry.Tokens.{ids, In-map_lem}
use akur_ai_vpn.Control.PeerMap.{is_not, peers, peer_json, build_peermap_json, join}
use akur_ai_vpn.Control.PeerMap.Heartbeats.{Owned, handle-Kept}

-- A device that belongs to one tenant is not seen by another.
foreign :
    (e : VpnEndpoint) (a b org ws : Str)
    → belongs_to e a b ≡ true
    → (a ≡ org → b ≡ ws → ⊥)
    → is_own org ws e ≡ false
foreign e a b org ws mine apart = elim (Bool-cases (is_own org ws e)) [
  | inr n ↦ n
  | inl o ↦ absurd (
      apart
        (sym (===_eq e.organization_id a (ground arith))
          ∙ ===_eq e.organization_id org (ground arith))
        (sym (===_eq e.workspace_id b (ground arith)) ∙ ===_eq e.workspace_id ws (ground arith)))
]

module _ (org ws : Str) (self_id : Option Str) where
  peers-foreign :
      (e : VpnEndpoint) (es : List VpnEndpoint)
      → is_own org ws e ≡ false
      → peers org ws self_id (e ∷ es) ≡ peers org ws self_id es
  unfolding peers
  peers-foreign e es n = rw n refl

  peers-push :
      (es : List VpnEndpoint) (e : VpnEndpoint)
      → is_own org ws e ≡ false
      → peers org ws self_id (es ++ (e ∷ [])) ≡ peers org ws self_id es
  unfolding peers
  peers-push [] e n = rw n refl
  peers-push (x ∷ es) e n = rw (peers-push es e n) refl

  Changed-peers :
      (a b id : Str) (change : VpnEndpoint → VpnEndpoint)
      → ((e : VpnEndpoint) → belongs_to (change e) a b ≡ belongs_to e a b)
      → (a ≡ org → b ≡ ws → ⊥)
      → {es es' : List VpnEndpoint} → Changed (is_named a b id) change es es'
      → peers org ws self_id es' ≡ peers org ws self_id es
  unfolding peers
  Changed-peers a b id change keeps apart (at e es t) =
      peers-foreign (change e) es (foreign (change e) a b org ws (ground (arith, keeps e)) apart)
      ∙ sym (peers-foreign e es (foreign e a b org ws (ground arith) apart))
  Changed-peers a b id change keeps apart (behind e t c) =
      rw (Changed-peers a b id change keeps apart c) refl

  Effect-peers :
      {r : Request} {es es' : List VpnEndpoint}
      → Effect r es es'
      → ((user_of_request r).organization_id ≡ org → (user_of_request r).workspace_id ≡ ws → ⊥)
      → peers org ws self_id es' ≡ peers org ws self_id es
  unfolding new_endpoint
  Effect-peers (unchanged r es) apart = refl
  Effect-peers (pushed csrf r session fresh a b es t) apart =
      let (p, q) = scope_is session.user a b t in
      peers-push es (new_endpoint r session.user a b fresh (used_indices es)) (
        foreign (new_endpoint r session.user a b fresh (used_indices es)) a b org ws
          (ground (arith, ===_self a, ===_self b)) (λ x y. apart (p ∙ x) (q ∙ y)))
  Effect-peers (revokes csrf id session now saved a b t c) apart =
      let (p, q) = scope_is session.user a b t in
      Changed-peers a b id (revoked now) (λ e. refl) (λ x y. apart (p ∙ x) (q ∙ y)) c
  Effect-peers (rotates csrf id session token now saved a b t c) apart =
      let (p, q) = scope_is session.user a b t in
      Changed-peers a b id (rotated token now) (λ e. refl) (λ x y. apart (p ∙ x) (q ∙ y)) c

  peers-In :
      (e : VpnEndpoint) (es : List VpnEndpoint)
      → In e (peers org ws self_id es)
      → In e es × (is_own org ws e ≡ true)
  unfolding peers
  peers-In e [] m = elim m [ ]
  peers-In e (x ∷ es) m = elim (Bool-cases (is_own org ws x && is_not self_id x)) [
    | inr n ↦ let (k, o) = peers-In e es (subst (In e) (rw n refl) m) in (there k, o)
    | inl s ↦ seen s (subst (In e) (rw s refl) m) (peers-In e es)
  ]
    where
      seen :
          (is_own org ws x && is_not self_id x) ≡ true
          → In e (x ∷ peers org ws self_id es)
          → (In e (peers org ws self_id es) → In e es × (is_own org ws e ≡ true))
          → In e (x ∷ es) × (is_own org ws e ≡ true)
      seen s (here p) rest = (here p, ap (is_own org ws) p ∙ ground arith)
      seen s (there k) rest = let (n, o) = rest k in (there n, o)

-- Devices of one registry with the same id are the same, if no id is there twice.
same_of_id :
    (es : List VpnEndpoint) (d e : VpnEndpoint)
    → IsDistinct (ids es)
    → In d es
    → In e es
    → d.id ≡ e.id
    → d ≡ e
same_of_id [] d e i m n p = elim m [ ]
same_of_id (x ∷ es) d e i (here a) (here b) p = a ∙ sym b
same_of_id (x ∷ es) d e i (here a) (there n) p = absurd (
    i.0 (
      subst (λ (s : Str). In s (ids es)) (sym p ∙ ap (λ (y : VpnEndpoint). y.id) a)
        (In-map_lem (λ y. y.id) es n)))
same_of_id (x ∷ es) d e i (there m) (here b) p = absurd (
    i.0 (
      subst (λ (s : Str). In s (ids es)) (p ∙ ap (λ (y : VpnEndpoint). y.id) b)
        (In-map_lem (λ y. y.id) es m)))
same_of_id (x ∷ es) d e i (there m) (there n) p = same_of_id es d e i.1 m n p

shown_same :
    (h h' : List (Str × Heartbeat)) (now : ℕ) (es : List VpnEndpoint)
    → ((e : VpnEndpoint) → In e es → get e.id h' ≡ get e.id h)
    → map (λ e. peer_json e h' now) es ≡ map (λ e. peer_json e h now) es
unfolding peer_json
shown_same h h' now [] same = refl
shown_same h h' now (e ∷ es) same =
    ap₂ ◌∷◌ (rw (same e (here refl)) refl) (shown_same h h' now es (λ d m. same d (there m)))

-- If no two devices share an id, a request changes nothing that a device of another tenant than its
-- user's receives as its peer map, at any time: neither the peers, nor their addresses, nor whether
-- they are online.
pub handle-build_peermap_json :
    (r : Request) (st : AppState) (org ws : Str) (self_id : Option Str) (now : ℕ)
    → IsDistinct (ids st.endpoints)
    → ((user_of_request r).organization_id ≡ org → (user_of_request r).workspace_id ≡ ws → ⊥)
    → build_peermap_json (handle r st).1.endpoints (handle r st).1.heartbeats org ws self_id now
      ≡ build_peermap_json st.endpoints st.heartbeats org ws self_id now
unfolding build_peermap_json
handle-build_peermap_json r st org ws self_id now i apart =
    ap (λ (s : List Str). 91 ∷ join s ++ (93 ∷ 10 ∷ []))
      (ap (map (λ e. peer_json e (handle r st).1.heartbeats now))
          (Effect-peers org ws self_id (handle-Effect r st) apart)
        ∙ shown_same st.heartbeats (handle r st).1.heartbeats now
            (peers org ws self_id st.endpoints) kept)
  where
    not_own :
        (e : VpnEndpoint)
        → In e (peers org ws self_id st.endpoints)
        → Owned
            (user_of_request r).organization_id
            (user_of_request r).workspace_id
            e.id
            st.endpoints
        → ⊥
    not_own e m o =
        let (k, own) = peers-In org ws self_id e st.endpoints m in
        let same = same_of_id st.endpoints o.device e i o.registered k o.has_id in
        cc (foreign o.device _ _ org ws o.in_tenant apart, ap (is_own org ws) same, own)

    kept :
        (e : VpnEndpoint)
        → In e (peers org ws self_id st.endpoints)
        → get e.id (handle r st).1.heartbeats ≡ get e.id st.heartbeats
    kept e m = elim (handle-Kept r e.id st) [ inl same ↦ same | inr o ↦ absurd (not_own e m o) ]
