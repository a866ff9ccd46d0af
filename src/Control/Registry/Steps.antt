-- ===== src/Control/Registry/Steps.antt =====
-- crates/akurai-control/src/listener.rs: runs of the handlers that change the registry.
use akur_ai_vpn.Base.{
  ℕ, Bool, true, false, ◌||◌, ◌≡◌, inl, inr, List, [], ◌∷◌, ◌++◌, Option, none, some, subst, arith,
  Bool-cases, Option-cases, find,
}
use akur_ai_vpn.Base.Eq.{nat_eq, list_eq}
use akur_ai_vpn.Base.Text.{Str, is_empty}
use akur_ai_vpn.Control.Ipam.{used_indices}
use akur_ai_vpn.Control.VpnEndpoint.{VpnEndpoint}
use akur_ai_vpn.Control.Registry.{
  AuthUser, AuthSession, AppState, Reply, tenant_scope, csrf_valid, is_named, record_if_own,
  change_first, revoked, rotated, delete_endpoint, rotate_token, handle_heartbeat,
  handle_heartbeat_token,
}
use akur_ai_vpn.Control.Registry.Enrollment.{
  Enrollment, Fresh, new_endpoint, reuse_or_push, do_add_endpoint, add_endpoint_json,
}

-- One request that reaches a handler, with what the system adds to it.
pub data Request : Type 0 where
  add : Option Str → Enrollment → AuthSession → Fresh → Bool → Request
  delete : Option Str → Str → AuthSession → ℕ → Bool → Request
  rotate : Option Str → Str → AuthSession → Str → ℕ → Bool → Request
  heartbeat : Option Str → Str → Str → AuthSession → ℕ → Request
  heartbeat_token : Str → Str → AuthUser → Str → ℕ → Request

abbrev pub handle : Request → AppState → Reply × AppState
handle (add csrf r session fresh saved) st = add_endpoint_json csrf r session fresh saved st
handle (delete csrf id session now saved) st = delete_endpoint csrf id session now saved st
handle (rotate csrf id session token now saved) st = rotate_token csrf id session token now saved st
handle (heartbeat csrf id endpoint session now) st =
    handle_heartbeat csrf id endpoint session now st
handle (heartbeat_token body_id endpoint user token_ep_id now) st =
    handle_heartbeat_token body_id endpoint user token_ep_id now st

unfoldable pub run : List Request → AppState → AppState
run [] st = st
run (r ∷ rs) st = run rs (handle r st).1

-- What a change of the first device that passes a test has done.
pub data Changed (test : VpnEndpoint → Bool) (change : VpnEndpoint → VpnEndpoint)
    : List VpnEndpoint → List VpnEndpoint → Type 0 where
  at :
      (e : VpnEndpoint) (es : List VpnEndpoint)
      → test e ≡ true
      → Changed test change (e ∷ es) (change e ∷ es)
  behind :
      (e : VpnEndpoint) {es es' : List VpnEndpoint}
      → test e ≡ false
      → Changed test change es es'
      → Changed test change (e ∷ es) (e ∷ es')

pub change_first-Changed :
    (test : VpnEndpoint → Bool) (change : VpnEndpoint → VpnEndpoint) (es : List VpnEndpoint)
    {es' : List VpnEndpoint}
    → change_first test change es ≡ some es'
    → Changed test change es es'
unfolding change_first
change_first-Changed test change [] h = cc
change_first-Changed test change (e ∷ es) {es'} h = elim (Bool-cases (test e)) [
  | inl t ↦ subst (Changed test change (e ∷ es)) (given t) (at e es t)
  | inr t ↦ elim (Option-cases (change_first test change es)) [
    | inl n ↦ cc
    | inr (rest, found) ↦
        subst (Changed test change (e ∷ es)) (behind_is t rest found)
          (behind e t (change_first-Changed test change es found))
  ]
]
  where
    given : test e ≡ true → change e ∷ es ≡ es'
    given t = ground arith

    behind_is :
        test e ≡ false
        → (rest : List VpnEndpoint) → change_first test change es ≡ some rest
        → e ∷ rest ≡ es'
    behind_is t rest found = ground arith

-- What a handler does to the list of devices.
pub data Effect : Request → List VpnEndpoint → List VpnEndpoint → Type 0 where
  unchanged : (r : Request) (es : List VpnEndpoint) → Effect r es es
  pushed :
      (csrf : Option Str) (r : Enrollment) (session : AuthSession) (fresh : Fresh) (org ws : Str)
      (es : List VpnEndpoint)
      → tenant_scope session.user ≡ some (org, ws)
      → Effect
          (add csrf r session fresh true)
          es
          (es ++ (new_endpoint r session.user org ws fresh (used_indices es) ∷ []))
  revokes :
      (csrf : Option Str) (id : Str) (session : AuthSession) (now : ℕ) (saved : Bool) (org ws : Str)
      {es es' : List VpnEndpoint}
      → tenant_scope session.user ≡ some (org, ws)
      → Changed (is_named org ws id) (revoked now) es es'
      → Effect (delete csrf id session now saved) es es'
  rotates :
      (csrf : Option Str) (id : Str) (session : AuthSession) (token : Str) (now : ℕ) (saved : Bool)
      (org ws : Str) {es es' : List VpnEndpoint}
      → tenant_scope session.user ≡ some (org, ws)
      → Changed (is_named org ws id) (rotated token now) es es'
      → Effect (rotate csrf id session token now saved) es es'

add-Effect :
    (csrf : Option Str) (r : Enrollment) (session : AuthSession) (fresh : Fresh) (saved : Bool)
    (st : AppState)
    → Effect
        (add csrf r session fresh saved)
        st.endpoints
        (add_endpoint_json csrf r session fresh saved st).1.endpoints
unfolding add_endpoint_json do_add_endpoint
add-Effect csrf r session fresh saved st = elim (Bool-cases (csrf_valid csrf session)) [
  | inr c ↦ rw c (unchanged _ _)
  | inl c ↦ elim (Bool-cases (is_empty r.name || is_empty r.public_key)) [
    | inl m ↦ rw (c, m) (unchanged _ _)
    | inr m ↦ elim (Option-cases (tenant_scope session.user)) [
      | inl t ↦ rw (c, m, t) (unchanged _ _)
      | inr ((org, ws), t) ↦ rw (c, m, t) (reused org ws t saved (find _ st.endpoints))
    ]
  ]
]
  where
    reused :
        (org ws : Str)
        → tenant_scope session.user ≡ some (org, ws)
        → (saved : Bool) (existing : Option VpnEndpoint)
        → Effect
            (add csrf r session fresh saved)
            st.endpoints
            (reuse_or_push existing saved
              (new_endpoint r session.user org ws fresh (used_indices st.endpoints))
              st).1.endpoints
    reused org ws t saved (some e) = unchanged _ _
    reused org ws t true none = pushed csrf r session fresh org ws st.endpoints t
    reused org ws t false none = unchanged _ _

delete-Effect :
    (csrf : Option Str) (id : Str) (session : AuthSession) (now : ℕ) (saved : Bool) (st : AppState)
    → Effect
        (delete csrf id session now saved)
        st.endpoints
        (delete_endpoint csrf id session now saved st).1.endpoints
unfolding delete_endpoint
delete-Effect csrf id session now saved st = elim (Bool-cases (csrf_valid csrf session)) [
  | inr c ↦ rw c (unchanged _ _)
  | inl c ↦ elim (Option-cases (tenant_scope session.user)) [
    | inl t ↦ rw (c, t) (unchanged _ _)
    | inr ((org, ws), t) ↦
        elim (Option-cases (change_first (is_named org ws id) (revoked now) st.endpoints)) [
          | inl n ↦ rw (c, t, n) (unchanged _ _)
          | inr (es, found) ↦
              rw (c, t, found)
                (revokes csrf id session now saved org ws t
                  (change_first-Changed (is_named org ws id) (revoked now) st.endpoints found))
        ]
  ]
]

rotate-Effect :
    (csrf : Option Str) (id : Str) (session : AuthSession) (token : Str) (now : ℕ) (saved : Bool)
    (st : AppState)
    → Effect
        (rotate csrf id session token now saved)
        st.endpoints
        (rotate_token csrf id session token now saved st).1.endpoints
unfolding rotate_token
rotate-Effect csrf id session token now saved st = elim (Bool-cases (csrf_valid csrf session)) [
  | inr c ↦ rw c (unchanged _ _)
  | inl c ↦ elim (Option-cases (tenant_scope session.user)) [
    | inl t ↦ rw (c, t) (unchanged _ _)
    | inr ((org, ws), t) ↦
        elim (Option-cases (change_first (is_named org ws id) (rotated token now) st.endpoints)) [
          | inl n ↦ rw (c, t, n) (unchanged _ _)
          | inr (es, found) ↦
              rw (c, t, found)
                (rotates csrf id session token now saved org ws t (
                  change_first-Changed (is_named org ws id) (rotated token now) st.endpoints found))
        ]
  ]
]

record_if_own-endpoints :
    (org ws id endpoint : Str) (now : ℕ) (st : AppState)
    → (record_if_own org ws id endpoint now st).1.endpoints ≡ st.endpoints
record_if_own-endpoints org ws id endpoint now st = ground arith

heartbeat-endpoints :
    (csrf : Option Str) (id endpoint : Str) (session : AuthSession) (now : ℕ) (st : AppState)
    → (handle_heartbeat csrf id endpoint session now st).1.endpoints ≡ st.endpoints
unfolding handle_heartbeat
heartbeat-endpoints csrf id endpoint session now st =
    elim (Option-cases (tenant_scope session.user)) [
      | inl t ↦ ground (arith, t)
      | inr ((org, ws), t) ↦ ground (arith, t, record_if_own-endpoints org ws id endpoint now st)
    ]

heartbeat_token-endpoints :
    (body_id endpoint : Str) (user : AuthUser) (token_ep_id : Str) (now : ℕ) (st : AppState)
    → (handle_heartbeat_token body_id endpoint user token_ep_id now st).1.endpoints ≡ st.endpoints
unfolding handle_heartbeat_token
heartbeat_token-endpoints body_id endpoint user token_ep_id now st = ground arith

pub handle-Effect : (r : Request) (st : AppState) → Effect r st.endpoints (handle r st).1.endpoints
handle-Effect (add csrf r session fresh saved) st = add-Effect csrf r session fresh saved st
handle-Effect (delete csrf id session now saved) st = delete-Effect csrf id session now saved st
handle-Effect (rotate csrf id session token now saved) st =
    rotate-Effect csrf id session token now saved st
handle-Effect (heartbeat csrf id endpoint session now) st =
    rw (heartbeat-endpoints csrf id endpoint session now st) (unchanged _ _)
handle-Effect (heartbeat_token body_id endpoint user token_ep_id now) st =
    rw (heartbeat_token-endpoints body_id endpoint user token_ep_id now st) (unchanged _ _)
