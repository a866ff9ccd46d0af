-- ===== src/Tests/Registry.antt =====
-- The registry of the control plane at concrete devices and requests.
use akur_ai_vpn.Base.{
  ℕ, ◌≡◌, refl, ap, sym, ◌∙◌, true, false, List, [], ◌∷◌, Option, none, some, arith, In, here,
  there,
}
use akur_ai_vpn.Base.Distinct.{IsDistinct}
use akur_ai_vpn.Base.Text.{Str}
use akur_ai_vpn.Base.Ipv4.{parse_ipv4, show_ipv4}
use akur_ai_vpn.Common.Overlay.{contains, from_index}
use akur_ai_vpn.Control.VpnEndpoint.{VpnEndpoint}
use akur_ai_vpn.Control.Heartbeat.{is_online}
use akur_ai_vpn.Control.Ipam.{
  overlay_addr_string, overlay_index_of, overlay_indices_of, used_indices, parse_overlay_index,
}
use akur_ai_vpn.Control.Registry.{
  AuthSession, AppState, tenant_scope, delete_endpoint, rotate_token, handle_heartbeat,
}
use akur_ai_vpn.Control.Registry.Authentication.{
  Headers, x_node_token, user_of, auth_node, node_token_from_req,
}
use akur_ai_vpn.Control.PeerMap.{build_peermap_json, peer_json, endpoint_of}
use akur_ai_vpn.Control.Json.{json_esc}
use akur_ai_vpn.Control.PeerMap.Isolation.{handle-build_peermap_json}
use akur_ai_vpn.Control.Registry.Steps.{Request, add, delete, heartbeat, handle, run}
use akur_ai_vpn.Control.Registry.Addresses.{run-IsDistinct}
use akur_ai_vpn.Control.Registry.Tenants.{others, handle-others}
use akur_ai_vpn.Control.Registry.Tokens.{ids, tokens, all_issued}
use akur_ai_vpn.Control.Registry.Revocation.{delete_endpoint-auth_node, rotate_token-auth_node}

-- The tenant 5/6, and a device of it with the id "a", the token "t" and the address 100.88.0.2.
abbrev laptop : VpnEndpoint
laptop = record {
  id = 97 ∷ [];
  name = 108 ∷ [];
  public_key = 107 ∷ [];
  endpoint_addr = [];
  allowed_ips = (49 ∷ 48 ∷ 48 ∷ 46 ∷ 56 ∷ 56 ∷ 46 ∷ 48 ∷ 46 ∷ 50 ∷ 47 ∷ 51 ∷ 50 ∷ []) ∷ [];
  added_by = 117 ∷ [];
  added_at = 1;
  organization_id = 53 ∷ [];
  workspace_id = 54 ∷ [];
  revoked_at = 0;
  token_rotated_at = 0;
  node_token = 116 ∷ [];
}

abbrev one_device : AppState
one_device = record { endpoints = laptop ∷ []; heartbeats = [] }

abbrev owner : AuthSession
owner = record {
  user = record {
    sub = [];
    email = 117 ∷ [];
    name = [];
    organization_id = 53 ∷ [];
    workspace_id = 54 ∷ [];
  };
  csrf_token = 99 ∷ [];
}

abbrev csrf : Option Str
csrf = some (99 ∷ [])

abbrev enroll : Request
enroll =
    add csrf
      (record {
        name = 112 ∷ [];
        public_key = 113 ∷ [];
        endpoint_addr = [];
        allowed_ips = laptop.allowed_ips;
      })
      owner (record { id = 98 ∷ []; node_token = 118 ∷ []; now = 10 }) true

-- A second device that asks for the address of the first.
abbrev requests : List Request
requests = enroll ∷ heartbeat csrf (98 ∷ []) [] owner 20 ∷ []

one_device-IsDistinct : IsDistinct (used_indices one_device.endpoints)
unfolding used_indices overlay_indices_of parse_overlay_index contains parse_ipv4
one_device-IsDistinct = (λ m. elim m [ ], tt)

run-IsDistinct_example :
    IsDistinct (used_indices (run requests one_device).endpoints)
    × ((i : ℕ)
        → In i (used_indices one_device.endpoints)
        → In i (used_indices (run requests one_device).endpoints))
run-IsDistinct_example = run-IsDistinct requests one_device one_device-IsDistinct

-- A user of the tenant 7/6 who tries to delete the device.
abbrev intruder : AuthSession
intruder = record {
  user = record {
    sub = [];
    email = 118 ∷ [];
    name = [];
    organization_id = 55 ∷ [];
    workspace_id = 54 ∷ [];
  };
  csrf_token = 99 ∷ [];
}

abbrev intrusion : Request
intrusion = delete csrf laptop.id intruder 30 true

handle-others_example :
    others (55 ∷ []) (54 ∷ []) (handle intrusion one_device).1.endpoints
    ≡ others (55 ∷ []) (54 ∷ []) one_device.endpoints
handle-others_example = handle-others intrusion one_device

abbrev headers : Headers
headers = (x_node_token, 116 ∷ []) ∷ []

headers-token : node_token_from_req headers ≡ some (116 ∷ [])
unfolding node_token_from_req
headers-token = refl

authenticated : auth_node headers one_device ≡ some (user_of laptop, laptop.id)
unfolding auth_node node_token_from_req
authenticated = refl

owner-tenant_scope :
    tenant_scope owner.user ≡ some ((user_of laptop).organization_id, (user_of laptop).workspace_id)
unfolding tenant_scope
owner-tenant_scope = refl

ids-IsDistinct : IsDistinct (ids one_device.endpoints)
ids-IsDistinct = (λ m. elim m [ ], tt)

tokens-IsDistinct : IsDistinct (tokens one_device.endpoints)
tokens-IsDistinct = (λ m. elim m [ ], tt)

same_first : {a b : ℕ} → ◌≡◌ {A = Option Str} (some (a ∷ [])) (some (b ∷ [])) → a ≡ b
same_first p = ap first p
  where
    first : Option Str → ℕ
    first (some (c ∷ cs)) = c
    first _ = 0

other_token :
    (token : Str) → node_token_from_req headers ≡ some token → In token (all_issued requests) → ⊥
other_token token given (here p) =
    absurd (omega (arith, same_first {a = 116} {b = 118} (sym headers-token ∙ given ∙ ap some p)))
other_token token given (there m) = elim m [ ]

delete_endpoint-auth_node_example :
    auth_node headers (run requests (delete_endpoint csrf laptop.id owner 30 false one_device).1)
    ≡ none
delete_endpoint-auth_node_example =
    delete_endpoint-auth_node headers one_device (user_of laptop) laptop.id csrf owner 30 false
      requests authenticated ids-IsDistinct tokens-IsDistinct refl owner-tenant_scope (omega arith)
      other_token

rotate_token-auth_node_example :
    auth_node headers
      (run requests (rotate_token csrf laptop.id owner (119 ∷ []) 30 true one_device).1)
    ≡ none
rotate_token-auth_node_example =
    rotate_token-auth_node headers one_device (user_of laptop) laptop.id csrf owner (119 ∷ []) 30
      true requests authenticated ids-IsDistinct tokens-IsDistinct refl owner-tenant_scope
      (λ p. absurd (omega (arith, same_first {a = 116} {b = 119} (sym headers-token ∙ p))))
      other_token

handle-build_peermap_json_example :
    build_peermap_json
      (handle intrusion one_device).1.endpoints
      (handle intrusion one_device).1.heartbeats
      (53 ∷ [])
      (54 ∷ [])
      none
      40
    ≡ build_peermap_json one_device.endpoints one_device.heartbeats (53 ∷ []) (54 ∷ []) none 40
handle-build_peermap_json_example =
    handle-build_peermap_json intrusion one_device (53 ∷ []) (54 ∷ []) none 40 ids-IsDistinct
      (λ p q. absurd (omega (arith, same_first {a = 55} {b = 53} (ap some p))))

-- The device's own tenant, a minute after it was heard.
after_heartbeat :
    peer_json laptop
      (handle (heartbeat csrf laptop.id (49 ∷ []) owner 20) one_device).1.heartbeats
      80
    ≡ (123 ∷ 34 ∷ 111 ∷ 118 ∷ 101 ∷ 114 ∷ 108 ∷ 97 ∷ 121 ∷ 95 ∷ 105 ∷ 112 ∷ 118 ∷ 52 ∷ 34 ∷ 58 ∷ 34
        ∷ 49 ∷ 48 ∷ 48 ∷ 46 ∷ 56 ∷ 56 ∷ 46 ∷ 48 ∷ 46 ∷ 50 ∷ 34 ∷ 44 ∷ 34 ∷ 112 ∷ 117 ∷ 98 ∷ 108
        ∷ 105 ∷ 99 ∷ 95 ∷ 107 ∷ 101 ∷ 121 ∷ 34 ∷ 58 ∷ 34 ∷ 107 ∷ 34 ∷ 44 ∷ 34 ∷ 110 ∷ 97 ∷ 109 ∷ 101
        ∷ 34 ∷ 58 ∷ 34 ∷ 108 ∷ 34 ∷ 44 ∷ 34 ∷ 111 ∷ 110 ∷ 108 ∷ 105 ∷ 110 ∷ 101 ∷ 34 ∷ 58 ∷ 116
        ∷ 114 ∷ 117 ∷ 101 ∷ 44 ∷ 34 ∷ 101 ∷ 110 ∷ 100 ∷ 112 ∷ 111 ∷ 105 ∷ 110 ∷ 116 ∷ 34 ∷ 58 ∷ 34
        ∷ 49 ∷ 34 ∷ 125 ∷ [])
unfolding peer_json endpoint_of json_esc is_online handle_heartbeat tenant_scope overlay_addr_string
    overlay_index_of parse_overlay_index parse_ipv4 contains from_index show_ipv4
after_heartbeat = refl
