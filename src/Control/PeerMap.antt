-- ===== src/Control/PeerMap.antt =====
-- crates/akurai-control/src/peermap.rs: the view that a device receives of its tenant's devices.
pub mod Heartbeats
pub mod Isolation
use akur_ai_vpn.Base.{
  ℕ, Bool, true, false, not, ◌&&◌, List, [], ◌∷◌, ◌++◌, map, Option, none, some, if◌then◌else◌,
  ◌==◌,
}
use akur_ai_vpn.Base.Eq.{nat_eq, list_eq, ◌===◌}
use akur_ai_vpn.Base.Maps.{get}
use akur_ai_vpn.Base.Text.{Str, trim}
use akur_ai_vpn.Control.Json.{json_esc}
use akur_ai_vpn.Control.Heartbeat.{Heartbeat, is_online}
use akur_ai_vpn.Control.Ipam.{overlay_addr_string}
use akur_ai_vpn.Control.VpnEndpoint.{VpnEndpoint}
use akur_ai_vpn.Control.Registry.{AppState, AuthUser, is_own}
use akur_ai_vpn.Control.Registry.Enrollment.{unwrap_or_default}
use akur_ai_vpn.Control.Registry.Authentication.{nonempty, or_token}

abbrev pub online : Option Heartbeat → ℕ → Bool
online none now = false
online (some hb) now = is_online hb.last_seen now

abbrev pub reported : Option Heartbeat → ℕ → Option Str
reported none now = none
reported (some hb) now = if is_online hb.last_seen now then nonempty (trim hb.endpoint) else none

-- The address that a peer is told to try.
unfoldable pub endpoint_of : VpnEndpoint → Option Heartbeat → ℕ → Str
endpoint_of e hb now =
    unwrap_or_default (or_token (reported hb now) (nonempty (trim e.endpoint_addr)))

abbrev pub show_bool : Bool → Str
show_bool true = 116 ∷ 114 ∷ 117 ∷ 101 ∷ []
show_bool false = 102 ∷ 97 ∷ 108 ∷ 115 ∷ 101 ∷ []

-- `{"overlay_ipv4":"`
abbrev overlay_ipv4_key : Str
overlay_ipv4_key =
    123 ∷ 34 ∷ 111 ∷ 118 ∷ 101 ∷ 114 ∷ 108 ∷ 97 ∷ 121 ∷ 95 ∷ 105 ∷ 112 ∷ 118 ∷ 52 ∷ 34 ∷ 58 ∷ 34
    ∷ []

-- `","public_key":"`
abbrev public_key_key : Str
public_key_key =
    34 ∷ 44 ∷ 34 ∷ 112 ∷ 117 ∷ 98 ∷ 108 ∷ 105 ∷ 99 ∷ 95 ∷ 107 ∷ 101 ∷ 121 ∷ 34 ∷ 58 ∷ 34 ∷ []

-- `","name":"`
abbrev name_key : Str
name_key = 34 ∷ 44 ∷ 34 ∷ 110 ∷ 97 ∷ 109 ∷ 101 ∷ 34 ∷ 58 ∷ 34 ∷ []

-- `","online":`
abbrev online_key : Str
online_key = 34 ∷ 44 ∷ 34 ∷ 111 ∷ 110 ∷ 108 ∷ 105 ∷ 110 ∷ 101 ∷ 34 ∷ 58 ∷ []

-- `,"endpoint":"`
abbrev endpoint_key : Str
endpoint_key = 44 ∷ 34 ∷ 101 ∷ 110 ∷ 100 ∷ 112 ∷ 111 ∷ 105 ∷ 110 ∷ 116 ∷ 34 ∷ 58 ∷ 34 ∷ []

-- `"}`
abbrev object_end : Str
object_end = 34 ∷ 125 ∷ []

unfoldable pub peer_json : VpnEndpoint → List (Str × Heartbeat) → ℕ → Str
peer_json e heartbeats now =
    let hb = get e.id heartbeats in
    overlay_ipv4_key
    ++ json_esc (unwrap_or_default (overlay_addr_string e.allowed_ips))
    ++ public_key_key
    ++ json_esc e.public_key
    ++ name_key
    ++ json_esc e.name
    ++ online_key
    ++ show_bool (online hb now)
    ++ endpoint_key
    ++ json_esc (endpoint_of e hb now)
    ++ object_end

-- `self_id != Some(e.id)`
abbrev pub is_not : Option Str → VpnEndpoint → Bool
is_not none e = true
is_not (some id) e = not (id === e.id)

abbrev pub join_to : Str → List Str → Str
join_to s [] = s
join_to s (t ∷ ts) = s ++ (44 ∷ join_to t ts)

-- `join(",")`
abbrev pub join : List Str → Str
join [] = []
join (s ∷ ss) = join_to s ss

unfoldable pub peers : Str → Str → Option Str → List VpnEndpoint → List VpnEndpoint
peers org ws self_id [] = []
peers org ws self_id (e ∷ es) =
    let rest = peers org ws self_id es in
    if is_own org ws e && is_not self_id e then e ∷ rest else rest

-- 91 and 93 are the brackets.
unfoldable pub build_peermap_json :
    List VpnEndpoint → List (Str × Heartbeat) → Str → Str → Option Str → ℕ → Str
build_peermap_json endpoints heartbeats org ws self_id now =
    91 ∷ join (map (λ e. peer_json e heartbeats now) (peers org ws self_id endpoints))
    ++ (93 ∷ 10 ∷ [])

-- `requested` is the parameter `self` of the query.
unfoldable pub handle_peermap : Option Str → AuthUser → AppState → Option Str → ℕ → Str
handle_peermap requested user st default_self_id now =
    build_peermap_json st.endpoints st.heartbeats user.organization_id user.workspace_id
      (or_token requested default_self_id) now
