-- ===== src/Relay/Learning.antt =====
-- crates/akurai-relay/src/forward.rs: what the endpoint table of the relay holds.
use akur_ai_vpn.Base.{
  ℕ, ◌≡◌, refl, ◌∙◌, inl, inr, Bool, false, not, ◌&&◌, List, [], ◌∷◌, Option, none, some, arith,
  ◌==◌, if◌then◌else◌, Ipv4Addr, SocketAddr, Option-cases,
}
use akur_ai_vpn.Base.Eq.{nat_eq}
use akur_ai_vpn.Base.Maps.{get, get-insert}
use akur_ai_vpn.Base.Outcome.{Outcome, done}
use akur_ai_vpn.Common.Frame.{Frame, decode}
use akur_ai_vpn.Common.Frame.RoundTrip.{decode_total}
use akur_ai_vpn.Relay.{Relay, is_unspecified, learn, dispatch, handle, forward_one, run}

-- An independent description: the address of the last datagram that decodes to a frame from `ip`,
-- and `old` if there is none. The address 0.0.0.0 is never learned.
abbrev pub claims : Ipv4Addr → Outcome (Option Frame) → Bool
claims ip (done (some f)) = f.src == ip && not (is_unspecified ip)
claims ip _ = false

unfoldable pub last_heard :
    Ipv4Addr → Option SocketAddr → List (List ℕ × SocketAddr) → Option SocketAddr
unfolding decode
last_heard ip old [] = old
last_heard ip old ((datagram, from) ∷ rest) =
    last_heard ip (if claims ip (decode datagram) then some from else old) rest

get-learn :
    (r : Relay) (src ip : Ipv4Addr) (from : SocketAddr)
    → get ip (learn r src from).table
      ≡ (if src == ip && not (is_unspecified ip) then some from else get ip r.table)
unfolding learn
get-learn r src ip from = ground (arith, get-insert src ip from r.table)

table-dispatch :
    (r : Relay) (f : Frame) (d : List ℕ) (from : SocketAddr)
    → (dispatch r f d from).after.table ≡ r.table
unfolding dispatch
table-dispatch r f d from = elim (Option-cases (get f.dest r.table)) [
  | inl e ↦ rw (e, dispatch)
  | inr (a, e) ↦ rw (e, dispatch)
]

get-handle :
    (r : Relay) (frame : Option Frame) (ip : Ipv4Addr) (d : List ℕ) (from : SocketAddr)
    → get ip (handle r frame d from).after.table
      ≡ (if claims ip (done frame) then some from else get ip r.table)
unfolding handle
get-handle r none ip d from = refl
get-handle r (some f) ip d from =
    ground (arith, get-learn r f.src ip from, table-dispatch (learn r f.src from) f d from)

-- A datagram never makes the relay panic, and its effect is that of `handle` on what it decodes to.
pub forward_one_total :
    (r : Relay) (datagram : List ℕ) (from : SocketAddr)
    → (frame : Option Frame) × (decode datagram ≡ done frame)
      × (forward_one r datagram from ≡ done (handle r frame datagram from))
unfolding forward_one
forward_one_total r datagram from = let (frame, e) = decode_total datagram in (frame, e, rw e)

-- After any sequence of datagrams the loop is still running, and its table holds exactly what was
-- last heard of each address.
pub run-last_heard :
    (r : Relay) (ds : List (List ℕ × SocketAddr))
    → (r' : Relay) × (run r ds ≡ done r')
      × ((ip : Ipv4Addr) → get ip r'.table ≡ last_heard ip (get ip r.table) ds)
unfolding run last_heard
run-last_heard r [] = (r, refl, λ ip. refl)
run-last_heard r ((d, from) ∷ ds) =
    let (frame, e, g) = forward_one_total r d from in
    let (r', h, same) = run-last_heard (handle r frame d from).after ds in
    (r', rw (g, run) h, λ ip. rw e (same ip ∙ rw (get-handle r frame ip d from)))
