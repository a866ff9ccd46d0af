-- ===== src/Relay/Counters.antt =====
-- crates/akurai-relay/src/forward.rs: the forwarding counters.
use akur_ai_vpn.Base.{
  ℕ, ◌+◌, ◌^◌, ◌≤◌, ◌<◌, ◌≡◌, inl, inr, List, [], ◌∷◌, Option, none, some, arith, if◌then◌else◌,
  Ipv4Addr, SocketAddr, Option-cases, Bool-cases, length,
}
use akur_ai_vpn.Base.Eq.{nat_eq}
use akur_ai_vpn.Base.Maps.{get}
use akur_ai_vpn.Base.Outcome.{Outcome, done, panic}
use akur_ai_vpn.Common.Frame.{Frame, decode}
use akur_ai_vpn.Relay.{Relay, learn, dispatch, handle, run, is_keepalive}
use akur_ai_vpn.Relay.Learning.{forward_one_total}

-- The datagrams that are not keepalives: those the relay forwards, drops or finds malformed.
abbrev pub settled : Relay → ℕ
settled r = r.stats.forwarded + r.stats.dropped_unknown + r.stats.malformed

abbrev pub traffic : Outcome (Option Frame) → ℕ
traffic (done (some f)) = if is_keepalive f.kind then 0 else 1
traffic _ = 1

unfoldable pub traffic_of : List (List ℕ × SocketAddr) → ℕ
unfolding decode
traffic_of [] = 0
traffic_of ((d, from) ∷ ds) = traffic (decode d) + traffic_of ds

settled-learn :
    (r : Relay) (src : Ipv4Addr) (from : SocketAddr) → settled (learn r src from) ≡ settled r
unfolding learn
settled-learn r src from = ground arith

settled-dispatch :
    (r : Relay) (f : Frame) (d : List ℕ) (from : SocketAddr)
    → settled r + 1 < 2 ^ 64
    → settled (dispatch r f d from).after ≡ settled r + 1
unfolding dispatch
settled-dispatch r f d from h = elim (Option-cases (get f.dest r.table)) [
  | inl e ↦ rw (e, dispatch) (omega arith)
  | inr (a, e) ↦ rw (e, dispatch) (omega arith)
]

settled-handle :
    (r : Relay) (frame : Option Frame) (d : List ℕ) (from : SocketAddr)
    → settled r + 1 < 2 ^ 64
    → settled (handle r frame d from).after ≡ settled r + traffic (done frame)
unfolding handle
settled-handle r none d from h = omega arith
settled-handle r (some f) d from h = elim (Bool-cases (is_keepalive f.kind)) [
  | inl e ↦ rw e (omega (arith, settled-learn r f.src from))
  | inr e ↦
      rw e
        (omega (arith, settled-learn r f.src from, settled-dispatch (learn r f.src from) f d from))
]

traffic_le : (o : Outcome (Option Frame)) → traffic o ≤ 1
traffic_le panic = omega arith
traffic_le (done none) = omega arith
traffic_le (done (some f)) = ground arith

-- While the counters are far from wrapping, `forwarded`, `dropped_unknown` and `malformed` together
-- grow by exactly one for every datagram that is no keepalive.
pub settled-run :
    (r r' : Relay) (ds : List (List ℕ × SocketAddr))
    → settled r + length ds < 2 ^ 64
    → run r ds ≡ done r'
    → settled r' ≡ settled r + traffic_of ds
unfolding run traffic_of
settled-run r r' [] h e = ground arith
settled-run r r' ((d, from) ∷ ds) h e =
    let (frame, e1, e2) = forward_one_total r d from in
    let grows = settled-handle r frame d from (omega arith) in
    let rest =
      settled-run (handle r frame d from).after r' ds
        (omega (arith, grows, traffic_le (done frame))) (rw (e2, run) at e) in
    rw e1 (omega (arith, grows, rest))
