-- ===== src/Node/Acl/Grants.antt =====
-- crates/akurai-node/src/acl.rs: the decision against the rules and the tags.
use akur_ai_vpn.Base.{◌≡◌, refl, ap, subst, ◌↔◌, true, List, [], ◌∷◌, map, In, here, there}
use akur_ai_vpn.Base.Text.{Str}
use akur_ai_vpn.Common.Policy.{Principal, tag, AclRule, Decision, allowed, deny}
use akur_ai_vpn.Common.Policy.Permits.{Matches, evaluate_sets-Permitted}
use akur_ai_vpn.Node.Peers.{Peer, peer_principals}
use akur_ai_vpn.Node.Acl.{Acl, is_allowed, permits}

is_allowed_iff : (d : Decision) → (is_allowed d ≡ true) ↔ (d ≡ allowed)
is_allowed_iff allowed = (λ e. refl, λ e. refl)
is_allowed_iff deny = (λ e. cc, λ e. cc)

In-tags :
    (p : Principal) (names : List Str)
    → In p (map tag names)
    → (name : Str) × In name names × (p ≡ tag name)
In-tags p [] m = elim m [ ]
In-tags p (name ∷ names) (here e) = (name, here refl, e)
In-tags p (name ∷ names) (there m) = let (n, k, e) = In-tags p names m in (n, there k, e)

tags-In : (name : Str) (names : List Str) → In name names → In (tag name) (map tag names)
tags-In name [] m = elim m [ ]
tags-In name (n ∷ names) (here e) = here (ap tag e)
tags-In name (n ∷ names) (there m) = there (tags-In name names m)

-- A rule of the policy that lets a principal of this node reach a tag of the peer.
abbrev pub Grants : Acl → Peer → Type 0
Grants acl peer =
    (rule : AclRule) × In rule acl.policy.rules
    × ((mine : Principal) × In mine acl.my_principals × Matches rule.from mine)
    × ((name : Str) × In name peer.tags × Matches rule.to (tag name))

-- A peer may be sent to exactly if a rule of the policy matches a principal of this node and one
-- of the peer's tags.
pub permits-Grants : (acl : Acl) (peer : Peer) → (permits acl peer ≡ true) ↔ Grants acl peer
unfolding permits
permits-Grants acl peer = (
  λ e.
      let (rule, m, mine, (to, k, q)) =
        (evaluate_sets-Permitted acl.policy acl.my_principals (peer_principals peer)).0
          ((is_allowed_iff _).0 e) in
      let (name, n, same) = In-tags to peer.tags k in
      (rule, m, mine, (name, n, subst (Matches rule.to) same q)),
  λ (rule, m, mine, (name, n, q)). (is_allowed_iff _).1 (
      (evaluate_sets-Permitted acl.policy acl.my_principals (peer_principals peer)).1
        (rule, m, mine, (tag name, tags-In name peer.tags n, q))),
)
