-- ===== src/Node/Acl.antt =====
-- crates/akurai-node/src/acl.rs: which peers this node may send to.
pub mod Grants
use akur_ai_vpn.Base.{Bool, true, false, List}
use akur_ai_vpn.Common.Policy.{Principal, Policy, Decision, allowed, deny, evaluate_sets}
use akur_ai_vpn.Node.Peers.{Peer, peer_principals}

pub record Acl : Type 0 where
  pub policy : Policy
  pub my_principals : List Principal

-- `decision == Decision::Allow`
abbrev pub is_allowed : Decision → Bool
is_allowed allowed = true
is_allowed deny = false

-- `Acl::permits`
unfoldable pub permits : Acl → Peer → Bool
permits acl peer = is_allowed (evaluate_sets acl.policy acl.my_principals (peer_principals peer))
