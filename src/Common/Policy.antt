-- ===== src/Common/Policy.antt =====
-- crates/akurai-common/src/policy.rs: principals, rules and the evaluator of the access list.
pub mod Permits
use akur_ai_vpn.Base.{
  ℕ, ◌≡◌, refl, ap, ◌↔◌, Bool, true, false, ◌&&◌, ◌||◌, List, [], ◌∷◌, ◌++◌, Option, none, some,
  any, arith, if◌then◌else◌,
}
use akur_ai_vpn.Base.Eq.{Eq, nat_eq, list_eq, ◌===◌, list_beq, list_beq_iff}
use akur_ai_vpn.Base.Text.{Str, trim, strip_prefix, is_empty}

pub data Principal : Type 0 where
  user : Str → Principal
  tag : Str → Principal
  node : List ℕ → Principal

-- The derived `PartialEq`
abbrev pub principal_beq : Principal → Principal → Bool
principal_beq (user a) (user b) = a === b
principal_beq (tag a) (tag b) = a === b
principal_beq (node a) (node b) = a === b
principal_beq _ _ = false

pub principal_beq_iff : (a b : Principal) → (principal_beq a b ≡ true) ↔ (a ≡ b)
principal_beq_iff (user a) (user b) =
    (λ e. ap user ((list_beq_iff a b).0 e), λ e. (list_beq_iff a b).1 (cc))
principal_beq_iff (tag a) (tag b) =
    (λ e. ap tag ((list_beq_iff a b).0 e), λ e. (list_beq_iff a b).1 (cc))
principal_beq_iff (node a) (node b) =
    (λ e. ap node ((list_beq_iff a b).0 e), λ e. (list_beq_iff a b).1 (cc))
principal_beq_iff (user a) (tag b) = (λ e. cc, λ e. cc)
principal_beq_iff (user a) (node b) = (λ e. cc, λ e. cc)
principal_beq_iff (tag a) (user b) = (λ e. cc, λ e. cc)
principal_beq_iff (tag a) (node b) = (λ e. cc, λ e. cc)
principal_beq_iff (node a) (user b) = (λ e. cc, λ e. cc)
principal_beq_iff (node a) (tag b) = (λ e. cc, λ e. cc)

instance abbrev pub principal_eq : Eq Principal
principal_eq = record { beq = principal_beq; beq_iff = principal_beq_iff }

-- "*"
abbrev pub wildcard : Str
wildcard = 42 ∷ []

-- `tag:` and `user:`
abbrev pub tag_prefix : Str
tag_prefix = 116 ∷ 97 ∷ 103 ∷ 58 ∷ []

abbrev pub user_prefix : Str
user_prefix = 117 ∷ 115 ∷ 101 ∷ 114 ∷ 58 ∷ []

abbrev named : (Str → Principal) → Str → Option Principal
named make name = if is_empty name then none else some (make name)

abbrev parse_user : Option Str → Option Principal
parse_user none = none
parse_user (some name) = named user (trim name)

abbrev parse_tag : Str → Option Str → Option Principal
parse_tag token none = parse_user (strip_prefix user_prefix token)
parse_tag token (some name) = named tag (trim name)

-- `Principal::parse`
unfoldable pub parse : Str → Option Principal
parse token = let token = trim token in parse_tag token (strip_prefix tag_prefix token)

abbrev pub principal_matches : Principal → Principal → Bool
principal_matches (tag p) (tag c) = p === wildcard || p === c
principal_matches pattern candidate = pattern === candidate

pub record AclRule : Type 0 where
  pub from : Principal
  pub to : Principal

pub data Decision : Type 0 where
  allowed : Decision
  deny : Decision

pub record Policy : Type 0 where
  pub rules : List AclRule

-- `Policy::new` and `Policy::allow`
abbrev pub new : Policy
new = record { rules = [] }

abbrev pub allow : Policy → AclRule → Policy
allow p rule = record { rules = p.rules ++ rule ∷ [] }

abbrev evaluate_rules : List AclRule → Principal → Principal → Decision
evaluate_rules [] from to = deny
evaluate_rules (rule ∷ rules) from to =
    let rest = evaluate_rules rules from to in
    if rule.from === from && rule.to === to then allowed else rest

-- `Policy::evaluate`
unfoldable pub evaluate : Policy → Principal → Principal → Decision
evaluate p from to = evaluate_rules p.rules from to

abbrev evaluate_set_rules : List AclRule → List Principal → List Principal → Decision
evaluate_set_rules [] froms tos = deny
evaluate_set_rules (rule ∷ rules) froms tos =
    let rest = evaluate_set_rules rules froms tos in
    if any (principal_matches rule.from) froms && any (principal_matches rule.to) tos
    then allowed
    else rest

-- `Policy::evaluate_sets`
unfoldable pub evaluate_sets : Policy → List Principal → List Principal → Decision
evaluate_sets p froms tos = evaluate_set_rules p.rules froms tos
