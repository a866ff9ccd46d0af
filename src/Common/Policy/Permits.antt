-- ===== src/Common/Policy/Permits.antt =====
-- crates/akurai-common/src/policy.rs: the evaluators against the rules.
use akur_ai_vpn.Base.{
  ℕ, ◌≡◌, refl, ap, ap₂, &&_left, &&_right, sym, ◌↔◌, ◌⊎◌, inl, inr, Bool, true, ◌&&◌, List, [],
  ◌∷◌, any, arith, Bool-cases, In, any→In, In→any, if◌then◌else◌,
}
use akur_ai_vpn.Base.Eq.{nat_eq, list_eq, list_beq_iff, ◌===◌, ===_eq, ===_self}
use akur_ai_vpn.Common.Policy.{
  Principal, user, tag, node, wildcard, principal_matches, AclRule, Decision, allowed, deny, Policy,
  evaluate, evaluate_sets, principal_eq, principal_beq_iff,
}

-- A list of rules of which the first that passes a test decides, as both evaluators run it.
abbrev first_decides : (AclRule → Bool) → List AclRule → Decision
first_decides p [] = deny
first_decides p (rule ∷ rules) =
    let rest = first_decides p rules in if p rule then allowed else rest

first_decides-any :
    (p : AclRule → Bool) (rules : List AclRule)
    → (first_decides p rules ≡ allowed) ↔ (any p rules ≡ true)
first_decides-any p [] = (λ e. cc, λ e. cc)
first_decides-any p (rule ∷ rules) =
    let (f, g) = first_decides-any p rules in
    elim (Bool-cases (p rule)) [
      | inl e ↦ (λ h. ground arith, λ h. ground arith)
      | inr e ↦ (λ h. ground (arith, f), λ h. ground (arith, g))
    ]

exact : Principal → Principal → AclRule → Bool
exact from to rule = rule.from === from && rule.to === to

evaluate_is :
    (p : Policy) (from to : Principal) → evaluate p from to ≡ first_decides (exact from to) p.rules
unfolding evaluate exact
evaluate_is p from to = by_rules p.rules
  where
    by_rules :
        (rules : List AclRule)
        → evaluate (record { rules = rules }) from to ≡ first_decides (exact from to) rules
    by_rules [] = refl
    by_rules (rule ∷ rules) =
        ap (λ (d : Decision). if rule.from === from && rule.to === to then allowed else d)
          (by_rules rules)

exact_iff :
    (from to : Principal) (rule : AclRule)
    → (exact from to rule ≡ true) ↔ (record { from = from; to = to } ≡ rule)
unfolding exact
exact_iff from to rule = (
  λ e.
      ap₂ (λ (f t : Principal). record { from = f; to = t })
        (sym (===_eq rule.from from (ground arith))) (sym (===_eq rule.to to (ground arith))),
  λ e. ground (arith, ===_self rule.from, ===_self rule.to, e),
)

-- The specification of a match: the same principal, or any tag where the rule says `tag:*`.
abbrev pub Matches : Principal → Principal → Type 0
Matches pattern candidate =
    (pattern ≡ candidate) ⊎ ((pattern ≡ tag wildcard) × (name : List ℕ) × (candidate ≡ tag name))

matches_if_equal : (p c : Principal) → ((p === c) ≡ true) ↔ (p ≡ c)
matches_if_equal p c = principal_beq_iff p c

principal_matches-Matches :
    (pattern candidate : Principal)
    → (principal_matches pattern candidate ≡ true) ↔ Matches pattern candidate
principal_matches-Matches (tag p) (tag c) = (
  λ e. elim (Bool-cases (p === wildcard)) [
    | inl w ↦ inr (ap tag (===_eq p wildcard w), c, refl)
    | inr n ↦ inl (ap tag (===_eq p c (ground arith)))
  ],
  λ m. elim m [
    | inl e ↦ ground (arith, (list_beq_iff p c).1 (cc))
    | inr (w, name, e) ↦ ground (arith, (list_beq_iff p wildcard).1 (cc))
  ],
)
principal_matches-Matches (tag p) (user c) =
    (λ e. cc, λ m. elim m [ inl e ↦ cc | inr (w, name, e) ↦ cc ])
principal_matches-Matches (tag p) (node c) =
    (λ e. cc, λ m. elim m [ inl e ↦ cc | inr (w, name, e) ↦ cc ])
principal_matches-Matches (user p) candidate = (
  λ e. inl (===_eq (user p) candidate e),
  λ m. elim m [ inl e ↦ (principal_beq_iff _ _).1 e | inr (w, name, e) ↦ cc ],
)
principal_matches-Matches (node p) candidate = (
  λ e. inl (===_eq (node p) candidate e),
  λ m. elim m [ inl e ↦ (principal_beq_iff _ _).1 e | inr (w, name, e) ↦ cc ],
)

admits : List Principal → List Principal → AclRule → Bool
admits froms tos rule =
    any (principal_matches rule.from) froms && any (principal_matches rule.to) tos

evaluate_sets_is :
    (p : Policy) (froms tos : List Principal)
    → evaluate_sets p froms tos ≡ first_decides (admits froms tos) p.rules
unfolding evaluate_sets admits
evaluate_sets_is p froms tos = by_rules p.rules
  where
    by_rules :
        (rules : List AclRule)
        → evaluate_sets (record { rules = rules }) froms tos
          ≡ first_decides (admits froms tos) rules
    by_rules [] = refl
    by_rules (rule ∷ rules) =
        ap
          (λ (d : Decision).
            if any (principal_matches rule.from) froms && any (principal_matches rule.to) tos
            then allowed
            else d)
          (by_rules rules)

some_match :
    (pattern : Principal) (cs : List Principal)
    → (any (principal_matches pattern) cs ≡ true) ↔ ((c : Principal) × In c cs × Matches pattern c)
some_match pattern cs = (
  λ e.
      let (c, m, q) = any→In (principal_matches pattern) cs e in
      (c, m, (principal_matches-Matches pattern c).0 q),
  λ (c, m, q).
      In→any (principal_matches pattern) c cs m ((principal_matches-Matches pattern c).1 q),
)

-- A rule of the policy matches a principal of each side.
abbrev pub Permitted : Policy → List Principal → List Principal → Type 0
Permitted p froms tos =
    (rule : AclRule) × In rule p.rules
    × ((from : Principal) × In from froms × Matches rule.from from)
    × ((to : Principal) × In to tos × Matches rule.to to)

-- A flow between two sets of principals is allowed exactly if a rule of the policy matches one
-- principal of each side.
pub evaluate_sets-Permitted :
    (p : Policy) (froms tos : List Principal)
    → (evaluate_sets p froms tos ≡ allowed) ↔ Permitted p froms tos
unfolding admits
evaluate_sets-Permitted p froms tos = rw (evaluate_sets_is p froms tos) (
  λ e.
      let (rule, m, q) =
        any→In (admits froms tos) p.rules ((first_decides-any (admits froms tos) p.rules).0 e) in
      (
        rule,
        m,
        (some_match rule.from froms).0 (&&_left _ _ q),
        (some_match rule.to tos).0 (&&_right _ _ q),
      ),
  λ (rule, m, f, t). (first_decides-any (admits froms tos) p.rules).1 (
      In→any (admits froms tos) rule p.rules m
        (ground (arith, (some_match rule.from froms).1 f, (some_match rule.to tos).1 t))),
)
