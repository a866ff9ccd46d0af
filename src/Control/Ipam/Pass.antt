-- ===== src/Control/Ipam/Pass.antt =====
-- crates/akurai-control/src/ipam.rs: the loop of `assign_missing` as a relation.
use akur_ai_vpn.Base.{
  ℕ, ◌+◌, ◌≤◌, ◌≡◌, refl, ap, ◌∙◌, ◌⊎◌, inl, inr, true, List, [], ◌∷◌, none, some, arith,
  Option-cases,
}
use akur_ai_vpn.Common.Overlay.{contains, max_index, overlay_ipv4_net}
use akur_ai_vpn.Control.VpnEndpoint.{VpnEndpoint}
use akur_ai_vpn.Control.Ipam.{
  index_of, parse_overlay_index, overlay_cidr, overlay_index_of, overlay_indices_of, allocate,
  with_overlay, Progress, assign_one, assign_loop,
}
use akur_ai_vpn.Control.Ipam.Text.{parse_overlay_index-overlay_cidr}
use akur_ai_vpn.Control.Ipam.Allocation.{IsFree, at_index, allocate-IsFree, allocate-exhausted}

abbrev pub indices : VpnEndpoint → List ℕ
indices e = overlay_indices_of e.allowed_ips

abbrev pub IsFull : List ℕ → Type 0
IsFull used = (i : ℕ) → IsFree used i → ⊥

no_indices : (ips : List (List ℕ)) → overlay_index_of ips ≡ none → overlay_indices_of ips ≡ []
unfolding overlay_index_of overlay_indices_of
no_indices [] h = refl
no_indices (e ∷ es) h = elim (Option-cases (parse_overlay_index e)) [
  | inl p ↦ rw p (no_indices es (cc))
  | inr (i, p) ↦ cc
]

pub stored_index :
    (i : ℕ) → i ≤ max_index → parse_overlay_index (overlay_cidr (at_index i)) ≡ some i
unfolding contains
stored_index i h =
    parse_overlay_index-overlay_cidr (at_index i) (omega arith) (in_overlay i h)
    ∙ ap some (omega arith)
  where
    in_overlay : (i : ℕ) → i ≤ max_index → contains (overlay_ipv4_net + i) ≡ true
    in_overlay i h = ground arith

-- What the loop does, as a relation between the lists and the states before and behind it.
pub data Pass : List VpnEndpoint → Progress → List VpnEndpoint → Progress → Type 0 where
  finished : (s : Progress) → Pass [] s [] s
  kept :
      (e : VpnEndpoint) {es es' : List VpnEndpoint} {s t : Progress}
      → ((i : ℕ) × (overlay_index_of e.allowed_ips ≡ some i)) ⊎ IsFull s.used
      → Pass es s es' t
      → Pass (e ∷ es) s (e ∷ es') t
  assigned :
      (e : VpnEndpoint) (i : ℕ) {es es' : List VpnEndpoint} {s t : Progress}
      → IsFree s.used i
      → indices e ≡ []
      → indices (with_overlay e (at_index i)) ≡ i ∷ []
      → overlay_index_of (with_overlay e (at_index i)).allowed_ips ≡ some i
      → Pass es (record { used = i ∷ s.used; changed = s.changed + 1 }) es' t
      → Pass (e ∷ es) s (with_overlay e (at_index i) ∷ es') t

indices-with_overlay :
    (e : VpnEndpoint) (i : ℕ)
    → i ≤ max_index
    → indices e ≡ []
    → (indices (with_overlay e (at_index i)) ≡ i ∷ [])
      × (overlay_index_of (with_overlay e (at_index i)).allowed_ips ≡ some i)
unfolding overlay_index_of overlay_indices_of
indices-with_overlay e i h none_yet = rw (stored_index i h) (ap (◌∷◌ i) none_yet, refl)

index_of-at_index : (i : ℕ) → i ≤ max_index → index_of (at_index i).addr ≡ i
index_of-at_index i h = omega arith

pub unassigned :
    (e : VpnEndpoint) (s : Progress)
    → overlay_index_of e.allowed_ips ≡ none
    → allocate s.used ≡ none
    → assign_one e s ≡ (e, s)
unfolding assign_one
unassigned e s none_yet nothing = rw (none_yet, nothing) refl

pub assign_loop-Pass :
    (es : List VpnEndpoint) (s : Progress) → Pass es s (assign_loop es s).0 (assign_loop es s).1
unfolding assign_loop assign_one
assign_loop-Pass [] s = finished s
assign_loop-Pass (e ∷ es) s = elim (Option-cases (overlay_index_of e.allowed_ips)) [
  | inr (i, has) ↦ rw (has_index i has) (kept e (inl (i, has)) (assign_loop-Pass es s))
  | inl none_yet ↦ elim (Option-cases (allocate s.used)) [
    | inl nothing ↦
        rw (unassigned e s none_yet nothing)
          (kept e (inr ((allocate-exhausted s.used).0 nothing)) (assign_loop-Pass es s))
    | inr (ip, found) ↦
        let (i, free, same, below) = allocate-IsFree s.used ip found in
        let nothing_yet = no_indices e.allowed_ips none_yet in
        let (stored, first) = indices-with_overlay e i free.in_range nothing_yet in
        rw (gives none_yet i free (found ∙ ap some same)) (
          assigned e i free nothing_yet stored first
            (assign_loop-Pass es (record { used = i ∷ s.used; changed = s.changed + 1 })))
  ]
]
  where
    has_index : (i : ℕ) → overlay_index_of e.allowed_ips ≡ some i → assign_one e s ≡ (e, s)
    has_index i has = rw has refl

    gives :
        overlay_index_of e.allowed_ips ≡ none
        → (i : ℕ) → IsFree s.used i
        → allocate s.used ≡ some (at_index i)
        → assign_one e s
          ≡ (with_overlay e (at_index i), record { used = i ∷ s.used; changed = s.changed + 1 })
    gives none_yet i free found =
        rw (none_yet, found)
          (ap
            (λ (j : ℕ).
              (with_overlay e (at_index i), record { used = j ∷ s.used; changed = s.changed + 1 }))
            (index_of-at_index i free.in_range))
