-- ===== src/Control/Ipam/Allocation.antt =====
-- crates/akurai-control/src/ipam.rs: which index is allocated.
use akur_ai_vpn.Base.{
  ◌↔◌, ℕ, zero, suc, ◌+◌, ◌-◌, ◌<◌, ◌≤◌, ◌≡◌, refl, sym, subst, ◌∙◌, ◌⊎◌, inl, inr, true, false,
  List, Option, none, some, arith, In, any→In, In→any, ◌==◌, ==_iff, Bool-cases, leb, not, ◌&&◌,
  le_or_lt,
}
use akur_ai_vpn.Common.Overlay.{OverlayIpv4, from_index, max_index, overlay_ipv4_net}
use akur_ai_vpn.Control.Ipam.{
  first_node_index, is_used, find_free, allocate, choose_for_enrollment, to_option,
}

is_used→In : (used : List ℕ) (i : ℕ) → is_used used i ≡ true → In i used
is_used→In used i h = let (j, m, q) = any→In (λ j. i == j) used h in rw ((==_iff i j).0 q) m

In→is_used : (used : List ℕ) (i : ℕ) → In i used → is_used used i ≡ true
In→is_used used i m = In→any (λ j. i == j) i used m ((==_iff i i).1 refl)

-- An index that a device may receive.
pub record IsFree (used : List ℕ) (i : ℕ) : Type 0 where
  pub is_node_index : first_node_index ≤ i
  pub in_range : i ≤ max_index
  pub not_used : In i used → ⊥

abbrev pub at_index : ℕ → OverlayIpv4
at_index i = record { addr = overlay_ipv4_net + i }

from_next :
    {used : List ℕ} (from to : ℕ)
    → In from used
    → ((j : ℕ) → from + 1 ≤ j → j < to → In j used)
    → (j : ℕ) → from ≤ j
    → j < to
    → In j used
from_next {used} from to first later j p q = elim (le_or_lt (from + 1) j) [
  | inl h ↦ later j h q
  | inr h ↦ subst (λ (i : ℕ). In i used) (same j from p h) first
]
  where
    same : (j from : ℕ) → from ≤ j → j < from + 1 → from ≡ j
    same j from p h = omega arith

find_free_cases :
    (used : List ℕ) (n from : ℕ)
    → ((i : ℕ) × (from ≤ i)
        × (i < from + n)
        × (In i used → ⊥)
        × ((j : ℕ) → from ≤ j → j < i → In j used)
        × (find_free used n from ≡ some i))
      ⊎ ((find_free used n from ≡ none) × ((j : ℕ) → from ≤ j → j < from + n → In j used))
unfolding find_free
find_free_cases used zero from = inr (refl, λ j p q. absurd (omega arith))
find_free_cases used (suc n) from = elim (Bool-cases (is_used used from)) [
  | inr e ↦ inl (
    from,
    omega arith,
    omega arith,
    λ m. cc (In→is_used used from m),
    λ j p q. absurd (omega arith),
    ground arith,
  )
  | inl e ↦ elim (find_free_cases used n (from + 1)) [
    | inl (i, p, q, free, below, found) ↦ inl (
      i,
      omega arith,
      omega arith,
      free,
      from_next from i (is_used→In used from e) below,
      ground arith,
    )
    | inr (nothing, full) ↦ inr (
      ground arith,
      λ j p q.
          from_next from (from + suc n) (is_used→In used from e) (λ j p q. full j p (omega arith)) j
            p q,
    )
  ]
]

from_index_is : (i : ℕ) → i ≤ max_index → to_option (from_index i) ≡ some (at_index i)
unfolding from_index
from_index_is i h = ground arith

-- What `allocate` makes of the two ends of the search.
allocate_cases :
    (used : List ℕ)
    → ((i : ℕ) × IsFree used i
        × ((j : ℕ) → first_node_index ≤ j → j < i → In j used)
        × (allocate used ≡ some (at_index i)))
      ⊎ ((allocate used ≡ none) × ((i : ℕ) → IsFree used i → ⊥))
unfolding allocate
allocate_cases used =
    elim (find_free_cases used (max_index + 1 - first_node_index) first_node_index) [
      | inl (i, p, q, free, below, found) ↦ inl (
        i,
        record { is_node_index = p; in_range = omega arith; not_used = free },
        below,
        rw found (from_index_is i (omega arith)),
      )
      | inr (nothing, full) ↦
          inr (rw nothing, λ i f. f.not_used (full i f.is_node_index (omega (arith, f.in_range))))
    ]

-- The index that is allocated is free, and every lower index that a device may receive is in use.
pub allocate-IsFree :
    (used : List ℕ) (ip : OverlayIpv4)
    → allocate used ≡ some ip
    → (i : ℕ) × IsFree used i
      × (ip ≡ at_index i)
      × ((j : ℕ) → first_node_index ≤ j → j < i → In j used)
allocate-IsFree used ip e = elim (allocate_cases used) [
  | inl (i, free, below, found) ↦ (i, free, cc, below)
  | inr (nothing, full) ↦ cc
]

-- Nothing is allocated only if no index is free.
pub allocate-exhausted : (used : List ℕ) → (allocate used ≡ none) ↔ ((i : ℕ) → IsFree used i → ⊥)
allocate-exhausted used = elim (allocate_cases used) [
  | inl (i, free, below, found) ↦ (λ e. cc, λ full. absurd (full i free))
  | inr (nothing, full) ↦ (λ e. full, λ f. nothing)
]

-- An index that the caller supplies is given to the device if it is free, and in every other case
-- what it receives is what `allocate` gives.
pub choose_for_enrollment-supplied :
    (i : ℕ) (used : List ℕ)
    → (IsFree used i × (choose_for_enrollment (some i) used ≡ some (at_index i)))
      ⊎ ((IsFree used i → ⊥) × (choose_for_enrollment (some i) used ≡ allocate used))
unfolding choose_for_enrollment
choose_for_enrollment-supplied i used =
    elim (Bool-cases (leb first_node_index i && leb i max_index && not (is_used used i))) [
      | inl e ↦ inl (
        record {
          is_node_index = ground arith;
          in_range = ground arith;
          not_used = λ m. ground (arith, In→is_used used i m);
        },
        rw e (from_index_is i (ground arith)),
      )
      | inr e ↦ inr (λ f. ground (arith, unused f, f.is_node_index, f.in_range), rw e)
    ]
  where
    unused : IsFree used i → is_used used i ≡ false
    unused f = elim (Bool-cases (is_used used i)) [
      | inl e ↦ absurd (f.not_used (is_used→In used i e))
      | inr e ↦ e
    ]

-- An address that an enrolling device receives was free before, whatever was supplied.
pub choose_for_enrollment-IsFree :
    (supplied : Option ℕ) (used : List ℕ) (ip : OverlayIpv4)
    → choose_for_enrollment supplied used ≡ some ip
    → (i : ℕ) × IsFree used i × (ip ≡ at_index i)
unfolding choose_for_enrollment
choose_for_enrollment-IsFree none used ip e =
    let (i, free, same, below) = allocate-IsFree used ip e in (i, free, same)
choose_for_enrollment-IsFree (some s) used ip e = elim (choose_for_enrollment-supplied s used) [
  | inl (free, given) ↦ (s, free, cc)
  | inr (taken, given) ↦
      let (i, free, same, below) = allocate-IsFree used ip (sym given ∙ e) in (i, free, same)
]
