-- ===== src/Control/Ipam/Assignment.antt =====
-- crates/akurai-control/src/ipam.rs: the backfill of the devices that have no overlay address.
use akur_ai_vpn.Base.{
  ℕ, ◌≡◌, refl, ap, subst, ◌⊎◌, inl, inr, List, ◌++◌, none, Option-cases, In, here, there,
  In-append_left,
}
use akur_ai_vpn.Base.Distinct.{
  IsDistinct, append-IsDistinct, IsDistinct-append, In-append_cases, In-append_right,
}
use akur_ai_vpn.Control.VpnEndpoint.{VpnEndpoint}
use akur_ai_vpn.Control.Ipam.{
  overlay_index_of, used_indices, allocate, Progress, assign_one, assign_loop, assign_missing,
}
use akur_ai_vpn.Control.Ipam.Allocation.{allocate-exhausted}
use akur_ai_vpn.Control.Ipam.Pass.{
  Pass, finished, kept, assigned, indices, IsFull, assign_loop-Pass, unassigned,
}

-- An index in use stays in use.
keeps :
    {es es' : List VpnEndpoint} {s t : Progress} (i : ℕ)
    → Pass es s es' t
    → In i (used_indices es)
    → In i (used_indices es')
unfolding used_indices
keeps i (finished s) m = m
keeps i (kept e {es} {es'} has p) m = elim (In-append_cases i (indices e) (used_indices es) m) [
  | inl a ↦ In-append_left i (indices e) (used_indices es') a
  | inr b ↦ In-append_right i (indices e) (used_indices es') (keeps i p b)
]
keeps i (assigned e j {es} {es'} free nothing_yet stored first p) m =
    rw stored
      (there (keeps i p (subst (λ (l : List ℕ). In i (l ++ used_indices es)) nothing_yet m)))

-- What the loop holds for used behind it was used before, or has been given out.
used-In :
    {es es' : List VpnEndpoint} {s t : Progress} (i : ℕ)
    → Pass es s es' t
    → In i t.used
    → In i s.used ⊎ In i (used_indices es')
unfolding used_indices
used-In i (finished s) m = inl m
used-In i (kept e {es} {es'} has p) m = elim (used-In i p m) [
  | inl a ↦ inl a
  | inr b ↦ inr (In-append_right i (indices e) (used_indices es') b)
]
used-In i (assigned e j {es} {es'} free nothing_yet stored first p) m = elim (used-In i p m) [
  | inl (here same) ↦ inr (rw stored (here same))
  | inl (there a) ↦ inl a
  | inr b ↦ inr (rw stored (there b))
]

-- An index behind the loop stood there before, or was not in use.
old_or_new :
    {es es' : List VpnEndpoint} {s t : Progress} (i : ℕ)
    → Pass es s es' t
    → In i (used_indices es')
    → In i (used_indices es) ⊎ (In i s.used → ⊥)
unfolding used_indices
old_or_new i (finished s) m = inl m
old_or_new i (kept e {es} {es'} has p) m =
    elim (In-append_cases i (indices e) (used_indices es') m) [
      | inl a ↦ inl (In-append_left i (indices e) (used_indices es) a)
      | inr b ↦ elim (old_or_new i p b) [
        | inl c ↦ inl (In-append_right i (indices e) (used_indices es) c)
        | inr n ↦ inr n
      ]
    ]
old_or_new i (assigned e j {es} {es'} {s} free nothing_yet stored first p) m =
    elim (subst (λ (l : List ℕ). In i (l ++ used_indices es')) stored m) [
      | here same ↦ inr (λ u. free.not_used (subst (λ (k : ℕ). In k s.used) same u))
      | there b ↦ elim (old_or_new i p b) [
        | inl c ↦ inl (In-append_right i (indices e) (used_indices es) c)
        | inr n ↦ inr (λ u. n (there u))
      ]
    ]

-- No index is given out that another endpoint carries.
Pass-IsDistinct :
    {es es' : List VpnEndpoint} {s t : Progress}
    → Pass es s es' t
    → ((i : ℕ) → In i (used_indices es) → In i s.used)
    → IsDistinct (used_indices es)
    → IsDistinct (used_indices es')
unfolding used_indices
Pass-IsDistinct (finished s) covered d = d
Pass-IsDistinct (kept e {es} {es'} has p) covered d =
    let (own, others, apart) = IsDistinct-append (indices e) (used_indices es) d in
    append-IsDistinct (indices e) (used_indices es') own
      (Pass-IsDistinct p (λ i m. covered i (In-append_right i (indices e) (used_indices es) m))
        others)
      (λ i a b. elim (old_or_new i p b) [
        | inl c ↦ apart i a c
        | inr n ↦ n (covered i (In-append_left i (indices e) (used_indices es) a))
      ])
Pass-IsDistinct (assigned e j {es} {es'} {s} free nothing_yet stored first p) covered d =
    let (own, others, apart) = IsDistinct-append (indices e) (used_indices es) d in
    rw stored (
      λ m. elim (old_or_new j p m) [
        | inl c ↦ free.not_used (covered j (In-append_right j (indices e) (used_indices es) c))
        | inr n ↦ n (here refl)
      ],
      Pass-IsDistinct p
          (λ i m. there (covered i (In-append_right i (indices e) (used_indices es) m))) others,
    )

-- If no index is carried twice by the endpoints, none is after the backfill.
pub assign_missing-IsDistinct :
    (endpoints : List VpnEndpoint)
    → IsDistinct (used_indices endpoints)
    → IsDistinct (used_indices (assign_missing endpoints).0)
unfolding assign_missing
assign_missing-IsDistinct endpoints d = Pass-IsDistinct (assign_loop-Pass endpoints _) (λ i m. m) d

-- A full set stays full.
IsFull-mono : {a b : List ℕ} → ((i : ℕ) → In i a → In i b) → IsFull a → IsFull b
IsFull-mono sub f i free = f i (record {
  is_node_index = free.is_node_index;
  in_range = free.in_range;
  not_used = λ m. free.not_used (sub i m);
})

grows :
    {es es' : List VpnEndpoint} {s t : Progress} (i : ℕ)
    → Pass es s es' t
    → In i s.used
    → In i t.used
grows i (finished s) m = m
grows i (kept e has p) m = grows i p m
grows i (assigned e j free nothing_yet stored first p) m = grows i p (there m)

-- A second pass over what the first left changes nothing, if it starts with what the first used.
settled :
    {es es' : List VpnEndpoint} {s t : Progress} (again : Progress)
    → Pass es s es' t
    → ((i : ℕ) → In i t.used → In i again.used)
    → assign_loop es' again ≡ (es', again)
unfolding assign_loop assign_one
settled again (finished s) sub = refl
settled again (kept e {es} {es'} (inl (i, has)) p) sub = rw (has, settled again p sub) refl
settled again (kept e {es} {es'} {s} (inr full) p) sub =
    elim (Option-cases (overlay_index_of e.allowed_ips)) [
      | inr (i, has) ↦ rw (has, settled again p sub) refl
      | inl none_yet ↦ rw (unassigned e again none_yet nothing_left, settled again p sub) refl
    ]
  where
    nothing_left : allocate again.used ≡ none
    nothing_left = (allocate-exhausted again.used).1 (IsFull-mono (λ i m. sub i (grows i p m)) full)
settled again (assigned e j free nothing_yet stored first p) sub =
    rw (first, settled again p sub) refl

-- The backfill is idempotent: run on its own result it changes no endpoint, and reports none.
pub assign_missing-idempotent :
    (endpoints : List VpnEndpoint)
    → assign_missing (assign_missing endpoints).0 ≡ ((assign_missing endpoints).0, 0)
unfolding assign_missing
assign_missing-idempotent endpoints =
    ap (λ (r : List VpnEndpoint × Progress). (r.0, r.1.changed))
      (settled (record { used = used_indices (assign_missing endpoints).0; changed = 0 }) pass
        (λ i m. elim (used-In i pass m) [ inl a ↦ keeps i pass a | inr b ↦ b ]))
  where
    pass :
        Pass endpoints
          (record { used = used_indices endpoints; changed = 0 })
          (assign_missing endpoints).0
          (assign_loop endpoints (record { used = used_indices endpoints; changed = 0 })).1
    pass = assign_loop-Pass endpoints _
