-- ===== src/Control/Registry/Addresses.antt =====
-- crates/akurai-control/src/listener.rs: the overlay addresses of the registered devices.
use akur_ai_vpn.Base.{
  ℕ, Bool, In-append_left, ◌≡◌, refl, ap, sym, subst, ◌∙◌, ◌⊎◌, inl, inr, List, [], ◌∷◌, ◌++◌,
  Option-cases, In, here, there,
}
use mathlib.Core.List.{append-nil, append_assoc}
use akur_ai_vpn.Base.Distinct.{IsDistinct, append-IsDistinct}
use akur_ai_vpn.Base.Text.{Str}
use akur_ai_vpn.Control.Ipam.{
  parse_overlay_index, overlay_index_of, overlay_indices_of, used_indices, choose_for_enrollment,
}
use akur_ai_vpn.Control.Ipam.Allocation.{IsFree, choose_for_enrollment-IsFree}
use akur_ai_vpn.Control.Ipam.Pass.{indices, stored_index}
use akur_ai_vpn.Control.VpnEndpoint.{VpnEndpoint}
use akur_ai_vpn.Control.Registry.{AuthUser, AppState, is_named, revoked, rotated}
use akur_ai_vpn.Control.Registry.Enrollment.{
  Enrollment, Fresh, without_overlay, one_overlay, new_endpoint,
}
use akur_ai_vpn.Control.Registry.Steps.{
  Request, handle, run, Changed, at, behind, Effect, unchanged, pushed, revokes, rotates,
  handle-Effect,
}

without_overlay-indices : (ips : List Str) → overlay_indices_of (without_overlay ips) ≡ []
unfolding without_overlay overlay_indices_of overlay_index_of
without_overlay-indices [] = refl
without_overlay-indices (e ∷ es) = elim (Option-cases (parse_overlay_index e)) [
  | inl p ↦ rw (p, p) (without_overlay-indices es)
  | inr (i, p) ↦ rw p (without_overlay-indices es)
]

-- The entries that a new device is given hold at most one index, which was free.
one_overlay-indices :
    (ips : List Str) (used : List ℕ)
    → (overlay_indices_of (one_overlay ips used) ≡ [])
      ⊎ ((i : ℕ) × IsFree used i × (overlay_indices_of (one_overlay ips used) ≡ i ∷ []))
unfolding one_overlay overlay_indices_of
one_overlay-indices ips used =
    elim (Option-cases (choose_for_enrollment (overlay_index_of ips) used)) [
      | inl n ↦ inl (rw n (without_overlay-indices ips))
      | inr (ip, c) ↦
          let (i, free, same) = choose_for_enrollment-IsFree (overlay_index_of ips) used ip c in
          inr (
            i,
            free,
            rw (c, same, stored_index i free.in_range) (ap (◌∷◌ i) (without_overlay-indices ips)),
          )
    ]

used_indices-push :
    (es : List VpnEndpoint) (e : VpnEndpoint)
    → used_indices (es ++ (e ∷ [])) ≡ used_indices es ++ indices e
unfolding used_indices
used_indices-push [] e = append-nil (indices e)
used_indices-push (x ∷ es) e =
    ap (◌++◌ (indices x)) (used_indices-push es e)
    ∙ sym (append_assoc (indices x) (used_indices es) (indices e))

Changed-used :
    (test : VpnEndpoint → Bool) (change : VpnEndpoint → VpnEndpoint)
    → ((e : VpnEndpoint) → (change e).allowed_ips ≡ e.allowed_ips)
    → {es es' : List VpnEndpoint} → Changed test change es es'
    → used_indices es' ≡ used_indices es
unfolding used_indices
Changed-used test change keeps (at e es t) =
    ap (λ (ips : List Str). overlay_indices_of ips ++ used_indices es) (keeps e)
Changed-used test change keeps (behind e t c) =
    ap (◌++◌ (indices e)) (Changed-used test change keeps c)

append_free-IsDistinct :
    (used given : List ℕ)
    → (given ≡ []) ⊎ ((i : ℕ) × IsFree used i × (given ≡ i ∷ []))
    → IsDistinct used
    → IsDistinct (used ++ given)
append_free-IsDistinct used given (inl none_given) d =
    subst IsDistinct (sym (ap (◌++◌ used) none_given ∙ append-nil used)) d
append_free-IsDistinct used given (inr (i, free, one)) d =
    subst (λ (l : List ℕ). IsDistinct (used ++ l)) (sym one)
      (append-IsDistinct used (i ∷ []) d (λ m. elim m [ ], tt) (λ a m n. apart a m n))
  where
    apart : (a : ℕ) → In a used → In a (i ∷ []) → ⊥
    apart a m (here e) = free.not_used (subst (λ (k : ℕ). In k used) e m)
    apart a m (there n) = elim n [ ]

pushed-IsDistinct :
    (r : Enrollment) (user : AuthUser) (org ws : Str) (fresh : Fresh) (es : List VpnEndpoint)
    → IsDistinct (used_indices es)
    → IsDistinct (used_indices (es ++ (new_endpoint r user org ws fresh (used_indices es) ∷ [])))
unfolding new_endpoint
pushed-IsDistinct r user org ws fresh es d =
    rw (used_indices-push es (new_endpoint r user org ws fresh (used_indices es))) (
      append_free-IsDistinct (used_indices es) _
        (one_overlay-indices r.allowed_ips (used_indices es)) d)

Effect-IsDistinct :
    {r : Request} {es es' : List VpnEndpoint}
    → Effect r es es'
    → IsDistinct (used_indices es)
    → IsDistinct (used_indices es')
Effect-IsDistinct (unchanged r es) d = d
Effect-IsDistinct (pushed csrf r session fresh org ws es t) d =
    pushed-IsDistinct r session.user org ws fresh es d
Effect-IsDistinct (revokes csrf id session now saved org ws t c) d =
    subst IsDistinct (sym (Changed-used (is_named org ws id) (revoked now) (λ e. refl) c)) d
Effect-IsDistinct (rotates csrf id session token now saved org ws t c) d =
    subst IsDistinct (sym (Changed-used (is_named org ws id) (rotated token now) (λ e. refl) c)) d

Effect-keeps :
    (i : ℕ) {r : Request} {es es' : List VpnEndpoint}
    → Effect r es es'
    → In i (used_indices es)
    → In i (used_indices es')
Effect-keeps i (unchanged r es) m = m
Effect-keeps i (pushed csrf r session fresh org ws es t) m =
    rw (used_indices-push es (new_endpoint r session.user org ws fresh (used_indices es)))
      (In-append_left i (used_indices es) _ m)
Effect-keeps i (revokes csrf id session now saved org ws t c) m =
    subst (In i) (sym (Changed-used (is_named org ws id) (revoked now) (λ e. refl) c)) m
Effect-keeps i (rotates csrf id session token now saved org ws t c) m =
    subst (In i) (sym (Changed-used (is_named org ws id) (rotated token now) (λ e. refl) c)) m

-- If no overlay index is carried twice by the devices, revoked ones included, none is after any
-- sequence of requests; and an index that a device carries stays in use, also once it is deleted, so
-- that no other device is given it.
pub run-IsDistinct :
    (rs : List Request) (st : AppState)
    → IsDistinct (used_indices st.endpoints)
    → IsDistinct (used_indices (run rs st).endpoints)
      × ((i : ℕ) → In i (used_indices st.endpoints) → In i (used_indices (run rs st).endpoints))
unfolding run
run-IsDistinct [] st d = (d, λ i m. m)
run-IsDistinct (r ∷ rs) st d =
    let (distinct, kept) =
      run-IsDistinct rs (handle r st).1 (Effect-IsDistinct (handle-Effect r st) d) in
    (distinct, λ i m. kept i (Effect-keeps i (handle-Effect r st) m))
