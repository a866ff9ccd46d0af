-- ===== src/Base/Distinct.antt =====
-- Lists without a repeated element.
use mathlib.Core.Path.{refl, sym}
use mathlib.Core.Logic.{◌⊎◌, inl, inr}
use mathlib.Core.List.{List, [], ◌∷◌, ◌++◌}
use package.akur_ai_vpn.Base.Lists.{In, here, there, In-append_left}

module _ {ℓ} {A : Type ℓ} where
  abbrev pub IsDistinct : List A → Type ℓ
  IsDistinct [] = Unit {ℓ}
  IsDistinct (x ∷ xs) = (In x xs → ⊥) × IsDistinct xs

  pub In-append_right : (a : A) (xs ys : List A) → In a ys → In a (xs ++ ys)
  In-append_right a [] ys m = m
  In-append_right a (x ∷ xs) ys m = there (In-append_right a xs ys m)

  pub In-append_cases : (a : A) (xs ys : List A) → In a (xs ++ ys) → In a xs ⊎ In a ys
  In-append_cases a [] ys m = inr m
  In-append_cases a (x ∷ xs) ys (here e) = inl (here e)
  In-append_cases a (x ∷ xs) ys (there m) = elim (In-append_cases a xs ys m) [
    | inl k ↦ inl (there k)
    | inr k ↦ inr k
  ]

  pub append-IsDistinct :
      (xs ys : List A)
      → IsDistinct xs
      → IsDistinct ys
      → ((a : A) → In a xs → In a ys → ⊥)
      → IsDistinct (xs ++ ys)
  append-IsDistinct [] ys h k apart = k
  append-IsDistinct (x ∷ xs) ys h k apart = (
    λ m. elim (In-append_cases x xs ys m) [ inl a ↦ h.0 a | inr b ↦ apart x (here refl) b ],
    append-IsDistinct xs ys h.1 k (λ a p q. apart a (there p) q),
  )

  pub IsDistinct-append :
      (xs ys : List A)
      → IsDistinct (xs ++ ys)
      → IsDistinct xs × IsDistinct ys × ((a : A) → In a xs → In a ys → ⊥)
  IsDistinct-append [] ys h = (tt, h, λ a m n. elim m [ ])
  IsDistinct-append (x ∷ xs) ys h =
      let (p, q, apart) = IsDistinct-append xs ys h.1 in
      ((λ m. h.0 (In-append_left x xs ys m), p), q, λ a m n. first a m n apart)
    where
      first : (a : A) → In a (x ∷ xs) → In a ys → ((a : A) → In a xs → In a ys → ⊥) → ⊥
      first a (here e) n apart = h.0 (In-append_right x xs ys (rw (sym e) n))
      first a (there m) n apart = apart a m n
