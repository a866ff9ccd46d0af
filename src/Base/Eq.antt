-- ===== src/Base/Eq.antt =====
-- Equality tests as an interface: `PartialEq` of the source, with the law that the code relies on.
use Prim.Native.Nat.{ℕ}
use mathlib.Core.Path.{◌≡◌, refl, ap, ap₂, ◌∙◌, sym}
use mathlib.Core.Logic.{◌↔◌, ◌≢◌}
use mathlib.Core.Bool.{Bool, true, false, ◌&&◌}
use mathlib.Core.List.{List, [], ◌∷◌}
use native.Mathlib.Omega.{arith}
use package.akur_ai_vpn.Base.Tests.{◌==◌ as nat_beq, ==_iff}

pub record Eq {ℓ} (A : Type ℓ) : Type ℓ where
  pub beq : A → A → Bool
  pub beq_iff : (x y : A) → (beq x y ≡ true) ↔ (x ≡ y)

instance abbrev pub nat_eq : Eq ℕ
nat_eq = record { beq = nat_beq; beq_iff = ==_iff }

module _ {ℓ} {A : Type ℓ} ⦃e : Eq A⦄ where
  infix 50 ◌===◌
  abbrev pub ◌===◌ : A → A → Bool
  a === b = e.beq a b

  pub ===_self : (a : A) → (a === a) ≡ true
  ===_self a = (e.beq_iff a a).1 refl

  pub ===_eq : (a b : A) → (a === b) ≡ true → a ≡ b
  ===_eq a b h = (e.beq_iff a b).0 h

  pub ===_ne : (a b : A) → (a === b) ≡ false → a ≢ b
  ===_ne a b h p = cc ((e.beq_iff a b).1 p)

  -- Element by element, as on slices and vectors.
  abbrev pub list_beq : List A → List A → Bool
  list_beq [] [] = true
  list_beq (x ∷ xs) (y ∷ ys) = e.beq x y && list_beq xs ys
  list_beq _ _ = false

  pub list_beq→eq : (xs ys : List A) → list_beq xs ys ≡ true → xs ≡ ys
  list_beq→eq [] [] h = refl
  list_beq→eq [] (y ∷ ys) h = cc
  list_beq→eq (x ∷ xs) [] h = cc
  list_beq→eq (x ∷ xs) (y ∷ ys) h =
      ap₂ ◌∷◌ ((e.beq_iff x y).0 (ground arith)) (list_beq→eq xs ys (ground arith))

  pub list_beq_self : (xs : List A) → list_beq xs xs ≡ true
  list_beq_self [] = refl
  list_beq_self (x ∷ xs) = ground (arith, (e.beq_iff x x).1 refl, list_beq_self xs)

  pub list_beq_iff : (xs ys : List A) → (list_beq xs ys ≡ true) ↔ (xs ≡ ys)
  list_beq_iff xs ys = (list_beq→eq xs ys, λ p. ap (list_beq xs) (sym p) ∙ list_beq_self xs)

  instance abbrev pub list_eq : Eq (List A)
  list_eq = record { beq = list_beq; beq_iff = list_beq_iff }
