-- ===== src/Base/Arrays.antt =====
-- Arrays of bytes as lists, and the number that they spell from the lowest byte.
use Prim.Native.Nat.{ℕ, zero, suc, ◌+◌, ◌*◌, ◌/◌, ◌^◌, ◌<◌}
use mathlib.Core.Path.{◌≡◌, refl, ap, sym, ◌∙◌}
use mathlib.Core.List.{List, [], ◌∷◌}
use native.Mathlib.Omega.{arith}
use native.Mathlib.Nat.{zero-div, pow-suc, mul_comm, div-div-eq-div-mul}
use package.akur_ai_vpn.Base.Lists.{length, get_or, set, take, drop, All, empty_of_length}
use package.akur_ai_vpn.Base.Bytes.{IsByte, of_le}

pub of_le-drop : (k : ℕ) (xs : List ℕ) → All IsByte xs → of_le (drop k xs) ≡ of_le xs / 256 ^ k
of_le-drop zero xs h = omega arith
of_le-drop (suc k) [] h = sym (zero-div (256 ^ suc k))
of_le-drop (suc k) (x ∷ xs) h =
    of_le-drop k xs h.1
    ∙ ap (λ (t : ℕ). t / 256 ^ k) first
    ∙ div-div-eq-div-mul (x + 256 * of_le xs) 256 (256 ^ k)
    ∙ ap (λ (t : ℕ). (x + 256 * of_le xs) / t) (mul_comm 256 (256 ^ k) ∙ sym (pow-suc 256 k))
  where
    first : of_le xs ≡ (x + 256 * of_le xs) / 256
    first = omega arith

pub of_le-lt : (xs : List ℕ) → All IsByte xs → of_le xs < 256 ^ length xs
of_le-lt [] h = omega arith
of_le-lt (x ∷ xs) h = omega (arith, of_le-lt xs h.1, pow-suc 256 (length xs))

-- The highest byte and those below it.
pub of_le-top :
    (n : ℕ) (xs : List ℕ)
    → length xs ≡ suc n
    → of_le xs ≡ of_le (take n xs) + 256 ^ n * get_or xs n 0
of_le-top n [] l = absurd (omega arith)
of_le-top zero (x ∷ xs) l = rw (empty_of_length xs (omega arith)) (omega arith)
of_le-top (suc n) (x ∷ xs) l = omega (arith, of_le-top n xs (omega arith), product)
  where
    product : 256 ^ suc n * get_or xs n 0 ≡ 256 * (256 ^ n * get_or xs n 0)
    product = rw (pow-suc 256 n) (omega arith)

pub take-set : (n v : ℕ) (xs : List ℕ) → take n (set xs n v) ≡ take n xs
take-set n v [] = refl
take-set zero v (x ∷ xs) = refl
take-set (suc n) v (x ∷ xs) = ap (◌∷◌ x) (take-set n v xs)

pub get_or-set : (n v d : ℕ) (xs : List ℕ) → n < length xs → get_or (set xs n v) n d ≡ v
get_or-set n v d [] h = absurd (omega arith)
get_or-set zero v d (x ∷ xs) h = refl
get_or-set (suc n) v d (x ∷ xs) h = get_or-set n v d xs (omega arith)

pub length-set : (n v : ℕ) (xs : List ℕ) → length (set xs n v) ≡ length xs
length-set n v [] = refl
length-set zero v (x ∷ xs) = refl
length-set (suc n) v (x ∷ xs) = ap suc (length-set n v xs)

pub set-IsByte : (n v : ℕ) (xs : List ℕ) → IsByte v → All IsByte xs → All IsByte (set xs n v)
set-IsByte n v [] hv h = tt
set-IsByte zero v (x ∷ xs) hv h = (hv, h.1)
set-IsByte (suc n) v (x ∷ xs) hv h = (h.0, set-IsByte n v xs hv h.1)

pub get_or-IsByte : (n : ℕ) (xs : List ℕ) → All IsByte xs → get_or xs n 0 < 256
get_or-IsByte n [] h = omega arith
get_or-IsByte zero (x ∷ xs) h = h.0
get_or-IsByte (suc n) (x ∷ xs) h = get_or-IsByte n xs h.1

-- An array of bytes.
pub record IsArray (n : ℕ) (xs : List ℕ) : Type 0 where
  pub size : length xs ≡ n
  pub bytes : All IsByte xs

pub of_le-set_top :
    (n v : ℕ) (xs : List ℕ)
    → length xs ≡ suc n
    → of_le (set xs n v) ≡ of_le (take n xs) + 256 ^ n * v
of_le-set_top n v xs l =
    of_le-top n (set xs n v) (length-set n v xs ∙ l)
    ∙ rw (take-set n v xs, get_or-set n v 0 xs (omega arith)) refl
