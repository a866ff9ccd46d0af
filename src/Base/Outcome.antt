-- ===== src/Base/Outcome.antt =====
-- Code that may panic: a value, or `panic` for an index or a range out of bounds.
use Prim.Native.Nat.{ℕ, ◌-◌}
use mathlib.Core.List.{List}
use mathlib.Core.Option.{none, some}
use mathlib.Core.Bool.{◌&&◌}
use package.akur_ai_vpn.Base.Tests.{leb, if◌then◌else◌}
use package.akur_ai_vpn.Base.Lists.{length, get_elem?, take, drop}

pub data Outcome {ℓ} (A : Type ℓ) : Type ℓ where
  done : A → Outcome A
  panic : Outcome A

infixl 5 ◌>>=◌
abbrev pub ◌>>=◌ {ℓ κ} : {A : Type ℓ} {B : Type κ} → Outcome A → (A → Outcome B) → Outcome B
done a >>= f = f a
panic >>= f = panic

-- `buf[i]`
abbrev pub at {ℓ} : {A : Type ℓ} → List A → ℕ → Outcome A
at buf i = elim (get_elem? buf i) [ none ↦ panic | some a ↦ done a ]

-- `buf[lo..hi]`
abbrev pub slice {ℓ} : {A : Type ℓ} → List A → ℕ → ℕ → Outcome (List A)
slice buf lo hi =
    if leb lo hi && leb hi (length buf) then done (take (hi - lo) (drop lo buf)) else panic
