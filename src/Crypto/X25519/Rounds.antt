-- ===== src/Crypto/X25519/Rounds.antt =====
-- crates/akurai-crypto/src/x25519.rs: the rounds of `ladder` against the steps on numbers.
use akur_ai_vpn.Base.{ℕ, zero, suc, ◌≤◌, ◌≡◌, ap, ap₂, refl, ◌∙◌, arith, ◌==◌, if◌then◌else◌}
use akur_ai_vpn.Crypto.Field25519.Arithmetic.{fmul-IsTight}
use akur_ai_vpn.Crypto.Field25519.Reduction.{IsTight, IsLoose, Tight-Loose}
use akur_ai_vpn.Crypto.Field25519.Residue.{
  add_p, sub_p, mul_p, residue, residue-fmul, fadd-IsLoose, residue-fadd, fsub-IsLoose,
  residue-fsub, fmul121665-IsTight, residue-fmul121665,
}
use akur_ai_vpn.Crypto.Field25519.{Fe, fadd, fsub, fmul, fsquare, fmul121665}
use akur_ai_vpn.Crypto.X25519.Curve.{Point, Pair, double, differential_add, step}
use akur_ai_vpn.Crypto.X25519.Swap.{cswap-zero, cswap-one}
use akur_ai_vpn.Crypto.X25519.{Ladder, double_add, round}

-- Limbs within the bounds of a result, or of a factor, that stand for `x`.
record Result (f : Fe) (x : ℕ) : Type 0 where
  bounds : IsTight f
  stands : residue f ≡ x

record Factor (f : Fe) (x : ℕ) : Type 0 where
  bounds : IsLoose f
  stands : residue f ≡ x

module _ {f g : Fe} {x y : ℕ} where
  sum : Result f x → Result g y → Factor (fadd f g) (add_p x y)
  sum a b = record {
    bounds = fadd-IsLoose f g a.bounds b.bounds;
    stands = residue-fadd f g a.bounds b.bounds ∙ ap₂ add_p a.stands b.stands;
  }

  difference : Result f x → Result g y → Factor (fsub f g) (sub_p x y)
  difference a b = record {
    bounds = fsub-IsLoose f g a.bounds b.bounds;
    stands = residue-fsub f g a.bounds b.bounds ∙ ap₂ sub_p a.stands b.stands;
  }

  product : Factor f x → Factor g y → Result (fmul f g) (mul_p x y)
  product a b = record {
    bounds = fmul-IsTight f g a.bounds b.bounds;
    stands = residue-fmul f g a.bounds b.bounds ∙ ap₂ mul_p a.stands b.stands;
  }

module _ {f : Fe} {x : ℕ} where
  square : Factor f x → Result (fsquare f) (mul_p x x)
  unfolding fsquare
  square a = product a a

  scaled : Factor f x → Result (fmul121665 f) (mul_p 121665 x)
  scaled a = record {
    bounds = fmul121665-IsTight f a.bounds;
    stands = residue-fmul121665 f a.bounds ∙ ap (mul_p 121665) a.stands;
  }

  factor : Result f x → Factor f x
  factor a = record { bounds = Tight-Loose f a.bounds; stands = a.stands }

itself : (f : Fe) → IsTight f → Result f (residue f)
itself f h = record { bounds = h; stands = refl }

-- The point that two elements of the field stand for.
abbrev pub point : Fe → Fe → Point
point x z = record { x = residue x; z = residue z }

-- The state with the swap that is due carried out.
abbrev pub pair_at : ℕ → Fe → Fe → Fe → Fe → Pair
pair_at swap x2 z2 x3 z3 =
    if swap == 0
    then record { low = point x2 z2; high = point x3 z3 }
    else record { low = point x3 z3; high = point x2 z2 }

abbrev pub pair_of : Ladder → Pair
pair_of s = pair_at s.swap s.x2 s.z2 s.x3 s.z3

pub record IsWithin (s : Ladder) : Type 0 where
  pub tx2 : IsTight s.x2
  pub tz2 : IsTight s.z2
  pub tx3 : IsTight s.x3
  pub tz3 : IsTight s.z3
  pub bit : s.swap ≤ 1

module _ (x1 x2 z2 x3 z3 : Fe) (h1 : IsTight x1) (hx2 : IsTight x2) (hz2 : IsTight z2)
    (hx3 : IsTight x3) (hz3 : IsTight z3) (bit : ℕ) where
  abbrev after : Ladder
  after = double_add x1 x2 z2 x3 z3 bit

  aa_stands :
      Result
        (fsquare (fadd x2 z2))
        (mul_p (add_p (residue x2) (residue z2)) (add_p (residue x2) (residue z2)))
  aa_stands = square (sum (itself x2 hx2) (itself z2 hz2))

  bb_stands :
      Result
        (fsquare (fsub x2 z2))
        (mul_p (sub_p (residue x2) (residue z2)) (sub_p (residue x2) (residue z2)))
  bb_stands = square (difference (itself x2 hx2) (itself z2 hz2))

  da_stands :
      Result
        (fmul (fsub x3 z3) (fadd x2 z2))
        (mul_p (sub_p (residue x3) (residue z3)) (add_p (residue x2) (residue z2)))
  da_stands =
      product (difference (itself x3 hx3) (itself z3 hz3)) (sum (itself x2 hx2) (itself z2 hz2))

  cb_stands :
      Result
        (fmul (fadd x3 z3) (fsub x2 z2))
        (mul_p (add_p (residue x3) (residue z3)) (sub_p (residue x2) (residue z2)))
  cb_stands =
      product (sum (itself x3 hx3) (itself z3 hz3)) (difference (itself x2 hx2) (itself z2 hz2))

  x2_stands : Result after.x2 (double (point x2 z2)).x
  unfolding double_add double
  x2_stands = product (factor aa_stands) (factor bb_stands)

  z2_stands : Result after.z2 (double (point x2 z2)).z
  unfolding double_add double
  z2_stands = let e = difference aa_stands bb_stands in product e (sum aa_stands (scaled e))

  x3_stands : Result after.x3 (differential_add (residue x1) (point x2 z2) (point x3 z3)).x
  unfolding double_add differential_add
  x3_stands = square (sum da_stands cb_stands)

  z3_stands : Result after.z3 (differential_add (residue x1) (point x2 z2) (point x3 z3)).z
  unfolding double_add differential_add
  z3_stands = product (factor (itself x1 h1)) (factor (square (difference da_stands cb_stands)))

  double_add-IsWithin : bit ≤ 1 → IsWithin after
  unfolding double_add
  double_add-IsWithin b = record {
    tx2 = x2_stands.bounds;
    tz2 = z2_stands.bounds;
    tx3 = x3_stands.bounds;
    tz3 = z3_stands.bounds;
    bit = b;
  }

  -- The doubled point is the first or the second, as the bit says.
  pair_of-double_add : pair_of after ≡ (
      if bit == 0
      then record {
        low = double (point x2 z2);
        high = differential_add (residue x1) (point x2 z2) (point x3 z3);
      }
      else record {
        low = differential_add (residue x1) (point x2 z2) (point x3 z3);
        high = double (point x2 z2);
      })
  unfolding double_add
  pair_of-double_add = rw (x2_stands.stands, z2_stands.stands, x3_stands.stands, z3_stands.stands)

module _ (x1 x2 z2 x3 z3 : Fe) (h1 : IsTight x1) (hx2 : IsTight x2) (hz2 : IsTight z2)
    (hx3 : IsTight x3) (hz3 : IsTight z3) where
  abbrev before : ℕ → Ladder
  before swap = record { x2 = x2; z2 = z2; x3 = x3; z3 = z3; swap = swap }

  abbrev swapped : ℕ → Fe × Fe → Fe × Fe → Ladder
  swapped bit (x2', x3') (z2', z3') = double_add x1 x2' z2' x3' z3' bit

  -- A round starts with the swap by the exclusive or of the last bit and this one.
  round_swapped :
      (swap bit : ℕ)
      → swap ≤ 1
      → bit ≤ 1
      → round x1 bit (before swap)
        ≡ (if swap == bit then double_add x1 x2 z2 x3 z3 bit else double_add x1 x3 z3 x2 z2 bit)
  unfolding round
  round_swapped zero zero hs hb = ap₂ (swapped 0) (cswap-zero x2 x3) (cswap-zero z2 z3)
  round_swapped zero (suc zero) hs hb =
      ap₂ (swapped 1) (cswap-one x2 x3 hx2 hx3) (cswap-one z2 z3 hz2 hz3)
  round_swapped (suc zero) zero hs hb =
      ap₂ (swapped 0) (cswap-one x2 x3 hx2 hx3) (cswap-one z2 z3 hz2 hz3)
  round_swapped (suc zero) (suc zero) hs hb = ap₂ (swapped 1) (cswap-zero x2 x3) (cswap-zero z2 z3)
  round_swapped (suc (suc n)) bit hs hb = absurd (omega arith)
  round_swapped swap (suc (suc n)) hs hb = absurd (omega arith)

  round_lem :
      (swap bit : ℕ)
      → swap ≤ 1
      → bit ≤ 1
      → IsWithin (round x1 bit (before swap))
        × (pair_of (round x1 bit (before swap)) ≡ step (residue x1) bit (pair_of (before swap)))
  unfolding step
  round_lem zero zero hs hb = rw (round_swapped 0 0 hs hb) (
    double_add-IsWithin x1 x2 z2 x3 z3 h1 hx2 hz2 hx3 hz3 0 hb,
    pair_of-double_add x1 x2 z2 x3 z3 h1 hx2 hz2 hx3 hz3 0,
  )
  round_lem zero (suc zero) hs hb = rw (round_swapped 0 1 hs hb) (
    double_add-IsWithin x1 x3 z3 x2 z2 h1 hx3 hz3 hx2 hz2 1 hb,
    pair_of-double_add x1 x3 z3 x2 z2 h1 hx3 hz3 hx2 hz2 1,
  )
  round_lem (suc zero) zero hs hb = rw (round_swapped 1 0 hs hb) (
    double_add-IsWithin x1 x3 z3 x2 z2 h1 hx3 hz3 hx2 hz2 0 hb,
    pair_of-double_add x1 x3 z3 x2 z2 h1 hx3 hz3 hx2 hz2 0,
  )
  round_lem (suc zero) (suc zero) hs hb = rw (round_swapped 1 1 hs hb) (
    double_add-IsWithin x1 x2 z2 x3 z3 h1 hx2 hz2 hx3 hz3 1 hb,
    pair_of-double_add x1 x2 z2 x3 z3 h1 hx2 hz2 hx3 hz3 1,
  )
  round_lem (suc (suc n)) bit hs hb = absurd (omega arith)
  round_lem swap (suc (suc n)) hs hb = absurd (omega arith)

-- A round is a step on the pair of points, and keeps the bounds.
pub round-step :
    (x1 : Fe) (s : Ladder) (bit : ℕ)
    → IsTight x1
    → IsWithin s
    → bit ≤ 1
    → IsWithin (round x1 bit s) × (pair_of (round x1 bit s) ≡ step (residue x1) bit (pair_of s))
round-step x1 s bit h1 h hb =
    round_lem x1 s.x2 s.z2 s.x3 s.z3 h1 h.tx2 h.tz2 h.tx3 h.tz3 s.swap bit h.bit hb
