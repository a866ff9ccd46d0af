-- ===== src/Crypto/Field25519/Inverse.antt =====
-- crates/akurai-crypto/src/x25519.rs: the addition chain of `finvert`.
use akur_ai_vpn.Base.{ℕ, zero, suc, ◌+◌, ◌-◌, ◌*◌, ◌^◌, ◌≡◌, ap₂, ◌∙◌, arith, subst}
use akur_ai_vpn.Base.Bits.{two-pow-suc}
use akur_ai_vpn.Crypto.Field25519.Arithmetic.{fmul-IsTight}
use akur_ai_vpn.Crypto.Field25519.Reduction.{p, IsTight, Tight-Loose}
use akur_ai_vpn.Crypto.Field25519.Residue.{mul_p, pow_p, pow_p-add, residue, residue-fmul}
use akur_ai_vpn.Crypto.Field25519.{Fe, fmul, fsquare, square_times, z2_5_0, finvert}

-- `f` is `z` to the power of `e`.
record IsPower (z : Fe) (e : ℕ) (f : Fe) : Type 0 where
  tight : IsTight f
  power : residue f ≡ pow_p (residue z) e

module _ (z : Fe) where
  IsPower-fmul : (d e : ℕ) (f g : Fe) → IsPower z d f → IsPower z e g → IsPower z (d + e) (fmul f g)
  IsPower-fmul d e f g hf hg = record {
    tight = fmul-IsTight f g (Tight-Loose f hf.tight) (Tight-Loose g hg.tight);
    power =
        residue-fmul f g (Tight-Loose f hf.tight) (Tight-Loose g hg.tight)
        ∙ ap₂ mul_p hf.power hg.power
        ∙ pow_p-add (residue z) d e;
  }

  IsPower-fsquare : (e : ℕ) (f : Fe) → IsPower z e f → IsPower z (e + e) (fsquare f)
  unfolding fsquare
  IsPower-fsquare e f h = IsPower-fmul e e f f h h

  IsPower-square_times :
      (n e : ℕ) (f : Fe) → IsPower z e f → IsPower z (e * 2 ^ n) (square_times n f)
  unfolding square_times
  IsPower-square_times zero e f h = subst (λ (d : ℕ). IsPower z d f) (omega arith) h
  IsPower-square_times (suc n) e f h =
      subst (λ (d : ℕ). IsPower z d (square_times n (fsquare f))) (rw (two-pow-suc n) (omega arith))
        (IsPower-square_times n (e + e) (fsquare f) (IsPower-fsquare e f h))

  -- `n + 1` squarings, then a product.
  IsPower-step :
      (n d e : ℕ) (f g : Fe)
      → IsPower z d f
      → IsPower z e g
      → IsPower z ((d + d) * 2 ^ n + e) (fmul (square_times n (fsquare f)) g)
  IsPower-step n d e f g hf hg =
      IsPower-fmul _ e _ g (IsPower-square_times n (d + d) (fsquare f) (IsPower-fsquare d f hf)) hg

  module _ (h : IsTight z) where
    IsPower-one : IsPower z 1 z
    unfolding pow_p mul_p residue
    IsPower-one = record { tight = h; power = omega arith }

    -- `finvert` raises to the power of p - 2.
    finvert-IsPower : IsPower z (p - 2) (finvert z)
    unfolding finvert z2_5_0
    finvert-IsPower =
        let h2 = IsPower-fsquare 1 z IsPower-one in
        let h9 = IsPower-fmul 8 1 _ z (IsPower-fsquare 4 _ (IsPower-fsquare 2 _ h2)) IsPower-one in
        let h11 = IsPower-fmul 9 2 _ _ h9 h2 in
        let h5 = IsPower-fmul 22 9 _ _ (IsPower-fsquare 11 _ h11) h9 in
        let h10 = IsPower-step 4 (2 ^ 5 - 1) (2 ^ 5 - 1) _ _ h5 h5 in
        let h20 = IsPower-step 9 (2 ^ 10 - 1) (2 ^ 10 - 1) _ _ h10 h10 in
        let h40 = IsPower-step 19 (2 ^ 20 - 1) (2 ^ 20 - 1) _ _ h20 h20 in
        let h50 = IsPower-step 9 (2 ^ 40 - 1) (2 ^ 10 - 1) _ _ h40 h10 in
        let h100 = IsPower-step 49 (2 ^ 50 - 1) (2 ^ 50 - 1) _ _ h50 h50 in
        let h200 = IsPower-step 99 (2 ^ 100 - 1) (2 ^ 100 - 1) _ _ h100 h100 in
        let h250 = IsPower-step 49 (2 ^ 200 - 1) (2 ^ 50 - 1) _ _ h200 h50 in
        IsPower-step 4 (2 ^ 250 - 1) 11 _ _ h250 h11

  pub finvert-IsTight : IsTight z → IsTight (finvert z)
  finvert-IsTight h = (finvert-IsPower h).tight

  pub residue-finvert : IsTight z → residue (finvert z) ≡ pow_p (residue z) (p - 2)
  residue-finvert h = (finvert-IsPower h).power
