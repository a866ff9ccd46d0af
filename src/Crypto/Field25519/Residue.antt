-- ===== src/Crypto/Field25519/Residue.antt =====
-- crates/akurai-crypto/src/x25519.rs: the field operations against arithmetic modulo 2^255 - 19.
use native.Mathlib.Nat.{mul_assoc, mul_comm, suc-add, zero-add}
use akur_ai_vpn.Base.{zero, suc, ℕ, ◌+◌, ◌-◌, ◌*◌, ◌%◌, ◌<◌, ◌≡◌, ap, sym, ◌∙◌, arith}
use akur_ai_vpn.Base.Modular.{mod_of_multiple, mod-mul-mod, mod-mul_left}
use akur_ai_vpn.Crypto.Field25519.Arithmetic.{value-fmul}
use akur_ai_vpn.Crypto.Field25519.Reduction.{
  p, value, IsTight, IsLoose, carry_reduce-IsTight, value-carry_reduce,
}
use akur_ai_vpn.Crypto.Field25519.{Fe, mul128, fadd, fsub, fmul, fmul121665}

-- Arithmetic modulo `p`.
unfoldable pub add_p : ℕ → ℕ → ℕ
add_p x y = (x + y) % p

unfoldable pub sub_p : ℕ → ℕ → ℕ
sub_p x y = (x + p - y) % p

unfoldable pub mul_p : ℕ → ℕ → ℕ
mul_p x y = x * y % p

-- `x ^ e`, by repeated multiplication.
unfoldable pub pow_p : ℕ → ℕ → ℕ
unfolding mul_p
pow_p x zero = 1 % p
pow_p x (suc e) = mul_p x (pow_p x e)

-- The element of the field that five limbs stand for.
unfoldable pub residue : Fe → ℕ
residue f = value f % p

mul_p-mul_p : (x y z : ℕ) → mul_p (mul_p x y) z ≡ mul_p x (mul_p y z)
unfolding mul_p
mul_p-mul_p x y z =
    mod-mul_left p (x * y) z
    ∙ ap (λ (t : ℕ). t % p) (mul_assoc x y z ∙ mul_comm x (y * z))
    ∙ sym (mod-mul_left p (y * z) x)
    ∙ ap (λ (t : ℕ). t % p) (mul_comm (y * z % p) x)

pow_p-lt : (x e : ℕ) → pow_p x e < p
unfolding pow_p
pow_p-lt x zero = omega arith
pow_p-lt x (suc e) = omega arith

pub pow_p-add : (x d e : ℕ) → mul_p (pow_p x d) (pow_p x e) ≡ pow_p x (d + e)
unfolding pow_p
pow_p-add x zero e = rw zero-add (unfold mul_p in omega (arith, pow_p-lt x e))
pow_p-add x (suc d) e =
    mul_p-mul_p x (pow_p x d) (pow_p x e)
    ∙ ap (mul_p x) (pow_p-add x d e)
    ∙ ap (pow_p x) (sym (suc-add d e))

module _ (a b : Fe) where
  pub residue-fmul : IsLoose a → IsLoose b → residue (fmul a b) ≡ mul_p (residue a) (residue b)
  unfolding residue mul_p
  residue-fmul ha hb =
      let (q, h, e) = value-fmul a b ha hb in
      sym (mod-mul-mod p (value a) (value b) ∙ mod_of_multiple p _ _ q h e)

  pub fadd-IsLoose : IsTight a → IsTight b → IsLoose (fadd a b)
  unfolding fadd
  fadd-IsLoose ha hb = record {
    b0 = omega (arith, ha.b0, hb.b0);
    b1 = omega (arith, ha.b1, hb.b1);
    b2 = omega (arith, ha.b2, hb.b2);
    b3 = omega (arith, ha.b3, hb.b3);
    b4 = omega (arith, ha.b4, hb.b4);
  }

  pub residue-fadd : IsTight a → IsTight b → residue (fadd a b) ≡ add_p (residue a) (residue b)
  unfolding fadd residue add_p
  residue-fadd ha hb = omega arith

  pub fsub-IsLoose : IsTight a → IsTight b → IsLoose (fsub a b)
  unfolding fsub
  fsub-IsLoose ha hb = record {
    b0 = omega (arith, ha.b0, hb.b0);
    b1 = omega (arith, ha.b1, hb.b1);
    b2 = omega (arith, ha.b2, hb.b2);
    b3 = omega (arith, ha.b3, hb.b3);
    b4 = omega (arith, ha.b4, hb.b4);
  }

  pub residue-fsub : IsTight a → IsTight b → residue (fsub a b) ≡ sub_p (residue a) (residue b)
  unfolding fsub residue sub_p
  residue-fsub ha hb = omega arith

pub fmul121665-IsTight : (a : Fe) → IsLoose a → IsTight (fmul121665 a)
unfolding fmul121665
fmul121665-IsTight a h =
    carry_reduce-IsTight _ _ _ _ _ (omega arith) (omega arith) (omega arith) (omega arith)
      (omega arith)

pub residue-fmul121665 : (a : Fe) → IsLoose a → residue (fmul121665 a) ≡ mul_p 121665 (residue a)
unfolding fmul121665 residue mul_p
residue-fmul121665 a h =
    let (q, e) =
      value-carry_reduce (mul128 a.l0 121665) (mul128 a.l1 121665) (mul128 a.l2 121665)
        (mul128 a.l3 121665) (mul128 a.l4 121665) (omega arith) (omega arith) (omega arith)
        (omega arith) (omega arith) in
    omega arith
