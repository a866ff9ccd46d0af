-- ===== src/Crypto/Poly1305/Reduce.antt =====
-- crates/akurai-crypto/src/chacha20poly1305.rs: how `poly1305_mac` ends: the carry, the choice between
-- the sum and the sum less the modulus, and the number of the limbs.
use akur_ai_vpn.Base.{
  ℕ, ◌+◌, ◌-◌, ◌/◌, ◌%◌, ◌^◌, ◌<◌, ◌≤◌, ◌≡◌, inl, inr, le_or_lt, ap, ◌∙◌, arith, bit_and, of_le,
}
use akur_ai_vpn.Base.Bits.{bit_and-zero, bit_or-zero_right}
use akur_ai_vpn.Base.Joins.{bit_or-low, bit_or-zero_left}
use akur_ai_vpn.Base.Masks.{bit_and-low}
use akur_ai_vpn.Crypto.Poly1305.Multiply.{modulus, value, IsBelow, IsTight, low26}
use akur_ai_vpn.Crypto.Poly1305.{Limbs, final_carry, minus_p, select, join_limbs, pick, u128_le}
use akur_ai_vpn.Crypto.Word.{shl128, sub64}

module _ (h : Limbs) (t : IsTight h) where
  final_carry-IsBelow : IsBelow (2 ^ 26) (final_carry h)
  unfolding final_carry
  final_carry-IsBelow = record {
    b0 = omega (arith, low26);
    b1 = omega (arith, low26);
    b2 = omega (arith, low26);
    b3 = omega (arith, low26);
    b4 = omega (arith, low26);
  }

  value-final_carry : value (final_carry h) % modulus ≡ value h % modulus
  unfolding final_carry
  value-final_carry = omega (arith, low26)

full64 : (x : ℕ) → x < 2 ^ 64 → bit_and x (2 ^ 64 - 1) ≡ x
full64 x h = bit_and-low 64 x ∙ omega arith

pick_first : (h g : ℕ) → h < 2 ^ 64 → pick 0 h g ≡ h
pick_first h g lt = rw (full64 h lt, bit_and-zero g, bit_or-zero_right h)

pick_second : (h g : ℕ) → g < 2 ^ 64 → pick (2 ^ 64 - 1) h g ≡ g
pick_second h g lt = rw (full64 g lt, bit_and-zero h, bit_or-zero_left g)

abbrev chosen : ℕ → Limbs → Limbs → Limbs
chosen mask h g = record {
  l0 = pick mask h.l0 g.l0;
  l1 = pick mask h.l1 g.l1;
  l2 = pick mask h.l2 g.l2;
  l3 = pick mask h.l3 g.l3;
  l4 = pick mask h.l4 g.l4;
}

select_first : (h g : Limbs) → IsBelow (2 ^ 26) h → g.l4 / 2 ^ 63 ≡ 1 → select h g ≡ h
unfolding select
select_first h g b e =
    ap (λ (n : ℕ). chosen (sub64 n 1) h g) e
    ∙ rw (
      pick_first h.l0 g.l0 (omega (arith, b.b0)),
      pick_first h.l1 g.l1 (omega (arith, b.b1)),
      pick_first h.l2 g.l2 (omega (arith, b.b2)),
      pick_first h.l3 g.l3 (omega (arith, b.b3)),
      pick_first h.l4 g.l4 (omega (arith, b.b4)),
    )

select_second : (h g : Limbs) → IsBelow (2 ^ 64) g → g.l4 / 2 ^ 63 ≡ 0 → select h g ≡ g
unfolding select
select_second h g b e =
    ap (λ (n : ℕ). chosen (sub64 n 1) h g) e
    ∙ rw (
      pick_second h.l0 g.l0 b.b0,
      pick_second h.l1 g.l1 b.b1,
      pick_second h.l2 g.l2 b.b2,
      pick_second h.l3 g.l3 b.b3,
      pick_second h.l4 g.l4 b.b4,
    )

module _ (h : Limbs) (b : IsBelow (2 ^ 26) h) where
  minus_p-words : IsBelow (2 ^ 64) (minus_p h)
  unfolding minus_p
  minus_p-words = record {
    b0 = omega (arith, low26);
    b1 = omega (arith, low26);
    b2 = omega (arith, low26);
    b3 = omega (arith, low26);
    b4 = omega (arith, low26);
  }

  minus_p-below : value h < modulus → (minus_p h).l4 / 2 ^ 63 ≡ 1
  unfolding minus_p
  minus_p-below lt = omega (arith, low26)

  minus_p-above :
      modulus ≤ value h
      → ((minus_p h).l4 / 2 ^ 63 ≡ 0)
        × (value (minus_p h) + modulus ≡ value h)
        × IsBelow (2 ^ 26) (minus_p h)
  unfolding minus_p
  minus_p-above le = (
    omega (arith, low26),
    omega (arith, low26),
    record {
      b0 = omega (arith, low26);
      b1 = omega (arith, low26);
      b2 = omega (arith, low26);
      b3 = omega (arith, low26);
      b4 = omega (arith, low26);
    },
  )

  -- What is selected is the residue.
  pub select-residue :
      (value (select h (minus_p h)) ≡ value h % modulus) × IsBelow (2 ^ 26) (select h (minus_p h))
  select-residue = elim (le_or_lt modulus (value h)) [
    | inl le ↦
        let (zero_bit, number, below) = minus_p-above le in
        rw (select_second h (minus_p h) minus_p-words zero_bit) (omega (arith, number), below)
    | inr lt ↦ rw (select_first h (minus_p h) b (minus_p-below lt)) (omega arith, b)
  ]

  pub join_limbs_lem : join_limbs h ≡ value h % 2 ^ 128
  unfolding join_limbs
  join_limbs_lem =
      rw
        (
          bit_or-low 26 h.l0 (shl128 h.l1 26) (omega arith) (omega arith),
          bit_or-low 52 (h.l0 + shl128 h.l1 26) (shl128 h.l2 52) (omega arith) (omega arith),
          bit_or-low 78 (h.l0 + shl128 h.l1 26 + shl128 h.l2 52) (shl128 h.l3 78) (omega arith)
              (omega arith),
          bit_or-low 104 (h.l0 + shl128 h.l1 26 + shl128 h.l2 52 + shl128 h.l3 78) (shl128 h.l4 104)
              (omega arith) (omega arith),
        )
        (omega arith)

-- The end of the computation: the residue of the sum, modulo 2^128.
pub finish_lem :
    (h : Limbs)
    → IsTight h
    → join_limbs (select (final_carry h) (minus_p (final_carry h))) ≡ value h % modulus % 2 ^ 128
finish_lem h t =
    let f = final_carry h in
    let (residue, below) = select-residue f (final_carry-IsBelow h t) in
    join_limbs_lem (select f (minus_p f)) below
    ∙ ap (λ (n : ℕ). n % 2 ^ 128) (residue ∙ value-final_carry h t)

pub of_le-u128_le : (n : ℕ) → n < 2 ^ 128 → of_le (u128_le n) ≡ n
of_le-u128_le n h = omega arith
