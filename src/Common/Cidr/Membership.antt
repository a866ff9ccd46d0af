-- ===== src/Common/Cidr/Membership.antt =====
-- crates/akurai-common/src/cidr.rs: `contains` against the leading bits.
use akur_ai_vpn.Base.{
  ℕ, ◌+◌, ◌-◌, ◌*◌, ◌/◌, ◌%◌, ◌^◌, ◌≤◌, ◌<◌, ◌≡◌, ap, sym, ◌∙◌, ◌↔◌, ◌≢◌, subst, inl, inr, true,
  false, arith, ◌==◌, ==_iff, Bool-cases, ltb, if◌then◌else◌, bit_and, IpAddr,
}
use akur_ai_vpn.Base.Bits.{bit_and-zero}
use akur_ai_vpn.Base.Masks.{bit_and-high, ones-shift, pow-add, one_le_pow}
use akur_ai_vpn.Common.Cidr.{Cidr, ok, new, width, v4_mask, v6_mask, contains}
use native.Mathlib.Nat.{mod-eq_of_lt, div-lt_iff_lt-mul, div-eq_of_lt, mul-div_cancel}
use native.Mathlib.Decide.{ℕ_discrete}

abbrev pub IsAddr : IpAddr → Type 0
IsAddr (IpAddr.v4 ip) = ip < 2 ^ 32
IsAddr (IpAddr.v6 ip) = ip < 2 ^ 128

-- The specification: the same family, and the same leading `prefix_len` bits.
abbrev CoversAt : ℕ → IpAddr → IpAddr → Type 0
CoversAt p (IpAddr.v4 net) (IpAddr.v4 ip) = net / 2 ^ (32 - p) ≡ ip / 2 ^ (32 - p)
CoversAt p (IpAddr.v6 net) (IpAddr.v6 ip) = net / 2 ^ (128 - p) ≡ ip / 2 ^ (128 - p)
CoversAt p _ _ = ⊥

abbrev pub Covers : Cidr → IpAddr → Type 0
Covers c ip = CoversAt c.prefix_len c.addr ip

-- The mask of `p` leading ones in `w` bits, as both families compute it.
abbrev mask : ℕ → ℕ → ℕ
mask w p = if p == 0 then 0 else (2 ^ w - 1) * 2 ^ (w - p) % 2 ^ w

not_zero : {p : ℕ} → p ≢ 0 → (p == 0) ≡ false
not_zero nz = ground arith

all_shifted_out : (w x k : ℕ) → k ≡ w → x < 2 ^ w → x / 2 ^ k * 2 ^ k ≡ 0
all_shifted_out w x k e h = rw e (rw (div-eq_of_lt h) (omega arith))

module _ (w p : ℕ) (fits : p ≤ w) where
  sum_is : p + (w - p) ≡ w
  sum_is = omega arith

  mask_lem : p ≢ 0 → mask w p ≡ (2 ^ p - 1) * 2 ^ (w - p)
  mask_lem nz = rw (not_zero nz) (rw sum_is at (ones-shift p (w - p)))

  width_split : 2 ^ w ≡ 2 ^ p * 2 ^ (w - p)
  width_split = rw sum_is at (pow-add p (w - p))

  prefix-lt : (x : ℕ) → x < 2 ^ w → x / 2 ^ (w - p) < 2 ^ p
  prefix-lt x h =
      (div-lt_iff_lt-mul {k = 2 ^ (w - p)} {x = x} {y = 2 ^ p} (one_le_pow (w - p))).1
        (omega (arith, width_split))

  masked : (x : ℕ) → x < 2 ^ w → bit_and x (mask w p) ≡ x / 2 ^ (w - p) * 2 ^ (w - p)
  masked x h = elim (ℕ_discrete p 0) [
    | yes z ↦ rw z (bit_and-zero x ∙ sym (all_shifted_out w x (w - 0) (omega arith) h))
    | no nz ↦
        rw (mask_lem nz) (
          bit_and-high p (w - p) x ∙ ap (λ (t : ℕ). t * 2 ^ (w - p)) (mod-eq_of_lt (prefix-lt x h)))
  ]

  masked_iff :
      (x y : ℕ)
      → x < 2 ^ w
      → y < 2 ^ w
      → ((bit_and x (mask w p) == bit_and y (mask w p)) ≡ true)
        ↔ (x / 2 ^ (w - p) ≡ y / 2 ^ (w - p))
  masked_iff x y hx hy = (
    λ e.
        sym (mul-div_cancel (x / 2 ^ (w - p)) (one_le_pow (w - p)))
        ∙ ap (λ (t : ℕ). t / 2 ^ (w - p)) (sym (masked x hx) ∙ (==_iff _ _).0 e ∙ masked y hy)
        ∙ mul-div_cancel (y / 2 ^ (w - p)) (one_le_pow (w - p)),
    λ e. (==_iff _ _).1 (masked x hx ∙ ap (λ (t : ℕ). t * 2 ^ (w - p)) e ∙ sym (masked y hy)),
  )

-- What `new` returns is a block with the given fields, and its prefix is no longer than an address.
made_of :
    (addr : IpAddr) (p : ℕ) (c : Cidr)
    → new addr p ≡ ok c
    → (p ≤ width addr) × (record { addr = addr; prefix_len = p } ≡ c)
unfolding new
made_of addr p c made = elim (Bool-cases (ltb (width addr) p)) [
  | inl e ↦ cc
  | inr e ↦ (ground arith, cc)
]

Covers-made :
    (addr ip : IpAddr) (p : ℕ)
    → IsAddr addr
    → IsAddr ip
    → p ≤ width addr
    → (contains (record { addr = addr; prefix_len = p }) ip ≡ true)
      ↔ Covers (record { addr = addr; prefix_len = p }) ip
unfolding contains v4_mask v6_mask
Covers-made (IpAddr.v4 a) (IpAddr.v4 b) p ha hb fits = masked_iff 32 p fits a b ha hb
Covers-made (IpAddr.v6 a) (IpAddr.v6 b) p ha hb fits = masked_iff 128 p fits a b ha hb
Covers-made (IpAddr.v4 a) (IpAddr.v6 b) p ha hb fits = (λ e. cc, λ e. absurd e)
Covers-made (IpAddr.v6 a) (IpAddr.v4 b) p ha hb fits = (λ e. cc, λ e. absurd e)

-- On every block that `new` makes, `contains` holds exactly of the addresses of the same family
-- with the same leading `prefix_len` bits.
pub contains-Covers :
    (addr ip : IpAddr) (prefix_len : ℕ) (c : Cidr)
    → IsAddr addr
    → IsAddr ip
    → new addr prefix_len ≡ ok c
    → (contains c ip ≡ true) ↔ Covers c ip
contains-Covers addr ip prefix_len c ha hb made =
    let (fits, e) = made_of addr prefix_len c made in
    subst (λ (c : Cidr). (contains c ip ≡ true) ↔ Covers c ip) e
      (Covers-made addr ip prefix_len ha hb fits)
