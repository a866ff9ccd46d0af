-- ===== src/Crypto/X25519/Curve.antt =====
-- The specification of crates/akurai-crypto/src/x25519.rs: the function X25519 of RFC 7748 on numbers,
-- with the formulas of its section 5. A point is kept by its u-coordinate, as a quotient x / z; the ladder
-- keeps the pair of the points k * u and (k + 1) * u, with no swap.
use akur_ai_vpn.Base.{ℕ, zero, suc, ◌-◌, ◌/◌, ◌%◌, ◌^◌, ◌==◌, if◌then◌else◌}
use akur_ai_vpn.Crypto.Field25519.Reduction.{p}
use akur_ai_vpn.Crypto.Field25519.Residue.{add_p, sub_p, mul_p, pow_p}

pub record Point : Type 0 where
  pub x : ℕ
  pub z : ℕ

unfoldable pub double : Point → Point
double a =
    let aa = mul_p (add_p a.x a.z) (add_p a.x a.z) in
    let bb = mul_p (sub_p a.x a.z) (sub_p a.x a.z) in
    let e = sub_p aa bb in record { x = mul_p aa bb; z = mul_p e (add_p aa (mul_p 121665 e)) }

-- The sum of two points whose difference has the u-coordinate `u`.
unfoldable pub differential_add : ℕ → Point → Point → Point
differential_add u a b =
    let da = mul_p (sub_p b.x b.z) (add_p a.x a.z) in
    let cb = mul_p (add_p b.x b.z) (sub_p a.x a.z) in
    record {
      x = mul_p (add_p da cb) (add_p da cb);
      z = mul_p u (mul_p (sub_p da cb) (sub_p da cb));
    }

pub record Pair : Type 0 where
  pub low : Point
  pub high : Point

unfoldable pub step : ℕ → ℕ → Pair → Pair
unfolding double differential_add
step u bit s =
    if bit == 0
    then record { low = double s.low; high = differential_add u s.low s.high }
    else record { low = differential_add u s.high s.low; high = double s.high }

-- The steps for the bits of `k` below `t`, from the highest.
unfoldable pub steps : ℕ → ℕ → ℕ → Pair → Pair
unfolding step
steps k u zero s = s
steps k u (suc t) s = steps k u t (step u (k / 2 ^ t % 2) s)

abbrev pub infinity : Point
infinity = record { x = 1; z = 0 }

abbrev pub affine : ℕ → Point
affine u = record { x = u; z = 1 }

-- The multiple of the point of `u` by the number of the lowest `bits` bits of `k`, as `x * z ^ (p - 2)`.
unfoldable pub multiple_from : ℕ → ℕ → ℕ → ℕ
unfolding steps
multiple_from bits k u =
    let result = (steps k u bits (record { low = infinity; high = affine u })).low in
    mul_p result.x (pow_p result.z (p - 2))

unfoldable pub scalar_multiple : ℕ → ℕ → ℕ
scalar_multiple = multiple_from 255
