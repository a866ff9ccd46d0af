-- ===== src/Base/Ipv4/RoundTrip.antt =====
-- `Ipv4Addr` as text: printing and reading against each other.
use Prim.Native.Nat.{ℕ, ◌+◌, ◌-◌, ◌*◌, ◌/◌, ◌%◌, ◌^◌, ◌≤◌, ◌<◌}
use mathlib.Core.Path.{◌≡◌, refl, ap, sym, ◌∙◌}
use mathlib.Core.Logic.{◌⊎◌, inl, inr, ◌≢◌}
use mathlib.Core.List.{[], ◌∷◌, ◌++◌}
use mathlib.Core.Option.{Option, some}
use native.Mathlib.Omega.{arith}
use package.akur_ai_vpn.Base.Tests.{◌>>=◌, le_or_lt}
use package.akur_ai_vpn.Base.Lists.{length, All, All-append, length-append}
use package.akur_ai_vpn.Base.Net.{Ipv4Addr}
use package.akur_ai_vpn.Base.Text.{Str, trim, trim_start, trim_end, keep_unless_white, before}
use package.akur_ai_vpn.Base.Ipv4.{
  digit, show_octet, read_octet, read_digits, show_ipv4, parse_ipv4, parse_octets,
}

-- What may stand behind an octet: nothing, or the point.
data Ends : Str → Type 0 where
  nothing : Ends []
  point : (cs : Str) → Ends (46 ∷ cs)

read_digits-digit :
    (d n count : ℕ) (rest : Str)
    → d < 10
    → count < 3
    → read_digits (digit d ∷ rest) n count ≡ read_digits rest (n * 10 + d) (count + 1)
read_digits-digit d n count rest h k =
    ground (arith, ap (λ (t : ℕ). read_digits rest (n * 10 + t) (count + 1)) value)
  where
    value : digit d - 48 ≡ d
    value = omega arith

read_digits-Ends :
    (n count : ℕ) (rest : Str) → Ends rest → read_digits rest n count ≡ some (n, count, rest)
read_digits-Ends n count [] e = refl
read_digits-Ends n count (c ∷ cs) (point ds) = refl

-- The three shapes of a printed octet.
read_one : (a : ℕ) (rest : Str) → a < 10 → Ends rest → read_octet (digit a ∷ rest) ≡ some (a, rest)
read_one a rest h e =
    rw (read_digits-digit a 0 0 rest h (omega arith), read_digits-Ends (0 * 10 + a) 1 rest e)
      (ground arith)

read_two :
    (a b : ℕ) (rest : Str)
    → 0 < a
    → a < 10
    → b < 10
    → Ends rest
    → read_octet (digit a ∷ digit b ∷ rest) ≡ some (a * 10 + b, rest)
read_two a b rest p h k e =
    rw
      (
        read_digits-digit a 0 0 (digit b ∷ rest) h (omega arith),
        read_digits-digit b (0 * 10 + a) 1 rest k (omega arith),
        read_digits-Ends ((0 * 10 + a) * 10 + b) 2 rest e,
      )
      (ground arith)

read_three :
    (a b c : ℕ) (rest : Str)
    → 0 < a
    → a < 10
    → b < 10
    → c < 10
    → (a * 10 + b) * 10 + c < 256
    → Ends rest
    → read_octet (digit a ∷ digit b ∷ digit c ∷ rest) ≡ some ((a * 10 + b) * 10 + c, rest)
read_three a b c rest p h k l m e =
    rw
      (
        read_digits-digit a 0 0 (digit b ∷ digit c ∷ rest) h (omega arith),
        read_digits-digit b (0 * 10 + a) 1 (digit c ∷ rest) k (omega arith),
        read_digits-digit c ((0 * 10 + a) * 10 + b) 2 rest l (omega arith),
        read_digits-Ends (((0 * 10 + a) * 10 + b) * 10 + c) 3 rest e,
      )
      (ground arith)

show_octet_cases :
    (n : ℕ)
    → n < 256
    → ((n < 10) × (show_octet n ≡ digit n ∷ []))
      ⊎ ((10 ≤ n) × (n < 100) × (show_octet n ≡ digit (n / 10) ∷ digit (n % 10) ∷ []))
      ⊎ ((100 ≤ n) × (show_octet n ≡ digit (n / 100) ∷ digit (n / 10 % 10) ∷ digit (n % 10) ∷ []))
show_octet_cases n h = elim (le_or_lt 10 n) [
  | inr small ↦ inl (small, ground arith)
  | inl ten ↦ elim (le_or_lt 100 n) [
    | inr small ↦ inr (inl (ten, small, ground arith))
    | inl hundred ↦ inr (inr (hundred, ground arith))
  ]
]

read-show_octet :
    (n : ℕ) (rest : Str) → n < 256 → Ends rest → read_octet (show_octet n ++ rest) ≡ some (n, rest)
read-show_octet n rest h e = elim (show_octet_cases n h) [
  | inl (small, s) ↦ rw s (read_one n rest small e)
  | inr (inl (ten, small, s)) ↦ rw s (
      read_two (n / 10) (n % 10) rest (omega arith) (omega arith) (omega arith) e
      ∙ ap (read rest) (omega arith))
  | inr (inr (hundred, s)) ↦ rw s (
      read_three (n / 100) (n / 10 % 10) (n % 10) rest (omega arith) (omega arith) (omega arith)
        (omega arith) (omega arith) e
      ∙ ap (read rest) (omega arith))
]
  where
    read : Str → ℕ → Option (ℕ × Str)
    read rest n = some (n, rest)

show_octet_short : (n : ℕ) → n < 256 → length (show_octet n) ≤ 3
show_octet_short n h = elim (show_octet_cases n h) [
  | inl (small, s) ↦ rw s (omega arith)
  | inr (inl (ten, small, s)) ↦ rw s (omega arith)
  | inr (inr (hundred, s)) ↦ rw s (omega arith)
]

-- Digits and points: what a printed address is made of.
abbrev pub IsPlain : ℕ → Type 0
IsPlain c = (46 ≤ c) × (c < 58) × (c ≢ 47)

show_octet-IsPlain : (n : ℕ) → n < 256 → All IsPlain (show_octet n)
show_octet-IsPlain n h = elim (show_octet_cases n h) [
  | inl (small, s) ↦ rw s ((omega arith, omega arith, omega arith), tt)
  | inr (inl (ten, small, s)) ↦
      rw s ((omega arith, omega arith, omega arith), ((omega arith, omega arith, omega arith), tt))
  | inr (inr (hundred, s)) ↦ rw s (
    (omega arith, omega arith, omega arith),
    ((omega arith, omega arith, omega arith), ((omega arith, omega arith, omega arith), tt)),
  )
]

mod_256 : (x : ℕ) → x % 256 < 256
mod_256 x = omega arith

IsPlain-point :
    (x : ℕ) (rest : Str) → All IsPlain rest → All IsPlain (show_octet (x % 256) ++ (46 ∷ rest))
IsPlain-point x rest h =
    All-append IsPlain (show_octet (x % 256)) (46 ∷ rest) (show_octet-IsPlain (x % 256) (mod_256 x))
      ((omega arith, omega arith, omega arith), h)

short_point :
    (x : ℕ) (rest : Str) (n : ℕ)
    → length rest ≤ n
    → length (show_octet (x % 256) ++ (46 ∷ rest)) ≤ 4 + n
short_point x rest n h = omega (
  arith,
  length-append (show_octet (x % 256)) (46 ∷ rest),
  show_octet_short (x % 256) (mod_256 x),
)

module _ (ip : Ipv4Addr) where
  tail_one : Str
  tail_one = show_octet (ip % 256)

  tail_two : Str
  unfolding tail_one
  tail_two = show_octet (ip / 256 % 256) ++ (46 ∷ tail_one)

  tail_three : Str
  unfolding tail_two
  tail_three = show_octet (ip / 65536 % 256) ++ (46 ∷ tail_two)

  show_ipv4_is : show_ipv4 ip ≡ show_octet (ip / 16777216 % 256) ++ (46 ∷ tail_three)
  unfolding show_ipv4 tail_three tail_two tail_one
  show_ipv4_is = refl

  pub show_ipv4-IsPlain : All IsPlain (show_ipv4 ip)
  unfolding show_ipv4
  show_ipv4-IsPlain = IsPlain-point (ip / 16777216) _ (
      IsPlain-point (ip / 65536) _
        (IsPlain-point (ip / 256) _ (show_octet-IsPlain (ip % 256) (mod_256 ip))))

  show_ipv4_short : length (show_ipv4 ip) ≤ 15
  unfolding show_ipv4
  show_ipv4_short = short_point (ip / 16777216) _ 11 (
      short_point (ip / 65536) _ 7
        (short_point (ip / 256) _ 3 (show_octet_short (ip % 256) (mod_256 ip))))

bind_some : {A B : Type 0} (f : A → Option B) {m : Option A} {a : A} → m ≡ some a → (m >>= f) ≡ f a
bind_some f e = ap (λ m. m >>= f) e

append_nil : (s : Str) → s ++ [] ≡ s
append_nil [] = refl
append_nil (c ∷ cs) = ap (◌∷◌ c) (append_nil cs)

-- An address that is printed is read back.
pub parse-show_ipv4 : (ip : Ipv4Addr) → ip < 2 ^ 32 → parse_ipv4 (show_ipv4 ip) ≡ some ip
unfolding parse_ipv4 tail_three tail_two tail_one
parse-show_ipv4 ip h =
    short_enough
    ∙ rw (show_ipv4_is ip) (
        bind_some _
          (read-show_octet (ip / 16777216 % 256) (46 ∷ tail_three ip) (omega arith) (point _))
        ∙ bind_some _
            (read-show_octet (ip / 65536 % 256) (46 ∷ tail_two ip) (omega arith) (point _))
        ∙ bind_some _ (read-show_octet (ip / 256 % 256) (46 ∷ tail_one ip) (omega arith) (point _))
        ∙ bind_some _ last_octet
        ∙ ap some (omega arith))
  where
    last_octet : read_octet (tail_one ip) ≡ some (ip % 256, [])
    last_octet =
        ap read_octet (sym (append_nil (show_octet (ip % 256))))
        ∙ read-show_octet (ip % 256) [] (omega arith) nothing

    short_enough : parse_ipv4 (show_ipv4 ip) ≡ parse_octets (show_ipv4 ip)
    short_enough = ground (arith, show_ipv4_short ip)

-- Nothing is trimmed off a text of digits and points.
trim_end-plain : (s : Str) → All IsPlain s → trim_end s ≡ s
trim_end-plain [] h = refl
trim_end-plain (c ∷ cs) h = rw (trim_end-plain cs h.1) (kept c cs h.0)
  where
    kept : (c : ℕ) (cs : Str) → IsPlain c → keep_unless_white c cs ≡ c ∷ cs
    kept c [] h = ground arith
    kept c (d ∷ ds) h = refl

pub trim-plain : (s : Str) → All IsPlain s → trim s ≡ s
trim-plain [] h = refl
trim-plain (c ∷ cs) h = ap trim_end (starts c cs h.0) ∙ trim_end-plain (c ∷ cs) h
  where
    starts : (c : ℕ) (cs : Str) → IsPlain c → trim_start (c ∷ cs) ≡ c ∷ cs
    starts c cs h = ground arith

-- A text of digits and points is what stands before a slash behind it.
pub before-plain : (s rest : Str) → All IsPlain s → before 47 (s ++ 47 ∷ rest) ≡ s
before-plain [] rest h = refl
before-plain (c ∷ cs) rest h = ground (arith, ap (◌∷◌ c) (before-plain cs rest h.1))
