-- ===== src/Base/Ipv4.antt =====
-- `Ipv4Addr` as text: `Display` and `FromStr` of the standard library.
pub mod RoundTrip
use Prim.Native.Nat.{ℕ, ◌+◌, ◌-◌, ◌*◌, ◌/◌, ◌%◌, ◌^◌, ◌≤◌, ◌<◌}
use mathlib.Core.Path.{◌≡◌, refl, ap, sym, ◌∙◌}
use mathlib.Core.Logic.{◌⊎◌, inl, inr, ◌≢◌}
use mathlib.Core.Bool.{Bool, true, false, ◌&&◌}
use mathlib.Core.List.{List, [], ◌∷◌, ◌++◌}
use mathlib.Core.Option.{Option, none, some}
use native.Mathlib.Omega.{arith}
use package.akur_ai_vpn.Base.Tests.{ltb, leb, ◌==◌, if◌then◌else◌, ◌>>=◌, le_or_lt}
use package.akur_ai_vpn.Base.Lists.{length, All, All-append, length-append}
use package.akur_ai_vpn.Base.Net.{Ipv4Addr, ipv4}
use package.akur_ai_vpn.Base.Text.{Str, is_whitespace, trim, trim_start, trim_end}

abbrev pub digit : ℕ → ℕ
digit d = 48 + d

abbrev pub show_octet : ℕ → Str
show_octet n =
    if ltb n 10
    then digit n ∷ []
    else if ltb n 100
    then digit (n / 10) ∷ digit (n % 10) ∷ []
    else digit (n / 100) ∷ digit (n / 10 % 10) ∷ digit (n % 10) ∷ []

-- `Ipv4Addr::fmt`: 46 is the point
unfoldable pub show_ipv4 : Ipv4Addr → Str
show_ipv4 ip =
    show_octet (ip / 16777216 % 256)
    ++ (46
        ∷ (show_octet (ip / 65536 % 256)
            ++ (46 ∷ (show_octet (ip / 256 % 256) ++ (46 ∷ show_octet (ip % 256))))))

abbrev is_digit : ℕ → Bool
is_digit c = leb 48 c && leb c 57

-- The number, its digits' count and what follows; four digits in a row are refused.
abbrev pub read_digits : Str → ℕ → ℕ → Option (ℕ × ℕ × Str)
read_digits [] n count = some (n, count, [])
read_digits (c ∷ cs) n count =
    let more = read_digits cs (n * 10 + (c - 48)) (count + 1) in
    if is_digit c then (if ltb 2 count then none else more) else some (n, count, c ∷ cs)

abbrev begins_with_zero : Str → Bool
begins_with_zero [] = false
begins_with_zero (c ∷ cs) = c == 48

abbrev accept : Bool → ℕ × ℕ × Str → Option (ℕ × Str)
accept leading_zero (n, count, rest) =
    if count == 0
    then none
    else if leading_zero && ltb 1 count
    then none
    else if ltb 255 n
    then none
    else some (n, rest)

abbrev pub read_octet : Str → Option (ℕ × Str)
read_octet s = read_digits s 0 0 >>= accept (begins_with_zero s)

abbrev pub read_point : Str → Option Str
read_point [] = none
read_point (c ∷ cs) = if c == 46 then some cs else none

abbrev pub at_end : Ipv4Addr → Str → Option Ipv4Addr
at_end ip [] = some ip
at_end ip (c ∷ cs) = none

abbrev pub parse_octets : Str → Option Ipv4Addr
parse_octets s = read_octet s >>= λ (a, s). read_point s >>= λ s. read_octet s >>= λ (b, s).
    read_point s >>= λ s. read_octet s >>= λ (c, s).
    read_point s >>= λ s. read_octet s >>= λ (d, s). at_end (ipv4 a b c d) s

-- `str::parse::<Ipv4Addr>`
unfoldable pub parse_ipv4 : Str → Option Ipv4Addr
parse_ipv4 s = if ltb 15 (length s) then none else parse_octets s
