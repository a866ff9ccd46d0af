-- ===== src/Base/Bytes.antt =====
-- Bytes and the big-endian and little-endian forms of the fixed widths.
use Prim.Native.Nat.{ℕ, ◌+◌, ◌*◌, ◌/◌, ◌%◌, ◌^◌, ◌<◌}
use mathlib.Core.List.{List, [], ◌∷◌}

abbrev pub IsByte : ℕ → Type 0
IsByte b = b < 256

abbrev pub IsU16 : ℕ → Type 0
IsU16 n = n < 65536

abbrev pub IsU32 : ℕ → Type 0
IsU32 n = n < 2 ^ 32

abbrev pub IsU64 : ℕ → Type 0
IsU64 n = n < 2 ^ 64

-- `u16::to_be_bytes` and `u16::from_be_bytes`
abbrev pub u16_be : ℕ → List ℕ
u16_be n = n / 256 % 256 ∷ n % 256 ∷ []

abbrev pub u16_of_be : ℕ → ℕ → ℕ
u16_of_be hi lo = hi * 256 + lo

-- `u32::to_be_bytes`
abbrev pub u32_be : ℕ → List ℕ
u32_be n = n / 16777216 % 256 ∷ n / 65536 % 256 ∷ n / 256 % 256 ∷ n % 256 ∷ []

abbrev pub u32_of_be : ℕ → ℕ → ℕ → ℕ → ℕ
u32_of_be a b c d = a * 16777216 + b * 65536 + c * 256 + d

-- `u64::to_be_bytes` and `u64::to_le_bytes`
abbrev pub u64_be : ℕ → List ℕ
u64_be n =
    n / 2 ^ 56 % 256 ∷ n / 2 ^ 48 % 256 ∷ n / 2 ^ 40 % 256 ∷ n / 2 ^ 32 % 256 ∷ u32_be (n % 2 ^ 32)

abbrev pub u32_le : ℕ → List ℕ
u32_le n = n % 256 ∷ n / 256 % 256 ∷ n / 65536 % 256 ∷ n / 16777216 % 256 ∷ []

abbrev pub u64_le : ℕ → List ℕ
u64_le n = n % 256 ∷ n / 2 ^ 8 % 256 ∷ n / 2 ^ 16 % 256 ∷ n / 2 ^ 24 % 256 ∷ u32_le (n / 2 ^ 32)

-- `from_be_bytes` and `from_le_bytes` of any width.
abbrev pub of_be : ℕ → List ℕ → ℕ
of_be acc [] = acc
of_be acc (b ∷ bs) = of_be (acc * 256 + b) bs

abbrev pub of_le : List ℕ → ℕ
of_le [] = 0
of_le (b ∷ bs) = b + 256 * of_le bs
