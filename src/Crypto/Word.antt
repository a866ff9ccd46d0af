-- ===== src/Crypto/Word.antt =====
-- Machine words of the primitives: `wrapping_add` and its kin at 32 and 64 bits.
use akur_ai_vpn.Base.{ℕ, ◌+◌, ◌-◌, ◌*◌, ◌/◌, ◌%◌, ◌^◌, List, take, drop}

abbrev pub add32 : ℕ → ℕ → ℕ
add32 a b = (a + b) % 2 ^ 32

-- `rotate_left` of a `u32`
abbrev pub rotl32 : ℕ → ℕ → ℕ
rotl32 n k = n * 2 ^ k % 2 ^ 32 + n / 2 ^ (32 - k)

abbrev pub add64 : ℕ → ℕ → ℕ
add64 a b = (a + b) % 2 ^ 64

abbrev pub sub64 : ℕ → ℕ → ℕ
sub64 a b = (a + 2 ^ 64 - b) % 2 ^ 64

abbrev pub mul64 : ℕ → ℕ → ℕ
mul64 a b = a * b % 2 ^ 64

abbrev pub shl64 : ℕ → ℕ → ℕ
shl64 a k = a * 2 ^ k % 2 ^ 64

abbrev pub shl128 : ℕ → ℕ → ℕ
shl128 a k = a * 2 ^ k % 2 ^ 128

abbrev pub shr : ℕ → ℕ → ℕ
shr a k = a / 2 ^ k

abbrev pub not64 : ℕ → ℕ
not64 a = 2 ^ 64 - 1 - a

-- `buf[lo..lo + n]`, within an array whose length the type fixes.
abbrev pub sub : List ℕ → ℕ → ℕ → List ℕ
sub buf lo n = take n (drop lo buf)
