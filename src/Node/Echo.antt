-- ===== src/Node/Echo.antt =====
-- crates/akurai-node/src/tunnel.rs: the answer to an ICMP echo request.
pub mod Checksum
use akur_ai_vpn.Base.{
  ℕ, zero, suc, ◌+◌, ◌-◌, ◌*◌, ◌/◌, ◌%◌, ◌^◌, Bool, not, ◌||◌, List, [], ◌∷◌, Option, none, some,
  ltb, ◌==◌, if◌then◌else◌, length, get_or, set, drop, bit_and,
}

-- The sum of the words of two bytes, on `u32`; a last byte alone is the upper half of a word.
unfoldable pub sum_words : ℕ → List ℕ → ℕ
sum_words sum [] = sum
sum_words sum (x ∷ []) = (sum + x * 256) % 2 ^ 32
sum_words sum (x ∷ y ∷ rest) = sum_words ((sum + (x * 256 + y)) % 2 ^ 32) rest

-- The loop that adds the carries, on fuel.
unfoldable pub fold : ℕ → ℕ → ℕ
fold zero sum = sum
fold (suc n) sum =
    let next = fold n (sum % 2 ^ 16 + sum / 2 ^ 16) in if sum / 2 ^ 16 == 0 then sum else next

unfoldable pub checksum16 : List ℕ → ℕ
checksum16 bytes = 2 ^ 16 - 1 - fold 2 (sum_words 0 bytes) % 2 ^ 16

abbrev pub swap : ℕ → ℕ → List ℕ → List ℕ
swap i j out = set (set out i (get_or out j 0)) j (get_or out i 0)

-- The loop over `n` offsets from `i` on.
abbrev pub swap_addresses : ℕ → ℕ → List ℕ → List ℕ
swap_addresses zero i out = out
swap_addresses (suc n) i out = swap_addresses n (i + 1) (swap (12 + i) (16 + i) out)

abbrev pub blank : ℕ → List ℕ → List ℕ
blank ihl out = set (set (set out ihl 0) (ihl + 2) 0) (ihl + 3) 0

abbrev pub with_checksum : ℕ → List ℕ → List ℕ
with_checksum ihl out =
    let csum = checksum16 (drop ihl out) in
    set (set out (ihl + 2) (csum / 2 ^ 8)) (ihl + 3) (bit_and csum 0xff)

unfoldable pub icmp_echo_reply : List ℕ → Option (List ℕ)
icmp_echo_reply pkt =
    let first = get_or pkt 0 0 in
    let ihl = bit_and first 0x0f * 4 in
    if ltb (length pkt) 28 || not (first / 2 ^ 4 == 4)
    then none
    else if ltb ihl 20
        || ltb (length pkt) (ihl + 8)
        || not (get_or pkt 9 0 == 1)
        || not (get_or pkt ihl 0 == 8)
    then none
    else some (with_checksum ihl (blank ihl (swap_addresses 4 0 pkt)))
