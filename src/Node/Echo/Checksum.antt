-- ===== src/Node/Echo/Checksum.antt =====
-- crates/akurai-node/src/tunnel.rs: the checksum of an echo reply.
use akur_ai_vpn.Base.{
  true, ℕ, zero, suc, ◌+◌, ◌-◌, ◌*◌, ◌/◌, ◌%◌, ◌^◌, ◌<◌, ◌≤◌, ◌≡◌, refl, ap, sym, subst, ◌∙◌, List,
  [], ◌∷◌, some, arith, ◌==◌, length, get_or, set, drop, bit_and, inl, inr, ==_iff, Bool-cases, All,
  All-drop, length-drop, IsByte,
}
use akur_ai_vpn.Base.Masks.{bit_and-low}
use akur_ai_vpn.Node.Echo.{
  sum_words, fold, checksum16, swap, swap_addresses, blank, with_checksum, icmp_echo_reply,
}

-- The sum of the 16-bit words of RFC 1071, with a zero behind an odd last byte.
abbrev pub total : List ℕ → ℕ
total [] = 0
total (x ∷ []) = x * 256
total (x ∷ y ∷ rest) = x * 256 + y + total rest

sum_words-total :
    (sum : ℕ) (bytes : List ℕ)
    → sum + total bytes < 2 ^ 32
    → sum_words sum bytes ≡ sum + total bytes
unfolding sum_words
sum_words-total sum [] h = omega arith
sum_words-total sum (x ∷ []) h = omega arith
sum_words-total sum (x ∷ y ∷ rest) h =
    ap (λ (s : ℕ). sum_words s rest) small
    ∙ sum_words-total (sum + (x * 256 + y)) rest (omega arith)
    ∙ omega arith
  where
    small : (sum + (x * 256 + y)) % 2 ^ 32 ≡ sum + (x * 256 + y)
    small = omega arith

total-lt : (bytes : List ℕ) → All IsByte bytes → total bytes ≤ 65535 * length bytes
total-lt [] h = omega arith
total-lt (x ∷ []) h = omega (arith, h.0)
total-lt (x ∷ y ∷ rest) h = omega (arith, h.0, h.1.0, total-lt rest h.1.1)

-- Two rounds are enough: what they leave fits a word, is the sum modulo 65535, and is 0 for 0 alone.
fold_lem :
    (s : ℕ)
    → s < 2 ^ 32
    → (fold 2 s < 2 ^ 16) × ((q : ℕ) × (s ≡ fold 2 s + 65535 * q)) × (1 ≤ s → 1 ≤ fold 2 s)
unfolding fold
fold_lem s h = elim (Bool-cases (s / 2 ^ 16 == 0)) [
  | inl e ↦ let z = (==_iff (s / 2 ^ 16) 0).0 e in rw e (omega arith, (0, omega arith), λ p. p)
  | inr e ↦ elim (Bool-cases ((s % 2 ^ 16 + s / 2 ^ 16) / 2 ^ 16 == 0)) [
    | inl f ↦
        let z = (==_iff ((s % 2 ^ 16 + s / 2 ^ 16) / 2 ^ 16) 0).0 f in
        rw (e, f) (omega arith, (s / 2 ^ 16, omega arith), λ p. omega arith)
    | inr f ↦
        rw (e, f)
          (
            omega arith,
            (s / 2 ^ 16 + (s % 2 ^ 16 + s / 2 ^ 16) / 2 ^ 16, omega arith),
            λ p. omega arith,
          )
  ]
]

-- A sum that fits a word is not changed by any number of rounds.
fold-small : (n s : ℕ) → s < 2 ^ 16 → fold n s ≡ s
unfolding fold
fold-small zero s h = refl
fold-small (suc n) s h = rw (no_carry s h) refl
  where
    no_carry : (s : ℕ) → s < 2 ^ 16 → (s / 2 ^ 16 == 0) ≡ true
    no_carry s h = ground arith

-- The loop that adds the carries to a sum of 32 bits ends within two rounds: two leave a number
-- without a carry, and any further ones leave that number.
pub fold-fold : (n s : ℕ) → s < 2 ^ 32 → (fold 2 s < 2 ^ 16) × (fold (suc (suc n)) s ≡ fold 2 s)
unfolding fold
fold-fold n s h = ((fold_lem s h).0, more)
  where
    more : fold (suc (suc n)) s ≡ fold 2 s
    more =
        rw
          (fold-small n ((s % 2 ^ 16 + s / 2 ^ 16) % 2 ^ 16 + (s % 2 ^ 16 + s / 2 ^ 16) / 2 ^ 16)
            (omega arith))
          refl

drop-set_below : (n i v : ℕ) (xs : List ℕ) → i < n → drop n (set xs i v) ≡ drop n xs
drop-set_below zero i v xs h = absurd (omega arith)
drop-set_below (suc n) i v [] h = refl
drop-set_below (suc n) zero v (x ∷ xs) h = refl
drop-set_below (suc n) (suc i) v (x ∷ xs) h = drop-set_below n i v xs (omega arith)

drop-set : (n k v : ℕ) (xs : List ℕ) → drop n (set xs (n + k) v) ≡ set (drop n xs) k v
drop-set zero k v xs = ap (λ (i : ℕ). set xs i v) (zero_add k)
  where
    zero_add : (k : ℕ) → zero + k ≡ k
    zero_add k = omega arith
drop-set (suc n) k v [] = refl
drop-set (suc n) k v (x ∷ xs) =
    ap (λ (i : ℕ). drop (suc n) (set (x ∷ xs) i v)) (suc_add n k) ∙ drop-set n k v xs
  where
    suc_add : (n k : ℕ) → suc n + k ≡ suc (n + k)
    suc_add n k = omega arith

drop-set_first : (n v : ℕ) (xs : List ℕ) → drop n (set xs n v) ≡ set (drop n xs) 0 v
drop-set_first n v xs = ap (λ (i : ℕ). drop n (set xs i v)) (add_zero n) ∙ drop-set n 0 v xs
  where
    add_zero : (n : ℕ) → n ≡ n + 0
    add_zero n = omega arith

drop-blank :
    (ihl : ℕ) (out : List ℕ) (a b c d : ℕ) (rest : List ℕ)
    → drop ihl out ≡ a ∷ b ∷ c ∷ d ∷ rest
    → drop ihl (blank ihl out) ≡ 0 ∷ b ∷ 0 ∷ 0 ∷ rest
drop-blank ihl out a b c d rest h =
    drop-set ihl 3 0 _
    ∙ ap (λ (l : List ℕ). set l 3 0)
        (drop-set ihl 2 0 _
          ∙ ap (λ (l : List ℕ). set l 2 0)
              (drop-set_first ihl 0 out ∙ ap (λ (l : List ℕ). set l 0 0) h))

-- The reply's message, from the request's: type 0, and the checksum in place.
drop-with_checksum :
    (ihl : ℕ) (out : List ℕ) (b : ℕ) (rest : List ℕ)
    → drop ihl out ≡ 0 ∷ b ∷ 0 ∷ 0 ∷ rest
    → drop ihl (with_checksum ihl out)
      ≡ 0
        ∷ b
        ∷ checksum16 (0 ∷ b ∷ 0 ∷ 0 ∷ rest) / 2 ^ 8
        ∷ bit_and (checksum16 (0 ∷ b ∷ 0 ∷ 0 ∷ rest)) 0xff
        ∷ rest
drop-with_checksum ihl out b rest h =
    drop-set ihl 3 _ _
    ∙ ap (λ (l : List ℕ). set l 3 (bit_and (checksum16 (drop ihl out)) 0xff))
        (drop-set ihl 2 _ out ∙ ap (λ (l : List ℕ). set l 2 (checksum16 (drop ihl out) / 2 ^ 8)) h)
    ∙ ap (λ (l : List ℕ). 0 ∷ b ∷ checksum16 l / 2 ^ 8 ∷ bit_and (checksum16 l) 0xff ∷ rest) h

-- A message without errors in RFC 1071: the sum of its words in one's complement has every bit set, which
-- is so if the sum of the words is a positive multiple of 65535.
abbrev pub Verifies : List ℕ → Type 0
Verifies bytes = (1 ≤ total bytes) × (total bytes % 65535 ≡ 0)

sum-Verifies :
    (b c : ℕ) (rest : List ℕ)
    → b + total rest < 2 ^ 32
    → c ≡ 65535 - fold 2 (b + total rest)
    → Verifies (0 ∷ b ∷ c / 2 ^ 8 ∷ bit_and c 0xff ∷ rest)
sum-Verifies b c rest h e =
    let (small, (q, same), pos) = fold_lem (b + total rest) h in
    (
      omega (arith, small, same, bit_and-low 8 c),
      multiple (suc q) (omega (arith, small, same, bit_and-low 8 c)),
    )
  where
    multiple :
        (n : ℕ)
        → total (0 ∷ b ∷ c / 2 ^ 8 ∷ bit_and c 0xff ∷ rest) ≡ 65535 * n
        → total (0 ∷ b ∷ c / 2 ^ 8 ∷ bit_and c 0xff ∷ rest) % 65535 ≡ 0
    multiple n h = omega arith

blank_sum :
    (b : ℕ) (rest : List ℕ)
    → b + total rest < 2 ^ 32
    → checksum16 (0 ∷ b ∷ 0 ∷ 0 ∷ rest) ≡ 65535 - fold 2 (b + total rest)
unfolding checksum16
blank_sum b rest h =
    let (small, (q, same), pos) = fold_lem (b + total rest) h in
    ap (λ (s : ℕ). 2 ^ 16 - 1 - fold 2 s % 2 ^ 16)
      (sum_words-total 0 (0 ∷ b ∷ 0 ∷ 0 ∷ rest) (omega arith) ∙ plain_sum b (total rest))
    ∙ omega (arith, small)
  where
    plain_sum : (b t : ℕ) → 0 + (0 * 256 + b + (0 * 256 + 0 + t)) ≡ b + t
    plain_sum b t = omega arith

drop-swap : (n i j : ℕ) (xs : List ℕ) → i < n → j < n → drop n (swap i j xs) ≡ drop n xs
drop-swap n i j xs hi hj =
    drop-set_below n j _ (set xs i (get_or xs j 0)) hj ∙ drop-set_below n i _ xs hi

drop-swap_addresses :
    (n k i : ℕ) (xs : List ℕ) → 16 + i + k ≤ n → drop n (swap_addresses k i xs) ≡ drop n xs
drop-swap_addresses n zero i xs h = refl
drop-swap_addresses n (suc k) i xs h =
    drop-swap_addresses n k (i + 1) (swap (12 + i) (16 + i) xs) (omega arith)
    ∙ drop-swap n (12 + i) (16 + i) xs (omega arith) (omega arith)

four_of :
    (xs : List ℕ)
    → 4 ≤ length xs
    → (a : ℕ) × (b : ℕ) × (c : ℕ) × (d : ℕ) × (rest : List ℕ) × (xs ≡ a ∷ b ∷ c ∷ d ∷ rest)
four_of [] h = absurd (omega arith)
four_of (a ∷ []) h = absurd (omega arith)
four_of (a ∷ b ∷ []) h = absurd (omega arith)
four_of (a ∷ b ∷ c ∷ []) h = absurd (omega arith)
four_of (a ∷ b ∷ c ∷ d ∷ rest) h = (a, b, c, d, rest, refl)

abbrev pub header_len : List ℕ → ℕ
header_len pkt = bit_and (get_or pkt 0 0) 0x0f * 4

replied :
    (pkt out : List ℕ)
    → icmp_echo_reply pkt ≡ some out
    → (20 ≤ header_len pkt)
      × (header_len pkt + 8 ≤ length pkt)
      × (out ≡ with_checksum (header_len pkt) (blank (header_len pkt) (swap_addresses 4 0 pkt)))
unfolding icmp_echo_reply
replied pkt out h = (ground arith, ground arith, ground arith)

-- The message of a reply, which lies behind the header of the packet, is the message of the request with
-- the type 0 and a new checksum, and verifies in RFC 1071. The packet is made of bytes, at most 65535.
pub icmp_echo_reply-Verifies :
    (pkt out : List ℕ)
    → All IsByte pkt
    → length pkt ≤ 65535
    → icmp_echo_reply pkt ≡ some out
    → let asked = drop (header_len pkt) pkt in
      let answered = drop (header_len pkt) out in
      (get_or answered 0 0 ≡ 0)
      × (get_or answered 1 0 ≡ get_or asked 1 0)
      × (drop 4 answered ≡ drop 4 asked)
      × Verifies answered
icmp_echo_reply-Verifies pkt out bytes small h =
    let (p, q, is) = replied pkt out h in
    let (a, b, c, d, rest, cut) =
      four_of (drop (header_len pkt) pkt) (omega (arith, length-drop (header_len pkt) pkt, q)) in
    let blanked =
      drop-blank (header_len pkt) (swap_addresses 4 0 pkt) a b c d rest
        (drop-swap_addresses (header_len pkt) 4 0 pkt p ∙ cut) in
    let done =
      ap (drop (header_len pkt)) is ∙ drop-with_checksum (header_len pkt) _ b rest blanked in
    let message = subst (All IsByte) cut (All-drop IsByte (header_len pkt) pkt bytes) in
    let shorter = ap length (sym cut) ∙ length-drop (header_len pkt) pkt in
    let bounded : b + total rest < 2 ^ 32 =
      omega (arith, message.1.0, total-lt rest message.1.1.1.1, shorter, small) in
    (
      ap (λ (l : List ℕ). get_or l 0 0) done,
      ap (λ (l : List ℕ). get_or l 1 0) done ∙ sym (ap (λ (l : List ℕ). get_or l 1 0) cut),
      ap (drop 4) done ∙ sym (ap (drop 4) cut),
      subst Verifies (sym done) (
          sum-Verifies b (checksum16 (0 ∷ b ∷ 0 ∷ 0 ∷ rest)) rest bounded
            (blank_sum b rest bounded)),
    )
