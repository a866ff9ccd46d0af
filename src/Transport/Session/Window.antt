-- ===== src/Transport/Session/Window.antt =====
-- crates/akurai-transport/src/session.rs: the 64-bit replay window against the set of all counters
-- accepted so far.
use akur_ai_vpn.Base.{
  ℕ, zero, suc, ◌+◌, ◌-◌, ◌*◌, ◌^◌, ◌≤◌, ◌<◌, max, ◌≡◌, ap, sym, ◌∙◌, ◌⊎◌, inl, inr, Bool, true,
  false, not, ◌&&◌, ◌||◌, List, [], ◌∷◌, none, some, arith, ltb, leb, ◌==◌, if◌then◌else◌,
  Bool-cases, ==_iff, lt→ltb, bit_and, bit_or,
}
use akur_ai_vpn.Base.Bits.{
  bit, bit-le, bit-zero, bit-or, bit-two_pow_self, bit-two_pow_ne, bit-shift, bit-shift_below,
  bit-mod, bit_and-two_pow, bit_and-two_pow_test,
}
use akur_ai_vpn.Transport.Session.{Session, slide, shifted}

-- The specification: every accepted counter is remembered. A counter is fresh if it was never
-- accepted and is less than 64 below the highest one.
abbrev pub seen_before : ℕ → List ℕ → Bool
seen_before c [] = false
seen_before c (x ∷ xs) = x == c || seen_before c xs

abbrev pub highest : List ℕ → ℕ
highest [] = 0
highest (x ∷ xs) = max x (highest xs)

abbrev pub fresh : List ℕ → ℕ → Bool
fresh seen c = not (seen_before c seen) && ltb (highest seen) (c + 64)

abbrev bool_bit : Bool → ℕ
bool_bit true = 1
bool_bit false = 0

pub record Agrees (s : Session) (seen : List ℕ) : Type 0 where
  pub unstarted : s.recv_started ≡ false → seen ≡ []
  pub top : s.recv_started ≡ true → s.recv_max ≡ highest seen
  pub marks :
      (c : ℕ)
      → s.recv_started ≡ true
      → c ≤ s.recv_max
      → s.recv_max < c + 64
      → bit s.recv_mask (s.recv_max - c) ≡ bool_bit (seen_before c seen)

one_or_zero : (n : ℕ) → n ≤ 1 → (n ≡ 0) ⊎ (n ≡ 1)
one_or_zero n h = omega arith

-- `recv_mask & bit != 0` is the bit.
marked : ℕ → ℕ → Bool
marked m k = not (bit_and m (2 ^ k) == 0)

marked-bit : (m k : ℕ) → bool_bit (marked m k) ≡ bit m k
unfolding marked
marked-bit m k = elim (Bool-cases (bit_and m (2 ^ k) == 0)) [
  | inl e ↦ rw e (omega (arith, bit_and-two_pow_test m k ((==_iff _ 0).0 e)))
  | inr e ↦ rw e (elim (one_or_zero (bit m k) (bit-le m k)) [
    | inl z ↦ cc ((==_iff (bit_and m (2 ^ k)) 0).1 (bit_and-two_pow m k ∙ rw z (omega arith)))
    | inr o ↦ sym o
  ])
]

bit-set : (m k i : ℕ) → bit (bit_or m (2 ^ k)) i ≡ (if i == k then 1 else bit m i)
bit-set m k i = elim (Bool-cases (i == k)) [
  | inl e ↦ ground (arith, bit-or m (2 ^ k) i, bit-two_pow_self k, bit-le m k)
  | inr e ↦ ground (arith, bit-or m (2 ^ k) i, bit-two_pow_ne k i, bit-le m i)
]

-- Advancing the window by `d`: bit 0 is the new counter, and bit `i + d` is the old bit `i`.
advanced : ℕ → ℕ → ℕ
advanced m d = bit_or (shifted m d) 1

rejoin : (i d : ℕ) → d ≤ i → i ≡ i - d + d
rejoin i d p = omega arith

bit-shifted : (m d i : ℕ) → d ≤ i → i < 64 → bit (shifted m d) i ≡ bit m (i - d)
bit-shifted m d i p q = ground (
  arith,
  bit-mod (m * 2 ^ d) 64 i q,
  ap (λ (t : ℕ). bit (m * 2 ^ d) t) (rejoin i d p),
  bit-shift m d (i - d),
)

bit-shifted_below : (m d i : ℕ) → i < d → bit (shifted m d) i ≡ 0
bit-shifted_below m d i p =
    ground (arith, bit-zero i, bit-mod (m * 2 ^ d) 64 i, bit-shift_below m d i p)

bit-advanced :
    (m d i : ℕ)
    → 0 < d
    → i < 64
    → bit (advanced m d) i ≡ (if i == 0 then 1 else if ltb i d then 0 else bit m (i - d))
unfolding advanced
bit-advanced m d i p q =
    ground (arith, bit-set (shifted m d) 0 i, bit-shifted m d i, bit-shifted_below m d i)

seen_before-le : (c : ℕ) (seen : List ℕ) → seen_before c seen ≡ true → c ≤ highest seen
seen_before-le c [] h = cc
seen_before-le c (x ∷ xs) h = ground (arith, seen_before-le c xs)

pub unseen_above : (c : ℕ) (seen : List ℕ) → highest seen < c → seen_before c seen ≡ false
unseen_above c seen h = elim (Bool-cases (seen_before c seen)) [
  | inl e ↦ absurd (omega (arith, seen_before-le c seen e))
  | inr e ↦ e
]

-- What the window does with a counter, against the set of all counters accepted so far: it refuses
-- exactly what is not fresh, and what it accepts joins the set.
abbrev pub Refines : Session → List ℕ → ℕ → Type 0
Refines s seen c =
    ((slide s c ≡ none) × (fresh seen c ≡ false))
    ⊎ ((s' : Session) × (slide s c ≡ some s') × (fresh seen c ≡ true) × Agrees s' (c ∷ seen))

same_place : (c c' top : ℕ) → top < c → c' ≤ top → c - c' - (c - top) ≡ top - c'
same_place c c' top p q = omega arith

bool_bit-injective : (a b : Bool) → bool_bit a ≡ bool_bit b → a ≡ b
bool_bit-injective a b h = ground arith

bit-one : (i : ℕ) → bit 1 i ≡ bool_bit (0 == i)
bit-one zero = bit-two_pow_self 0
bit-one (suc i) = bit-two_pow_ne 0 (suc i) (omega arith) ∙ ground arith

module _ (s : Session) (seen : List ℕ) (c : ℕ) (v : Agrees s seen) where
  first-marks :
      (c' : ℕ) → seen ≡ [] → c' ≤ c → bit 1 (c - c') ≡ bool_bit (seen_before c' (c ∷ seen))
  first-marks c' e p = rw e (ground (arith, bit-one (c - c')))

  first : s.recv_started ≡ false → Refines s seen c
  unfolding slide
  first e = inr (
    record s { recv_max = c; recv_mask = 1; recv_started = true },
    rw e,
    rw (v.unstarted e) (ground arith),
    record {
      unstarted = λ h. cc;
      top = λ h. rw (v.unstarted e) (omega arith);
      marks = λ c' h p q. first-marks c' (v.unstarted e) p;
    },
  )

  module _ (started : s.recv_started ≡ true) where
    top_is : s.recv_max ≡ highest seen
    top_is = v.top started

    ahead-marks :
        (c' : ℕ)
        → s.recv_max < c
        → c' ≤ c
        → c < c' + 64
        → bit (advanced s.recv_mask (c - s.recv_max)) (c - c')
          ≡ bool_bit (seen_before c' (c ∷ seen))
    ahead-marks c' up p q = ground (
      arith,
      top_is,
      bit-advanced s.recv_mask (c - s.recv_max) (c - c'),
      unseen_above c' seen,
      v.marks c' started,
      same_place c c' s.recv_max,
    )

    ahead : s.recv_max < c → Refines s seen c
    unfolding slide advanced
    ahead up = inr (
      record s { recv_max = c; recv_mask = advanced s.recv_mask (c - s.recv_max) },
      rw (started, lt→ltb s.recv_max c up),
      ground (arith, top_is, unseen_above c seen),
      record {
        unstarted = λ h. cc;
        top = λ h. omega (arith, top_is);
        marks = λ c' h p q. ahead-marks c' up p q;
      },
    )

    below : c + 64 ≤ s.recv_max → Refines s seen c
    unfolding slide
    below down = inl (ground arith, ground (arith, top_is))

    module _ (p : c ≤ s.recv_max) (q : s.recv_max < c + 64) where
      mark_lem : seen_before c seen ≡ marked s.recv_mask (s.recv_max - c)
      mark_lem =
          bool_bit-injective (seen_before c seen) (marked s.recv_mask (s.recv_max - c))
            (cc (v.marks c started p q, marked-bit s.recv_mask (s.recv_max - c)))

      replay : marked s.recv_mask (s.recv_max - c) ≡ true → Refines s seen c
      unfolding slide marked
      replay hit = inl (ground arith, ground (arith, mark_lem))

      late-marks :
          (c' : ℕ)
          → c' ≤ s.recv_max
          → s.recv_max < c' + 64
          → bit (bit_or s.recv_mask (2 ^ (s.recv_max - c))) (s.recv_max - c')
            ≡ bool_bit (seen_before c' (c ∷ seen))
      late-marks c' p' q' =
          ground (
            arith,
            bit-set s.recv_mask (s.recv_max - c) (s.recv_max - c'),
            v.marks c' started p' q',
          )

      late : marked s.recv_mask (s.recv_max - c) ≡ false → Refines s seen c
      unfolding slide marked
      late miss = inr (
        record s { recv_mask = bit_or s.recv_mask (2 ^ (s.recv_max - c)) },
        ground arith,
        ground (arith, mark_lem, top_is),
        record {
          unstarted = λ h. cc;
          top = λ h. omega (arith, top_is);
          marks = λ c' h p' q'. late-marks c' p' q';
        },
      )

-- In a session that agrees with a set of counters seen, the window refuses exactly the counters
-- that are not fresh, and otherwise agrees with the set that the counter has joined.
pub slide-Refines : (s : Session) (seen : List ℕ) (c : ℕ) → Agrees s seen → Refines s seen c
slide-Refines s seen c v = elim (Bool-cases s.recv_started) [
  | inr e ↦ first s seen c v e
  | inl e ↦ elim (Bool-cases (ltb s.recv_max c)) [
    | inl up ↦ ahead s seen c v e (ground arith)
    | inr p ↦ elim (Bool-cases (leb (c + 64) s.recv_max)) [
      | inl down ↦ below s seen c v e (ground arith)
      | inr q ↦ elim (Bool-cases (marked s.recv_mask (s.recv_max - c))) [
        | inl hit ↦ replay s seen c v e (ground arith) (ground arith) hit
        | inr miss ↦ late s seen c v e (ground arith) (ground arith) miss
      ]
    ]
  ]
]
