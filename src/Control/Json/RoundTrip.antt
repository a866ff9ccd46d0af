-- ===== src/Control/Json/RoundTrip.antt =====
-- crates/akurai-control: JSON strings that are read back.
use akur_ai_vpn.Base.{
  ℕ, false, ◌+◌, ◌≡◌, ◌≢◌, refl, ap, sym, subst, ◌∙◌, [], ◌∷◌, ◌++◌, some, arith, ◌==◌, ==_iff,
  Bool-cases, take-append, length, ◌>>=◌, inl, inr,
}
use akur_ai_vpn.Base.Text.{Str}
use akur_ai_vpn.Control.Json.{
  replace, json_esc, replace_pair, unescape, json_str_end, find_behind, extract_json_str,
}

-- Text without a line feed and a carriage return.
abbrev pub IsOneLine : Str → Type 0
IsOneLine [] = Unit {0}
IsOneLine (c ∷ cs) = (c ≢ 10) × (c ≢ 13) × IsOneLine cs

-- The text that `json_esc` writes, character by character.
data Escaped : Str → Str → Type 0 where
  finished : Escaped [] []
  backslash : {s t : Str} → Escaped s t → Escaped (92 ∷ s) (92 ∷ 92 ∷ t)
  quote : {s t : Str} → Escaped s t → Escaped (34 ∷ s) (92 ∷ 34 ∷ t)
  plain : (c : ℕ) {s t : Str} → c ≢ 92 → c ≢ 34 → Escaped s t → Escaped (c ∷ s) (c ∷ t)

json_esc-plain :
    (c : ℕ) (s : Str) → c ≢ 92 → c ≢ 34 → c ≢ 10 → c ≢ 13 → json_esc (c ∷ s) ≡ c ∷ json_esc s
unfolding json_esc
json_esc-plain c s a b d e = rw (is_not c 92 a, is_not c 34 b, is_not c 10 d, is_not c 13 e) refl
  where
    is_not : (c n : ℕ) → c ≢ n → (c == n) ≡ false
    is_not c n h = ground arith

json_esc-backslash : (s : Str) → json_esc (92 ∷ s) ≡ 92 ∷ 92 ∷ json_esc s
unfolding json_esc
json_esc-backslash s = refl

json_esc-quote : (s : Str) → json_esc (34 ∷ s) ≡ 92 ∷ 34 ∷ json_esc s
unfolding json_esc
json_esc-quote s = refl

json_esc-Escaped : (s : Str) → IsOneLine s → Escaped s (json_esc s)
unfolding json_esc
json_esc-Escaped [] h = finished
json_esc-Escaped (c ∷ s) (no_feed, no_return, h) = elim (Bool-cases (c == 92)) [
  | inl e ↦
      subst (λ (k : ℕ). Escaped (k ∷ s) (json_esc (k ∷ s))) (sym ((==_iff c 92).0 e))
        (subst (Escaped (92 ∷ s)) (sym (json_esc-backslash s)) (backslash (json_esc-Escaped s h)))
  | inr e ↦ elim (Bool-cases (c == 34)) [
    | inl f ↦
        subst (λ (k : ℕ). Escaped (k ∷ s) (json_esc (k ∷ s))) (sym ((==_iff c 34).0 f))
          (subst (Escaped (34 ∷ s)) (sym (json_esc-quote s)) (quote (json_esc-Escaped s h)))
    | inr f ↦
        subst (Escaped (c ∷ s))
          (sym (json_esc-plain c s (other c 92 e) (other c 34 f) no_feed no_return))
          (plain c (other c 92 e) (other c 34 f) (json_esc-Escaped s h))
  ]
]
  where
    other : (c n : ℕ) → (c == n) ≡ false → c ≢ n
    other c n h p = ground arith

replace_pair-other :
    (a b to c : ℕ) (t : Str) → c ≢ a → replace_pair a b to (c ∷ t) ≡ c ∷ replace_pair a b to t
replace_pair-other a b to c [] h = refl
replace_pair-other a b to c (d ∷ ds) h = ground arith

replace_pair-single :
    {s t : Str} → Escaped s t → replace_pair 92 34 34 (92 ∷ t) ≡ 92 ∷ replace_pair 92 34 34 t
replace_pair-single finished = refl
replace_pair-single (backslash e) = refl
replace_pair-single (quote e) = refl
replace_pair-single (plain c a b e) = ground arith

-- What the first replacement leaves: the backslashes doubled.
unquoted : {s t : Str} → Escaped s t → replace_pair 92 34 34 t ≡ replace 92 (92 ∷ 92 ∷ []) s
unquoted finished = refl
unquoted (backslash e) = ap (◌∷◌ 92) (replace_pair-single e ∙ ap (◌∷◌ 92) (unquoted e))
unquoted (quote e) = ap (◌∷◌ 34) (unquoted e)
unquoted (plain c {s} {t} a b e) =
    replace_pair-other 92 34 34 c t a ∙ ap (◌∷◌ c) (unquoted e) ∙ kept c s a
  where
    kept :
        (c : ℕ) (s : Str)
        → c ≢ 92
        → c ∷ replace 92 (92 ∷ 92 ∷ []) s ≡ replace 92 (92 ∷ 92 ∷ []) (c ∷ s)
    kept c s a = ground arith

doubled : (s : Str) → replace_pair 92 92 92 (replace 92 (92 ∷ 92 ∷ []) s) ≡ s
doubled [] = refl
doubled (c ∷ s) = elim (Bool-cases (c == 92)) [
  | inl e ↦ rw ((==_iff c 92).0 e) (ap (◌∷◌ 92) (doubled s))
  | inr e ↦ rw e (replace_pair-other 92 92 92 c _ (other e) ∙ ap (◌∷◌ c) (doubled s))
]
  where
    other : (c == 92) ≡ false → c ≢ 92
    other h p = ground arith

-- The end of the string is the first quotation mark behind it.
end_of : {s t : Str} (rest : Str) → Escaped s t → json_str_end (t ++ (34 ∷ rest)) ≡ some (length t)
unfolding json_str_end
end_of [] finished = refl
end_of (r ∷ rest) finished = refl
end_of rest (backslash {s} {t} e) = rw (end_of rest e) (ap some (omega arith))
end_of rest (quote {s} {t} e) = rw (end_of rest e) (ap some (omega arith))
end_of rest (plain c {s} {t} a b e) = step c t a b ∙ rw (end_of rest e) (ap some (omega arith))
  where
    step :
        (c : ℕ) (t : Str)
        → c ≢ 92
        → c ≢ 34
        → json_str_end (c ∷ t ++ (34 ∷ rest))
          ≡ (json_str_end (t ++ (34 ∷ rest)) >>= λ i. some (i + 1))
    step c [] a b = ground arith
    step c (d ∷ ds) a b = ground arith

-- A string of one line that stands as the value of the first key of that name, as `json_esc` writes
-- it, is read back.
pub extract_json_str-json_esc :
    (json key s rest : Str)
    → IsOneLine s
    → find_behind (34 ∷ key ++ (34 ∷ [])) json ≡ some (58 ∷ 34 ∷ json_esc s ++ (34 ∷ rest))
    → extract_json_str json key ≡ some s
unfolding extract_json_str unescape
extract_json_str-json_esc json key s rest h found =
    let e = json_esc-Escaped s h in
    rw (found, end_of rest e, take-append (json_esc s) (34 ∷ rest), unquoted e, doubled s) refl
