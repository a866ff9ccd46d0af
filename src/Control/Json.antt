-- ===== src/Control/Json.antt =====
-- crates/akurai-control: the text of JSON strings, written by `json_esc` (vpn_endpoint.rs and
-- peermap.rs have the same one) and read by `extract_json_str` of auth.rs. An index into a string
-- counts its characters.
pub mod RoundTrip
use akur_ai_vpn.Base.{
  ℕ, Bool, true, false, ◌&&◌, ◌+◌, List, [], ◌∷◌, ◌++◌, Option, none, some, if◌then◌else◌, ◌==◌,
  ◌>>=◌, take,
}
use akur_ai_vpn.Base.Text.{Str, trim_start, strip_prefix}

-- `str::replace` of one character
abbrev pub replace : ℕ → Str → Str → Str
replace from to [] = []
replace from to (c ∷ cs) =
    let rest = replace from to cs in if c == from then to ++ rest else c ∷ rest

-- The backslash is 92, the quotation mark 34, "n" 110 and "r" 114.
unfoldable pub json_esc : Str → Str
json_esc s =
    replace 13 (92 ∷ 114 ∷ [])
      (replace 10 (92 ∷ 110 ∷ []) (replace 34 (92 ∷ 34 ∷ []) (replace 92 (92 ∷ 92 ∷ []) s)))

-- `str::replace` of two characters by one
abbrev pub replace_pair : ℕ → ℕ → ℕ → Str → Str
replace_pair a b to [] = []
replace_pair a b to (c ∷ []) = c ∷ []
replace_pair a b to (c ∷ d ∷ ds) =
    let behind = replace_pair a b to ds in
    let next = replace_pair a b to (d ∷ ds) in if c == a && d == b then to ∷ behind else c ∷ next

unfoldable pub unescape : Str → Str
unescape s = replace_pair 92 92 92 (replace_pair 92 34 34 s)

-- The index of the first quotation mark that no backslash escapes.
unfoldable pub json_str_end : Str → Option ℕ
json_str_end [] = none
json_str_end (c ∷ []) = if c == 92 then none else if c == 34 then some 0 else none
json_str_end (c ∷ d ∷ ds) =
    let skipped = json_str_end ds >>= λ i. some (i + 2) in
    let next = json_str_end (d ∷ ds) >>= λ i. some (i + 1) in
    if c == 92 then skipped else if c == 34 then some 0 else next

abbrev or_later : Option Str → Option Str → Option Str
or_later none later = later
or_later (some s) later = some s

-- `&s[s.find(needle)? + needle.len()..]`
unfoldable pub find_behind : Str → Str → Option Str
find_behind needle [] = strip_prefix needle []
find_behind needle (c ∷ cs) =
    let later = find_behind needle cs in or_later (strip_prefix needle (c ∷ cs)) later

unfoldable pub extract_json_str : Str → Str → Option Str
extract_json_str json key = find_behind (34 ∷ key ++ (34 ∷ [])) json >>= λ found.
    strip_prefix (58 ∷ []) (trim_start found) >>= λ rest.
    strip_prefix (34 ∷ []) (trim_start rest) >>= λ inner.
    json_str_end inner >>= λ end. some (unescape (take end inner))
