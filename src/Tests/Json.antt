-- ===== src/Tests/Json.antt =====
-- A JSON object at a concrete key: {"id":"a\"b\\"}.
use akur_ai_vpn.Base.{◌≡◌, refl, [], ◌∷◌, ◌++◌, some, arith}
use akur_ai_vpn.Base.Text.{Str}
use akur_ai_vpn.Control.Json.{json_esc, find_behind, extract_json_str, unescape}
use akur_ai_vpn.Control.Json.RoundTrip.{IsOneLine, extract_json_str-json_esc}

abbrev key : Str
key = 105 ∷ 100 ∷ []

abbrev text : Str
text = 97 ∷ 34 ∷ 98 ∷ 92 ∷ []

abbrev object : Str
object = 123 ∷ 34 ∷ 105 ∷ 100 ∷ 34 ∷ 58 ∷ 34 ∷ 97 ∷ 92 ∷ 34 ∷ 98 ∷ 92 ∷ 92 ∷ 34 ∷ 125 ∷ []

key-found :
    find_behind (34 ∷ key ++ (34 ∷ [])) object ≡ some (58 ∷ 34 ∷ json_esc text ++ (34 ∷ 125 ∷ []))
unfolding find_behind json_esc
key-found = refl

text-IsOneLine : IsOneLine text
text-IsOneLine = (
  omega arith,
  omega arith,
  (omega arith, omega arith, (omega arith, omega arith, (omega arith, omega arith, tt))),
)

extract_json_str-json_esc_example : extract_json_str object key ≡ some text
extract_json_str-json_esc_example =
    extract_json_str-json_esc object key text (125 ∷ []) text-IsOneLine key-found

-- A line feed is written as two characters, which stay two.
line_feed : unescape (json_esc (10 ∷ [])) ≡ 92 ∷ 110 ∷ []
unfolding unescape json_esc
line_feed = refl
