-- ===== src/Base/Text.antt =====
-- Strings as lists of their characters' code points, with the operations of `str` that the code uses.
use Prim.Native.Nat.{ℕ, ◌+◌}
use mathlib.Core.Bool.{Bool, true, false, ◌&&◌, ◌||◌}
use mathlib.Core.List.{List, [], ◌∷◌, map, reverse}
use mathlib.Core.Option.{Option, none, some}
use package.akur_ai_vpn.Base.Tests.{leb, ◌==◌, if◌then◌else◌}

abbrev pub Str : Type 0
Str = List ℕ

-- `char::is_whitespace`: the property White_Space of Unicode
abbrev pub is_whitespace : ℕ → Bool
is_whitespace c =
    (leb 0x9 c && leb c 0xD)
    || c == 0x20
    || c == 0x85
    || c == 0xA0
    || c == 0x1680
    || (leb 0x2000 c && leb c 0x200A)
    || c == 0x2028
    || c == 0x2029
    || c == 0x202F
    || c == 0x205F
    || c == 0x3000

abbrev pub trim_start : Str → Str
trim_start [] = []
trim_start (c ∷ cs) = let rest = trim_start cs in if is_whitespace c then rest else c ∷ cs

-- A character goes if it is white and nothing is left behind it.
abbrev pub keep_unless_white : ℕ → Str → Str
keep_unless_white c [] = if is_whitespace c then [] else c ∷ []
keep_unless_white c (d ∷ ds) = c ∷ d ∷ ds

abbrev pub trim_end : Str → Str
trim_end [] = []
trim_end (c ∷ cs) = keep_unless_white c (trim_end cs)

abbrev pub trim : Str → Str
trim s = trim_end (trim_start s)

abbrev pub strip_prefix : Str → Str → Option Str
strip_prefix [] s = some s
strip_prefix (p ∷ ps) [] = none
strip_prefix (p ∷ ps) (c ∷ cs) = let rest = strip_prefix ps cs in if p == c then rest else none

abbrev pub is_empty : Str → Bool
is_empty [] = true
is_empty (c ∷ cs) = false

abbrev pub to_ascii_lowercase : Str → Str
to_ascii_lowercase s = map (λ c. if leb 65 c && leb c 90 then c + 32 else c) s

-- `split(separator).next()`
abbrev pub before : ℕ → Str → Str
before separator [] = []
before separator (c ∷ cs) =
    let rest = before separator cs in if c == separator then [] else c ∷ rest

abbrev pub starts_with : ℕ → Str → Bool
starts_with mark [] = false
starts_with mark (c ∷ cs) = c == mark

-- A line without the carriage return at its end.
abbrev pub strip_return : Str → Str
strip_return [] = []
strip_return (c ∷ []) = if c == 13 then [] else c ∷ []
strip_return (c ∷ d ∷ ds) = c ∷ strip_return (d ∷ ds)

-- The lines from the start of a text on, of which the first has begun with `line`, in reverse.
abbrev pub lines_from : Str → Str → List Str
lines_from line [] = if is_empty line then [] else reverse line ∷ []
lines_from line (c ∷ cs) =
    let next = strip_return (reverse line) ∷ lines_from [] cs in
    let more = lines_from (c ∷ line) cs in if c == 10 then next else more

-- `str::lines`
unfoldable pub lines : Str → List Str
lines = lines_from []

-- The characters up to white space, and those behind them.
abbrev pub word : Str → Str × Str
word [] = ([], [])
word (c ∷ cs) = let (w, rest) = word cs in if is_whitespace c then ([], c ∷ cs) else (c ∷ w, rest)

abbrev pub nonempty_word : Str × Str → Option (Str × Str)
nonempty_word ([], rest) = none
nonempty_word (c ∷ cs, rest) = some (c ∷ cs, rest)

-- `split_whitespace().next()`, with what it leaves.
abbrev pub next_word : Str → Option (Str × Str)
next_word s = nonempty_word (word (trim_start s))
