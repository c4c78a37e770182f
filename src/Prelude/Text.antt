-- ===== src/Prelude/Text.antt =====
-- What the code uses of JavaScript's strings: `trim`, `toLowerCase` (on ASCII letters; others stay)
-- and truthiness.
use Prim.Native.Nat.{ℕ, ◌-◌}
use Prim.Native.Char.{Char, code}
use Prim.Native.String.{String, char_at, find, len}
use mathlib.Core.List.{List, [], ◌∷◌}
use mathlib.Core.Bool.{Bool, true, false, not, ◌&&◌, ◌||◌}
use mathlib.Core.Option.{Option, none, some}
use text.Mathlib.Text.{◌==◌ as str_eq}
use medusa_multi_tenancy.Prelude.Tests.{leb, ◌==◌, if◌then◌else◌}

-- `Boolean(s)`
abbrev pub is_truthy : String → Bool
is_truthy String.[] = false
is_truthy (String.◌∷◌ _ _) = true

-- `s || null`
abbrev pub or_null : String → Option String
or_null s = if is_truthy s then some s else none

-- `s || other`
abbrev pub or_else : String → String → String
or_else s other = if is_truthy s then s else other

is_space : Char → Bool
is_space c =
    let n = code c in
    (leb 9 n && leb n 13)
    || n == 32
    || n == 160
    || n == 5760
    || (leb 8192 n && leb n 8202)
    || n == 8232
    || n == 8233
    || n == 8239
    || n == 8287
    || n == 12288
    || n == 65279

trim_start : String → String
trim_start String.[] = String.[]
trim_start (String.◌∷◌ c s) = let rest = trim_start s in if is_space c then rest else String.◌∷◌ c s

trim_end : String → String
trim_end String.[] = String.[]
trim_end (String.◌∷◌ c s) =
    let rest = trim_end s in
    if is_space c && not (is_truthy rest) then String.[] else String.◌∷◌ c rest

unfoldable pub trim : String → String
unfolding trim_start trim_end is_space
trim s = trim_end (trim_start s)

lower_char : Char → Char
lower_char c =
    let n = code c in
    if leb 65 n && leb n 90 then char_at "abcdefghijklmnopqrstuvwxyz" (n - 65) else c

unfoldable pub to_lower_case : String → String
unfolding lower_char
to_lower_case String.[] = String.[]
to_lower_case (String.◌∷◌ c s) = String.◌∷◌ (lower_char c) (to_lower_case s)

-- `s.trim().toLowerCase()`
unfoldable pub normalize_email : String → String
unfolding trim to_lower_case
normalize_email s = to_lower_case (trim s)

abbrev pub upper_char : Char → Char
upper_char c =
    let n = code c in
    if leb 97 n && leb n 122 then char_at "ABCDEFGHIJKLMNOPQRSTUVWXYZ" (n - 97) else c

unfoldable pub to_upper_case : String → String
to_upper_case String.[] = String.[]
to_upper_case (String.◌∷◌ c s) = String.◌∷◌ (upper_char c) (to_upper_case s)

-- `s.split(separator)[0]`, for a separator of one character
unfoldable pub before : ℕ → String → String
before separator String.[] = String.[]
before separator (String.◌∷◌ c s) =
    let rest = before separator s in if code c == separator then String.[] else String.◌∷◌ c rest

prepend : Char → List String → List String
prepend c [] = String.◌∷◌ c String.[] ∷ []
prepend c (s ∷ rest) = String.◌∷◌ c s ∷ rest

-- `s.split(separator)`
unfoldable pub split : ℕ → String → List String
unfolding prepend
split separator String.[] = String.[] ∷ []
split separator (String.◌∷◌ c s) =
    let rest = split separator s in if code c == separator then String.[] ∷ rest else prepend c rest

-- `s.includes(t)`
unfoldable pub includes : String → String → Bool
includes s t = leb (find s t) (len s)

-- `list.includes(s)`
abbrev pub contains : String → List String → Bool
contains s [] = false
contains s (t ∷ ts) = str_eq s t || contains s ts

distinct : List String → List String → List String
distinct seen [] = []
distinct seen (s ∷ ss) =
    let old = distinct seen ss in
    let new = s ∷ distinct (s ∷ seen) ss in if contains s seen then old else new

-- `Array.from(new Set(list))`: the entries in the order of their first occurrence
unfoldable pub unique : List String → List String
unfolding distinct
unique = distinct []
