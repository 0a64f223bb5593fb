-- ===== src/Text.antt =====
-- Python's `str` as a list of code points, with the string methods that the package calls.

pub mod Lines
use Prim.Native.Char.{code}
use measure_twice.Prelude.{
  ℕ, ◌+◌, ◌-◌, ◌*◌, String, Bool, ◌&&◌, ◌||◌, List, [], ◌∷◌, ◌++◌, ◌==◌, nat_eq, leb, if◌then◌else◌,
  all,
}

abbrev pub Text : Type 0
Text = List ℕ

-- a literal
abbrev pub text : String → Text
text String.[] = []
text (String.◌∷◌ c s) = code c ∷ text s

-- `str.isspace` of one character
unfoldable pub is_space : ℕ → Bool
is_space c =
    leb 9 c && leb c 13
    || leb 28 c && leb c 32
    || c == 0x85
    || c == 0xa0
    || c == 0x1680
    || leb 0x2000 c && leb c 0x200a
    || leb 0x2028 c && leb c 0x2029
    || c == 0x202f
    || c == 0x205f
    || c == 0x3000

unfoldable pub strip_left : Text → Text
unfolding is_space
strip_left [] = []
strip_left (c ∷ s) = let rest = strip_left s in if is_space c then rest else c ∷ s

-- The text without its last characters that are spaces.
unfoldable pub strip_right : Text → Text
unfolding is_space
strip_right [] = []
strip_right (c ∷ s) = drop_if_end c (strip_right s)
  where
    drop_if_end : ℕ → Text → Text
    drop_if_end c [] = if is_space c then [] else c ∷ []
    drop_if_end c (d ∷ r) = c ∷ d ∷ r

-- `str.strip()`
unfoldable pub strip : Text → Text
unfolding strip_left strip_right
strip s = strip_right (strip_left s)

-- `not s.strip()`
unfoldable pub is_blank : Text → Bool
unfolding is_space
is_blank s = all is_space s

unfoldable pub is_digit : ℕ → Bool
is_digit c = leb b'0' c && leb c b'9'

-- `int(s)` of ASCII digits, from the value of the digits read so far
unfoldable pub decimal : ℕ → Text → ℕ
decimal n [] = n
decimal n (c ∷ s) = decimal (n * 10 + (c - b'0')) s

-- The line boundaries of `str.splitlines()` other than "\r\n".
unfoldable pub is_break : ℕ → Bool
is_break c =
    leb 10 c && leb c 13 || leb 28 c && leb c 30 || c == 0x85 || leb 0x2028 c && leb c 0x2029

-- A character before the first line of the rest.
unfoldable pub cons_line : ℕ → List Text → List Text
cons_line c [] = (c ∷ []) ∷ []
cons_line c (line ∷ lines) = (c ∷ line) ∷ lines

-- `str.splitlines()`: the text after the last boundary is a line if it is not empty.
unfoldable pub splitlines : Text → List Text
unfolding is_break cons_line
splitlines [] = []
splitlines (c ∷ []) = if is_break c then [] ∷ [] else (c ∷ []) ∷ []
splitlines (c ∷ d ∷ s) =
    let rest = splitlines (d ∷ s) in
    let after = splitlines s in
    if c == 13 && d == 10 then [] ∷ after else if is_break c then [] ∷ rest else cons_line c rest

-- `s.split(sep)` for a separator of one character: always one part or more.
unfoldable pub split : ℕ → Text → List Text
unfolding cons_line
split sep [] = [] ∷ []
split sep (c ∷ s) = let rest = split sep s in if c == sep then [] ∷ rest else cons_line c rest

-- `sep.join(parts)`
unfoldable pub join : Text → List Text → Text
join sep [] = []
join sep (s ∷ []) = s
join sep (s ∷ t ∷ rest) = s ++ (sep ++ join sep (t ∷ rest))

-- `"".join(lines)`, of lines that each get their newline
unfoldable pub unlines : List Text → Text
unlines [] = []
unlines (s ∷ rest) = s ++ (10 ∷ unlines rest)
