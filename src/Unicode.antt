-- ===== src/Unicode.antt =====
-- The character data of Python's `str` and `re` that the package's text matching rests on.
use measure_twice.Prelude.{
  ℕ, Bool, ◌&&◌, ◌||◌, [], ◌∷◌, ◌++◌, leb, nat_eq, text_eq, option_eq, ◌==◌, take, drop,
}
use measure_twice.Text.{Text}

pub record Unicode : Type 0 where
  -- `str.casefold` of one character
  pub fold_char : ℕ → Text
  -- whether a literal of a pattern matches a character under `re.IGNORECASE`
  pub same_char : ℕ → ℕ → Bool

-- `s.casefold()`
unfoldable pub casefold : Unicode → Text → Text
casefold u [] = []
casefold u (c ∷ s) = u.fold_char c ++ casefold u s

-- `[A-Za-z0-9]` under `re.IGNORECASE`, which adds four letters to the ASCII ones
unfoldable pub is_alnum : ℕ → Bool
is_alnum c =
    leb b'0' c && leb c b'9'
    || leb b'A' c && leb c b'Z'
    || leb b'a' c && leb c b'z'
    || c == 0x130
    || c == 0x131
    || c == 0x17f
    || c == 0x212a

-- `s[start:stop]`
unfoldable pub slice : ℕ → ℕ → Text → Text
slice start stop s = drop start (take stop s)
