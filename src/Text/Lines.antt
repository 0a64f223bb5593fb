-- ===== src/Text/Lines.antt =====
-- Lines that were written one after the other are read back as they were.
use measure_twice.Prelude.{
  ℕ, ◌≡◌, refl, ap, ◌∙◌, true, false, not, List, [], ◌∷◌, ◌++◌, arith, nat_eq, text_eq, option_eq,
  ◌==◌, all, All,
}
use measure_twice.Text.{Text, is_blank, is_break, cons_line, splitlines, unlines}

-- The text has no line boundary.
abbrev pub IsLine : Text → Type 0
IsLine s = All (λ c. is_break c ≡ false) s

break-not-13 : (c : ℕ) → is_break c ≡ false → (c == 13) ≡ false
unfolding is_break
break-not-13 c h = ground arith

splitlines-line : (s rest : Text) → IsLine s → splitlines (s ++ (10 ∷ rest)) ≡ s ∷ splitlines rest
unfolding splitlines is_break cons_line nat_eq
splitlines-line [] [] h = refl
splitlines-line [] (d ∷ rest) h = refl
splitlines-line (c ∷ []) rest h = rw (break-not-13 c h.0, h.0, splitlines-line [] rest tt)
splitlines-line (c ∷ d ∷ s) rest h = rw (break-not-13 c h.0, h.0, splitlines-line (d ∷ s) rest h.1)

-- `"".join(line + "\n" for line in lines).splitlines()` is the list of lines.
pub splitlines-unlines : (lines : List Text) → All IsLine lines → splitlines (unlines lines) ≡ lines
unfolding unlines
splitlines-unlines [] h = unfold splitlines in refl
splitlines-unlines (s ∷ lines) h =
    splitlines-line s (unlines lines) h.0 ∙ ap (◌∷◌ s) (splitlines-unlines lines h.1)

-- A text that holds a line that is not blank is not blank.
pub is_blank-append : (s t : Text) → is_blank s ≡ false → is_blank (s ++ t) ≡ false
unfolding is_blank
is_blank-append [] t h = cc
is_blank-append (c ∷ s) t h = ground (arith, is_blank-append s t)

-- The test of every character.
pub IsLine-of_all : (s : Text) → all (λ c. not (is_break c)) s ≡ true → IsLine s
IsLine-of_all [] h = tt
IsLine-of_all (c ∷ s) h = (ground arith, IsLine-of_all s (ground arith))
