-- ===== src/Ledger/Source/Range.antt =====
-- The line ranges and the paths that the validators let through.
use measure_twice.Prelude.{
  ℕ, ◌+◌, ◌-◌, ◌*◌, ◌≤◌, ◌≡◌, refl, ◌≢◌, inl, inr, true, false, ◌||◌, List, [], ◌∷◌, arith,
  Bool-cases, nat_eq, text_eq, option_eq, ◌==◌, contains, All, ok,
}
use measure_twice.Text.{Text, text, decimal, cons_line, split}
use measure_twice.Ledger.Source.{
  to_int, is_positive, range_of_parts, parse_line_range, path_parts, keep_parts, is_absolute,
  is_empty, validate_source_file,
}

le-decimal : (n : ℕ) (s : Text) → n ≤ decimal n s
unfolding decimal
le-decimal n [] = omega arith
le-decimal n (c ∷ s) = omega (arith, le-decimal (n * 10 + (c - b'0')) s)

to_int-positive : (s : Text) (n : ℕ) → is_positive s ≡ true → to_int s ≡ ok n → 1 ≤ n
unfolding is_positive to_int
to_int-positive [] n p h = cc
to_int-positive (c ∷ s) n p h = ground (arith, le-decimal (0 * 10 + (c - b'0')) s)

range_of_parts_bounds :
    (parts : List Text) (r : ℕ × ℕ) → range_of_parts parts ≡ ok r → (1 ≤ r.0) × (r.0 ≤ r.1)
range_of_parts_bounds [] r h = cc
range_of_parts_bounds (a ∷ []) r h = ground (arith, to_int-positive a r.0)
range_of_parts_bounds (a ∷ b ∷ []) r h = ground (arith, to_int-positive a r.0)
range_of_parts_bounds (a ∷ b ∷ c ∷ l) r h = cc

-- A range that is accepted starts at line 1 or later and does not end before it starts.
pub parse_line_range_bounds :
    (value : Text) (r : ℕ × ℕ) → parse_line_range value ≡ ok r → (1 ≤ r.0) × (r.0 ≤ r.1)
unfolding parse_line_range
parse_line_range_bounds value r h = range_of_parts_bounds (split b'-' value) r h

-- A part of a path that stays below the folder it is joined to.
abbrev pub IsInner : Text → Type 0
IsInner p = (p ≢ []) × (p ≢ text ".") × (p ≢ text "..") × (contains p b'/' ≡ false)

cons_line-contain-no :
    (sep c : ℕ) (lines : List Text)
    → (c == sep) ≡ false
    → All (λ p. contains p sep ≡ false) lines
    → All (λ p. contains p sep ≡ false) (cons_line c lines)
unfolding cons_line
cons_line-contain-no sep c [] ne h = (rw ne, tt)
cons_line-contain-no sep c (p ∷ lines) ne h = (rw (ne, h.0), h.1)

parts-contain-no-separator : (sep : ℕ) (s : Text) → All (λ p. contains p sep ≡ false) (split sep s)
unfolding split
parts-contain-no-separator sep [] = (refl, tt)
parts-contain-no-separator sep (c ∷ s) = elim (Bool-cases (c == sep)) [
  | inl e ↦ rw e (refl, parts-contain-no-separator sep s)
  | inr e ↦ rw e (cons_line-contain-no sep c (split sep s) e (parts-contain-no-separator sep s))
]

keep_parts-IsInner :
    (parts : List Text)
    → All (λ p. contains p b'/' ≡ false) parts
    → contains (keep_parts parts) (text "..") ≡ false
    → All IsInner (keep_parts parts)
keep_parts-IsInner [] h n = tt
keep_parts-IsInner (p ∷ parts) h n = elim (Bool-cases (p == [] || p == text ".")) [
  | inl e ↦ rw e (keep_parts-IsInner parts h.1 (rw e at n))
  | inr e ↦ rw e (
    (λ q. ground arith, λ q. ground arith, λ q. ground arith, h.0),
    keep_parts-IsInner parts h.1 (ground arith),
  )
]

-- A citation that is accepted is relative, names at least one part, and every part is a plain name:
-- joined to a folder it stays below that folder.
pub validate_source_file-IsInner :
    (value : Text)
    → validate_source_file value ≡ ok tt
    → (is_absolute value ≡ false) × (path_parts value ≢ []) × All IsInner (path_parts value)
unfolding validate_source_file path_parts is_empty
validate_source_file-IsInner value h = (
  ground arith,
  λ e. ground arith,
  keep_parts-IsInner _ (parts-contain-no-separator b'/' value) (ground arith),
)
