-- ===== src/Runner/Store/Recovery.antt =====
-- What `_read_rows` finds in a file that was written row by row and cut off anywhere.
use measure_twice.Prelude.{
  ℕ, ◌≡◌, refl, sym, ap, ◌∙◌, Bool, true, false, not, some, List, [], ◌∷◌, ◌++◌, map, append-nil,
  append_assoc, arith, nat_eq, text_eq, option_eq, ◌==◌, all, All, Result, ok, err, ◌>>=◌,
}
use measure_twice.Text.{Text, cons_line, split, unlines}
use measure_twice.Json.{Codec}
use measure_twice.Runner.Row.{RunRow, RunError, to_dict, row_of_json-to_dict}
use measure_twice.Runner.Store.{
  RowsFile, rewrite_rows, read_raw_lines, contents, ends_with_newline, without_last, row_line,
  parse_row, read_lines, read_rows, rows_text,
}

-- a text with no newline in it
abbrev pub is_one_line : Text → Bool
is_one_line s = all (λ c. not (c == 10)) s

split-one_line : (s : Text) → is_one_line s ≡ true → split 10 s ≡ s ∷ []
unfolding split cons_line
split-one_line [] h = refl
split-one_line (c ∷ s) h = ground (arith, split-one_line s)

pub split-line : (s t : Text) → is_one_line s ≡ true → split 10 (s ++ (10 ∷ t)) ≡ s ∷ split 10 t
unfolding split cons_line nat_eq
split-line [] t h = refl
split-line (c ∷ s) t h = ground (arith, split-line s t)

split-unlines :
    (ls : List Text) (tail : Text)
    → All (λ l. is_one_line l ≡ true) ls
    → is_one_line tail ≡ true
    → split 10 (unlines ls ++ tail) ≡ ls ++ tail ∷ []
unfolding unlines
split-unlines [] tail h k = split-one_line tail k
split-unlines (l ∷ ls) tail h k =
    rw (append_assoc l (10 ∷ unlines ls) tail, split-line l (unlines ls ++ tail) h.0)
      (ap (◌∷◌ l) (split-unlines ls tail h.1 k))

ends_with_newline-snoc :
    (ls : List Text) (tail : Text) → ends_with_newline (ls ++ tail ∷ []) ≡ (tail == [])
unfolding ends_with_newline
ends_with_newline-snoc [] tail = refl
ends_with_newline-snoc (l ∷ []) tail = refl
ends_with_newline-snoc (l ∷ m ∷ ls) tail = ends_with_newline-snoc (m ∷ ls) tail

pub without_last-snoc : (ls : List Text) (tail : Text) → without_last (ls ++ tail ∷ []) ≡ ls
unfolding without_last
without_last-snoc [] tail = refl
without_last-snoc (l ∷ []) tail = refl
without_last-snoc (l ∷ m ∷ ls) tail = ap (◌∷◌ l) (without_last-snoc (m ∷ ls) tail)

-- What a read gives, with rows in front of it.
abbrev pub prepend :
    List RunRow → Result RunError (List RunRow × Bool) → Result RunError (List RunRow × Bool)
prepend rows (err e) = err e
prepend rows (ok (found, torn)) = ok (rows ++ found, torn)

prepend_nothing : (r : Result RunError (List RunRow × Bool)) → r ≡ prepend [] r
prepend_nothing (err e) = refl
prepend_nothing (ok (found, torn)) = refl

prepend-cons :
    (row : RunRow) (rows : List RunRow) (r : Result RunError (List RunRow × Bool))
    → (prepend rows r >>= λ found. ok (row ∷ found.0, found.1)) ≡ prepend (row ∷ rows) r
prepend-cons row rows (err e) = refl
prepend-cons row rows (ok (found, torn)) = refl

-- The rows that are read from a file whose last line is `tail`, and whether it counts as torn.
abbrev pub recovered : List RunRow → Text → Result RunError RunRow → List RunRow × Bool
recovered rows [] parsed = (rows, false)
recovered rows (c ∷ tail) (ok row) = (rows ++ row ∷ [], true)
recovered rows (c ∷ tail) (err e) = (rows, true)

module _ (codec : Codec) where
  -- The codec gives the row back, and writes it on one line.
  pub record IsStored (row : RunRow) : Type 0 where
    pub loaded : codec.loads (row_line codec row) ≡ some (to_dict row)
    pub one_line : is_one_line (row_line codec row) ≡ true

  pub parse_row-row_line :
      (row : RunRow) → IsStored row → parse_row codec (row_line codec row) ≡ ok row
  unfolding parse_row
  parse_row-row_line row h = rw h.loaded (row_of_json-to_dict row)

  -- Rows in front of other lines are read first.
  pub read_lines-rows :
      (rows : List RunRow) (torn : Bool) (rest : List Text)
      → All IsStored rows
      → read_lines codec torn (map (row_line codec) rows ++ rest)
        ≡ prepend rows (read_lines codec torn rest)
  unfolding read_lines
  read_lines-rows [] torn rest h = prepend_nothing _
  read_lines-rows (row ∷ rows) torn rest h =
      rw (parse_row-row_line row h.0, read_lines-rows rows torn rest h.1, read_lines)
        (prepend-cons row rows (read_lines codec torn rest))

  pub one_lines :
      (rows : List RunRow)
      → All IsStored rows
      → All (λ l. is_one_line l ≡ true) (map (row_line codec) rows)
  one_lines [] h = tt
  one_lines (row ∷ rows) h = (h.0.one_line, one_lines rows h.1)

  pub read_rows-contents :
      (s : Text) → read_rows codec (contents s) ≡ read_raw_lines codec (split 10 s)
  unfolding read_rows
  read_rows-contents [] =
      unfold split ends_with_newline without_last read_lines nat_eq text_eq in refl
  read_rows-contents (c ∷ s) = refl

  read_complete :
      (rows : List RunRow)
      → All IsStored rows
      → read_lines codec false (map (row_line codec) rows) ≡ ok (rows, false)
  unfolding read_lines
  read_complete rows h =
      ap (read_lines codec false) (sym (append-nil (map (row_line codec) rows)))
      ∙ read_lines-rows rows false [] h
      ∙ ap (λ l. ok (l, false)) (append-nil rows)

  read_tail :
      (c : ℕ) (t : Text) (rows : List RunRow) (parsed : Result RunError RunRow)
      → parse_row codec (c ∷ t) ≡ parsed
      → prepend rows (read_lines codec true ((c ∷ t) ∷ [])) ≡ ok (recovered rows (c ∷ t) parsed)
  unfolding read_lines
  read_tail c t rows (ok row) e = rw (e, read_lines) refl
  read_tail c t rows (err x) e = rw (e, read_lines) (ap (λ l. ok (l, true)) (append-nil rows))

  read_last :
      (tail : Text) (rows : List RunRow)
      → All IsStored rows
      → read_raw_lines codec (map (row_line codec) rows ++ tail ∷ [])
        ≡ ok (recovered rows tail (parse_row codec tail))
  unfolding nat_eq text_eq
  read_last [] rows h =
      rw
        (
          ends_with_newline-snoc (map (row_line codec) rows) [],
          without_last-snoc (map (row_line codec) rows) [],
        )
        (read_complete rows h)
  read_last (c ∷ t) rows h =
      rw (ends_with_newline-snoc (map (row_line codec) rows) (c ∷ t))
        (read_lines-rows rows true ((c ∷ t) ∷ []) h ∙ read_tail c t rows _ refl)

  -- A rows file of stored rows followed by the start of a line is read as those rows. A last line
  -- that has lost only its newline is kept as a row, one that is no row is dropped, and both
  -- are reported as torn; a file whose last line is complete is not.
  pub read_rows-torn :
      (rows : List RunRow) (tail : Text)
      → All IsStored rows
      → is_one_line tail ≡ true
      → read_rows codec (contents (rows_text codec rows ++ tail))
        ≡ ok (recovered rows tail (parse_row codec tail))
  unfolding rows_text
  read_rows-torn rows tail h k =
      rw
        (
          read_rows-contents (unlines (map (row_line codec) rows) ++ tail),
          split-unlines (map (row_line codec) rows) tail (one_lines rows h) k,
        )
        (read_last tail rows h)

  -- Rows that are written out as a whole are read back as they are, in their order, and the file is
  -- not torn.
  pub read_rows-rewrite :
      (rows : List RunRow) (file : RowsFile)
      → All IsStored rows
      → read_rows codec (rewrite_rows codec rows file) ≡ ok (rows, false)
  unfolding rewrite_rows
  read_rows-rewrite rows file h =
      ap (λ s. read_rows codec (contents s)) (sym (append-nil (rows_text codec rows)))
      ∙ read_rows-torn rows [] h refl
