-- ===== src/Runner/Store.antt =====
-- measure_twice/runner.py: `_read_rows`, `_rewrite_rows` and `_append_row`.
pub mod Recovery
pub mod Corruption
use measure_twice.Prelude.{
  ℕ, zero, suc, ◌+◌, ◌-◌, ◌*◌, ◌≤◌, ◌<◌, String, ◌≡◌, refl, sym, ap, ◌∙◌, subst, ◌≢◌, ◌↔◌, ◌⊎◌, inl,
  inr, Bool, true, false, not, ◌&&◌, ◌||◌, Option, none, some, List, [], ◌∷◌, ◌++◌, map, append-nil,
  append_assoc, arith, ltb, leb, if◌then◌else◌, Bool-cases, Option-cases, Eq, nat_eq, text_eq,
  option_eq, ◌==◌, contains, ==_refl, eq_of_==, length, take, drop, all, All, length-append,
  All-append, All-map, Result, ok, err, ◌>>=◌, ◌>>◌, raise_if, or_raise, traverse, bind-eq-ok,
  Result-cases, ok-injective, traverse-All, traverse-map, List-cases,
}
use measure_twice.Text.{
  Text, text, is_space, strip_left, strip_right, strip, is_blank, is_digit, decimal, is_break,
  cons_line, splitlines, split, join, unlines,
}
use measure_twice.Json.{Codec}
use measure_twice.Runner.Row.{RunRow, RunError, to_dict, row_of_json, not_utf8, corrupt_row}

-- `rows.jsonl`: missing, no UTF-8, or its text as `read_text` gives it, with each line end a newline.
pub data RowsFile : Type 0 where
  missing undecodable : RowsFile
  contents : Text → RowsFile

-- `raw_lines[-1] == ""`
unfoldable pub ends_with_newline : List Text → Bool
ends_with_newline [] = false
ends_with_newline (line ∷ []) = line == []
ends_with_newline (line ∷ next ∷ rest) = ends_with_newline (next ∷ rest)

-- `raw_lines[:-1]`
unfoldable pub without_last : List Text → List Text
without_last [] = []
without_last (line ∷ []) = []
without_last (line ∷ next ∷ rest) = line ∷ without_last (next ∷ rest)

abbrev pub is_empty : List Text → Bool
is_empty [] = true
is_empty (l ∷ ls) = false

module _ (codec : Codec) where
  -- `row.to_json_line() + "\n"`
  unfoldable pub row_line : RunRow → Text
  row_line row = codec.dumps (to_dict row)

  unfoldable pub parse_row : Text → Result RunError RunRow
  parse_row line = do parsed ← or_raise (codec.loads line) corrupt_row; row_of_json parsed

  -- `for i, line in enumerate(raw_lines)`, where `torn` says that the file ends in no newline
  unfoldable pub read_lines : Bool → List Text → Result RunError (List RunRow × Bool)
  read_lines torn [] = ok ([], torn)
  read_lines torn (line ∷ rest) =
      let others = read_lines torn rest in
      elim (parse_row line) [
        | ok row ↦ others >>= λ found. ok (row ∷ found.0, found.1)
        | err e ↦ if is_empty rest && torn then ok ([], true) else err corrupt_row
      ]

  abbrev pub read_raw_lines : List Text → Result RunError (List RunRow × Bool)
  read_raw_lines raw_lines =
      if ends_with_newline raw_lines
      then read_lines false (without_last raw_lines)
      else read_lines true raw_lines

  unfoldable pub read_rows : RowsFile → Result RunError (List RunRow × Bool)
  read_rows missing = ok ([], false)
  read_rows undecodable = err not_utf8
  read_rows (contents []) = ok ([], false)
  read_rows (contents (c ∷ s)) = read_raw_lines (split 10 (c ∷ s))

  -- the text of the rows, a line for each
  unfoldable pub rows_text : List RunRow → Text
  rows_text rows = unlines (map row_line rows)

  -- `os.replace` puts the whole text in place of the file
  unfoldable pub rewrite_rows : List RunRow → RowsFile → RowsFile
  rewrite_rows rows file = contents (rows_text rows)

  -- opening for append makes the file
  unfoldable pub append_row : RowsFile → RunRow → RowsFile
  append_row (contents s) row = contents (s ++ (row_line row ++ (10 ∷ [])))
  append_row missing row = contents (row_line row ++ (10 ∷ []))
  append_row undecodable row = undecodable
