-- ===== src/Runner/Rescore.antt =====
-- measure_twice/runner.py: what `score_run` and `score_run_batch` do once the run is open.
pub mod Evidence
pub mod Passes
use measure_twice.Scoring.{ScoreOutcome}
use measure_twice.Prelude.{
  ℕ, zero, suc, ◌+◌, ◌-◌, ◌*◌, ◌≤◌, ◌<◌, String, ◌≡◌, refl, sym, ap, ◌∙◌, subst, ◌≢◌, ◌↔◌, ◌⊎◌, inl,
  inr, Bool, true, false, not, ◌&&◌, ◌||◌, Option, none, some, List, [], ◌∷◌, ◌++◌, map, append-nil,
  append_assoc, arith, ltb, leb, if◌then◌else◌, Bool-cases, Option-cases, Eq, nat_eq, text_eq,
  option_eq, ◌==◌, contains, ==_refl, eq_of_==, length, take, drop, all, All, length-append,
  All-append, All-map, Result, ok, err, ◌>>=◌, ◌>>◌, raise_if, or_raise, traverse, bind-eq-ok,
  Result-cases, ok-injective, traverse-All, traverse-map, List-cases,
}
use measure_twice.Text.{
  Text, text, is_space, strip_left, strip_right, strip, is_blank, is_digit, decimal, is_break,
  cons_line, splitlines, split, join, unlines,
}
use measure_twice.Json.{Json, null, str, arr, obj, Codec}
use measure_twice.Suite.{Item}
use measure_twice.Runner.Row.{
  RunRow, RunError, Scorer, unhashable, unknown_item, wrong_length, no_response_scorer, json_text,
  json_float,
}
use measure_twice.Runner.Store.{RowsFile, read_rows, rewrite_rows}

pub record ScoreResult : Type 0 where
  pub total : ℕ
  pub scored : ℕ
  pub no_response : ℕ

-- A `RunScorer`, which may raise.
abbrev pub RunScorer : Type 0
RunScorer = List RunRow → List Item → Result RunError (List RunRow)

abbrev pub is_null : Json → Bool
is_null null = true
is_null v = false

-- `v == s` for a text `s`
unfoldable pub is_text : Text → Json → Bool
is_text s (str t) = t == s
is_text s v = false

-- `{item.id: item for item in items}.get(key)` of a text key: of two equal ids, the later one is kept
unfoldable pub item_with_id : Text → List Item → Option Item
item_with_id key [] = none
item_with_id key (item ∷ rest) =
    let later = item_with_id key rest in
    elim later [ some i ↦ some i | none ↦ if item.id == key then some item else none ]

-- `items_by_id.get(row.item_id)`
unfoldable pub find_item : List Item → Json → Result RunError (Option Item)
find_item items (str key) = ok (item_with_id key items)
find_item items (arr v) = err unhashable
find_item items (obj v) = err unhashable
find_item items v = ok none

abbrev pub count : Bool → ℕ
count true = 1
count false = 0

-- whether the row counts as a force-0 row
abbrev pub is_forced : RunRow → Bool
is_forced row = is_text no_response_scorer row.scorer

-- whether the row was written with a score
abbrev pub is_scored : RunRow → Bool
is_scored row = is_null row.error && not (is_forced row) && not (is_null row.score)

-- `replace(row, parsed=outcome.parsed, score=outcome.score, scorer=outcome.scorer)`
abbrev pub with_outcome : RunRow → ScoreOutcome → RunRow
with_outcome row outcome = record row {
  parsed = json_text outcome.parsed;
  score = json_float outcome.score;
  scorer = json_text outcome.scorer;
}

module _ (scorer : Scorer) (items : List Item) where
  abbrev pub score_row : RunRow → Result RunError RunRow
  score_row row = do
    found ← find_item items row.item_id
    item ← or_raise found unknown_item
    outcome ← scorer item row.response_raw
    ok (with_outcome row outcome)

  -- one turn of `for row in rows`: the row that is appended, and what it adds to `n_scored` and to
  -- `n_no_response`
  unfoldable pub rescore_row : RunRow → Result RunError (RunRow × ℕ × ℕ)
  rescore_row row =
      if not (is_null row.error)
      then ok (row, 0, 0)
      else if is_forced row
      then ok (row, 0, 1)
      else score_row row >>= λ scored. ok (scored, count (not (is_null scored.score)), 0)

  unfoldable pub rescore_rows : List RunRow → Result RunError (List RunRow × ℕ × ℕ)
  rescore_rows [] = ok ([], 0, 0)
  rescore_rows (row ∷ rest) = do
    first ← rescore_row row
    others ← rescore_rows rest
    ok (first.0 ∷ others.0, first.1 + others.1, first.2 + others.2)

unfoldable pub count_rows : (RunRow → Bool) → List RunRow → ℕ
count_rows test [] = 0
count_rows test (row ∷ rest) = count (test row) + count_rows test rest

module _ (codec : Codec) where
  -- the rows of `score_run`: those that were read, and those that are written with their counts
  abbrev pub rescored :
      Scorer → List Item → RowsFile → Result RunError (List RunRow × List RunRow × ℕ × ℕ)
  rescored scorer items file = do
    found ← read_rows codec file
    scored ← rescore_rows scorer items found.0
    ok (found.0, scored.0, scored.1, scored.2)

  -- `score_run` from the opened run on
  unfoldable pub score_run : Scorer → List Item → RowsFile → Result RunError ScoreResult × RowsFile
  score_run scorer items file = elim (rescored scorer items file) [
    | err e ↦ (err e, file)
    | ok found ↦ (
      ok (record { total = length found.0; scored = found.2; no_response = found.3 }),
      rewrite_rows codec found.1 file,
    )
  ]

  abbrev pub batch_rescored :
      RunScorer → List Item → RowsFile → Result RunError (List RunRow × List RunRow)
  batch_rescored run_scorer items file = do
    found ← read_rows codec file
    scored ← run_scorer found.0 items
    raise_if (not (length scored == length found.0)) wrong_length
    ok (found.0, scored)

  -- `score_run_batch` from the opened run on
  unfoldable pub score_run_batch :
      RunScorer → List Item → RowsFile → Result RunError ScoreResult × RowsFile
  score_run_batch run_scorer items file = elim (batch_rescored run_scorer items file) [
    | err e ↦ (err e, file)
    | ok found ↦ (
      ok (record {
        total = length found.0;
        scored = count_rows is_scored found.1;
        no_response = count_rows is_forced found.1;
      }),
      rewrite_rows codec found.1 file,
    )
  ]
