-- ===== src/Tests/Runner.antt =====
-- Tests of measure_twice/runner.py, on a run of two items.
use measure_twice.Prelude.{
  ℕ, ◌+◌, ◌-◌, ◌≡◌, refl, subst, ◌⊎◌, Bool, false, Option, none, some, List, [], ◌∷◌, ◌++◌, map,
  ltb, if◌then◌else◌, nat_eq, text_eq, option_eq, ◌==◌, length, take, All, Result, ok, err,
}
use measure_twice.Text.{Text, text}
use measure_twice.Json.{Json, Codec, str, obj, lookup}
use measure_twice.Suite.{zero_float, one_float, Item}
use measure_twice.Scoring.{ScoreOutcome}
use measure_twice.Runner.Row.{
  RunRow, RunError, Scorer, Cell, ModelCallResult, row_of, unscored, to_dict, no_response_scorer,
  json_text, corrupt_row,
}
use measure_twice.Runner.Store.{
  RowsFile, contents, row_line, rows_text, read_rows, rewrite_rows, parse_row,
}
use measure_twice.Runner.Store.Recovery.{IsStored, read_rows-torn, read_rows-rewrite, recovered}
use measure_twice.Runner.Store.Corruption.{read_rows-corrupt}
use measure_twice.Runner.Rescore.{
  ScoreResult, RunScorer, with_outcome, rescore_rows, rescore_row, score_run, score_run_batch,
  find_item, item_with_id, is_text,
}
use measure_twice.Runner.Rescore.Evidence.{Pairs, Rescored, Unreserved}
use measure_twice.Runner.Rescore.Passes.{
  score_run-Rescored, score_run_idempotent, score_run_batch_atomic,
}
use measure_twice.Runner.Sweep.{CallBudget, Sweep, ModelCall, sweep_sequential}
use measure_twice.Runner.Sweep.Budgeted.{row_key, key_of_cell, sweep_sequential-Swept}

abbrev item_of : Text → Item
item_of id = record {
  id = id;
  tags = [];
  prompt = text "?";
  expected = text "yes";
  difficulty_prior = zero_float;
  provenance = text "seed";
}

abbrev pub items : List Item
items = item_of (text "i1") ∷ item_of (text "i2") ∷ []

abbrev cell_of : Text → Cell
cell_of id = record {
  model = text "m";
  requested_model = text "m-large";
  item = item_of id;
  sample_k = 0;
}

abbrev pub answer : ModelCallResult
answer = record {
  response_raw = text "yes";
  resolved_model = text "m-large-1";
  elapsed_s = zero_float;
  reason_class = none;
}

abbrev pub captured : RunRow
captured = row_of (text "r") (cell_of (text "i1")) answer (text "yes") unscored none

abbrev pub failed : RunRow
failed = row_of (text "r") (cell_of (text "i2")) answer [] unscored (some (text "timeout"))

abbrev pub matched : ScoreOutcome
matched = record {
  parsed = some (text "match");
  score = some one_float;
  scorer = some (text "exact");
}

abbrev pub scorer : Scorer
scorer = λ item response. ok matched

abbrev scored : RunRow
scored = with_outcome captured matched

abbrev text_of : Option Json → Text
text_of (some (str s)) = s
text_of v = []

-- A codec for the rows of this file: a row is written as its item and its scorer.
abbrev name_of : Json → Text
name_of (obj f) = text_of (lookup (text "item_id") f) ++ (b':' ∷ text_of (lookup (text "scorer") f))
name_of v = []

abbrev pub codec : Codec
codec = record {
  dumps = name_of;
  loads = λ s.
      if s == text "i1:"
      then some (to_dict captured)
      else if s == text "i2:"
      then some (to_dict failed)
      else if s == text "i1:exact"
      then some (to_dict scored)
      else none;
}

captured-IsStored : IsStored codec captured
unfolding row_line to_dict lookup nat_eq text_eq
captured-IsStored = record { loaded = refl; one_line = refl }

failed-IsStored : IsStored codec failed
unfolding row_line to_dict lookup nat_eq text_eq
failed-IsStored = record { loaded = refl; one_line = refl }

scored-IsStored : IsStored codec scored
unfolding row_line to_dict lookup nat_eq text_eq
scored-IsStored = record { loaded = refl; one_line = refl }

abbrev pub rows : List RunRow
rows = captured ∷ failed ∷ []

abbrev again : List RunRow × ℕ × ℕ
again = (scored ∷ failed ∷ [], 1, 0)

abbrev file : RowsFile
file = rewrite_rows codec rows (contents [])

rows-IsStored : All (IsStored codec) rows
rows-IsStored = (captured-IsStored, (failed-IsStored, tt))

again-IsStored : All (IsStored codec) again.0
again-IsStored = (scored-IsStored, (failed-IsStored, tt))

file_rows : read_rows codec file ≡ ok (rows, false)
file_rows = read_rows-rewrite codec rows (contents []) rows-IsStored

rescored_rows : rescore_rows scorer items rows ≡ ok again
unfolding rescore_rows rescore_row find_item item_with_id nat_eq text_eq is_text
rescored_rows = refl

read_rows-torn_example :
    read_rows codec (contents (rows_text codec rows ++ text "i2"))
    ≡ ok (recovered rows (text "i2") (parse_row codec (text "i2")))
unfolding nat_eq
read_rows-torn_example = read_rows-torn codec rows (text "i2") rows-IsStored refl

read_rows-corrupt_example :
    read_rows codec (contents (rows_text codec rows ++ (text "i2" ++ (10 ∷ text "i1:"))))
    ≡ err corrupt_row
unfolding nat_eq text_eq parse_row
read_rows-corrupt_example =
    read_rows-corrupt codec rows (text "i2") (text "i1:") corrupt_row rows-IsStored refl refl

score_run-Rescored_example :
    Pairs (Rescored scorer items) rows again.0
    × (read_rows codec (score_run codec scorer items file).1 ≡ ok (again.0, false))
score_run-Rescored_example =
    score_run-Rescored codec items scorer file rows false again file_rows rescored_rows
      again-IsStored

free : Unreserved scorer items
unfolding is_text text_eq
free = λ item response o h. subst (λ r. reserved r ≡ false) h refl
  where
    reserved : Result RunError ScoreOutcome → Bool
    reserved (ok o) = is_text no_response_scorer (json_text o.scorer)
    reserved (err e) = false

score_run_idempotent_example :
    score_run codec scorer items (score_run codec scorer items file).1
    ≡ score_run codec scorer items file
score_run_idempotent_example =
    score_run_idempotent codec items scorer file rows false again free file_rows rescored_rows
      again-IsStored

abbrev halved : RunScorer
halved = λ r i. ok (take 1 r)

score_run_batch_atomic_example :
    ((e : RunError) × (score_run_batch codec halved items file ≡ (err e, file)))
    ⊎ ((r : List RunRow) × (torn : Bool) × (a : List RunRow) × (result : ScoreResult) × (read_rows
            codec file
          ≡ ok (r, torn))
        × (halved r items ≡ ok a)
        × (length a ≡ length r)
        × (result.total ≡ length r)
        × (score_run_batch codec halved items file ≡ (ok result, rewrite_rows codec a file)))
score_run_batch_atomic_example = score_run_batch_atomic codec items halved file

abbrev pub cells : List Cell
cells = cell_of (text "i1") ∷ cell_of (text "i2") ∷ []

-- A world that counts its calls.
abbrev pub call : ModelCall ℕ
call = λ prompt model calls. (answer, calls + 1)

abbrev budget : CallBudget
budget = record { max_calls = 3; used = 2 }

sweep_sequential-Swept_example :
    (news : List RunRow) × (after : Sweep ℕ) × (sweep_sequential codec call
        (text "r")
        scorer
        cells
        (record { budget = budget; file = contents (rows_text codec rows); world = 0 })
      ≡ (ok (length news, ltb (3 - 2) 2), after))
    × (after.file ≡ contents (rows_text codec (rows ++ news)))
    × (map row_key news ≡ map key_of_cell (take (3 - 2) cells))
    × (after.budget.used ≡ 2 + length news)
sweep_sequential-Swept_example =
    sweep_sequential-Swept codec call (text "r") scorer (λ i t. (matched, refl)) cells rows budget 0
