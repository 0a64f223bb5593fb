-- ===== src/Runner/Row.antt =====
-- measure_twice/runner.py: `RunRow`, `RunError` and `_build_row`, with the call results of
-- measure_twice/adapters/base.py.
use measure_twice.Prelude.{
  ℕ, ◌≡◌, refl, Option, none, some, [], ◌∷◌, ◌++◌, if◌then◌else◌, nat_eq, text_eq, option_eq, ◌==◌,
  Result, ok, err, ◌>>=◌, or_raise,
}
use measure_twice.Text.{Text, text}
use measure_twice.Json.{Json, Fields, field, end, null, int, flt, str, obj, lookup}
use measure_twice.Suite.{Float, zero_float, Item}
use measure_twice.Scoring.{ScoreOutcome}

-- `RunError`, a constructor for each place that raises one, and what escapes as another exception:
-- a decode error of the rows file, an item id that has no hash, and what a scorer raises.
pub data RunError : Type 0 where
  not_utf8 corrupt_row unknown_item wrong_length no_roster bad_samples bad_budget : RunError
  unhashable scorer_raised bad_run_id escapes_store sweep_failed : RunError
  no_claude_runtime no_gemini_key legacy_unsealed : RunError

-- A row as it is read back: `from_dict` casts each value and so takes any JSON value for it.
pub record RunRow : Type 0 where
  pub run_id : Json
  pub model : Json
  pub model_id_resolved : Json
  pub item_id : Json
  pub sample_k : Json
  pub response_raw : Json
  pub parsed : Json
  pub score : Json
  pub scorer : Json
  pub judge_scores : Json
  pub elapsed_s : Json
  pub error : Json

abbrev row_fields : RunRow → Fields
row_fields r = field (text "run_id") r.run_id (
    field (text "model") r.model (
      field (text "model_id_resolved") r.model_id_resolved (
        field (text "item_id") r.item_id (
          field (text "sample_k") r.sample_k (
            field (text "response_raw") r.response_raw (
              field (text "parsed") r.parsed (
                field (text "score") r.score (
                  field (text "scorer") r.scorer (
                    field (text "judge_scores") r.judge_scores (
                      field (text "elapsed_s") r.elapsed_s
                        (field (text "error") r.error end)))))))))))

-- `asdict(row)`
unfoldable pub to_dict : RunRow → Json
to_dict r = obj (row_fields r)

-- `data[key]`
abbrev required : Fields → Text → Result RunError Json
required d key = or_raise (lookup key d) corrupt_row

unfoldable pub from_dict : Fields → Result RunError RunRow
from_dict d = do
  run_id ← required d (text "run_id")
  model ← required d (text "model")
  resolved ← required d (text "model_id_resolved")
  item_id ← required d (text "item_id")
  sample_k ← required d (text "sample_k")
  response ← required d (text "response_raw")
  parsed ← required d (text "parsed")
  score ← required d (text "score")
  scorer ← required d (text "scorer")
  judge_scores ← required d (text "judge_scores")
  elapsed_s ← required d (text "elapsed_s")
  error ← required d (text "error")
  ok (record {
    run_id = run_id;
    model = model;
    model_id_resolved = resolved;
    item_id = item_id;
    sample_k = sample_k;
    response_raw = response;
    parsed = parsed;
    score = score;
    scorer = scorer;
    judge_scores = judge_scores;
    elapsed_s = elapsed_s;
    error = error;
  })

-- A value that is a dict is read as a row, anything else is refused.
unfoldable pub row_of_json : Json → Result RunError RunRow
row_of_json (obj d) = from_dict d
row_of_json v = err corrupt_row

pub row_of_json-to_dict : (r : RunRow) → row_of_json (to_dict r) ≡ ok r
unfolding row_of_json to_dict from_dict lookup nat_eq text_eq
row_of_json-to_dict r = refl

-- What one model call gives.
pub record ModelCallResult : Type 0 where
  pub response_raw : Text
  pub resolved_model : Text
  pub elapsed_s : Float
  pub reason_class : Option Text

-- the noncharacter that `NO_RESPONSE` holds
abbrev pub no_response_mark : Text
no_response_mark = 0xfdd0 ∷ (text "MEASURE_TWICE_NO_RESPONSE" ++ (0xfdd0 ∷ []))

-- One cell of a sweep, with the model that its binding requests.
pub record Cell : Type 0 where
  pub model : Text
  pub requested_model : Text
  pub item : Item
  pub sample_k : ℕ

-- `Scorer`: of an item and a stored response, which is any JSON value in a row that was read back
abbrev pub Scorer : Type 0
Scorer = Item → Json → Result RunError ScoreOutcome

abbrev pub no_response_scorer : Text
no_response_scorer = text "no_response"

abbrev pub json_text : Option Text → Json
json_text none = null
json_text (some s) = str s

abbrev pub json_float : Option Float → Json
json_float none = null
json_float (some x) = flt x

-- the arguments that every branch of `_build_row` shares, with the ones that differ
abbrev pub row_of : Text → Cell → ModelCallResult → Text → ScoreOutcome → Option Text → RunRow
row_of run_id cell result response outcome error = record {
  run_id = str run_id;
  model = str cell.model;
  model_id_resolved = str result.resolved_model;
  item_id = str cell.item.id;
  sample_k = int cell.sample_k;
  response_raw = str response;
  parsed = json_text outcome.parsed;
  score = json_float outcome.score;
  scorer = json_text outcome.scorer;
  judge_scores = null;
  elapsed_s = flt result.elapsed_s;
  error = json_text error;
}

abbrev pub unscored : ScoreOutcome
unscored = record { parsed = none; score = none; scorer = none }

abbrev pub forced_zero : ScoreOutcome
forced_zero = record { parsed = none; score = some zero_float; scorer = some no_response_scorer }

unfoldable pub build_row : Text → Cell → ModelCallResult → Scorer → Result RunError RunRow
build_row run_id cell result scorer = elim result.reason_class [
  | some reason ↦ ok (row_of run_id cell result [] unscored (some reason))
  | none ↦
      if result.response_raw == no_response_mark
      then ok (row_of run_id cell result [] forced_zero none)
      else (do
        outcome ← scorer cell.item (str result.response_raw)
        ok (row_of run_id cell result result.response_raw outcome none))
]
