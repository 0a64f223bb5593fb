-- ===== src/Judge/Cell.antt =====
-- measure_twice/scoring/judge.py: `build_judge_prompt` and `_judge_one_cell`.
use measure_twice.Prelude.{
  ℕ, zero, suc, ◌+◌, ◌≡◌, refl, Bool, false, not, ◌&&◌, Option, none, some, List, [], ◌∷◌, ◌++◌,
  if◌then◌else◌, nat_eq, text_eq, option_eq, ◌==◌, length, Result, ok, err, ◌>>=◌,
}
use measure_twice.Text.{Text, text, is_blank}
use measure_twice.Json.{Json}
use measure_twice.Suite.{Float, zero_float}
use measure_twice.Scoring.Deterministic.{parse_fail_marker}
use measure_twice.Runner.Row.{ModelCallResult, no_response_mark}

-- The errors of the pass: a `ScoringError` for each place that raises one, what the judge's caller
-- raises, and an item id that has no hash.
pub data JudgeError : Type 0 where
  no_judges bad_k identity_changed unresolved_identity unknown_item call_raised unhashable :
      JudgeError
  -- `JudgeParseFailError`, with the judges over the threshold
  parse_fail_rate : List Text → JudgeError

pub record JudgeCell : Type 0 where
  pub item_id : Json
  pub prompt : Text
  pub rubric : Text
  pub response : Json

pub record JudgeItemResult : Type 0 where
  pub item_id : Json
  pub score : Float
  pub parsed : Text
  pub judge_scores : List Float

pub record JudgeCellStat : Type 0 where
  pub judge : Text
  pub n_parse_fail : ℕ
  pub n_parse_attempts : ℕ
  pub median : Option Float

-- What the pass relies on of Python: `statistics.median` and `mean` of a list that is not empty,
-- division by ten and `repr` of a float, `str` of a stored value, and the reading of a `SCORE` line.
pub record JudgeMath : Type 0 where
  pub median : List Float → Float
  pub mean : List Float → Float
  pub over_ten : Float → Float
  pub repr : Float → Text
  pub shown : Json → Text
  pub parse_judge_score : Text → Option Float

-- The world outside and the provider identity that each judge has shown.
pub record Session (W : Type 0) : Type 0 where
  pub world : W
  pub identities : List (Text × Text)

-- One call of a judge with a prompt, which may raise.
abbrev pub JudgeCaller : Type 0 → Type 0
JudgeCaller W = Text → Text → W → Result JudgeError (ModelCallResult × W)

abbrev unresolved_model_id : Text
unresolved_model_id = text "UNRESOLVED_PROVIDER_IDENTITY"

abbrev newline : Text
newline = 10 ∷ []

unfoldable pub build_judge_prompt : JudgeMath → Text → Json → Text → Text
build_judge_prompt math item_prompt response rubric =
    text
      "You are grading a model's response against a rubric. Score the response on a 0-10 scale per the rubric below."
    ++ (newline
        ++ newline
        ++ text "RUBRIC:"
        ++ newline
        ++ rubric
        ++ newline
        ++ newline
        ++ text "PROMPT GIVEN TO THE MODEL:"
        ++ newline
        ++ item_prompt
        ++ newline
        ++ newline
        ++ text "MODEL RESPONSE TO GRADE:"
        ++ newline
        ++ math.shown response
        ++ newline
        ++ newline
        ++ text "Reply with EXACTLY these two lines and nothing else:"
        ++ newline
        ++ text "SCORE: <an integer or decimal from 0 to 10>"
        ++ newline
        ++ text "RATIONALE: <one or two sentences explaining the score>"
        ++ newline)

-- `identities.get(judge)`
unfoldable pub identity_of : Text → List (Text × Text) → Option Text
identity_of judge [] = none
identity_of judge ((j, identity) ∷ rest) =
    let later = identity_of judge rest in if j == judge then some identity else later

unfoldable pub has_identity : Text → Bool
has_identity identity = not (is_blank identity) && not (identity == unresolved_model_id)

-- `identities.setdefault(judge, identity)`, and the check of what was there
unfoldable pub record_identity :
    Text → Text → List (Text × Text) → Result JudgeError (List (Text × Text))
record_identity judge identity identities = elim (identity_of judge identities) [
  | none ↦ ok (identities ++ (judge, identity) ∷ [])
  | some previous ↦ if previous == identity then ok identities else err identity_changed
]

-- `result.ok`
unfoldable pub is_ok : ModelCallResult → Bool
is_ok result = elim result.reason_class [
  | some reason ↦ false
  | none ↦ not (result.response_raw == no_response_mark)
]

module _ {W : Type 0} (math : JudgeMath) (call : JudgeCaller W) where
  -- what one returned sample adds to `parsed_samples` and to `n_parse_fail`
  abbrev read_sample : ModelCallResult → List Float → ℕ → Result JudgeError (List Float × ℕ)
  read_sample result parsed fails =
      if not (is_ok result)
      then ok (parsed, fails)
      else if not (has_identity result.resolved_model)
      then err unresolved_identity
      else elim (math.parse_judge_score result.response_raw) [
        | none ↦ ok (parsed, fails + 1)
        | some value ↦ ok (parsed ++ value ∷ [], fails)
      ]

  -- one turn of `for _sample in range(k)`
  unfoldable pub judge_sample :
      Text → Text → List Float → ℕ → Session W → Result JudgeError ((List Float × ℕ) × Session W)
  judge_sample prompt judge parsed fails s = do
    answer ← call prompt judge s.world
    identities ←
        (if has_identity answer.0.resolved_model
          then record_identity judge answer.0.resolved_model s.identities
          else ok s.identities)
    counted ← read_sample answer.0 parsed fails
    ok (counted, record { world = answer.1; identities = identities })

  -- `for _sample in range(k)`
  unfoldable pub judge_samples :
      Text
      → Text
      → ℕ
      → List Float
      → ℕ
      → Session W
      → Result JudgeError ((List Float × ℕ) × Session W)
  judge_samples prompt judge zero parsed fails s = ok ((parsed, fails), s)
  judge_samples prompt judge (suc k) parsed fails s =
      judge_sample prompt judge parsed fails s >>= λ next.
      judge_samples prompt judge k next.0.0 next.0.1 next.1

  abbrev median_of : List Float → Option Float
  median_of [] = none
  median_of (x ∷ xs) = some (math.median (x ∷ xs))

  abbrev stat_of : Text → List Float × ℕ → JudgeCellStat
  stat_of judge (parsed, fails) = record {
    judge = judge;
    n_parse_fail = fails;
    n_parse_attempts = fails + length parsed;
    median = median_of parsed;
  }

  -- `for judge in judges`
  unfoldable pub judge_all :
      Text → ℕ → List Text → Session W → Result JudgeError (List JudgeCellStat × Session W)
  judge_all prompt k [] s = ok ([], s)
  judge_all prompt k (judge ∷ rest) s = judge_samples prompt judge k [] 0 s >>= λ sampled.
      judge_all prompt k rest sampled.1 >>= λ others.
      ok (stat_of judge sampled.0 ∷ others.0, others.1)

  -- `per_judge_medians`
  unfoldable pub medians : List JudgeCellStat → List Float
  medians [] = []
  medians (stat ∷ rest) =
      let others = medians rest in elim stat.median [ none ↦ others | some m ↦ m ∷ others ]

  abbrev item_result : Json → List Float → JudgeItemResult
  item_result id [] = record {
    item_id = id;
    score = zero_float;
    parsed = parse_fail_marker;
    judge_scores = [];
  }
  item_result id (m ∷ ms) = record {
    item_id = id;
    score = math.over_ten (math.mean (m ∷ ms));
    parsed = math.repr (math.mean (m ∷ ms));
    judge_scores = m ∷ ms;
  }

  pub item_result-item_id : (id : Json) (ms : List Float) → (item_result id ms).item_id ≡ id
  item_result-item_id id [] = refl
  item_result-item_id id (m ∷ ms) = refl

  unfoldable pub judge_one_cell :
      JudgeCell
      → List Text
      → ℕ
      → Session W
      → Result JudgeError ((JudgeItemResult × List JudgeCellStat) × Session W)
  judge_one_cell cell judges k s =
      judge_all (build_judge_prompt math cell.prompt cell.response cell.rubric) k judges s
      >>= λ judged. ok ((item_result cell.item_id (medians judged.0), judged.0), judged.1)
