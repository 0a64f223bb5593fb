-- ===== src/Scoring/Deterministic.antt =====
-- measure_twice/scoring/deterministic.py: the scorers and their dispatcher.
pub mod Outcomes
use measure_twice.Prelude.{
  Bool, false, ◌||◌, Option, none, some, List, [], ◌∷◌, if◌then◌else◌, nat_eq, text_eq, option_eq,
  ◌==◌, Result, ok, err, ◌>>=◌, or_raise,
}
use measure_twice.Text.{Text, text, strip}
use measure_twice.Unicode.{Unicode, casefold}
use measure_twice.Json.{Codec}
use measure_twice.Suite.{zero_float, one_float, ScoringSpec, Item}
use measure_twice.Scoring.{
  ScoreOutcome, ScoringError, bad_pattern, no_labels, reserved_label, rubric_not_implemented,
  unsupported_type,
}
use measure_twice.Scoring.Verdict.{extract_verdict_label}

-- `re.compile(pattern, re.IGNORECASE | re.DOTALL)` and its `fullmatch`: `none` for a `re.error`
pub record Regex : Type 0 where
  pub fullmatch : Text → Text → Option Bool

abbrev pub verdict_scorer : Text
verdict_scorer = text "verdict"

abbrev pub exact_scorer : Text
exact_scorer = text "exact"

abbrev pub parse_fail_marker : Text
parse_fail_marker = text "parse_fail"

-- `item -> response -> outcome`, which may raise
abbrev pub Scorer : Type 0
Scorer = Item → Text → Result ScoringError ScoreOutcome

abbrev outcome : Text → Bool → Text → ScoreOutcome
outcome parsed hit scorer = record {
  parsed = some parsed;
  score = some (if hit then one_float else zero_float);
  scorer = some scorer;
}

module _ (u : Unicode) where
  -- `a.strip().casefold() == b.strip().casefold()`
  unfoldable pub same_answer : Text → Text → Bool
  same_answer a b = casefold u (strip a) == casefold u (strip b)

  unfoldable pub score_verdict : Codec → Item → Text → List Text → ScoreOutcome
  score_verdict codec item response labels = elim (extract_verdict_label u codec response labels) [
    | none ↦ outcome parse_fail_marker false verdict_scorer
    | some label ↦ outcome label (same_answer label item.expected) verdict_scorer
  ]

  unfoldable pub exact_match : Regex → Text → Text → Bool → Result ScoringError Bool
  exact_match re response expected regex =
      if regex
      then or_raise (re.fullmatch (strip expected) (strip response)) bad_pattern
      else ok (same_answer response expected)

  unfoldable pub score_exact : Regex → Item → Text → Bool → Result ScoringError ScoreOutcome
  score_exact re item response regex = do
    matched ← exact_match re response item.expected regex
    ok (outcome (if matched then text "match" else text "no_match") matched exact_scorer)

  -- `any(label.casefold() == PARSE_FAIL_MARKER for label in labels)`
  unfoldable pub reserves_marker : List Text → Bool
  reserves_marker [] = false
  reserves_marker (label ∷ rest) = casefold u label == parse_fail_marker || reserves_marker rest

  abbrev verdict_labels : Option (List Text) → Result ScoringError (List Text)
  verdict_labels none = err no_labels
  verdict_labels (some []) = err no_labels
  verdict_labels (some (l ∷ ls)) =
      if reserves_marker (l ∷ ls) then err reserved_label else ok (l ∷ ls)

  unfoldable pub make_deterministic_scorer :
      Codec → Regex → ScoringSpec → Result ScoringError Scorer
  make_deterministic_scorer codec re scoring =
      if scoring.kind == text "verdict"
      then (do
        labels ← verdict_labels scoring.labels
        ok (λ item response. ok (score_verdict codec item response labels)))
      else if scoring.kind == text "exact"
      then ok (λ item response. score_exact re item response scoring.regex)
      else if scoring.kind == text "rubric"
      then err rubric_not_implemented
      else err unsupported_type
