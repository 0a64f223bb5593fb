-- ===== src/Tests/Judge.antt =====
-- Tests of measure_twice/scoring/judge.py, on the rows of a run of two items.
use measure_twice.Prelude.{
  ℕ, ◌+◌, ◌≡◌, refl, true, none, some, List, [], ◌∷◌, map, arith, if◌then◌else◌, nat_eq, text_eq,
  option_eq, ◌==◌, contains, All, ok, err,
}
use measure_twice.Text.{Text, text, is_space, is_blank}
use measure_twice.Json.{str}
use measure_twice.Suite.{zero_float, one_float}
use measure_twice.Scoring.Deterministic.{parse_fail_marker}
use measure_twice.Scoring.Verdict.{distinct, distinct_after}
use measure_twice.Runner.Row.{ModelCallResult}
use measure_twice.Runner.Rescore.{find_item, item_with_id, is_text}
use measure_twice.Judge.Cell.{
  JudgeCellStat, JudgeCell, JudgeItemResult, JudgeMath, JudgeCaller, parse_fail_rate,
  judge_one_cell, judge_all, judge_samples, judge_sample, medians, has_identity, record_identity,
  identity_of, is_ok,
}
use measure_twice.Judge.Run.Tally.{Judging, tally}
use measure_twice.Judge.Run.{
  added, ParseStat, JudgeRunResult, judge_run, judge_cells, add_stats, add_stat,
  check_parse_fail_gate, offenders, is_offender,
}
use measure_twice.Judge.Run.Gate.{Within, judge_run-Within, judge_run_refused}
use measure_twice.Judge.Rubric.{
  Judged, with_result, rubric_run_scorer, rubric_cells, item_of_row, place_results,
  rubric_run_scorer-Judged,
}
use measure_twice.Tests.Runner.{captured, failed, items, rows}

abbrev math : JudgeMath
math = record {
  median = λ xs. one_float;
  mean = λ xs. one_float;
  over_ten = λ x. x;
  repr = λ x. text "1.0";
  shown = λ v. [];
  parse_judge_score = λ s. if s == text "SCORE: 1" then some one_float else none;
}

abbrev says : Text → ModelCallResult
says s = record {
  response_raw = s;
  resolved_model = text "j-1";
  elapsed_s = zero_float;
  reason_class = none;
}

-- A world that counts its calls, with a judge that answers and one that rambles.
abbrev answers : JudgeCaller ℕ
answers = λ prompt judge calls. ok (says (text "SCORE: 1"), calls + 1)

abbrev rambles : JudgeCaller ℕ
rambles = λ prompt judge calls. ok (says (text "hm"), calls + 1)

abbrev judges : List Text
judges = text "j" ∷ text "j" ∷ []

abbrev cells : List JudgeCell
cells =
    record { item_id = str (text "i1"); prompt = text "?"; rubric = text "yes"; response = str [] }
    ∷ []

abbrev verdict : JudgeItemResult
verdict = record {
  item_id = str (text "i1");
  score = one_float;
  parsed = text "1.0";
  judge_scores = one_float ∷ [];
}

abbrev clean : JudgeRunResult
clean = record {
  results = verdict ∷ [];
  per_judge_parse_stats = record { judge = text "j"; n_fail = 0; n_attempts = 2 } ∷ [];
}

abbrev broken : ParseStat
broken = record { judge = text "j"; n_fail = 2; n_attempts = 2 }

abbrev unjudged : JudgeItemResult
unjudged = record {
  item_id = str (text "i1");
  score = zero_float;
  parsed = parse_fail_marker;
  judge_scores = [];
}

judge_run-Within_example :
    (stats : List JudgeCellStat) × Judging math answers 2
      (distinct judges)
      cells
      (record { world = 0; identities = [] })
      clean.results
      stats
    × (map (λ i. i.item_id) clean.results ≡ map (λ c. c.item_id) cells)
    × (clean.per_judge_parse_stats ≡ map (tally stats) (distinct judges))
    × All Within clean.per_judge_parse_stats
unfolding judge_run judge_cells judge_one_cell judge_all judge_samples judge_sample medians
    has_identity record_identity identity_of is_ok add_stats add_stat added check_parse_fail_gate
    offenders is_offender distinct distinct_after nat_eq text_eq is_blank is_space
judge_run-Within_example = judge_run-Within math answers 2 cells judges 0 clean refl

judge_run_refused_example :
    (names : List Text) × (judge_run math rambles 2 cells judges 0 ≡ err (parse_fail_rate names))
    × (contains names (text "j") ≡ true)
unfolding judge_run judge_cells judge_one_cell judge_all judge_samples judge_sample medians
    has_identity record_identity identity_of is_ok add_stats add_stat added check_parse_fail_gate
    offenders is_offender distinct distinct_after nat_eq text_eq is_blank is_space
judge_run_refused_example =
    judge_run_refused math rambles 2 cells judges 0 (unjudged ∷ []) [] broken [] refl refl refl
      (omega arith) (omega arith)

rubric_run_scorer-Judged_example :
    Judged math answers 2
      (distinct judges)
      items
      (record { world = 0; identities = [] })
      rows
      (with_result captured verdict ∷ failed ∷ [])
unfolding judge_run judge_cells judge_one_cell judge_all judge_samples judge_sample medians
    has_identity record_identity identity_of is_ok add_stats add_stat added check_parse_fail_gate
    offenders is_offender distinct distinct_after nat_eq text_eq is_blank is_space rubric_run_scorer
    rubric_cells item_of_row place_results find_item item_with_id is_text
rubric_run_scorer-Judged_example =
    rubric_run_scorer-Judged math answers 2 judges 0 rows items
      (with_result captured verdict ∷ failed ∷ []) refl
