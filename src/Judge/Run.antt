-- ===== src/Judge/Run.antt =====
-- measure_twice/scoring/judge.py: `judge_run`, its parse-fail gate and the scorer of a rubric run.
pub mod Tally
pub mod Gate
use measure_twice.Prelude.{
  ℕ, ◌+◌, ◌*◌, Bool, not, ◌&&◌, List, [], ◌∷◌, map, ltb, if◌then◌else◌, nat_eq, text_eq, option_eq,
  ◌==◌, length, Result, ok, err, ◌>>=◌, ◌>>◌, raise_if,
}
use measure_twice.Text.{Text}
use measure_twice.Scoring.Verdict.{distinct}
use measure_twice.Judge.Cell.{
  JudgeError, JudgeCell, JudgeItemResult, JudgeCellStat, JudgeMath, Session, JudgeCaller,
  judge_one_cell, no_judges, bad_k, parse_fail_rate,
}

-- An entry `(judge, acc_fail[judge], acc_attempts[judge])` of the accumulated stats.
pub record ParseStat : Type 0 where
  pub judge : Text
  pub n_fail : ℕ
  pub n_attempts : ℕ

-- `acc_fail[stat.judge] += stat.n_parse_fail`, and the same of the attempts, for one entry
unfoldable pub added : JudgeCellStat → ParseStat → ParseStat
added stat acc =
    if acc.judge == stat.judge
    then record {
      judge = acc.judge;
      n_fail = acc.n_fail + stat.n_parse_fail;
      n_attempts = acc.n_attempts + stat.n_parse_attempts;
    }
    else acc

-- the same for both dictionaries, whose keys are the judges, each of them once
unfoldable pub add_stat : JudgeCellStat → List ParseStat → List ParseStat
add_stat stat acc = map (added stat) acc

unfoldable pub add_stats : List JudgeCellStat → List ParseStat → List ParseStat
add_stats [] acc = acc
add_stats (stat ∷ rest) acc = add_stats rest (add_stat stat acc)

-- `n_fail / n_attempts > 0.5` of two integers, for a judge with attempts
unfoldable pub is_offender : ParseStat → Bool
is_offender stat = not (stat.n_attempts == 0) && ltb stat.n_attempts (2 * stat.n_fail)

unfoldable pub offenders : List ParseStat → List Text
offenders [] = []
offenders (stat ∷ rest) =
    let others = offenders rest in if is_offender stat then stat.judge ∷ others else others

-- `_check_parse_fail_gate`, less the order in which its message names the offenders
unfoldable pub check_parse_fail_gate : List ParseStat → Result JudgeError (Unit {0})
check_parse_fail_gate stats = elim (offenders stats) [
  | [] ↦ ok tt
  | j ∷ js ↦ err (parse_fail_rate (j ∷ js))
]

pub record JudgeRunResult : Type 0 where
  pub results : List JudgeItemResult
  pub per_judge_parse_stats : List ParseStat

abbrev pub started : Text → ParseStat
started judge = record { judge = judge; n_fail = 0; n_attempts = 0 }

module _ {W : Type 0} (math : JudgeMath) (call : JudgeCaller W) (k : ℕ) where
  -- `for cell in cells`
  unfoldable pub judge_cells :
      List Text
      → List JudgeCell
      → List ParseStat
      → Session W
      → Result JudgeError (List JudgeItemResult × List ParseStat)
  judge_cells judges [] acc s = ok ([], acc)
  judge_cells judges (cell ∷ rest) acc s = judge_one_cell math call cell judges k s >>= λ judged.
      judge_cells judges rest (add_stats judged.0.1 acc) judged.1 >>= λ others.
      ok (judged.0.0 ∷ others.0, others.1)

  unfoldable pub judge_run : List JudgeCell → List Text → W → Result JudgeError JudgeRunResult
  judge_run cells judges world =
      let unique_judges = distinct judges in
      raise_if (length unique_judges == 0) no_judges
      >> (raise_if (k == 0) bad_k
          >> (judge_cells unique_judges cells (map started unique_judges)
                (record { world = world; identities = [] })
              >>= λ found.
                  check_parse_fail_gate found.1
                  >> ok (record { results = found.0; per_judge_parse_stats = found.1 })))
