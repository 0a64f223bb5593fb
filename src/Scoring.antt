-- ===== src/Scoring.antt =====
-- measure_twice/scoring: the deterministic scorers and the rubric judge. What a scorer returns is
-- the `ScoreOutcome` of measure_twice/runner.py.
pub mod Verdict
pub mod Deterministic
use measure_twice.Prelude.{
  ℕ, zero, suc, ◌+◌, ◌-◌, ◌*◌, ◌≤◌, ◌<◌, String, ◌≡◌, refl, sym, ap, ◌∙◌, subst, ◌≢◌, ◌↔◌, ◌⊎◌, inl,
  inr, Bool, true, false, not, ◌&&◌, ◌||◌, Option, none, some, List, [], ◌∷◌, ◌++◌, map, append-nil,
  append_assoc, arith, ltb, leb, if◌then◌else◌, Bool-cases, Option-cases, Eq, nat_eq, text_eq,
  option_eq, ◌==◌, contains, ==_refl, eq_of_==, length, take, drop, all, All, length-append,
  All-append, All-map, Result, ok, err, ◌>>=◌, ◌>>◌, raise_if, or_raise, traverse, bind-eq-ok,
  Result-cases, ok-injective, traverse-All, traverse-map, List-cases,
}
use measure_twice.Text.{
  Text, text, is_space, strip_left, strip_right, strip, is_blank, is_digit, decimal, is_break,
  cons_line, splitlines, split, join, unlines,
}
use measure_twice.Suite.{Float}

pub record ScoreOutcome : Type 0 where
  pub parsed : Option Text
  pub score : Option Float
  pub scorer : Option Text

-- `ScoringError`, a constructor for each place that raises one, and the `NotImplementedError` of
-- the dispatcher.
pub data ScoringError : Type 0 where
  bad_pattern no_labels reserved_label rubric_not_implemented unsupported_type no_scores :
      ScoringError
