-- ===== src/Tests/Directory.antt =====
-- Tests of `_resolve_run_dir`.
use measure_twice.Prelude.{
  ◌≡◌, refl, true, List, [], ◌∷◌, ◌++◌, nat_eq, text_eq, option_eq, all, err,
}
use measure_twice.Text.{Text, text, is_digit}
use measure_twice.Runner.Row.{bad_run_id, no_roster, bad_samples, bad_budget}
use measure_twice.Runner.Store.{without_last}
use measure_twice.Runner.Directory.{
  eat, eat_literal, same_path, match_run_id, resolve_run_dir, validate_sweep_params,
}
use measure_twice.Runner.Directory.Contained.{is_plain, digit_plain, resolve_run_dir-IsInner}

abbrev run_id : Text
run_id = text "run_20260101T000000Z_00ff00"

abbrev out : List Text
out = text "out" ∷ []

refused_run_id :
    resolve_run_dir is_digit (λ p. p) out (text "run_20260101T000000Z_/../00") ≡ err bad_run_id
unfolding resolve_run_dir match_run_id eat eat_literal is_digit nat_eq
refused_run_id = refl

refused_params :
    (validate_sweep_params [] 1 1 ≡ err no_roster)
    × (validate_sweep_params out 0 1 ≡ err bad_samples)
    × (validate_sweep_params out 1 0 ≡ err bad_budget)
unfolding validate_sweep_params nat_eq
refused_params = (refl, refl, refl)

resolve_run_dir-IsInner_example :
    (all is_plain run_id ≡ true)
    × (without_last (out ++ text "runs" ∷ run_id ∷ []) ≡ out ++ text "runs" ∷ [])
    × (out ++ text "runs" ∷ run_id ∷ [] ≡ out ++ text "runs" ∷ run_id ∷ [])
unfolding resolve_run_dir match_run_id eat eat_literal is_digit nat_eq text_eq same_path
    without_last
resolve_run_dir-IsInner_example =
    resolve_run_dir-IsInner is_digit digit_plain (λ p. p) out run_id
      (out ++ text "runs" ∷ run_id ∷ []) refl
