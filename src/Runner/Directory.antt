-- ===== src/Runner/Directory.antt =====
-- measure_twice/runner.py: `_RUN_ID_RE`, `_resolve_run_dir` and `_validate_sweep_params`.
pub mod Contained
use measure_twice.Prelude.{
  ℕ, zero, suc, ◌+◌, ◌-◌, ◌*◌, ◌≤◌, ◌<◌, String, ◌≡◌, refl, sym, ap, ◌∙◌, subst, ◌≢◌, ◌↔◌, ◌⊎◌, inl,
  inr, Bool, true, false, not, ◌&&◌, ◌||◌, Option, none, some, List, [], ◌∷◌, ◌++◌, map, append-nil,
  append_assoc, arith, ltb, leb, if◌then◌else◌, Bool-cases, Option-cases, Eq, nat_eq, text_eq,
  option_eq, ◌==◌, contains, ==_refl, eq_of_==, length, take, drop, all, All, length-append,
  All-append, All-map, Result, ok, err, ◌>>=◌, ◌>>◌, raise_if, or_raise, traverse, bind-eq-ok,
  Result-cases, ok-injective, traverse-All, traverse-map, List-cases, not_raised, not_raised_unless,
}
use measure_twice.Text.{
  Text, text, is_space, strip_left, strip_right, strip, is_blank, is_digit, decimal, is_break,
  cons_line, splitlines, split, join, unlines,
}
use measure_twice.Runner.Row.{
  RunError, bad_run_id, escapes_store, no_roster, bad_samples, bad_budget,
}
use measure_twice.Runner.Store.{without_last}

-- `n` characters that pass the test, and what follows them
unfoldable pub eat : (ℕ → Bool) → ℕ → Text → Result RunError Text
eat test zero s = ok s
eat test (suc n) [] = err bad_run_id
eat test (suc n) (c ∷ s) = let rest = eat test n s in if test c then rest else err bad_run_id

-- the characters of a literal, and what follows them
unfoldable pub eat_literal : Text → Text → Result RunError Text
eat_literal [] s = ok s
eat_literal (l ∷ ls) [] = err bad_run_id
eat_literal (l ∷ ls) (c ∷ s) =
    let rest = eat_literal ls s in if c == l then rest else err bad_run_id

-- `==` of two paths
unfoldable pub same_path : List Text → List Text → Bool
same_path [] [] = true
same_path (p ∷ ps) (q ∷ qs) = p == q && same_path ps qs
same_path ps qs = false

abbrev pub is_hex : ℕ → Bool
is_hex c = is_digit c || leb b'a' c && leb c b'f'

-- The digits of `\d` are those of Unicode.
module _ (is_unicode_digit : ℕ → Bool) where
  -- `_RUN_ID_RE.match(run_id)`
  unfoldable pub match_run_id : Text → Result RunError (Unit {0})
  match_run_id run_id = eat_literal (text "run_") run_id >>= λ a. eat is_unicode_digit 8 a >>= λ b.
      eat_literal (text "T") b >>= λ c. eat is_unicode_digit 6 c >>= λ d.
      eat_literal (text "Z_") d >>= λ e.
      eat is_hex 6 e >>= λ rest. raise_if (not (length rest == 0)) bad_run_id

  -- A path is its parts, and `resolve` is `Path.resolve`.
  unfoldable pub resolve_run_dir :
      (List Text → List Text) → List Text → Text → Result RunError (List Text)
  resolve_run_dir resolve out run_id =
      let runs_dir = resolve (out ++ text "runs" ∷ []) in
      let run_dir = resolve (out ++ text "runs" ∷ run_id ∷ []) in
      match_run_id run_id
      >> (raise_if (not (same_path (without_last run_dir) runs_dir)) escapes_store >> ok run_dir)

unfoldable pub validate_sweep_params : List Text → ℕ → ℕ → Result RunError (Unit {0})
validate_sweep_params roster samples max_calls =
    raise_if (length roster == 0) no_roster
    >> (raise_if (ltb samples 1) bad_samples >> raise_if (ltb max_calls 1) bad_budget)
