-- ===== src/Runner/Waves.antt =====
-- measure_twice/runner.py: `_chunks` and `_sweep_claude`, the waves of pooled calls.
pub mod Pooled
use measure_twice.Prelude.{
  ℕ, zero, suc, ◌+◌, ◌-◌, ◌*◌, ◌≤◌, ◌<◌, String, ◌≡◌, refl, sym, ap, ◌∙◌, subst, ◌≢◌, ◌↔◌, ◌⊎◌, inl,
  inr, Bool, true, false, not, ◌&&◌, ◌||◌, Option, none, some, List, [], ◌∷◌, ◌++◌, map, append-nil,
  append_assoc, arith, ltb, leb, if◌then◌else◌, Bool-cases, Option-cases, Eq, nat_eq, text_eq,
  option_eq, ◌==◌, contains, ==_refl, eq_of_==, length, take, drop, all, All, length-append,
  All-append, All-map, Result, ok, err, ◌>>=◌, ◌>>◌, raise_if, or_raise, traverse, bind-eq-ok,
  Result-cases, ok-injective, traverse-All, traverse-map, List-cases, not_raised, not_raised_unless,
  keep, keep-keep, keep-append, keep-ext, All-keep, Distinct, Distinct-keep, Distinct-append,
}
use measure_twice.Text.{
  Text, text, is_space, strip_left, strip_right, strip, is_blank, is_digit, decimal, is_break,
  cons_line, splitlines, split, join, unlines,
}
use measure_twice.Json.{Codec}
use measure_twice.Suite.{Item}
use measure_twice.Runner.Row.{
  RunRow, RunError, Scorer, Cell, ModelCallResult, build_row, sweep_failed,
}
use measure_twice.Runner.Store.{RowsFile, append_row}
use measure_twice.Runner.Sweep.{CallBudget, Sweep, Sweeper, unless_aborted}

-- `range(0, len(seq), size)` and its slices, on fuel
unfoldable pub chunks_within : ℕ → ℕ → List Cell → List (List Cell)
chunks_within zero size cells = []
chunks_within (suc fuel) size [] = []
chunks_within (suc fuel) size (c ∷ cells) =
    take size (c ∷ cells) ∷ chunks_within fuel size (drop size (c ∷ cells))

-- `_chunks`
unfoldable pub chunks : ℕ → List Cell → List (List Cell)
chunks size cells = chunks_within (length cells) size cells

-- `exhausted`
unfoldable pub exhausted : CallBudget → Bool
exhausted b = leb b.max_calls b.used

-- What a batch of calls gives: a result or, as `none`, a `BudgetExhaustedError` for each request, the
-- budget and the world after.
pub record Batch (W : Type 0) : Type 0 where
  pub results : List (Option ModelCallResult)
  pub budget : CallBudget
  pub world : W

-- `claude_call_batch`, of prompts with their aliases
abbrev pub BatchCall : Type 0 → Type 0
BatchCall W = List (Text × Text) → CallBudget → W → Batch W

abbrev pub requests_of : List Cell → List (Text × Text)
requests_of cells = map (λ c. (c.item.prompt, c.model)) cells

module _ (codec : Codec) (run_id : Text) (scorer : Scorer) where
  -- `for cell, res in zip(chunk, results, strict=True)`; a `ValueError` of `zip` ends as a `RunError`
  unfoldable pub record_wave :
      List Cell
      → List (Option ModelCallResult)
      → ℕ
      → Bool
      → RowsFile
      → Result RunError (ℕ × Bool) × RowsFile
  record_wave [] [] written aborted file = (ok (written, aborted), file)
  record_wave (cell ∷ cells) (none ∷ results) written aborted file =
      record_wave cells results written true file
  record_wave (cell ∷ cells) (some result ∷ results) written aborted file =
      elim (build_row run_id cell result scorer) [
        | err e ↦ (err e, file)
        | ok row ↦ record_wave cells results (written + 1) aborted (append_row codec file row)
      ]
  record_wave cells results written aborted file = (err sweep_failed, file)

  module _ {W : Type 0} (batch : BatchCall W) where
    -- the body of the loop, from the requests to the last row of the wave
    unfoldable pub call_wave : List Cell → ℕ → Sweep W → Result RunError (ℕ × Bool) × Sweep W
    call_wave chunk written s =
        let called = batch (requests_of chunk) s.budget s.world in
        let recorded = record_wave chunk called.results written false s.file in
        (recorded.0, record { budget = called.budget; file = recorded.1; world = called.world })

    -- `for chunk in _chunks(pending, config.claude_pool)`, after `written` rows
    unfoldable pub sweep_waves :
        List (List Cell) → ℕ → Sweep W → Result RunError (ℕ × Bool) × Sweep W
    sweep_waves [] written s = (ok (written, false), s)
    sweep_waves (chunk ∷ rest) written s =
        if exhausted s.budget
        then (ok (written, true), s)
        else unless_aborted (sweep_waves rest) (call_wave chunk written s)

    -- `_sweep_claude`, with `config.claude_pool` workers
    unfoldable pub sweep_claude : ℕ → Sweeper W
    sweep_claude pool pending s = sweep_waves (chunks pool pending) 0 s
