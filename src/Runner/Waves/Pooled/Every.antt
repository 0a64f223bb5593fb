-- ===== src/Runner/Waves/Pooled/Every.antt =====
-- All the waves of a sweep, and the contract that a run relies on.
use measure_twice.Prelude.{
  ℕ, suc, ◌≤◌, ◌≡◌, subst, inl, inr, true, List, [], ◌∷◌, arith, leb, Bool-cases, nat_eq, text_eq,
  option_eq,
}
use measure_twice.Text.{Text}
use measure_twice.Json.{Codec}
use measure_twice.Runner.Row.{RunRow, Scorer, Cell}
use measure_twice.Runner.Sweep.Budgeted.{Answers}
use measure_twice.Runner.Sweep.Delivery.{standing, Delivered, Delivers}
use measure_twice.Runner.Sweep.Delivery.Steps.{Delivered-nothing, Delivered-refused, Delivered-then}
use measure_twice.Runner.Waves.{exhausted, BatchCall, call_wave, sweep_waves, sweep_claude, chunks}
use measure_twice.Runner.Waves.Pooled.{Pooled}
use measure_twice.Runner.Waves.Pooled.Wave.{call_wave-Delivered}
use measure_twice.Runner.Waves.Pooled.Chunks.{concat, chunks_complete}

full : (m u : ℕ) → leb m u ≡ true → m ≤ u
full m u h = grind (arith, h)

module _ {W : Type 0} (codec : Codec) (run_id : Text) (scorer : Scorer) (batch : BatchCall W) where
  sweep_waves-Delivered :
      Answers scorer
      → Pooled batch
      → (waves : List (List Cell)) (written : ℕ) (rows : List RunRow) (m u : ℕ) (world : W) → u ≤ m
      → Delivered codec
          (sweep_waves codec run_id scorer batch waves written (standing codec rows m u world))
          (concat waves)
          written
          rows
          m
          u
  unfolding sweep_waves exhausted
  sweep_waves-Delivered answers pooled [] written rows m u world le =
      Delivered-nothing codec written rows m u world le
  sweep_waves-Delivered answers pooled (chunk ∷ rest) written rows m u world le =
      elim (Bool-cases (leb m u)) [
        | inl e ↦
            rw e (
              Delivered-refused codec (concat (chunk ∷ rest)) written rows m u world le
                (full m u e))
        | inr e ↦ rw e (
            Delivered-then codec
              (call_wave codec run_id scorer batch chunk written (standing codec rows m u world))
              (sweep_waves codec run_id scorer batch rest) chunk (concat rest) written rows m u
              (call_wave-Delivered codec run_id scorer batch answers pooled chunk written rows m u
                world le)
              (λ n rows' u' later le'.
                sweep_waves-Delivered answers pooled rest n rows' m u' later le'))
      ]

  -- In whatever order the threads of the pool take turns, with at least one worker and a scorer that
  -- answers every response, the pooled sweep appends rows for some of its cells in their order, one
  -- for each call that spent a unit of the budget, and returns their number; it stays within the
  -- budget, says that it was aborted if it leaves a cell, and was aborted only with the budget spent.
  pub sweep_claude-Delivers :
      Answers scorer
      → Pooled batch
      → (workers : ℕ) → Delivers codec (sweep_claude codec run_id scorer batch (suc workers))
  unfolding sweep_claude
  sweep_claude-Delivers answers pooled workers cells rows m u world le =
      subst
        (λ c.
          Delivered codec
            (sweep_waves codec run_id scorer batch (chunks (suc workers) cells) 0
              (standing codec rows m u world))
            c 0 rows m u)
        (chunks_complete workers cells).0
        (sweep_waves-Delivered answers pooled (chunks (suc workers) cells) 0 rows m u world le)
