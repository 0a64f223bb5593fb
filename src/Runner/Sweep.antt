-- ===== src/Runner/Sweep.antt =====
-- measure_twice/runner.py: the sequential sweeps, with `CallBudget` of
-- measure_twice/adapters/claude_cli.py.
pub mod Pool
pub mod Budgeted
pub mod Delivery
use measure_twice.Prelude.{
  ℕ, zero, suc, ◌+◌, ◌-◌, ◌*◌, ◌≤◌, ◌<◌, String, ◌≡◌, refl, sym, ap, ◌∙◌, subst, ◌≢◌, ◌↔◌, ◌⊎◌, inl,
  inr, Bool, true, false, not, ◌&&◌, ◌||◌, Option, none, some, List, [], ◌∷◌, ◌++◌, map, append-nil,
  append_assoc, arith, ltb, leb, if◌then◌else◌, Bool-cases, Option-cases, Eq, nat_eq, text_eq,
  option_eq, ◌==◌, contains, ==_refl, eq_of_==, length, take, drop, all, All, length-append,
  All-append, All-map, Result, ok, err, ◌>>=◌, ◌>>◌, raise_if, or_raise, traverse, bind-eq-ok,
  Result-cases, ok-injective, traverse-All, traverse-map, List-cases,
}
use measure_twice.Text.{
  Text, text, is_space, strip_left, strip_right, strip, is_blank, is_digit, decimal, is_break,
  cons_line, splitlines, split, join, unlines,
}
use measure_twice.Json.{Codec}
use measure_twice.Suite.{Item}
use measure_twice.Runner.Row.{RunRow, RunError, Scorer, Cell, ModelCallResult, build_row}
use measure_twice.Runner.Store.{RowsFile, append_row}

pub record CallBudget : Type 0 where
  pub max_calls : ℕ
  pub used : ℕ

-- `consume`: `none` for a `BudgetExhaustedError`
unfoldable pub consume : CallBudget → Option CallBudget
consume b = if leb b.max_calls b.used then none else some (record b { used = b.used + 1 })

-- What a sweep changes: the shared budget, the rows file, and the world outside.
pub record Sweep (W : Type 0) : Type 0 where
  pub budget : CallBudget
  pub file : RowsFile
  pub world : W

-- One model call of a prompt with a model, as the adapters make them.
abbrev pub ModelCall : Type 0 → Type 0
ModelCall W = Text → Text → W → ModelCallResult × W

module _ {W : Type 0} (codec : Codec) (call : ModelCall W) (run_id : Text) (scorer : Scorer) where
  -- the loop of `_sweep_local` and `_sweep_gemini`, after `written` rows
  unfoldable pub sweep_cells : List Cell → ℕ → Sweep W → Result RunError (ℕ × Bool) × Sweep W
  sweep_cells [] written s = (ok (written, false), s)
  sweep_cells (cell ∷ rest) written s = elim (consume s.budget) [
    | none ↦ (ok (written, true), s)
    | some budget ↦
        let (result, world) = call cell.item.prompt cell.requested_model s.world in
        elim (build_row run_id cell result scorer) [
          | err e ↦ (err e, record { budget = budget; file = s.file; world = world })
          | ok row ↦
              sweep_cells rest (written + 1)
                (record { budget = budget; file = append_row codec s.file row; world = world })
        ]
  ]

  -- `_sweep_local` and `_sweep_gemini`, which differ in the call only
  unfoldable pub sweep_sequential : List Cell → Sweep W → Result RunError (ℕ × Bool) × Sweep W
  sweep_sequential pending s = sweep_cells pending 0 s

-- A sweep of cells, that changes the budget, the rows file and the world.
abbrev pub Sweeper : Type 0 → Type 0
Sweeper W = List Cell → Sweep W → Result RunError (ℕ × Bool) × Sweep W

-- What follows a step of a sweep: nothing if it raised or was aborted, and else the rest, which is
-- told the rows written so far.
unfoldable pub unless_aborted :
    {W : Type 0}
    → (ℕ → Sweep W → Result RunError (ℕ × Bool) × Sweep W)
    → Result RunError (ℕ × Bool) × Sweep W
    → Result RunError (ℕ × Bool) × Sweep W
unless_aborted rest (err e, after) = (err e, after)
unless_aborted rest (ok (written, true), after) = (ok (written, true), after)
unless_aborted rest (ok (written, false), after) = rest written after
