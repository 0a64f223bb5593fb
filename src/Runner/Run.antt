-- ===== src/Runner/Run.antt =====
-- measure_twice/runner.py: the sweep of `run` over its bindings, and the tests before a resume.
pub mod Whole
use measure_twice.Prelude.{
  ℕ, zero, suc, ◌+◌, ◌-◌, ◌*◌, ◌≤◌, ◌<◌, String, ◌≡◌, refl, sym, ap, ◌∙◌, subst, ◌≢◌, ◌↔◌, ◌⊎◌, inl,
  inr, Bool, true, false, not, ◌&&◌, ◌||◌, Option, none, some, List, [], ◌∷◌, ◌++◌, map, append-nil,
  append_assoc, arith, ltb, leb, if◌then◌else◌, Bool-cases, Option-cases, Eq, nat_eq, text_eq,
  option_eq, ◌==◌, contains, ==_refl, eq_of_==, length, take, drop, all, All, length-append,
  All-append, All-map, Result, ok, err, ◌>>=◌, ◌>>◌, raise_if, or_raise, traverse, bind-eq-ok,
  Result-cases, ok-injective, traverse-All, traverse-map, List-cases, not_raised, not_raised_unless,
  keep, keep-keep, keep-append, keep-ext, All-keep, Distinct, Distinct-keep, Distinct-append,
}
use measure_twice.Text.{
  Text, text, is_space, strip_left, strip_right, strip, is_blank, is_digit, decimal, is_break,
  cons_line, splitlines, split, join, unlines,
}
use measure_twice.Suite.{Float, Item}
use measure_twice.Runner.Row.{
  RunRow, Cell, RunError, no_claude_runtime, no_gemini_key, legacy_unsealed,
}
use measure_twice.Runner.Sweep.{Sweep, Sweeper, unless_aborted}
use measure_twice.Runner.Pending.{Provider, local, claude, gemini, ModelBinding, pending_cells}

-- `CLAUDE_ALIASES`
abbrev pub claude_aliases : List Text
claude_aliases = text "haiku" ∷ text "sonnet" ∷ text "opus" ∷ text "fable" ∷ []

-- `not pending`
unfoldable pub is_nothing : List Cell → Bool
is_nothing [] = true
is_nothing (c ∷ cells) = false

unfoldable pub is_claude : Provider → Bool
is_claude claude = true
is_claude p = false

unfoldable pub is_gemini : Provider → Bool
is_gemini gemini = true
is_gemini p = false

unfoldable pub is_local : Provider → Bool
is_local local = true
is_local p = false

unfoldable pub any_binding : (ModelBinding → Bool) → List ModelBinding → Bool
any_binding test [] = false
any_binding test (b ∷ bindings) = test b || any_binding test bindings

-- The sweeps that a run dispatches to, `none` for Claude without a runtime and for Gemini without a
-- key.
pub record Sweepers (W : Type 0) : Type 0 where
  pub sweep_local : Sweeper W
  pub sweep_claude : Option (Sweeper W)
  pub sweep_gemini : Option (Sweeper W)

-- the dispatch on the provider of a binding with pending cells
unfoldable pub dispatch : {W : Type 0} → Sweepers W → Provider → Sweeper W
dispatch sweepers local pending s = sweepers.sweep_local pending s
dispatch sweepers claude pending s = elim sweepers.sweep_claude [
  | none ↦ (err no_claude_runtime, s)
  | some sweep ↦ sweep pending s
]
dispatch sweepers gemini pending s = elim sweepers.sweep_gemini [
  | none ↦ (err no_gemini_key, s)
  | some sweep ↦ sweep pending s
]

-- `cells_written += written`
unfoldable pub add_written :
    {W : Type 0} → ℕ → Result RunError (ℕ × Bool) × Sweep W → Result RunError (ℕ × Bool) × Sweep W
add_written before (err e, s) = (err e, s)
add_written before (ok (written, aborted), s) = (ok (before + written, aborted), s)

-- `float_is` is Python's `==` of a float and an integer.
module _ (float_is : Float → ℕ → Bool) (items : List Item) (samples : ℕ) where
  -- whether a binding has pending cells
  unfoldable pub has_pending : List RunRow → ModelBinding → Bool
  has_pending done b = not (is_nothing (pending_cells float_is done b items samples))

  -- `_has_pending_claude`
  unfoldable pub has_pending_claude : List ModelBinding → List RunRow → Bool
  has_pending_claude bindings done =
      any_binding (λ b. is_claude b.provider && has_pending done b) bindings

  -- `_has_pending_gemini`
  unfoldable pub has_pending_gemini : List ModelBinding → List RunRow → Bool
  has_pending_gemini bindings done =
      any_binding (λ b. is_gemini b.provider && has_pending done b) bindings

  -- `_validate_legacy_resume`
  unfoldable pub validate_legacy_resume : List ModelBinding → List RunRow → Result RunError Unit
  validate_legacy_resume [] done = ok tt
  validate_legacy_resume (b ∷ bindings) done =
      if not (has_pending done b)
      then validate_legacy_resume bindings done
      else if contains claude_aliases b.alias
      then err legacy_unsealed
      else if not (is_local b.provider) || not (b.requested_model == b.alias)
      then err legacy_unsealed
      else validate_legacy_resume bindings done

  module _ {W : Type 0} (sweepers : Sweepers W) where
    -- the loop over the bindings: `done` are the rows at the start, `before` the cells written so far
    unfoldable pub sweep_bindings :
        List RunRow → List ModelBinding → ℕ → Sweep W → Result RunError (ℕ × Bool) × Sweep W
    sweep_bindings done [] before s = (ok (before, false), s)
    sweep_bindings done (b ∷ bindings) before s =
        let pending = pending_cells float_is done b items samples in
        if is_nothing pending
        then sweep_bindings done bindings before s
        else unless_aborted (sweep_bindings done bindings)
            (add_written before (dispatch sweepers b.provider pending s))
