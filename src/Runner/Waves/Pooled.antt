-- ===== src/Runner/Waves/Pooled.antt =====
-- What the waves of pooled Claude calls write within the shared budget.
pub mod Chunks
pub mod Wave
pub mod Every
use measure_twice.Prelude.{
  ℕ, zero, suc, ◌+◌, ◌-◌, ◌*◌, ◌≤◌, ◌<◌, String, ◌≡◌, refl, sym, ap, ◌∙◌, subst, ◌≢◌, ◌↔◌, ◌⊎◌, inl,
  inr, Bool, true, false, not, ◌&&◌, ◌||◌, Option, none, some, List, [], ◌∷◌, ◌++◌, map, append-nil,
  append_assoc, arith, ltb, leb, if◌then◌else◌, Bool-cases, Option-cases, Eq, nat_eq, text_eq,
  option_eq, ◌==◌, contains, ==_refl, eq_of_==, length, take, drop, all, All, length-append,
  All-append, All-map, Result, ok, err, ◌>>=◌, ◌>>◌, raise_if, or_raise, traverse, bind-eq-ok,
  Result-cases, ok-injective, traverse-All, traverse-map, List-cases, not_raised, not_raised_unless,
  keep, keep-keep, keep-append, keep-ext, All-keep, Distinct, Distinct-keep, Distinct-append,
}
use measure_twice.Text.{
  Text, text, is_space, strip_left, strip_right, strip, is_blank, is_digit, decimal, is_break,
  cons_line, splitlines, split, join, unlines,
}
use measure_twice.Json.{Codec}
use measure_twice.Runner.Row.{RunRow, RunError, Scorer, Cell, ModelCallResult, build_row}
use measure_twice.Runner.Store.{RowsFile, contents, rows_text, append_row, row_line}
use measure_twice.Runner.Sweep.{CallBudget, Sweep}
use measure_twice.Runner.Sweep.Budgeted.{
  row_key, key_of_cell, Answers, build_row-key, rows_text-snoc,
}
use measure_twice.Runner.Sweep.Delivery.{standing, Delivered, Delivers}
use measure_twice.Runner.Sweep.Pool.{
  Slot, Pool, Reach, Collected, done, result_of, marker_of, submitted, spent_by, refused_to, total,
}
use measure_twice.Runner.Sweep.Pool.Schedule.{IsSound, Reach-IsSound}
use measure_twice.Runner.Waves.{
  exhausted, Batch, BatchCall, requests_of, record_wave, sweep_waves, sweep_claude, chunks,
}
use measure_twice.Runner.Pending.Left.{
  Split, none_left, taken, passed, Split-nothing, Split-append, Split-length,
}

-- The batch is what the pool comes to in some order of the threads' turns.
abbrev pub Pooled : {W : Type 0} → BatchCall W → Type 0
Pooled {W} batch =
    (requests : List (Text × Text)) (m u : ℕ) (world : W)
    → let b = batch requests (record { max_calls = m; used = u }) world in
      (p : Pool) × Reach
        (record {
          budget = record { max_calls = m; used = u };
          slots = submitted (length requests);
        })
        p
      × Collected p.slots b.results
      × (b.budget ≡ p.budget)

pub is_some_left : List Cell → Bool
is_some_left [] = false
is_some_left (c ∷ left) = true

or_true : (a : Bool) → true ≡ (a || true)
or_true true = refl
or_true false = refl

or_false : (a : Bool) → (a || false) ≡ a
or_false true = refl
or_false false = refl

outcome_of :
    (n n' : ℕ) {a a' : Bool} {f f' : RowsFile}
    → n ≡ n'
    → a ≡ a'
    → f ≡ f'
    → ◌≡◌ {A = Result RunError (ℕ × Bool) × RowsFile} (ok (n, a), f) (ok (n', a'), f')
outcome_of n n' p q r = rw (p, q, r) refl

module _ (codec : Codec) (run_id : Text) (scorer : Scorer) where
  -- What the rows of one wave are.
  pub record Waved (cells : List Cell) (results : List (Option ModelCallResult)) (slots : List Slot)
      (rows : List RunRow) (written : ℕ) (aborted : Bool) : Type 0 where
    pub news : List RunRow
    pub left : List Cell
    pub apart : Split news cells left
    pub returned :
        record_wave codec run_id scorer cells results written aborted
          (contents (rows_text codec rows))
        ≡ (
          ok (written + length news, aborted || is_some_left left),
          contents (rows_text codec (rows ++ news)),
        )
    pub counted : length news ≡ total spent_by slots
    pub refused_left : length left ≡ total refused_to slots

  pub record_wave-Waved :
      {results : List (Option ModelCallResult)} {slots : List Slot}
      → Answers scorer
      → (cells : List Cell) → Collected slots results
      → length slots ≡ length cells
      → (rows : List RunRow) (written : ℕ) (aborted : Bool)
      → Waved cells results slots rows written aborted
  unfolding record_wave append_row is_some_left
  record_wave-Waved answers [] done same rows written aborted = record {
    news = [];
    left = [];
    apart = none_left;
    returned =
        outcome_of written (written + 0) (omega arith) (sym (or_false aborted))
          (ap (λ l. contents (rows_text codec l)) (sym (append-nil rows)));
    counted = refl;
    refused_left = refl;
  }
  record_wave-Waved answers (c ∷ cells) done same rows written aborted =
      absurd (ground (arith, same))
  record_wave-Waved answers [] (result_of r s) same rows written aborted =
      absurd (ground (arith, same))
  record_wave-Waved answers [] (marker_of s) same rows written aborted =
      absurd (ground (arith, same))
  record_wave-Waved answers (c ∷ cells) (result_of r s) same rows written aborted =
      let (row, built, key) = build_row-key run_id c r scorer answers in
      let rest =
        record_wave-Waved answers cells s (omega (arith, same)) (rows ++ row ∷ []) (written + 1)
          aborted in
      record {
        news = row ∷ rest.news;
        left = rest.left;
        apart = taken row c key rest.apart;
        returned =
            rw (built, record_wave, rows_text-snoc codec rows row) rest.returned
            ∙ outcome_of (written + 1 + length rest.news) (written + suc (length rest.news))
                (omega arith) refl
                (ap (λ l. contents (rows_text codec l)) (append_assoc rows (row ∷ []) rest.news));
        counted = omega (arith, rest.counted);
        refused_left = omega (arith, rest.refused_left);
      }
  record_wave-Waved answers (c ∷ cells) (marker_of s) same rows written aborted =
      let rest = record_wave-Waved answers cells s (omega (arith, same)) rows written true in
      record {
        news = rest.news;
        left = c ∷ rest.left;
        apart = passed c rest.apart;
        returned =
            rest.returned
            ∙ ap
                (λ b. (
                  ok (written + length rest.news, b),
                  contents (rows_text codec (rows ++ rest.news)),
                ))
                (or_true aborted);
        counted = omega (arith, rest.counted);
        refused_left = omega (arith, rest.refused_left);
      }
