-- ===== src/Runner/Waves/Pooled/Wave.antt =====
-- One wave of pooled Claude calls.
use measure_twice.Prelude.{
  ℕ, ◌+◌, ◌≤◌, ◌≡◌, refl, ap, ◌∙◌, Bool, true, false, Option, List, [], ◌∷◌, ◌++◌, arith, nat_eq,
  text_eq, option_eq, length, ok,
}
use measure_twice.Text.{Text}
use measure_twice.Json.{Codec}
use measure_twice.Runner.Row.{RunRow, Scorer, Cell, ModelCallResult}
use measure_twice.Runner.Store.{contents, rows_text}
use measure_twice.Runner.Sweep.{CallBudget}
use measure_twice.Runner.Sweep.Budgeted.{Answers}
use measure_twice.Runner.Sweep.Delivery.{standing, Delivered}
use measure_twice.Runner.Sweep.Pool.Schedule.{Reach-IsSound}
use measure_twice.Runner.Waves.{call_wave, Batch, BatchCall, requests_of, record_wave}
use measure_twice.Runner.Waves.Pooled.{Pooled, is_some_left, record_wave-Waved}

budget_of :
    {b : CallBudget} {m u : ℕ}
    → b.max_calls ≡ m
    → b.used ≡ u
    → b ≡ record { max_calls = m; used = u }
budget_of p q = λ i. record { max_calls = p i; used = q i }

batch_of :
    {W : Type 0} (b : Batch W) {budget budget' : CallBudget}
    → b.budget ≡ budget
    → budget ≡ budget'
    → b ≡ record { results = b.results; budget = budget'; world = b.world }
batch_of b p q =
    ap (λ budget. record { results = b.results; budget = budget; world = b.world }) (p ∙ q)

length-requests_of : (cells : List Cell) → length (requests_of cells) ≡ length cells
length-requests_of [] = refl
length-requests_of (c ∷ cells) = omega (arith, length-requests_of cells)

is_some_left-false : (left : List Cell) → is_some_left left ≡ false → left ≡ []
unfolding is_some_left
is_some_left-false [] h = refl
is_some_left-false (c ∷ left) h = absurd (ground (arith, h))

is_some_left-true : (left : List Cell) → is_some_left left ≡ true → 1 ≤ length left
unfolding is_some_left
is_some_left-true [] h = absurd (ground (arith, h))
is_some_left-true (c ∷ left) h = omega arith

module _ {W : Type 0} (codec : Codec) (run_id : Text) (scorer : Scorer) (batch : BatchCall W) where
  call_wave-standing :
      (chunk : List Cell) (rows rows' : List RunRow) (m u n u' written : ℕ) (world later : W)
      (results : List (Option ModelCallResult)) (aborted : Bool)
      → batch (requests_of chunk) (record { max_calls = m; used = u }) world
        ≡ record { results = results; budget = record { max_calls = m; used = u' }; world = later }
      → record_wave codec run_id scorer chunk results written false
          (contents (rows_text codec rows))
        ≡ (ok (n, aborted), contents (rows_text codec rows'))
      → call_wave codec run_id scorer batch chunk written (standing codec rows m u world)
        ≡ (ok (n, aborted), standing codec rows' m u' later)
  unfolding call_wave
  call_wave-standing chunk rows rows' m u n u' written world later results aborted called recorded =
      rw (called, recorded) refl

  -- A wave delivers, since its pool is sound: a slot has a row exactly if it spent a unit.
  pub call_wave-Delivered :
      Answers scorer
      → Pooled batch
      → (chunk : List Cell) (written : ℕ) (rows : List RunRow) (m u : ℕ) (world : W) → u ≤ m
      → Delivered codec
          (call_wave codec run_id scorer batch chunk written (standing codec rows m u world))
          chunk
          written
          rows
          m
          u
  call_wave-Delivered answers pooled chunk written rows m u world le =
      let requests = requests_of chunk in
      let (pool, reach, collected, same) = pooled requests m u world in
      let after = batch requests (record { max_calls = m; used = u }) world in
      let sound = Reach-IsSound (length requests) m u pool le reach in
      let waved =
        record_wave-Waved codec run_id scorer answers chunk collected
          (sound.same_slots ∙ length-requests_of chunk) rows written false in
      let spent : pool.budget.used ≡ u + length waved.news =
        omega (arith, sound.accounted, waved.counted) in
      record {
        news = waved.news;
        left = waved.left;
        aborted = is_some_left waved.left;
        later = after.world;
        apart = waved.apart;
        returned =
            call_wave-standing chunk rows (rows ++ waved.news) m u (written + length waved.news)
              (u + length waved.news) written world after.world after.results
              (is_some_left waved.left) (batch_of after same (budget_of sound.same_cap spent))
              waved.returned;
        bounded = omega (arith, sound.within, sound.accounted, waved.counted);
        complete = λ e. is_some_left-false waved.left e;
        spent = λ e. grind (
          arith,
          sound.refused_full,
          waved.refused_left,
          is_some_left-true waved.left e,
          sound.accounted,
          waved.counted,
        );
      }
