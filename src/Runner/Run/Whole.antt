-- ===== src/Runner/Run/Whole.antt =====
-- What a whole run writes, and what a resume of it then finds.
use measure_twice.Prelude.{
  ℕ, ◌+◌, ◌≤◌, ◌≡◌, refl, ap, ◌∙◌, inl, inr, Bool, true, false, ◌&&◌, ◌||◌, some, List, [], ◌∷◌,
  ◌++◌, arith, Bool-cases, nat_eq, text_eq, option_eq, length, Result, ok, Distinct,
}
use measure_twice.Json.{Codec}
use measure_twice.Suite.{Float, Item}
use measure_twice.Runner.Row.{RunRow, RunError, Cell}
use measure_twice.Runner.Sweep.{Sweep, Sweeper}
use measure_twice.Runner.Sweep.Delivery.{standing, delivered, delivered_same, Delivered, Delivers}
use measure_twice.Runner.Sweep.Delivery.Steps.{Delivered-nothing, Delivered-then}
use measure_twice.Runner.Pending.{Provider, local, claude, gemini, ModelBinding, pending_cells}
use measure_twice.Runner.Pending.Left.{Split-length}
use measure_twice.Runner.Pending.After.{pending_of_bindings, pending_of_bindings-Split}
use measure_twice.Runner.Run.{
  is_nothing, is_claude, is_gemini, any_binding, Sweepers, has_pending, has_pending_claude,
  has_pending_gemini, dispatch, add_written, sweep_bindings,
}

zero_plus : (n : ℕ) → 0 + n ≡ n
zero_plus n = omega arith

nothing_left : (left : List Cell) → length left ≡ 0 → left ≡ []
nothing_left [] h = refl
nothing_left (c ∷ left) h = absurd (ground (arith, h))

or_true : (a : Bool) {b : Bool} → b ≡ true → (a || b) ≡ true
or_true true e = refl
or_true false e = e

is_nothing-true : (cells : List Cell) → is_nothing cells ≡ true → cells ≡ []
unfolding is_nothing
is_nothing-true [] h = refl
is_nothing-true (c ∷ cells) h = absurd (ground (arith, h))

module _ (float_is : Float → ℕ → Bool) (items : List Item) (samples : ℕ) (codec : Codec)
    {W : Type 0} (sweepers : Sweepers W) where
  -- What `run` sees to before its sweep: where Claude cells are pending there is a runtime, and where
  -- Gemini cells are there is a key, and each sweep delivers.
  pub record IsReady (bindings : List ModelBinding) (done : List RunRow) : Type 0 where
    pub local_delivers : Delivers codec sweepers.sweep_local
    pub claude_delivers :
        has_pending_claude float_is items samples bindings done ≡ true
        → (sweep : Sweeper W) × (sweepers.sweep_claude ≡ some sweep) × Delivers codec sweep
    pub gemini_delivers :
        has_pending_gemini float_is items samples bindings done ≡ true
        → (sweep : Sweeper W) × (sweepers.sweep_gemini ≡ some sweep) × Delivers codec sweep

  dispatch-Delivers :
      (p : Provider)
      → Delivers codec sweepers.sweep_local
      → (is_claude p ≡ true
          → (sweep : Sweeper W) × (sweepers.sweep_claude ≡ some sweep) × Delivers codec sweep)
      → (is_gemini p ≡ true
          → (sweep : Sweeper W) × (sweepers.sweep_gemini ≡ some sweep) × Delivers codec sweep)
      → Delivers codec (dispatch sweepers p)
  unfolding is_claude is_gemini dispatch
  dispatch-Delivers local l c g = l
  dispatch-Delivers claude l c g = let (sweep, e, d) = c refl in rw e d
  dispatch-Delivers gemini l c g = let (sweep, e, d) = g refl in rw e d

  dispatch_ready :
      (b : ModelBinding) (bindings : List ModelBinding) (done : List RunRow)
      → IsReady (b ∷ bindings) done
      → has_pending float_is items samples done b ≡ true
      → Delivers codec (dispatch sweepers b.provider)
  unfolding has_pending_claude has_pending_gemini any_binding
  dispatch_ready b bindings done ready waiting =
      dispatch-Delivers b.provider ready.local_delivers
        (λ e. ready.claude_delivers (rw (e, waiting) refl))
        (λ e. ready.gemini_delivers (rw (e, waiting) refl))

  IsReady-rest :
      (b : ModelBinding) (bindings : List ModelBinding) (done : List RunRow)
      → IsReady (b ∷ bindings) done
      → IsReady bindings done
  unfolding has_pending_claude has_pending_gemini any_binding
  IsReady-rest b bindings done ready = record {
    local_delivers = ready.local_delivers;
    claude_delivers = λ e.
        ready.claude_delivers
          (or_true (is_claude b.provider && has_pending float_is items samples done b) e);
    gemini_delivers = λ e.
        ready.gemini_delivers
          (or_true (is_gemini b.provider && has_pending float_is items samples done b) e);
  }

  add_written-Delivered :
      (outcome : Result RunError (ℕ × Bool) × Sweep W) (cells : List Cell) (before : ℕ)
      (rows : List RunRow) (m u : ℕ)
      → Delivered codec outcome cells 0 rows m u
      → Delivered codec (add_written before outcome) cells before rows m u
  unfolding add_written
  add_written-Delivered outcome cells before rows m u d = record {
    news = d.news;
    left = d.left;
    aborted = d.aborted;
    later = d.later;
    apart = d.apart;
    returned = rw d.returned (
        ap
          (λ n.
            delivered codec (before + n) d.aborted (rows ++ d.news) m (u + length d.news) d.later)
          (zero_plus (length d.news)));
    bounded = d.bounded;
    complete = d.complete;
    spent = d.spent;
  }

  has_pending-true :
      (done : List RunRow) (b : ModelBinding)
      → is_nothing (pending_cells float_is done b items samples) ≡ false
      → has_pending float_is items samples done b ≡ true
  unfolding has_pending
  has_pending-true done b e = rw e refl

  -- The bindings' sweeps, one after the other, make up a sweep of all pending cells.
  sweep_bindings-Delivered :
      (done : List RunRow) (bindings : List ModelBinding) (before : ℕ) (rows : List RunRow)
      (m u : ℕ) (world : W)
      → IsReady bindings done
      → u ≤ m
      → Delivered codec
          (sweep_bindings float_is items samples sweepers done bindings before
            (standing codec rows m u world))
          (pending_of_bindings float_is done bindings items samples)
          before
          rows
          m
          u
  unfolding sweep_bindings pending_of_bindings
  sweep_bindings-Delivered done [] before rows m u world ready le =
      Delivered-nothing codec before rows m u world le
  sweep_bindings-Delivered done (b ∷ bindings) before rows m u world ready le =
      let pending = pending_cells float_is done b items samples in
      elim (Bool-cases (is_nothing pending)) [
        | inl e ↦
            rw (e, is_nothing-true pending e)
              (sweep_bindings-Delivered done bindings before rows m u world
                (IsReady-rest b bindings done ready) le)
        | inr e ↦ rw e (
            Delivered-then codec
              (add_written before
                (dispatch sweepers b.provider pending (standing codec rows m u world)))
              (sweep_bindings float_is items samples sweepers done bindings) pending
              (pending_of_bindings float_is done bindings items samples) before rows m u
              (add_written-Delivered
                (dispatch sweepers b.provider pending (standing codec rows m u world)) pending
                before rows m u
                (dispatch_ready b bindings done ready (has_pending-true done b e) pending rows m u
                  world le))
              (λ n rows' u' later le'.
                sweep_bindings-Delivered done bindings n rows' m u' later
                  (IsReady-rest b bindings done ready) le'))
      ]

  -- Let the bindings have different aliases and the items different ids, and the run be ready: each
  -- sweep that has pending cells is there and delivers. Then a run over a file of rows appends rows
  -- for pending cells and says how many: with the pending cells that a resume of the run then finds,
  -- they are the pending cells of its start. It makes no more calls than its budget, one for
  -- each row, and has spent it if it was aborted; a run that was not aborted leaves nothing pending,
  -- and neither does one whose budget is as large as the number of pending cells.
  pub sweep_bindings-progress :
      (bindings : List ModelBinding) (rows : List RunRow) (m : ℕ) (world : W)
      → Distinct (λ b. b.alias) bindings
      → Distinct (λ i. i.id) items
      → IsReady bindings rows
      → (news : List RunRow) × (aborted : Bool) × (later : W) × (sweep_bindings float_is items
            samples sweepers rows bindings 0
            (standing codec rows m 0 world)
          ≡ (ok (length news, aborted), standing codec (rows ++ news) m (length news) later))
        × (length news + length (pending_of_bindings float_is (rows ++ news) bindings items samples)
            ≡ length (pending_of_bindings float_is rows bindings items samples))
        × (length news ≤ m)
        × (aborted ≡ true → length news ≡ m)
        × (aborted ≡ false
            → pending_of_bindings float_is (rows ++ news) bindings items samples ≡ [])
        × (length (pending_of_bindings float_is rows bindings items samples) ≤ m
            → pending_of_bindings float_is (rows ++ news) bindings items samples ≡ [])
  sweep_bindings-progress bindings rows m world aliases ids ready =
      let d = sweep_bindings-Delivered rows bindings 0 rows m 0 world ready (omega arith) in
      let same =
        pending_of_bindings-Split float_is rows d.news d.left bindings items samples aliases ids
          d.apart in
      let counted = Split-length d.apart in
      (
        d.news,
        d.aborted,
        d.later,
        d.returned
            ∙ delivered_same codec d.aborted m d.later (zero_plus (length d.news)) refl
                (zero_plus (length d.news)),
        ap (λ cells. length d.news + length cells) same ∙ counted,
        omega (arith, d.bounded),
        λ e. omega (arith, d.bounded, d.spent e),
        λ e. same ∙ d.complete e,
        λ enough. same ∙ elim (Bool-cases d.aborted) [
          | inl e ↦ nothing_left d.left (omega (arith, counted, enough, d.spent e))
          | inr e ↦ d.complete e
        ],
      )
