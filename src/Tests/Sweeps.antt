-- ===== src/Tests/Sweeps.antt =====
-- Tests of the sweeps of measure_twice/runner.py and of the pool of
-- measure_twice/adapters/claude_cli.py.
use measure_twice.Prelude.{
  ℕ, zero, suc, ◌+◌, ◌≤◌, ◌≡◌, refl, sym, ap, inl, inr, Bool, true, false, Option, none, some, List,
  [], ◌∷◌, ◌++◌, append_assoc, arith, Option-cases, nat_eq, text_eq, option_eq, length, drop, All,
  ok, Distinct,
}
use measure_twice.Text.{Text, text}
use measure_twice.Suite.{Float}
use measure_twice.Runner.Row.{RunRow, ModelCallResult}
use measure_twice.Runner.Sweep.{CallBudget, consume, sweep_sequential}
use measure_twice.Runner.Sweep.Budgeted.{Answers}
use measure_twice.Runner.Sweep.Delivery.{standing, Delivers, sweep_sequential-Delivers}
use measure_twice.Runner.Sweep.Pool.{
  Slot, waiting, calling, refused, answered, Pool, spend, refuse, answer, Reach, here, next,
  submitted, Collected, done, result_of, marker_of,
}
use measure_twice.Runner.Sweep.Pool.Schedule.{IsSound, Reach-IsSound}
use measure_twice.Runner.Waves.{BatchCall, sweep_claude, chunks}
use measure_twice.Runner.Waves.Pooled.{Pooled}
use measure_twice.Runner.Waves.Pooled.Every.{sweep_claude-Delivers}
use measure_twice.Runner.Waves.Pooled.Chunks.{concat, chunks_complete}
use measure_twice.Runner.Pending.{local, ModelBinding}
use measure_twice.Runner.Pending.After.{pending_of_bindings}
use measure_twice.Runner.Run.{
  Sweepers, sweep_bindings, has_pending_claude, has_pending_gemini, is_claude, is_gemini,
  any_binding,
}
use measure_twice.Runner.Run.Whole.{IsReady, sweep_bindings-progress}
use measure_twice.Tests.Runner.{items, cells, call, answer as reply, scorer, matched, codec, rows}

chunks_complete_example :
    (concat (chunks 1 cells) ≡ cells) × All (λ chunk. length chunk ≤ 1) (chunks 1 cells)
chunks_complete_example = chunks_complete 0 cells

-- Two requests share the last unit: the second thread takes it, and the first is refused.
abbrev pool_of : ℕ → List Slot → Pool
pool_of u slots = record { budget = record { max_calls = 3; used = u }; slots = slots }

contended : Reach (pool_of 2 (submitted 2)) (pool_of 3 (refused ∷ answered reply ∷ []))
unfolding consume
contended =
    next {q = pool_of 3 (refused ∷ calling ∷ [])}
      (next {q = pool_of 3 (waiting ∷ calling ∷ [])}
        (next {q = pool_of 2 (waiting ∷ waiting ∷ [])} here
          (spend (waiting ∷ []) [] refl refl refl))
        (refuse [] (calling ∷ []) refl refl refl refl))
      (answer (refused ∷ []) [] reply refl refl refl)

Reach-IsSound_example : IsSound 2 3 2 (pool_of 3 (refused ∷ answered reply ∷ []))
Reach-IsSound_example =
    Reach-IsSound 2 3 2 (pool_of 3 (refused ∷ answered reply ∷ [])) (omega arith) contended

-- A pool whose threads take turns in the order of the requests.
ordered :
    (n : ℕ) (b : CallBudget)
    → (slots : List Slot) × (after : CallBudget) × (results : List (Option ModelCallResult))
      × Collected slots results
      × ((p : Pool) (before : List Slot)
          → Reach p (record { budget = b; slots = before ++ submitted n })
          → Reach p (record { budget = after; slots = before ++ slots }))
ordered zero b = ([], b, [], done, λ p before reach. reach)
ordered (suc n) b = elim (Option-cases (consume b)) [
  | inl e ↦
      let (slots, after, results, collected, reached) = ordered n b in
      (
        refused ∷ slots,
        after,
        none ∷ results,
        marker_of collected,
        λ p before reach. rw (sym (append_assoc before (refused ∷ []) slots)) (
            reached p (before ++ refused ∷ []) (
              next reach (
                refuse before (submitted n) refl e refl
                  (append_assoc before (refused ∷ []) (submitted n))))),
      )
  | inr (spent, e) ↦
      let (slots, after, results, collected, reached) = ordered n spent in
      (
        answered reply ∷ slots,
        after,
        some reply ∷ results,
        result_of reply collected,
        λ p before reach. rw (sym (append_assoc before (answered reply ∷ []) slots)) (
            reached p (before ++ answered reply ∷ []) (
              next
                (next {r = record { budget = spent; slots = before ++ calling ∷ submitted n }} reach
                  (spend before (submitted n) refl e refl))
                (answer before (submitted n) reply refl refl
                  (append_assoc before (answered reply ∷ []) (submitted n))))),
      )
]

batch : BatchCall ℕ
batch requests budget calls =
    let (slots, after, results, collected, reached) = ordered (length requests) budget in
    record { results = results; budget = after; world = calls + 1 }

batch-Pooled : Pooled batch
unfolding batch
batch-Pooled requests m u world =
    let b : CallBudget = record { max_calls = m; used = u } in
    let (slots, after, results, collected, reached) = ordered (length requests) b in
    (
      record { budget = after; slots = slots },
      reached (record { budget = b; slots = submitted (length requests) }) [] here,
      collected,
      refl,
    )

answers : Answers scorer
answers = λ item text. (matched, refl)

sweep_claude-Delivers_example : Delivers codec (sweep_claude codec (text "r") scorer batch 2)
sweep_claude-Delivers_example =
    sweep_claude-Delivers codec (text "r") scorer batch answers batch-Pooled 1

abbrev bindings : List ModelBinding
bindings =
    record { alias = text "m"; provider = local; requested_model = text "m-large" }
    ∷ record { alias = text "n"; provider = local; requested_model = text "n" }
    ∷ []

abbrev sweepers : Sweepers ℕ
sweepers = record {
  sweep_local = sweep_sequential codec call (text "r") scorer;
  sweep_claude = none;
  sweep_gemini = none;
}

abbrev float_is : Float → ℕ → Bool
float_is = λ x k. false

ready : IsReady float_is items 2 codec sweepers bindings rows
unfolding has_pending_claude has_pending_gemini any_binding is_claude is_gemini
ready = record {
  local_delivers = sweep_sequential-Delivers codec call (text "r") scorer answers;
  claude_delivers = λ e. absurd (ground (arith, e));
  gemini_delivers = λ e. absurd (ground (arith, e));
}

first_sign : Text → ℕ
first_sign [] = 0
first_sign (c ∷ t) = c

aliases : Distinct (λ b. b.alias) bindings
aliases = ((λ e. ground (arith, ap first_sign e), tt), (tt, tt))

ids : Distinct (λ i. i.id) items
ids = ((λ e. ground (arith, ap (λ t. first_sign (drop 1 t)) e), tt), (tt, tt))

sweep_bindings-progress_example :
    (news : List RunRow) × (aborted : Bool) × (later : ℕ) × (sweep_bindings float_is items 2
        sweepers rows bindings 0
        (standing codec rows 3 0 0)
      ≡ (ok (length news, aborted), standing codec (rows ++ news) 3 (length news) later))
    × (length news + length (pending_of_bindings float_is (rows ++ news) bindings items 2)
        ≡ length (pending_of_bindings float_is rows bindings items 2))
    × (length news ≤ 3)
    × (aborted ≡ true → length news ≡ 3)
    × (aborted ≡ false → pending_of_bindings float_is (rows ++ news) bindings items 2 ≡ [])
    × (length (pending_of_bindings float_is rows bindings items 2) ≤ 3
        → pending_of_bindings float_is (rows ++ news) bindings items 2 ≡ [])
sweep_bindings-progress_example =
    sweep_bindings-progress float_is items 2 codec sweepers bindings rows 3 0 aliases ids ready
