-- ===== src/Runner/Sweep/Pool.antt =====
-- measure_twice/adapters/claude_cli.py: `claude_call_batch`, a pool of calls that share one budget.
-- The threads of the pool take turns in any order; a state of the pool holds a slot for each
-- request, and a step is what one thread does next to the shared budget or to its slot.
pub mod Schedule
use measure_twice.Prelude.{
  ℕ, zero, suc, ◌+◌, ◌-◌, ◌*◌, ◌≤◌, ◌<◌, String, ◌≡◌, refl, sym, ap, ◌∙◌, subst, ◌≢◌, ◌↔◌, ◌⊎◌, inl,
  inr, Bool, true, false, not, ◌&&◌, ◌||◌, Option, none, some, List, [], ◌∷◌, ◌++◌, map, append-nil,
  append_assoc, arith, ltb, leb, if◌then◌else◌, Bool-cases, Option-cases, Eq, nat_eq, text_eq,
  option_eq, ◌==◌, contains, ==_refl, eq_of_==, length, take, drop, all, All, length-append,
  All-append, All-map, Result, ok, err, ◌>>=◌, ◌>>◌, raise_if, or_raise, traverse, bind-eq-ok,
  Result-cases, ok-injective, traverse-All, traverse-map, List-cases, not_raised, not_raised_unless,
  keep, keep-keep, keep-append, keep-ext, All-keep, Distinct, Distinct-keep, Distinct-append,
}
use measure_twice.Runner.Row.{ModelCallResult}
use measure_twice.Runner.Sweep.{CallBudget, consume}

-- What one call of `claude_call` has come to: it has not reached `budget.consume()`, it has spent
-- its unit and waits for the subprocess, it was refused, or it has returned.
pub data Slot : Type 0 where
  waiting calling refused : Slot
  answered : ModelCallResult → Slot

pub record Pool : Type 0 where
  pub budget : CallBudget
  pub slots : List Slot

pub data Step (p q : Pool) : Type 0 where
  spend :
      (before after : List Slot)
      → p.slots ≡ before ++ (waiting ∷ after)
      → consume p.budget ≡ some q.budget
      → q.slots ≡ before ++ (calling ∷ after)
      → Step p q
  refuse :
      (before after : List Slot)
      → p.slots ≡ before ++ (waiting ∷ after)
      → consume p.budget ≡ none
      → q.budget ≡ p.budget
      → q.slots ≡ before ++ (refused ∷ after)
      → Step p q
  answer :
      (before after : List Slot) (result : ModelCallResult)
      → p.slots ≡ before ++ (calling ∷ after)
      → q.budget ≡ p.budget
      → q.slots ≡ before ++ (answered result ∷ after)
      → Step p q

pub data Reach (p : Pool) : Pool → Type 0 where
  here : Reach p p
  next : {q r : Pool} → Reach p q → Step q r → Reach p r

-- The slots of requests that have just been submitted.
abbrev pub submitted : ℕ → List Slot
submitted zero = []
submitted (suc n) = waiting ∷ submitted n

-- The list that `claude_call_batch` returns once each call has returned or was refused, with `none`
-- for a `BudgetExhaustedError`.
pub data Collected : List Slot → List (Option ModelCallResult) → Type 0 where
  done : Collected [] []
  result_of :
      {slots : List Slot} {results : List (Option ModelCallResult)} (result : ModelCallResult)
      → Collected slots results
      → Collected (answered result ∷ slots) (some result ∷ results)
  marker_of :
      {slots : List Slot} {results : List (Option ModelCallResult)}
      → Collected slots results
      → Collected (refused ∷ slots) (none ∷ results)

-- How many units of the budget a slot has spent, and how many it was refused.
abbrev pub spent_by : Slot → ℕ
spent_by waiting = 0
spent_by calling = 1
spent_by refused = 0
spent_by (answered r) = 1

abbrev pub refused_to : Slot → ℕ
refused_to waiting = 0
refused_to calling = 0
refused_to refused = 1
refused_to (answered r) = 0

abbrev pub total : (Slot → ℕ) → List Slot → ℕ
total weight [] = 0
total weight (slot ∷ slots) = weight slot + total weight slots
