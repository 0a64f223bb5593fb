-- ===== src/Agent/Profile/Policy.antt =====
-- What a run policy that loads satisfies.
use measure_twice.Prelude.{
  ℕ, ◌*◌, ◌≤◌, ◌≡◌, subst, false, not, [], ◌∷◌, arith, ltb, nat_eq, text_eq, option_eq, ◌==◌,
  eq_of_==, ok, raise_if, bind-eq-ok, ok-injective, not_raised, not_raised_unless,
}
use measure_twice.Text.{text}
use Prim.Native.Nat.{◌%◌, ◌/◌}
use native.Mathlib.Omega.{div_any}
use measure_twice.Json.{Json}
use measure_twice.Agent.Wire.{
  not_positive, wrong_terminal_cells, tranche_too_small, tranche_splits_block, bad_retry,
  require_exact_keys, index, exact_int,
}
use measure_twice.Agent.Wire.Checks.{exact_int-equal}
use measure_twice.Agent.Profile.{
  has_positive_counts, RunPolicy, checked_policy, read_policy, policy_of_json, policy_keys,
  RetryPolicy, retry_of_json, checked_retry, eligible_of,
}

-- The cells are those of every task, model and sample, and a tranche is of complete blocks, each of
-- all models, and of at least one block.
abbrev pub IsBlocked : RunPolicy → Type 0
IsBlocked p =
    (p.terminal_cells ≡ p.task_count * p.model_count * p.samples)
    × (p.model_count ≤ p.max_cells_per_tranche)
    × ((blocks : ℕ) × (p.max_cells_per_tranche ≡ p.model_count * blocks))

blocks_of : (m n : ℕ) → m % n ≡ 0 → (blocks : ℕ) × (m ≡ n * blocks)
blocks_of m n h = (m / n, omega (arith, div_any m n, h))

not_below : (a b : ℕ) → ltb a b ≡ false → b ≤ a
not_below a b h = grind (arith, h)

checked_policy-IsBlocked : (self p : RunPolicy) → checked_policy self ≡ ok p → IsBlocked p
unfolding checked_policy
checked_policy-IsBlocked self p h =
    let (x, _, h) = bind-eq-ok (raise_if (not (has_positive_counts self)) not_positive) _ h in
    let (y, a, h) =
      bind-eq-ok
        (raise_if (not (self.terminal_cells == self.task_count * self.model_count * self.samples))
          wrong_terminal_cells)
        _ h in
    let (z, b, h) =
      bind-eq-ok (raise_if (ltb self.max_cells_per_tranche self.model_count) tranche_too_small) _
        h in
    let (w, c, h) =
      bind-eq-ok
        (raise_if (not (self.max_cells_per_tranche % self.model_count == 0)) tranche_splits_block) _
        h in
    subst IsBlocked (ok-injective h) (
      eq_of_== self.terminal_cells (self.task_count * self.model_count * self.samples) (
          not_raised_unless
            (self.terminal_cells == self.task_count * self.model_count * self.samples)
            wrong_terminal_cells y a),
      not_below self.max_cells_per_tranche self.model_count
          (not_raised (ltb self.max_cells_per_tranche self.model_count) tranche_too_small z b),
      blocks_of self.max_cells_per_tranche self.model_count (
          eq_of_== (self.max_cells_per_tranche % self.model_count) 0 (
            not_raised_unless (self.max_cells_per_tranche % self.model_count == 0)
              tranche_splits_block w c)),
    )

pub policy_of_json-IsBlocked : (v : Json) (p : RunPolicy) → policy_of_json v ≡ ok p → IsBlocked p
unfolding policy_of_json
policy_of_json-IsBlocked v p h =
    let (clean, _, h) = bind-eq-ok (require_exact_keys v policy_keys) _ h in
    let (self, _, h) = bind-eq-ok (read_policy clean) _ h in checked_policy-IsBlocked self p h

checked_retry-once :
    (given retries cap delay : Json) (r : RetryPolicy)
    → checked_retry given retries cap delay ≡ ok r
    → r.max_fresh_retries ≡ 1
unfolding checked_retry
checked_retry-once given retries cap delay r h =
    let (e, _, h) = bind-eq-ok (eligible_of given) _ h in
    let (n, a, h) = bind-eq-ok (exact_int 1 bad_retry retries) _ h in
    let (c, _, h) = bind-eq-ok (exact_int 60 bad_retry cap) _ h in
    let (d, _, h) = bind-eq-ok (exact_int 5 bad_retry delay) _ h in
    subst (λ (p : RetryPolicy). p.max_fresh_retries ≡ 1) (ok-injective h)
      (exact_int-equal 1 bad_retry retries n a)

pub retry_of_json-once :
    (v : Json) (r : RetryPolicy) → retry_of_json v ≡ ok r → r.max_fresh_retries ≡ 1
unfolding retry_of_json
retry_of_json-once v r h =
    let (clean, _, h) =
      bind-eq-ok
        (require_exact_keys v (
          text "eligible"
          ∷ text "max_fresh_retries"
          ∷ text "retry_after_cap_s"
          ∷ text "default_delay_s"
          ∷ []))
        _ h in
    let (given, _, h) = bind-eq-ok (index clean (text "eligible")) _ h in
    let (retries, _, h) = bind-eq-ok (index clean (text "max_fresh_retries")) _ h in
    let (cap, _, h) = bind-eq-ok (index clean (text "retry_after_cap_s")) _ h in
    let (delay, _, h) = bind-eq-ok (index clean (text "default_delay_s")) _ h in
    checked_retry-once given retries cap delay r h
