-- ===== src/Agent/Profile.antt =====
-- measure_twice/agent_bench/models.py: `Limits`, `RunPolicy` and `RetryPolicy`.
pub mod Policy
use measure_twice.Prelude.{
  ℕ, zero, suc, ◌+◌, ◌-◌, ◌*◌, ◌≤◌, ◌<◌, String, ◌≡◌, refl, sym, ap, ◌∙◌, subst, ◌≢◌, ◌↔◌, ◌⊎◌, inl,
  inr, Bool, true, false, not, ◌&&◌, ◌||◌, Option, none, some, List, [], ◌∷◌, ◌++◌, map, append-nil,
  append_assoc, arith, ltb, leb, if◌then◌else◌, Bool-cases, Option-cases, Eq, nat_eq, text_eq,
  option_eq, ◌==◌, contains, ==_refl, eq_of_==, length, take, drop, all, All, length-append,
  All-append, All-map, Result, ok, err, ◌>>=◌, ◌>>◌, raise_if, or_raise, traverse, bind-eq-ok,
  Result-cases, ok-injective, traverse-All, traverse-map, List-cases, not_raised, not_raised_unless,
  keep, keep-keep, keep-append, keep-ext, All-keep, Distinct, Distinct-keep, Distinct-append,
}
use measure_twice.Text.{
  Text, text, is_space, strip_left, strip_right, strip, is_blank, is_digit, decimal, is_break,
  cons_line, splitlines, split, join, unlines,
}
use Prim.Native.Nat.{◌%◌}
use measure_twice.Json.{
  Json, Items, Fields, null, bool, int, neg, flt, str, arr, obj, nil, cons, field, end, to_list,
  of_list,
}
use measure_twice.Agent.Wire.{
  AgentInputError, not_positive, wrong_terminal_cells, tranche_too_small, tranche_splits_block,
  bandwidth_too_large, tmpfs_too_small, too_few_inodes, bad_retry, require_exact_keys, index,
  exact_int, require_positive_int,
}

-- `_WIRE.require_positive_int(clean[key])`
unfoldable pub positive_field : Fields → Text → Result AgentInputError ℕ
positive_field clean key = do v ← index clean key; require_positive_int v

-- the same test of the fields of an object that is made
abbrev pub all_positive : List ℕ → Bool
all_positive ns = all (λ n. not (n == 0)) ns

pub record Limits : Type 0 where
  pub agent_timeout_s : ℕ
  pub evaluator_timeout_s : ℕ

-- `Limits.from_mapping`, with `__post_init__`
unfoldable pub limits_of_json : Json → Result AgentInputError Limits
limits_of_json v = do
  clean ← require_exact_keys v (text "agent_timeout_s" ∷ text "evaluator_timeout_s" ∷ [])
  agent ← positive_field clean (text "agent_timeout_s")
  evaluator ← positive_field clean (text "evaluator_timeout_s")
  raise_if (not (all_positive (agent ∷ evaluator ∷ []))) not_positive
  ok (record { agent_timeout_s = agent; evaluator_timeout_s = evaluator })

-- `Limits.to_mapping`
unfoldable pub limits_to_mapping : Limits → Json
limits_to_mapping l = obj (
    field (text "agent_timeout_s") (int l.agent_timeout_s)
      (field (text "evaluator_timeout_s") (int l.evaluator_timeout_s) end))

pub record RunPolicy : Type 0 where
  pub limits : Limits
  pub task_count : ℕ
  pub model_count : ℕ
  pub samples : ℕ
  pub max_cells_per_tranche : ℕ
  pub terminal_cells : ℕ
  pub provider_attempts : ℕ
  pub wall_s : ℕ

-- `require_positive_int` of every number of the object
unfoldable pub has_positive_counts : RunPolicy → Bool
has_positive_counts self = all_positive (
    self.task_count ∷ self.model_count ∷ self.samples ∷ self.max_cells_per_tranche
    ∷ self.terminal_cells ∷ self.provider_attempts ∷ self.wall_s ∷ [])

-- `RunPolicy.__post_init__`
unfoldable pub checked_policy : RunPolicy → Result AgentInputError RunPolicy
checked_policy self = do
  raise_if (not (has_positive_counts self)) not_positive
  raise_if (not (self.terminal_cells == self.task_count * self.model_count * self.samples))
      wrong_terminal_cells
  raise_if (ltb self.max_cells_per_tranche self.model_count) tranche_too_small
  raise_if (not (self.max_cells_per_tranche % self.model_count == 0)) tranche_splits_block
  ok self

abbrev pub policy_keys : List Text
policy_keys =
    text "limits"
    ∷ text "task_count"
    ∷ text "model_count"
    ∷ text "samples"
    ∷ text "max_cells_per_tranche"
    ∷ text "terminal_cells"
    ∷ text "provider_attempts"
    ∷ text "wall_s"
    ∷ []

-- the arguments of the constructor
unfoldable pub read_policy : Fields → Result AgentInputError RunPolicy
read_policy clean = do
  given ← index clean (text "limits")
  limits ← limits_of_json given
  task_count ← positive_field clean (text "task_count")
  model_count ← positive_field clean (text "model_count")
  samples ← positive_field clean (text "samples")
  max_cells_per_tranche ← positive_field clean (text "max_cells_per_tranche")
  terminal_cells ← positive_field clean (text "terminal_cells")
  provider_attempts ← positive_field clean (text "provider_attempts")
  wall_s ← positive_field clean (text "wall_s")
  ok (record {
    limits = limits;
    task_count = task_count;
    model_count = model_count;
    samples = samples;
    max_cells_per_tranche = max_cells_per_tranche;
    terminal_cells = terminal_cells;
    provider_attempts = provider_attempts;
    wall_s = wall_s;
  })

-- `RunPolicy.from_mapping`
unfoldable pub policy_of_json : Json → Result AgentInputError RunPolicy
policy_of_json v = do
  clean ← require_exact_keys v policy_keys
  self ← read_policy clean
  checked_policy self

-- `RunPolicy.to_mapping`
unfoldable pub policy_to_mapping : RunPolicy → Json
policy_to_mapping p = obj (
    field (text "limits") (limits_to_mapping p.limits) (
      field (text "task_count") (int p.task_count) (
        field (text "model_count") (int p.model_count) (
          field (text "samples") (int p.samples) (
            field (text "max_cells_per_tranche") (int p.max_cells_per_tranche) (
              field (text "terminal_cells") (int p.terminal_cells) (
                field (text "provider_attempts") (int p.provider_attempts)
                  (field (text "wall_s") (int p.wall_s) end))))))))

pub record RetryPolicy : Type 0 where
  pub eligible : List Text
  pub max_fresh_retries : ℕ
  pub retry_after_cap_s : ℕ
  pub default_delay_s : ℕ

-- `RETRY_CLASSES`
abbrev pub retry_classes : List Text
retry_classes = text "rate-limit" ∷ text "provider-5xx" ∷ text "preterminal-transport" ∷ []

-- whether the items are exactly the texts
unfoldable pub are_texts : List Text → Items → Bool
are_texts [] nil = true
are_texts (s ∷ texts) (cons (str t) rest) = s == t && are_texts texts rest
are_texts texts items = false

-- the test of `eligible`
unfoldable pub eligible_of : Json → Result AgentInputError (List Text)
eligible_of (arr v) = raise_if (not (are_texts retry_classes v)) bad_retry >> ok retry_classes
eligible_of v = err bad_retry

-- `RetryPolicy.__post_init__`
unfoldable pub checked_retry : Json → Json → Json → Json → Result AgentInputError RetryPolicy
checked_retry given retries cap delay = do
  eligible ← eligible_of given
  max_fresh_retries ← exact_int 1 bad_retry retries
  retry_after_cap_s ← exact_int 60 bad_retry cap
  default_delay_s ← exact_int 5 bad_retry delay
  ok (record {
    eligible = eligible;
    max_fresh_retries = max_fresh_retries;
    retry_after_cap_s = retry_after_cap_s;
    default_delay_s = default_delay_s;
  })

-- `RetryPolicy.from_mapping`
unfoldable pub retry_of_json : Json → Result AgentInputError RetryPolicy
retry_of_json v = do
  clean ← require_exact_keys v (
      text "eligible"
      ∷ text "max_fresh_retries"
      ∷ text "retry_after_cap_s"
      ∷ text "default_delay_s"
      ∷ [])
  given ← index clean (text "eligible")
  retries ← index clean (text "max_fresh_retries")
  cap ← index clean (text "retry_after_cap_s")
  delay ← index clean (text "default_delay_s")
  checked_retry given retries cap delay
