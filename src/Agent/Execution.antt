-- ===== src/Agent/Execution.antt =====
-- measure_twice/agent_bench/models.py: `ExecutionProfile` and its binding.
pub mod Bounds
use measure_twice.Prelude.{
  ℕ, zero, suc, ◌+◌, ◌-◌, ◌*◌, ◌≤◌, ◌<◌, String, ◌≡◌, refl, sym, ap, ◌∙◌, subst, ◌≢◌, ◌↔◌, ◌⊎◌, inl,
  inr, Bool, true, false, not, ◌&&◌, ◌||◌, Option, none, some, List, [], ◌∷◌, ◌++◌, map, append-nil,
  append_assoc, arith, ltb, leb, if◌then◌else◌, Bool-cases, Option-cases, Eq, nat_eq, text_eq,
  option_eq, ◌==◌, contains, ==_refl, eq_of_==, length, take, drop, all, All, length-append,
  All-append, All-map, Result, ok, err, ◌>>=◌, ◌>>◌, raise_if, or_raise, traverse, bind-eq-ok,
  Result-cases, ok-injective, traverse-All, traverse-map, List-cases, not_raised, not_raised_unless,
  keep, keep-keep, keep-append, keep-ext, All-keep, Distinct, Distinct-keep, Distinct-append,
}
use measure_twice.Text.{
  Text, text, is_space, strip_left, strip_right, strip, is_blank, is_digit, decimal, is_break,
  cons_line, splitlines, split, join, unlines,
}
use measure_twice.Json.{
  Json, Items, Fields, null, bool, int, neg, flt, str, arr, obj, nil, cons, field, end, to_list,
  of_list,
}
use measure_twice.Agent.Wire.{
  AgentInputError, not_positive, bandwidth_too_large, tmpfs_too_small, too_few_inodes, bad_version,
  unsupported_version, bad_repetitions, bad_concurrency, bad_algorithm, wrong_attempts,
  wrong_suite_profile, wrong_model_profile, require_exact_keys, index, exact_int, member_of,
  require_positive_int, validate_safe_id,
}
use measure_twice.Agent.Models.{ModelSpec}
use measure_twice.Agent.Profile.{
  positive_field, all_positive, Limits, limits_of_json, RunPolicy, policy_of_json, RetryPolicy,
  retry_of_json,
}
use measure_twice.Agent.Ceilings.{Ceilings, ceilings_of_json}

-- The values of the dict `run_policy`, whose keys are `RUN_CLASSES`.
pub record RunPolicies : Type 0 where
  pub smoke : RunPolicy
  pub pilot : RunPolicy
  pub observation : RunPolicy

-- the dict of the policies
unfoldable pub policies_of_json : Json → Result AgentInputError RunPolicies
policies_of_json v = do
  raw_policy ← require_exact_keys v (text "smoke" ∷ text "pilot" ∷ text "observation" ∷ [])
  given_smoke ← index raw_policy (text "smoke")
  smoke ← policy_of_json given_smoke
  given_pilot ← index raw_policy (text "pilot")
  pilot ← policy_of_json given_pilot
  given_observation ← index raw_policy (text "observation")
  observation ← policy_of_json given_observation
  ok (record { smoke = smoke; pilot = pilot; observation = observation })

pub record ExecutionProfile : Type 0 where
  pub schema_version : ℕ
  pub id : Text
  pub qualification_limits : Limits
  pub run_policy : RunPolicies
  pub repetitions : ℕ
  pub concurrency : ℕ
  pub ceilings : Ceilings
  pub retry : RetryPolicy
  pub sandbox_contract_version : Text
  pub schedule_algorithm : Text
  pub analysis_algorithm : Text

-- `_validate_execution_profile_schema_version`
unfoldable pub validate_profile_version : Json → Result AgentInputError ℕ
validate_profile_version (int n) = raise_if (not (n == 2)) unsupported_version >> ok n
validate_profile_version (neg n) = err unsupported_version
validate_profile_version v = err bad_version

-- whether `provider_attempts` is what the retries ask for
unfoldable pub has_attempts : ℕ → RunPolicy → Bool
has_attempts multiplier p = p.provider_attempts == p.terminal_cells * multiplier

-- the loop over the policies at the end of `__post_init__`
unfoldable pub check_attempts : RunPolicies → RetryPolicy → Result AgentInputError (Unit {0})
check_attempts policies retry = do
  raise_if (not (has_attempts (1 + retry.max_fresh_retries) policies.smoke)) wrong_attempts
  raise_if (not (has_attempts (1 + retry.max_fresh_retries) policies.pilot)) wrong_attempts
  raise_if (not (has_attempts (1 + retry.max_fresh_retries) policies.observation)) wrong_attempts

-- The fields that `from_mapping` hands on as they are.
pub record RawProfile : Type 0 where
  pub id : Json
  pub repetitions : Json
  pub concurrency : Json
  pub sandbox_contract_version : Json
  pub schedule_algorithm : Json
  pub analysis_algorithm : Json

-- `ExecutionProfile.__post_init__`
unfoldable pub checked_profile :
    ℕ
    → Limits
    → RunPolicies
    → Ceilings
    → RetryPolicy
    → RawProfile
    → Result AgentInputError ExecutionProfile
checked_profile given limits policies ceilings retry self = do
  version ← validate_profile_version (int given)
  id ← validate_safe_id self.id
  repetitions ← exact_int 2 bad_repetitions self.repetitions
  concurrency ← exact_int 1 bad_concurrency self.concurrency
  sandbox ← member_of (text "linux-bwrap-v2" ∷ []) bad_algorithm self.sandbox_contract_version
  schedule ← member_of (text "schedule-v1" ∷ []) bad_algorithm self.schedule_algorithm
  analysis ← member_of (text "bootstrap-v1" ∷ []) bad_algorithm self.analysis_algorithm
  check_attempts policies retry
  ok (record {
    schema_version = version;
    id = id;
    qualification_limits = limits;
    run_policy = policies;
    repetitions = repetitions;
    concurrency = concurrency;
    ceilings = ceilings;
    retry = retry;
    sandbox_contract_version = sandbox;
    schedule_algorithm = schedule;
    analysis_algorithm = analysis;
  })

-- the fields of a profile that are handed on
unfoldable pub raw_profile : Fields → Result AgentInputError RawProfile
raw_profile clean = do
  id ← index clean (text "id")
  repetitions ← index clean (text "repetitions")
  concurrency ← index clean (text "concurrency")
  sandbox ← index clean (text "sandbox_contract_version")
  schedule ← index clean (text "schedule_algorithm")
  analysis ← index clean (text "analysis_algorithm")
  ok (record {
    id = id;
    repetitions = repetitions;
    concurrency = concurrency;
    sandbox_contract_version = sandbox;
    schedule_algorithm = schedule;
    analysis_algorithm = analysis;
  })

abbrev pub profile_keys : List Text
profile_keys =
    text "schema_version"
    ∷ text "id"
    ∷ text "qualification_limits"
    ∷ text "run_policy"
    ∷ text "repetitions"
    ∷ text "concurrency"
    ∷ text "ceilings"
    ∷ text "retry"
    ∷ text "sandbox_contract_version"
    ∷ text "schedule_algorithm"
    ∷ text "analysis_algorithm"
    ∷ []

-- the parts of a profile that are objects of their own, in the order they are read
unfoldable pub parts_of :
    Fields → Result AgentInputError (RunPolicies × Limits × Ceilings × RetryPolicy)
parts_of clean = do
  given_policies ← index clean (text "run_policy")
  policies ← policies_of_json given_policies
  given_limits ← index clean (text "qualification_limits")
  limits ← limits_of_json given_limits
  given_ceilings ← index clean (text "ceilings")
  ceilings ← ceilings_of_json given_ceilings
  given_retry ← index clean (text "retry")
  retry ← retry_of_json given_retry
  ok (policies, limits, ceilings, retry)

-- `ExecutionProfile.from_mapping`
unfoldable pub profile_of_json : Json → Result AgentInputError ExecutionProfile
profile_of_json v = do
  clean ← require_exact_keys v profile_keys
  given ← index clean (text "schema_version")
  version ← validate_profile_version given
  parts ← parts_of clean
  self ← raw_profile clean
  checked_profile version parts.1 parts.0 parts.2 parts.3 self

-- the loop of `validate_execution_profile_binding` over the selected models
unfoldable pub check_bound : Text → List ModelSpec → Result AgentInputError (Unit {0})
check_bound id [] = ok tt
check_bound id (m ∷ models) =
    let rest = check_bound id models in
    raise_if (not (m.execution_profile_id == id)) wrong_model_profile >> rest

-- `validate_execution_profile_binding`
unfoldable pub validate_execution_profile_binding :
    ExecutionProfile → Json → List ModelSpec → Result AgentInputError (Unit {0})
validate_execution_profile_binding profile suite_execution_profile_id selected_profiles = do
  suite_id ← validate_safe_id suite_execution_profile_id
  raise_if (not (suite_id == profile.id)) wrong_suite_profile
  check_bound profile.id selected_profiles
