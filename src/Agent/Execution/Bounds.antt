-- ===== src/Agent/Execution/Bounds.antt =====
-- What an execution profile that loads satisfies.
use measure_twice.Prelude.{
  ℕ, ◌+◌, ◌*◌, ◌≡◌, ap, ◌∙◌, subst, true, not, [], ◌∷◌, nat_eq, text_eq, option_eq, eq_of_==, ok,
  raise_if, bind-eq-ok, ok-injective, not_raised_unless,
}
use measure_twice.Text.{text}
use measure_twice.Json.{Json, int}
use measure_twice.Agent.Wire.{
  bad_repetitions, bad_concurrency, bad_algorithm, wrong_attempts, require_exact_keys, index,
  exact_int, member_of, validate_safe_id, is_safe_id,
}
use measure_twice.Agent.Wire.Checks.{exact_int-equal, validate_safe_id-safe}
use measure_twice.Agent.Profile.{
  Limits, limits_of_json, RunPolicy, policy_of_json, RetryPolicy, retry_of_json,
}
use measure_twice.Agent.Profile.Policy.{IsBlocked, policy_of_json-IsBlocked, retry_of_json-once}
use measure_twice.Agent.Ceilings.{Ceilings, ceilings_of_json}
use measure_twice.Agent.Ceilings.Floors.{AreBounded, ceilings_of_json-AreBounded}
use measure_twice.Agent.Execution.{
  RunPolicies, policies_of_json, ExecutionProfile, validate_profile_version, has_attempts,
  check_attempts, RawProfile, checked_profile, raw_profile, profile_keys, parts_of, profile_of_json,
}

-- A property of each of the three policies.
abbrev pub EachPolicy : (RunPolicy → Type 0) → RunPolicies → Type 0
EachPolicy P policies = P policies.smoke × P policies.pilot × P policies.observation

policies_of_json-IsBlocked :
    (v : Json) (policies : RunPolicies)
    → policies_of_json v ≡ ok policies
    → EachPolicy IsBlocked policies
unfolding policies_of_json
policies_of_json-IsBlocked v policies h =
    let (raw, _, h) =
      bind-eq-ok (require_exact_keys v (text "smoke" ∷ text "pilot" ∷ text "observation" ∷ [])) _
        h in
    let (a, _, h) = bind-eq-ok (index raw (text "smoke")) _ h in
    let (smoke, s, h) = bind-eq-ok (policy_of_json a) _ h in
    let (b, _, h) = bind-eq-ok (index raw (text "pilot")) _ h in
    let (pilot, p, h) = bind-eq-ok (policy_of_json b) _ h in
    let (c, _, h) = bind-eq-ok (index raw (text "observation")) _ h in
    let (observation, o, h) = bind-eq-ok (policy_of_json c) _ h in
    subst (EachPolicy IsBlocked) (ok-injective h) (
      policy_of_json-IsBlocked a smoke s,
      policy_of_json-IsBlocked b pilot p,
      policy_of_json-IsBlocked c observation o,
    )

-- The provider may be asked twice for each cell.
abbrev pub IsTwice : RunPolicy → Type 0
IsTwice p = p.provider_attempts ≡ p.terminal_cells * 2

has_attempts-IsTwice :
    (policy : RunPolicy) (retries : ℕ)
    → retries ≡ 1
    → has_attempts (1 + retries) policy ≡ true
    → IsTwice policy
unfolding has_attempts
has_attempts-IsTwice policy retries one h =
    eq_of_== policy.provider_attempts (policy.terminal_cells * (1 + retries)) h
    ∙ ap (λ n. policy.terminal_cells * (1 + n)) one

check_attempts-IsTwice :
    (policies : RunPolicies) (retry : RetryPolicy) (done : Unit {0})
    → retry.max_fresh_retries ≡ 1
    → check_attempts policies retry ≡ ok done
    → EachPolicy IsTwice policies
unfolding check_attempts
check_attempts-IsTwice policies retry done one h =
    let n = retry.max_fresh_retries in
    let (x, a, h) =
      bind-eq-ok (raise_if (not (has_attempts (1 + n) policies.smoke)) wrong_attempts) _ h in
    let (y, b, h) =
      bind-eq-ok (raise_if (not (has_attempts (1 + n) policies.pilot)) wrong_attempts) _ h in
    (
      has_attempts-IsTwice policies.smoke n one
          (not_raised_unless (has_attempts (1 + n) policies.smoke) wrong_attempts x a),
      has_attempts-IsTwice policies.pilot n one
          (not_raised_unless (has_attempts (1 + n) policies.pilot) wrong_attempts y b),
      has_attempts-IsTwice policies.observation n one
          (not_raised_unless (has_attempts (1 + n) policies.observation) wrong_attempts done h),
    )

-- What the parts of a profile satisfy.
abbrev SoundParts : RunPolicies × Limits × Ceilings × RetryPolicy → Type 0
SoundParts parts =
    EachPolicy IsBlocked parts.0 × AreBounded parts.2 × (parts.3.max_fresh_retries ≡ 1)

parts_of-SoundParts :
    (clean : _) (parts : RunPolicies × Limits × Ceilings × RetryPolicy)
    → parts_of clean ≡ ok parts
    → SoundParts parts
unfolding parts_of
parts_of-SoundParts clean parts h =
    let (a, _, h) = bind-eq-ok (index clean (text "run_policy")) _ h in
    let (policies, p, h) = bind-eq-ok (policies_of_json a) _ h in
    let (b, _, h) = bind-eq-ok (index clean (text "qualification_limits")) _ h in
    let (limits, _, h) = bind-eq-ok (limits_of_json b) _ h in
    let (c, _, h) = bind-eq-ok (index clean (text "ceilings")) _ h in
    let (ceilings, q, h) = bind-eq-ok (ceilings_of_json c) _ h in
    let (d, _, h) = bind-eq-ok (index clean (text "retry")) _ h in
    let (retry, r, h) = bind-eq-ok (retry_of_json d) _ h in
    subst SoundParts (ok-injective h) (
      policies_of_json-IsBlocked a policies p,
      ceilings_of_json-AreBounded c ceilings q,
      retry_of_json-once d retry r,
    )

pub record IsProfile (p : ExecutionProfile) : Type 0 where
  pub id_safe : is_safe_id p.id ≡ true
  pub twice_repeated : p.repetitions ≡ 2
  pub one_at_a_time : p.concurrency ≡ 1
  pub blocked : EachPolicy IsBlocked p.run_policy
  pub attempts : EachPolicy IsTwice p.run_policy
  pub bounded : AreBounded p.ceilings

checked_profile-IsProfile :
    (given : ℕ) (limits : Limits) (policies : RunPolicies) (ceilings : Ceilings)
    (retry : RetryPolicy) (self : RawProfile) (p : ExecutionProfile)
    → SoundParts (policies, limits, ceilings, retry)
    → checked_profile given limits policies ceilings retry self ≡ ok p
    → IsProfile p
unfolding checked_profile
checked_profile-IsProfile given limits policies ceilings retry self p (blocked, bounded, once) h =
    let (version, _, h) = bind-eq-ok (validate_profile_version (int given)) _ h in
    let (id, i, h) = bind-eq-ok (validate_safe_id self.id) _ h in
    let (repetitions, r, h) = bind-eq-ok (exact_int 2 bad_repetitions self.repetitions) _ h in
    let (concurrency, c, h) = bind-eq-ok (exact_int 1 bad_concurrency self.concurrency) _ h in
    let (sandbox, _, h) =
      bind-eq-ok
        (member_of (text "linux-bwrap-v2" ∷ []) bad_algorithm self.sandbox_contract_version) _ h in
    let (schedule, _, h) =
      bind-eq-ok (member_of (text "schedule-v1" ∷ []) bad_algorithm self.schedule_algorithm) _ h in
    let (analysis, _, h) =
      bind-eq-ok (member_of (text "bootstrap-v1" ∷ []) bad_algorithm self.analysis_algorithm) _ h in
    let (done, a, h) = bind-eq-ok (check_attempts policies retry) _ h in
    subst IsProfile (ok-injective h) (record {
      id_safe = validate_safe_id-safe self.id id i;
      twice_repeated = exact_int-equal 2 bad_repetitions self.repetitions repetitions r;
      one_at_a_time = exact_int-equal 1 bad_concurrency self.concurrency concurrency c;
      blocked = blocked;
      attempts = check_attempts-IsTwice policies retry done once a;
      bounded = bounded;
    })

-- In an execution profile that loads, each run policy has a cell for every task, model and sample,
-- asks the provider at most twice for each, and makes tranches of complete blocks of all its models,
-- at least one block each; the evaluator's scratch space holds a page more than its bytes for each
-- file and an inode for each beside those of the directories, and takes at most the whole processor;
-- there are two repetitions, one at a time, and the id is safe.
pub profile_of_json-IsProfile :
    (v : Json) (p : ExecutionProfile) → profile_of_json v ≡ ok p → IsProfile p
unfolding profile_of_json
profile_of_json-IsProfile v p h =
    let (clean, _, h) = bind-eq-ok (require_exact_keys v profile_keys) _ h in
    let (given, _, h) = bind-eq-ok (index clean (text "schema_version")) _ h in
    let (version, _, h) = bind-eq-ok (validate_profile_version given) _ h in
    let (parts, s, h) = bind-eq-ok (parts_of clean) _ h in
    let (self, _, h) = bind-eq-ok (raw_profile clean) _ h in
    checked_profile-IsProfile version parts.1 parts.0 parts.2 parts.3 self p
      (parts_of-SoundParts clean parts s) h
