-- ===== src/Agent/Analysis/Contract.antt =====
-- What an analysis plan that loads satisfies.
use measure_twice.Prelude.{
  ◌≡◌, subst, true, false, List, [], if◌then◌else◌, nat_eq, text_eq, option_eq, ◌==◌, contains, all,
  All, ok, raise_if, traverse, bind-eq-ok, ok-injective, traverse-All, not_raised,
}
use measure_twice.Text.{text}
use measure_twice.Json.{Json}
use measure_twice.Agent.Wire.{
  duplicate_scope, bad_policy, bad_multiplicity, bad_iterations, require_exact_keys, index,
  validate_safe_id, is_safe_id, member_of, exact_int, validate_schema_version,
}
use measure_twice.Agent.Scope.{AnalysisScope, scope_of_json, repeats}
use measure_twice.Agent.Wire.Checks.{
  validate_safe_id-safe, member_of-known, exact_int-equal, validate_schema_version-one,
}
use measure_twice.Agent.Decision.{RawPlan, Decision, no_decision, decision_of}
use measure_twice.Agent.Decision.Decided.{IsDecided, either_decision-IsDecided}
use measure_twice.Agent.Scope.Named.{IsScope, scope_of_json-IsScope}
use measure_twice.Agent.Analysis.{
  AnalysisPlan, checked_plan, plan_of_json, raw_plan, scopes_of_json, plan_keys, analysis_policies,
  multiplicity_policies,
}

-- The fields of a plan that its policy decides on.
abbrev pub decision : AnalysisPlan → Decision
decision p = record {
  candidate = p.candidate_profile_id;
  reference = p.reference_profile_id;
  margin = p.margin_points;
  confidence = p.confidence;
}

pub record IsPlan (p : AnalysisPlan) : Type 0 where
  pub version : p.schema_version ≡ 1
  pub id_safe : is_safe_id p.analysis_id ≡ true
  pub policy_known : contains analysis_policies p.policy ≡ true
  pub multiplicity_known : contains multiplicity_policies p.multiplicity ≡ true
  pub scopes_checked : All IsScope p.scopes
  pub scopes_distinct : repeats [] p.scopes ≡ false
  pub iterations : p.bootstrap_iterations ≡ 10000
  pub decided : IsDecided p.policy p.multiplicity p.scopes (decision p)

checked_plan-IsPlan :
    (scopes : List AnalysisScope) (self : RawPlan) (p : AnalysisPlan)
    → All IsScope scopes
    → checked_plan scopes self ≡ ok p
    → IsPlan p
unfolding checked_plan
checked_plan-IsPlan scopes self p all h =
    let (version, v, h) = bind-eq-ok (validate_schema_version self.schema_version) _ h in
    let (id, i, h) = bind-eq-ok (validate_safe_id self.analysis_id) _ h in
    let (policy, q, h) = bind-eq-ok (member_of analysis_policies bad_policy self.policy) _ h in
    let (x, a, h) = bind-eq-ok (raise_if (repeats [] scopes) duplicate_scope) _ h in
    let (multiplicity, m, h) =
      bind-eq-ok (member_of multiplicity_policies bad_multiplicity self.multiplicity) _ h in
    let (iterations, n, h) =
      bind-eq-ok (exact_int 10000 bad_iterations self.bootstrap_iterations) _ h in
    let (d, e, h) =
      bind-eq-ok
        (if policy == text "none"
          then no_decision multiplicity scopes self
          else decision_of multiplicity scopes self)
        _ h in
    subst IsPlan (ok-injective h) (record {
      version = validate_schema_version-one self.schema_version version v;
      id_safe = validate_safe_id-safe self.analysis_id id i;
      policy_known = member_of-known analysis_policies bad_policy self.policy policy q;
      multiplicity_known =
          member_of-known multiplicity_policies bad_multiplicity self.multiplicity multiplicity m;
      scopes_checked = all;
      scopes_distinct = not_raised (repeats [] scopes) duplicate_scope x a;
      iterations = exact_int-equal 10000 bad_iterations self.bootstrap_iterations iterations n;
      decided = either_decision-IsDecided policy multiplicity scopes self d e;
    })

-- A plan that loads is of the one schema version, under a safe id and a known policy, with 10000
-- iterations and scopes that are checked and differ. Without a policy it decides nothing: no profile,
-- scope, margin or confidence. With one it compares two different profiles of safe ids, over at least
-- one scope, at a margin of 5 points and a confidence of 0.95, and corrects for multiplicity exactly
-- if there is more than one scope.
pub plan_of_json-IsPlan : (v : Json) (p : AnalysisPlan) → plan_of_json v ≡ ok p → IsPlan p
unfolding plan_of_json
plan_of_json-IsPlan v p h =
    let (clean, _, h) = bind-eq-ok (require_exact_keys v plan_keys) _ h in
    let (given_scopes, _, h) = bind-eq-ok (index clean (text "scopes")) _ h in
    let (raw_scopes, _, h) = bind-eq-ok (scopes_of_json given_scopes) _ h in
    let (given, _, h) = bind-eq-ok (index clean (text "schema_version")) _ h in
    let (version, _, h) = bind-eq-ok (validate_schema_version given) _ h in
    let (scopes, t, h) = bind-eq-ok (traverse scope_of_json raw_scopes) _ h in
    let (self, _, h) = bind-eq-ok (raw_plan clean version) _ h in
    checked_plan-IsPlan scopes self p
      (traverse-All IsScope scope_of_json scope_of_json-IsScope raw_scopes scopes t) h
