-- ===== src/Agent/Analysis.antt =====
-- measure_twice/agent_bench/analysis.py: `AnalysisPlan`.
pub mod Contract
pub mod Roundtrip
use measure_twice.Prelude.{
  ℕ, zero, suc, ◌+◌, ◌-◌, ◌*◌, ◌≤◌, ◌<◌, String, ◌≡◌, refl, sym, ap, ◌∙◌, subst, ◌≢◌, ◌↔◌, ◌⊎◌, inl,
  inr, Bool, true, false, not, ◌&&◌, ◌||◌, Option, none, some, List, [], ◌∷◌, ◌++◌, map, append-nil,
  append_assoc, arith, ltb, leb, if◌then◌else◌, Bool-cases, Option-cases, Eq, nat_eq, text_eq,
  option_eq, ◌==◌, contains, ==_refl, eq_of_==, length, take, drop, all, All, length-append,
  All-append, All-map, Result, ok, err, ◌>>=◌, ◌>>◌, raise_if, or_raise, traverse, bind-eq-ok,
  Result-cases, ok-injective, traverse-All, traverse-map, List-cases, not_raised, not_raised_unless,
  keep, keep-keep, keep-append, keep-ext, All-keep, Distinct, Distinct-keep, Distinct-append,
}
use measure_twice.Text.{
  Text, text, is_space, strip_left, strip_right, strip, is_blank, is_digit, decimal, is_break,
  cons_line, splitlines, split, join, unlines,
}
use measure_twice.Json.{
  Json, Items, Fields, null, bool, int, neg, flt, str, arr, obj, nil, cons, field, end, to_list,
  of_list, to_list-of_list, lookup, keys,
}
use measure_twice.Suite.{Float}
use measure_twice.Ledger.Source.{without, is_empty}
use measure_twice.Agent.Wire.{
  AgentInputError, unreadable, not_object, bad_version, unsupported_version, unsafe_id,
  blank_string, lone_surrogate, not_positive, no_file, key_error, not_encodable, bad_keys,
  bad_scope, not_confirmatory, overall_with_id, scope_without_id, duplicate_scope, bad_policy,
  scopes_not_list, bad_multiplicity, bad_iterations, none_with_profiles, none_with_scopes,
  none_with_decision, none_with_multiplicity, no_profiles, same_profiles, bad_margin,
  bad_confidence, no_scopes, wrong_multiplicity, duplicate_roster, not_in_roster, unknown_family,
  unknown_tag, require_exact_keys, index, is_null, validate_safe_id, is_safe_id, is_safe_first,
  is_safe_sign, member_of, exact_int, validate_schema_version,
}
use measure_twice.Agent.Scope.{
  AnalysisScope, scope_kinds, is_true, scope_id_of, checked_scope, scope_of_json, scope_to_mapping,
  scope_keys, json_of, has_scope, repeats, no_scope,
}
use measure_twice.Agent.Decision.{
  RawPlan, Decision, undecided, no_decision, decision_of, confidence_level, confidence_of,
  expected_multiplicity,
}

abbrev pub analysis_policies : List Text
analysis_policies = text "none" ∷ text "superiority" ∷ text "noninferiority" ∷ []

abbrev pub multiplicity_policies : List Text
multiplicity_policies = text "none" ∷ text "bonferroni" ∷ []

pub record AnalysisPlan : Type 0 where
  pub schema_version : ℕ
  pub analysis_id : Text
  pub policy : Text
  pub candidate_profile_id : Option Text
  pub reference_profile_id : Option Text
  pub scopes : List AnalysisScope
  pub margin_points : Option ℕ
  pub confidence : Option Float
  pub multiplicity : Text
  pub bootstrap_iterations : ℕ

-- `AnalysisPlan.__post_init__`
unfoldable pub checked_plan : List AnalysisScope → RawPlan → Result AgentInputError AnalysisPlan
checked_plan scopes self = do
  version ← validate_schema_version self.schema_version
  id ← validate_safe_id self.analysis_id
  policy ← member_of analysis_policies bad_policy self.policy
  raise_if (repeats [] scopes) duplicate_scope
  multiplicity ← member_of multiplicity_policies bad_multiplicity self.multiplicity
  iterations ← exact_int 10000 bad_iterations self.bootstrap_iterations
  decision ←
      if policy == text "none"
      then no_decision multiplicity scopes self
      else decision_of multiplicity scopes self
  ok (record {
    schema_version = version;
    analysis_id = id;
    policy = policy;
    candidate_profile_id = decision.candidate;
    reference_profile_id = decision.reference;
    scopes = scopes;
    margin_points = decision.margin;
    confidence = decision.confidence;
    multiplicity = multiplicity;
    bootstrap_iterations = iterations;
  })

abbrev pub plan_keys : List Text
plan_keys =
    text "schema_version"
    ∷ text "analysis_id"
    ∷ text "policy"
    ∷ text "candidate_profile_id"
    ∷ text "reference_profile_id"
    ∷ text "scopes"
    ∷ text "margin_points"
    ∷ text "confidence"
    ∷ text "multiplicity"
    ∷ text "bootstrap_iterations"
    ∷ []

-- `isinstance(raw_scopes, list)`
unfoldable pub scopes_of_json : Json → Result AgentInputError (List Json)
scopes_of_json (arr v) = ok (to_list v)
scopes_of_json v = err scopes_not_list

-- the arguments of the constructor
unfoldable pub raw_plan : Fields → ℕ → Result AgentInputError RawPlan
raw_plan clean version = do
  id ← index clean (text "analysis_id")
  policy ← index clean (text "policy")
  candidate ← index clean (text "candidate_profile_id")
  reference ← index clean (text "reference_profile_id")
  margin ← index clean (text "margin_points")
  confidence ← index clean (text "confidence")
  multiplicity ← index clean (text "multiplicity")
  iterations ← index clean (text "bootstrap_iterations")
  ok (record {
    schema_version = int version;
    analysis_id = id;
    policy = policy;
    candidate_profile_id = candidate;
    reference_profile_id = reference;
    margin_points = margin;
    confidence = confidence;
    multiplicity = multiplicity;
    bootstrap_iterations = iterations;
  })

-- `AnalysisPlan.from_mapping`
unfoldable pub plan_of_json : Json → Result AgentInputError AnalysisPlan
plan_of_json v = do
  clean ← require_exact_keys v plan_keys
  given_scopes ← index clean (text "scopes")
  raw_scopes ← scopes_of_json given_scopes
  given ← index clean (text "schema_version")
  version ← validate_schema_version given
  scopes ← traverse scope_of_json raw_scopes
  self ← raw_plan clean version
  checked_plan scopes self

-- `AnalysisPlan.to_mapping`
unfoldable pub plan_to_mapping : AnalysisPlan → Json
plan_to_mapping p = obj (
    field (text "schema_version") (int p.schema_version) (
      field (text "analysis_id") (str p.analysis_id) (
        field (text "policy") (str p.policy) (
          field (text "candidate_profile_id") (json_of str p.candidate_profile_id) (
            field (text "reference_profile_id") (json_of str p.reference_profile_id) (
              field (text "scopes") (arr (of_list (map scope_to_mapping p.scopes))) (
                field (text "margin_points") (json_of int p.margin_points) (
                  field (text "confidence") (json_of flt p.confidence) (
                    field (text "multiplicity") (str p.multiplicity) (
                      field (text "bootstrap_iterations") (int p.bootstrap_iterations) end))))))))))

-- a name in a collection
unfoldable pub is_named : List Text → Option Text → Bool
is_named names none = false
is_named names (some name) = contains names name

-- the loops of `validate_roster`
unfoldable pub repeats_id : List Text → Bool
repeats_id [] = false
repeats_id (x ∷ xs) = contains xs x || repeats_id xs

unfoldable pub check_ids : List Json → Result AgentInputError (List Text)
check_ids ids = traverse validate_safe_id ids

-- whether an arm of the plan is in the roster, or there is none
unfoldable pub arm_selected : List Text → Option Text → Bool
arm_selected selected none = true
arm_selected selected (some id) = contains selected id

-- `validate_roster`
unfoldable pub validate_roster : AnalysisPlan → List Text → Result AgentInputError (Unit {0})
validate_roster plan selected = do
  raise_if (repeats_id selected) duplicate_roster
  ids ← check_ids (map str selected)
  raise_if (not (arm_selected selected plan.candidate_profile_id)) not_in_roster
  raise_if (not (arm_selected selected plan.reference_profile_id)) not_in_roster
  ok tt

-- `validate_scope_names`, for the scopes of the plan
unfoldable pub validate_scope_names :
    List Text → List Text → List AnalysisScope → Result AgentInputError (Unit {0})
validate_scope_names families tags [] = ok tt
validate_scope_names families tags (s ∷ scopes) =
    let rest = validate_scope_names families tags scopes in
    raise_if (s.scope == text "family" && not (is_named families s.scope_id)) unknown_family
    >> (raise_if (s.scope == text "tag" && not (is_named tags s.scope_id)) unknown_tag >> rest)
