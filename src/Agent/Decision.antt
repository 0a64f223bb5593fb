-- ===== src/Agent/Decision.antt =====
-- measure_twice/agent_bench/analysis.py: what the policy of an `AnalysisPlan` decides.
pub mod Decided
pub mod Reading
use measure_twice.Prelude.{
  ℕ, zero, suc, ◌+◌, ◌-◌, ◌*◌, ◌≤◌, ◌<◌, String, ◌≡◌, refl, sym, ap, ◌∙◌, subst, ◌≢◌, ◌↔◌, ◌⊎◌, inl,
  inr, Bool, true, false, not, ◌&&◌, ◌||◌, Option, none, some, List, [], ◌∷◌, ◌++◌, map, append-nil,
  append_assoc, arith, ltb, leb, if◌then◌else◌, Bool-cases, Option-cases, Eq, nat_eq, text_eq,
  option_eq, ◌==◌, contains, ==_refl, eq_of_==, length, take, drop, all, All, length-append,
  All-append, All-map, Result, ok, err, ◌>>=◌, ◌>>◌, raise_if, or_raise, traverse, bind-eq-ok,
  Result-cases, ok-injective, traverse-All, traverse-map, List-cases, not_raised, not_raised_unless,
  keep, keep-keep, keep-append, keep-ext, All-keep, Distinct, Distinct-keep, Distinct-append,
}
use measure_twice.Text.{
  Text, text, is_space, strip_left, strip_right, strip, is_blank, is_digit, decimal, is_break,
  cons_line, splitlines, split, join, unlines,
}
use measure_twice.Json.{
  Json, Items, Fields, null, bool, int, neg, flt, str, arr, obj, nil, cons, field, end, to_list,
  of_list, to_list-of_list, lookup, keys,
}
use measure_twice.Suite.{Float}
use measure_twice.Ledger.Source.{without, is_empty}
use measure_twice.Agent.Wire.{
  AgentInputError, unreadable, not_object, bad_version, unsupported_version, unsafe_id,
  blank_string, lone_surrogate, not_positive, no_file, key_error, not_encodable, bad_keys,
  bad_scope, not_confirmatory, overall_with_id, scope_without_id, duplicate_scope, bad_policy,
  scopes_not_list, bad_multiplicity, bad_iterations, none_with_profiles, none_with_scopes,
  none_with_decision, none_with_multiplicity, no_profiles, same_profiles, bad_margin,
  bad_confidence, no_scopes, wrong_multiplicity, duplicate_roster, not_in_roster, unknown_family,
  unknown_tag, require_exact_keys, index, is_null, validate_safe_id, is_safe_id, is_safe_first,
  is_safe_sign, member_of, exact_int, validate_schema_version,
}
use measure_twice.Agent.Scope.{
  AnalysisScope, scope_kinds, is_true, scope_id_of, checked_scope, scope_of_json, scope_to_mapping,
  scope_keys, json_of, has_scope, repeats, no_scope,
}

-- What `from_mapping` hands to the constructor, which checks it.
pub record RawPlan : Type 0 where
  pub schema_version : Json
  pub analysis_id : Json
  pub policy : Json
  pub candidate_profile_id : Json
  pub reference_profile_id : Json
  pub margin_points : Json
  pub confidence : Json
  pub multiplicity : Json
  pub bootstrap_iterations : Json

-- The fields that the policy decides on.
pub record Decision : Type 0 where
  pub candidate : Option Text
  pub reference : Option Text
  pub margin : Option ℕ
  pub confidence : Option Float

abbrev pub undecided : Decision
undecided = record { candidate = none; reference = none; margin = none; confidence = none }

-- the branch of policy "none"
unfoldable pub no_decision : Text → List AnalysisScope → RawPlan → Result AgentInputError Decision
no_decision multiplicity scopes self =
    raise_if (not (is_null self.candidate_profile_id && is_null self.reference_profile_id))
      none_with_profiles
    >> (raise_if (not (no_scope scopes)) none_with_scopes
        >> (raise_if (not (is_null self.margin_points && is_null self.confidence))
              none_with_decision
            >> (raise_if (not (multiplicity == text "none")) none_with_multiplicity
                >> ok undecided)))

-- the 64 bits of 0.95
abbrev pub confidence_level : Float
confidence_level = 0x3fee666666666666

-- `isinstance(self.confidence, float)` and equal to 0.95
unfoldable pub confidence_of : Json → Result AgentInputError Float
confidence_of (flt x) = raise_if (not (x == confidence_level)) bad_confidence >> ok x
confidence_of v = err bad_confidence

-- `expected_multiplicity`
unfoldable pub expected_multiplicity : List AnalysisScope → Text
expected_multiplicity scopes = if length scopes == 1 then text "none" else text "bonferroni"

-- the rest of `__post_init__`, for a policy that compares two profiles
unfoldable pub decision_of : Text → List AnalysisScope → RawPlan → Result AgentInputError Decision
decision_of multiplicity scopes self = do
  raise_if (is_null self.candidate_profile_id || is_null self.reference_profile_id) no_profiles
  candidate ← validate_safe_id self.candidate_profile_id
  reference ← validate_safe_id self.reference_profile_id
  raise_if (candidate == reference) same_profiles
  margin ← exact_int 5 bad_margin self.margin_points
  confidence ← confidence_of self.confidence
  raise_if (no_scope scopes) no_scopes
  raise_if (not (multiplicity == expected_multiplicity scopes)) wrong_multiplicity
  ok (record {
    candidate = some candidate;
    reference = some reference;
    margin = some margin;
    confidence = some confidence;
  })
