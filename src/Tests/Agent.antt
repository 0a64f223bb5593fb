-- ===== src/Tests/Agent.antt =====
-- Tests of measure_twice/agent_bench: an analysis plan, a registry of models and a profile.
use measure_twice.Prelude.{
  ℕ, ◌≡◌, refl, ap, true, Option, none, some, List, [], ◌∷◌, map, arith, nat_eq, text_eq, option_eq,
  take, ok,
}
use measure_twice.Text.{Text, text, join}
use measure_twice.Json.{
  Json, null, bool, int, neg, flt, str, arr, obj, nil, cons, field, end, to_list, of_list, lookup,
  keys,
}
use measure_twice.Ledger.Source.{without, is_empty}
use measure_twice.Agent.Wire.{
  require_exact_keys, index, is_null, validate_safe_id, is_safe_id, is_safe_first, is_safe_sign,
  member_of, exact_int, validate_schema_version,
}
use measure_twice.Agent.Scope.{
  scope_of_json, checked_scope, scope_id_of, is_true, has_scope, repeats,
}
use measure_twice.Agent.Decision.{
  confidence_level, decision_of, no_decision, expected_multiplicity, confidence_of,
}
use measure_twice.Agent.Analysis.{
  AnalysisPlan, plan_of_json, plan_to_mapping, raw_plan, checked_plan, scopes_of_json,
}
use measure_twice.Agent.Analysis.Contract.{IsPlan, plan_of_json-IsPlan}
use measure_twice.Agent.Analysis.Roundtrip.{plan_of_json-to_mapping}
use measure_twice.Agent.Canonical.{canonical_json_bytes, canonical_sha256}
use measure_twice.Agent.Canonical.Reordered.{in_object, swap, canonical_sha256-Reordered}
use measure_twice.Agent.Models.{
  ModelSpec, ModelRegistry, by_id, select_models, select, selected_hash, model_to_mapping,
}
use measure_twice.Agent.Models.Selected.{Selected, select-Selected}

abbrev scope : Text → Json → Json
scope kind id = obj (
    field (text "scope") (str kind)
      (field (text "scope_id") id (field (text "confirmatory") (bool true) end)))

abbrev plan_json : Json
plan_json = obj (
    field (text "analysis_id") (str (text "a1")) (
      field (text "schema_version") (int 1) (
        field (text "policy") (str (text "superiority")) (
          field (text "candidate_profile_id") (str (text "c")) (
            field (text "reference_profile_id") (str (text "r")) (
              field (text "scopes")
                (arr (
                  cons (scope (text "overall") null)
                    (cons (scope (text "tag") (str (text "t"))) nil)))
                (field (text "margin_points") (int 5) (
                  field (text "confidence") (flt confidence_level) (
                    field (text "multiplicity") (str (text "bonferroni"))
                      (field (text "bootstrap_iterations") (int 10000) end))))))))))

abbrev plan : AnalysisPlan
plan = record {
  schema_version = 1;
  analysis_id = text "a1";
  policy = text "superiority";
  candidate_profile_id = some (text "c");
  reference_profile_id = some (text "r");
  scopes =
      record { scope = text "overall"; scope_id = none; confirmatory = true }
      ∷ record { scope = text "tag"; scope_id = some (text "t"); confirmatory = true }
      ∷ [];
  margin_points = some 5;
  confidence = some confidence_level;
  multiplicity = text "bonferroni";
  bootstrap_iterations = 10000;
}

plan_read : plan_of_json plan_json ≡ ok plan
unfolding plan_of_json raw_plan checked_plan scopes_of_json require_exact_keys index is_null
    validate_safe_id is_safe_id is_safe_first is_safe_sign member_of exact_int
    validate_schema_version scope_of_json checked_scope scope_id_of is_true has_scope repeats
    decision_of no_decision expected_multiplicity confidence_of nat_eq text_eq option_eq lookup keys
    without is_empty to_list
plan_read = refl

plan_of_json-IsPlan_example : IsPlan plan
plan_of_json-IsPlan_example = plan_of_json-IsPlan plan_json plan plan_read

checked : IsPlan plan
checked = plan_of_json-IsPlan plan_json plan plan_read

plan_of_json-to_mapping_example : plan_of_json (plan_to_mapping plan) ≡ ok plan
plan_of_json-to_mapping_example = plan_of_json-to_mapping plan checked

abbrev model : Text → ModelSpec
model name = record {
  name = name;
  provider = text "claude-cli";
  requested_model = text "m";
  effort = none;
  execution_profile_id = text "p";
}

abbrev registry : ModelRegistry
registry = record {
  schema_version = 1;
  models = model (text "a") ∷ model (text "b") ∷ model (text "c") ∷ [];
}

abbrev ids : List Json
ids = str (text "c") ∷ str (text "a") ∷ []

abbrev roster : List ModelSpec
roster = model (text "c") ∷ model (text "a") ∷ []

roster_selected : select registry ids ≡ ok roster
unfolding select select_models by_id validate_safe_id is_safe_id is_safe_first is_safe_sign nat_eq
    text_eq
roster_selected = refl

first_sign : Text → ℕ
first_sign [] = 0
first_sign (c ∷ t) = c

abbrev two_keys : Json
two_keys = obj (field (text "b") (int 1) (field (text "a") (obj (field (text "c") null end)) end))

abbrev two_keys_swapped : Json
two_keys_swapped =
    obj (field (text "a") (obj (field (text "c") null end)) (field (text "b") (int 1) end))

abbrev compact : Json → Option Text
compact = λ v. elim v [
  | null ↦ some (text "null")
  | bool b ↦ none
  | int n ↦ none
  | neg n ↦ none
  | flt n ↦ none
  | str s ↦ some s
  | arr w ↦ some (text "[]")
  | obj w ↦ some (join (text ",") (keys w))
]

abbrev digest : Text → Text
digest = λ t. take 4 t

select-Selected_example :
    Selected registry.models [] ids roster
    × (selected_hash compact digest registry ids
        ≡ canonical_sha256 compact digest (arr (of_list (map model_to_mapping roster))))
select-Selected_example = select-Selected compact digest registry ids roster roster_selected

canonical_sha256-Reordered_example :
    (canonical_json_bytes compact two_keys ≡ canonical_json_bytes compact two_keys_swapped)
    × (canonical_sha256 compact digest two_keys ≡ canonical_sha256 compact digest two_keys_swapped)
canonical_sha256-Reordered_example =
    canonical_sha256-Reordered compact digest two_keys two_keys_swapped
      (in_object (swap (text "b") (text "a") (λ e. ground (arith, ap first_sign e))))
