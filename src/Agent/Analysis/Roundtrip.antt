-- ===== src/Agent/Analysis/Roundtrip.antt =====
-- A checked analysis plan is read back from its mapping.
use measure_twice.Prelude.{
  ℕ, ◌≡◌, refl, sym, ap, ◌∙◌, true, false, List, [], map, nat_eq, text_eq, option_eq, contains, all,
  All, ok, traverse-map,
}
use measure_twice.Text.{Text}
use measure_twice.Json.{int, to_list-of_list, lookup, keys}
use measure_twice.Ledger.Source.{without, is_empty}
use measure_twice.Agent.Wire.{
  bad_policy, bad_multiplicity, require_exact_keys, index, is_safe_id, exact_int,
  validate_schema_version,
}
use measure_twice.Agent.Scope.{AnalysisScope, scope_of_json, scope_to_mapping, repeats}
use measure_twice.Agent.Scope.Named.{IsScope}
use measure_twice.Agent.Scope.Reading.{validate_safe_id-str, member_of-str, scope_roundtrip}
use measure_twice.Agent.Decision.{Decision}
use measure_twice.Agent.Decision.Decided.{IsDecided}
use measure_twice.Agent.Decision.Reading.{raw_of, decided_roundtrip}
use measure_twice.Agent.Analysis.{
  AnalysisPlan, checked_plan, plan_of_json, plan_to_mapping, raw_plan, scopes_of_json,
  analysis_policies, multiplicity_policies,
}
use measure_twice.Agent.Analysis.Contract.{IsPlan, decision}

abbrev plan_of : ℕ → Text → Text → Text → ℕ → List AnalysisScope → Decision → AnalysisPlan
plan_of version id policy multiplicity iterations scopes d = record {
  schema_version = version;
  analysis_id = id;
  policy = policy;
  candidate_profile_id = d.candidate;
  reference_profile_id = d.reference;
  scopes = scopes;
  margin_points = d.margin;
  confidence = d.confidence;
  multiplicity = multiplicity;
  bootstrap_iterations = iterations;
}

checked_roundtrip :
    (id policy multiplicity : Text) (scopes : List AnalysisScope) (d : Decision)
    → is_safe_id id ≡ true
    → contains analysis_policies policy ≡ true
    → contains multiplicity_policies multiplicity ≡ true
    → repeats [] scopes ≡ false
    → IsDecided policy multiplicity scopes d
    → checked_plan scopes (raw_of (int 1) id policy multiplicity 10000 d)
      ≡ ok (plan_of 1 id policy multiplicity 10000 scopes d)
unfolding checked_plan exact_int validate_schema_version nat_eq
checked_roundtrip id policy multiplicity scopes d safe p m distinct decided =
    rw
      (
        validate_safe_id-str id safe,
        member_of-str analysis_policies bad_policy policy p,
        distinct,
        member_of-str multiplicity_policies bad_multiplicity multiplicity m,
        decided_roundtrip (int 1) id policy multiplicity 10000 policy multiplicity scopes d decided,
      )
      refl

plan_of_json-mapping :
    (id policy multiplicity : Text) (scopes : List AnalysisScope) (d : Decision) (iterations : ℕ)
    → All IsScope scopes
    → plan_of_json (plan_to_mapping (plan_of 1 id policy multiplicity iterations scopes d))
      ≡ checked_plan scopes (raw_of (int 1) id policy multiplicity iterations d)
unfolding plan_of_json plan_to_mapping require_exact_keys index raw_plan scopes_of_json text_eq
    validate_schema_version nat_eq lookup without is_empty keys
plan_of_json-mapping id policy multiplicity scopes d iterations all =
    rw
      (
        to_list-of_list (map scope_to_mapping scopes),
        traverse-map IsScope scope_of_json scope_to_mapping scope_roundtrip scopes all,
      )
      refl

-- A plan that is checked is read back from its mapping, with every field as it was.
pub plan_of_json-to_mapping :
    (p : AnalysisPlan) → IsPlan p → plan_of_json (plan_to_mapping p) ≡ ok p
plan_of_json-to_mapping p v =
    let same : p ≡ plan_of 1 p.analysis_id p.policy p.multiplicity 10000 p.scopes (decision p) =
      (λ i.
        plan_of (v.version i) p.analysis_id p.policy p.multiplicity (v.iterations i) p.scopes
          (decision p)) in
    ap (λ q. plan_of_json (plan_to_mapping q)) same
    ∙ plan_of_json-mapping p.analysis_id p.policy p.multiplicity p.scopes (decision p) 10000
        v.scopes_checked
    ∙ checked_roundtrip p.analysis_id p.policy p.multiplicity p.scopes (decision p) v.id_safe
        v.policy_known v.multiplicity_known v.scopes_distinct v.decided
    ∙ ap ok (sym same)
