-- ===== src/Agent/Decision/Reading.antt =====
-- What a policy decides is read back from the mapping of its plan.
use measure_twice.Prelude.{
  ℕ, ◌≡◌, refl, ◌≢◌, inl, inr, true, false, some, List, [], ◌∷◌, if◌then◌else◌, nat_eq, text_eq,
  option_eq, ◌==◌, ==_refl, ok,
}
use measure_twice.Text.{Text, text}
use measure_twice.Json.{Json, int, flt, str}
use measure_twice.Agent.Wire.{is_null, is_safe_id, exact_int}
use measure_twice.Agent.Scope.{AnalysisScope, json_of, no_scope}
use measure_twice.Agent.Scope.Reading.{validate_safe_id-str, differs}
use measure_twice.Agent.Decision.{
  RawPlan, Decision, undecided, no_decision, decision_of, confidence_level, confidence_of,
  expected_multiplicity,
}
use measure_twice.Agent.Decision.Decided.{IsDecided}

-- The arguments of the constructor that a mapping gives.
abbrev pub raw_of : Json → Text → Text → Text → ℕ → Decision → RawPlan
raw_of version id policy multiplicity iterations d = record {
  schema_version = version;
  analysis_id = str id;
  policy = str policy;
  candidate_profile_id = json_of str d.candidate;
  reference_profile_id = json_of str d.reference;
  margin_points = json_of int d.margin;
  confidence = json_of flt d.confidence;
  multiplicity = str multiplicity;
  bootstrap_iterations = int iterations;
}

module _ (version : Json) (id policy multiplicity : Text) (iterations : ℕ) where
  no_decision_roundtrip :
      no_decision (text "none") [] (raw_of version id policy multiplicity iterations undecided)
      ≡ ok undecided
  unfolding no_decision is_null text_eq nat_eq
  no_decision_roundtrip = refl

  some_scope_false : (scopes : List AnalysisScope) → scopes ≢ [] → no_scope scopes ≡ false
  some_scope_false [] ne = absurd (ne refl)
  some_scope_false (s ∷ scopes) ne = refl

  decision_of_roundtrip :
      (candidate reference : Text) (scopes : List AnalysisScope)
      → candidate ≢ reference
      → is_safe_id candidate ≡ true
      → is_safe_id reference ≡ true
      → scopes ≢ []
      → (let d : Decision = record {
        candidate = some candidate;
        reference = some reference;
        margin = some 5;
        confidence = some confidence_level;
      } in
          decision_of
            (expected_multiplicity scopes)
            scopes
            (raw_of version id policy multiplicity iterations d)
          ≡ ok d)
  unfolding decision_of exact_int confidence_of is_null nat_eq
  decision_of_roundtrip candidate reference scopes ne cs rs has =
      rw
        (
          validate_safe_id-str candidate cs,
          validate_safe_id-str reference rs,
          differs candidate reference ne,
          some_scope_false scopes has,
          ==_refl (expected_multiplicity scopes),
        )
        refl

  pub decided_roundtrip :
      (p m : Text) (scopes : List AnalysisScope) (d : Decision)
      → IsDecided p m scopes d
      → (let self = raw_of version id policy multiplicity iterations d in
          (if p == text "none" then no_decision m scopes self else decision_of m scopes self)
          ≡ ok d)
  decided_roundtrip p m scopes d (inl (none_policy, same, empty, single)) =
      rw (none_policy, single, empty, same, ==_refl (text "none")) no_decision_roundtrip
  decided_roundtrip p m scopes d
        (inr (other, (candidate, reference, same, ne, cs, rs, has, matching))) =
      rw (differs p (text "none") other, matching, same)
        (decision_of_roundtrip candidate reference scopes ne cs rs has)
