-- ===== src/Agent/Decision/Decided.antt =====
-- What the policy of a plan that loads decides.
use measure_twice.Prelude.{
  ℕ, ◌≡◌, refl, sym, ap, ◌∙◌, subst, ◌≢◌, ◌⊎◌, inl, inr, true, false, not, ◌&&◌, ◌||◌, some, List,
  [], ◌∷◌, arith, if◌then◌else◌, Bool-cases, nat_eq, text_eq, option_eq, ◌==◌, eq_of_==, length, ok,
  raise_if, bind-eq-ok, ok-injective, not_raised, not_raised_unless,
}
use measure_twice.Text.{Text, text}
use measure_twice.Json.{Json, flt}
use measure_twice.Suite.{Float}
use measure_twice.Agent.Wire.{
  AgentInputError, unreadable, not_object, bad_version, unsupported_version, unsafe_id,
  blank_string, lone_surrogate, not_positive, no_file, key_error, not_encodable, bad_keys,
  bad_scope, not_confirmatory, overall_with_id, scope_without_id, duplicate_scope, bad_policy,
  scopes_not_list, bad_multiplicity, bad_iterations, none_with_profiles, none_with_scopes,
  none_with_decision, none_with_multiplicity, no_profiles, same_profiles, bad_margin,
  bad_confidence, no_scopes, wrong_multiplicity, duplicate_roster, not_in_roster, unknown_family,
  unknown_tag, require_exact_keys, index, is_null, validate_safe_id, is_safe_id, is_safe_first,
  is_safe_sign, member_of, exact_int, validate_schema_version,
}
use measure_twice.Agent.Scope.{AnalysisScope, no_scope}
use measure_twice.Agent.Wire.Checks.{validate_safe_id-safe, exact_int-equal, not_same}
use measure_twice.Agent.Decision.{
  RawPlan, Decision, undecided, no_decision, decision_of, confidence_level, confidence_of,
  expected_multiplicity,
}

-- Without a policy nothing is decided; with one, two different profiles are compared, at the margin
-- and the confidence that are fixed, with the multiplicity that the number of scopes asks for.
abbrev pub IsDecided : Text → Text → List AnalysisScope → Decision → Type 0
IsDecided policy multiplicity scopes d =
    ((policy ≡ text "none") × (d ≡ undecided) × (scopes ≡ []) × (multiplicity ≡ text "none"))
    ⊎ ((policy ≢ text "none")
        × ((candidate : Text) × (reference : Text) × (d ≡ record {
          candidate = some candidate;
          reference = some reference;
          margin = some 5;
          confidence = some confidence_level;
        })
            × (candidate ≢ reference)
            × (is_safe_id candidate ≡ true)
            × (is_safe_id reference ≡ true)
            × (scopes ≢ [])
            × (multiplicity ≡ expected_multiplicity scopes)))

confidence_of-level : (v : Json) (x : Float) → confidence_of v ≡ ok x → x ≡ confidence_level
unfolding confidence_of
confidence_of-level (flt y) x h =
    let (u, a, h) = bind-eq-ok (raise_if (not (y == confidence_level)) bad_confidence) _ h in
    subst (λ r. r ≡ confidence_level) (ok-injective h)
      (eq_of_== y confidence_level (not_raised_unless (y == confidence_level) bad_confidence u a))
confidence_of-level v x h = cc

no_scope-false : (scopes : List AnalysisScope) → no_scope scopes ≡ false → scopes ≢ []
no_scope-false [] h = cc
no_scope-false (s ∷ scopes) h = λ e. ground (arith, ap length e)

no_scope-true : (scopes : List AnalysisScope) → no_scope scopes ≡ true → scopes ≡ []
no_scope-true [] h = refl
no_scope-true (s ∷ scopes) h = cc

no_decision-IsDecided :
    (policy multiplicity : Text) (scopes : List AnalysisScope) (self : RawPlan) (d : Decision)
    → policy ≡ text "none"
    → no_decision multiplicity scopes self ≡ ok d
    → IsDecided policy multiplicity scopes d
unfolding no_decision measure_twice.Agent.Wire.is_null
no_decision-IsDecided policy multiplicity scopes self d p h =
    let (x, a, h) =
      bind-eq-ok
        (raise_if (not (is_null self.candidate_profile_id && is_null self.reference_profile_id))
          none_with_profiles)
        _ h in
    let (y, b, h) = bind-eq-ok (raise_if (not (no_scope scopes)) none_with_scopes) _ h in
    let (z, c, h) =
      bind-eq-ok
        (raise_if (not (is_null self.margin_points && is_null self.confidence)) none_with_decision)
        _ h in
    let (w, e, h) =
      bind-eq-ok (raise_if (not (multiplicity == text "none")) none_with_multiplicity) _ h in
    inl (
      p,
      sym (ok-injective h),
      no_scope-true scopes (not_raised_unless (no_scope scopes) none_with_scopes y b),
      eq_of_== multiplicity (text "none")
          (not_raised_unless (multiplicity == text "none") none_with_multiplicity w e),
    )

decision_of-IsDecided :
    (policy multiplicity : Text) (scopes : List AnalysisScope) (self : RawPlan) (d : Decision)
    → policy ≢ text "none"
    → decision_of multiplicity scopes self ≡ ok d
    → IsDecided policy multiplicity scopes d
unfolding decision_of
decision_of-IsDecided policy multiplicity scopes self d p h =
    let (x, a, h) =
      bind-eq-ok
        (raise_if (is_null self.candidate_profile_id || is_null self.reference_profile_id)
          no_profiles)
        _ h in
    let (candidate, c, h) = bind-eq-ok (validate_safe_id self.candidate_profile_id) _ h in
    let (reference, r, h) = bind-eq-ok (validate_safe_id self.reference_profile_id) _ h in
    let (y, b, h) = bind-eq-ok (raise_if (candidate == reference) same_profiles) _ h in
    let (margin, m, h) = bind-eq-ok (exact_int 5 bad_margin self.margin_points) _ h in
    let (confidence, f, h) = bind-eq-ok (confidence_of self.confidence) _ h in
    let (z, e, h) = bind-eq-ok (raise_if (no_scope scopes) no_scopes) _ h in
    let (w, g, h) =
      bind-eq-ok (raise_if (not (multiplicity == expected_multiplicity scopes)) wrong_multiplicity)
        _ h in
    inr (
      p,
      (
        candidate,
        reference,
        sym (ok-injective h)
            ∙ same_decision candidate reference
                (exact_int-equal 5 bad_margin self.margin_points margin m)
                (confidence_of-level self.confidence confidence f),
        not_same candidate reference (not_raised (candidate == reference) same_profiles y b),
        validate_safe_id-safe self.candidate_profile_id candidate c,
        validate_safe_id-safe self.reference_profile_id reference r,
        no_scope-false scopes (not_raised (no_scope scopes) no_scopes z e),
        eq_of_== multiplicity (expected_multiplicity scopes) (
            not_raised_unless (multiplicity == expected_multiplicity scopes) wrong_multiplicity w
              g),
      ),
    )
  where
    same_decision :
        (candidate reference : Text) {m : ℕ} {f : Float}
        → m ≡ 5
        → f ≡ confidence_level
        → ◌≡◌ {A = Decision}
            (record {
              candidate = some candidate;
              reference = some reference;
              margin = some m;
              confidence = some f;
            })
            (record {
              candidate = some candidate;
              reference = some reference;
              margin = some 5;
              confidence = some confidence_level;
            })
    same_decision candidate reference p q = λ i. record {
      candidate = some candidate;
      reference = some reference;
      margin = some (p i);
      confidence = some (q i);
    }

-- Whatever the policy is, what it decides is what it asks for.
pub either_decision-IsDecided :
    (policy multiplicity : Text) (scopes : List AnalysisScope) (self : RawPlan) (d : Decision)
    → (if policy == text "none"
        then no_decision multiplicity scopes self
        else decision_of multiplicity scopes self)
      ≡ ok d
    → IsDecided policy multiplicity scopes d
either_decision-IsDecided policy multiplicity scopes self d h =
    elim (Bool-cases (policy == text "none")) [
      | inl e ↦
          no_decision-IsDecided policy multiplicity scopes self d (eq_of_== policy (text "none") e)
            (rw e at h)
      | inr e ↦
          decision_of-IsDecided policy multiplicity scopes self d (not_same policy (text "none") e)
            (rw e at h)
    ]
