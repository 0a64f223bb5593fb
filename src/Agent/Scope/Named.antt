-- ===== src/Agent/Scope/Named.antt =====
-- What a scope that loads satisfies.
use measure_twice.Prelude.{
  ◌≡◌, refl, sym, subst, ◌⊎◌, inl, inr, true, false, not, Option, none, some, [], ◌∷◌, arith,
  Bool-cases, nat_eq, text_eq, option_eq, ◌==◌, contains, eq_of_==, ok, ◌>>=◌, ◌>>◌, raise_if,
  bind-eq-ok, ok-injective,
}
use measure_twice.Text.{Text, text}
use measure_twice.Json.{Json}
use measure_twice.Agent.Wire.{
  not_confirmatory, bad_scope, overall_with_id, scope_without_id, require_exact_keys, index,
  is_null, validate_safe_id, is_safe_id, member_of,
}
use measure_twice.Agent.Scope.{
  AnalysisScope, scope_kinds, is_true, scope_id_of, checked_scope, scope_of_json, scope_keys,
}
use measure_twice.Agent.Wire.Checks.{validate_safe_id-safe, member_of-known}

-- A scope names what it is about, unless it is about everything.
abbrev pub IsScope : AnalysisScope → Type 0
IsScope s =
    (s.confirmatory ≡ true)
    × (((s.scope ≡ text "overall") × (s.scope_id ≡ none))
        ⊎ ((contains (text "family" ∷ text "tag" ∷ []) s.scope ≡ true)
            × ((id : Text) × (s.scope_id ≡ some id) × (is_safe_id id ≡ true))))

scope_kind :
    (s : Text)
    → contains scope_kinds s ≡ true
    → (s == text "overall") ≡ false
    → contains (text "family" ∷ text "tag" ∷ []) s ≡ true
unfolding text_eq
scope_kind s h n = grind (arith, h, n)

scope_id_of-named :
    (kind : Text) (v : Json) (id : Option Text)
    → contains scope_kinds kind ≡ true
    → scope_id_of kind v ≡ ok id
    → ((kind ≡ text "overall") × (id ≡ none))
      ⊎ ((contains (text "family" ∷ text "tag" ∷ []) kind ≡ true)
          × ((name : Text) × (id ≡ some name) × (is_safe_id name ≡ true)))
unfolding scope_id_of
scope_id_of-named kind v id known h = elim (Bool-cases (kind == text "overall")) [
  | inl e ↦
      let g : (raise_if (not (is_null v)) overall_with_id >> ok none) ≡ ok id = rw e at h in
      let (x, a, g) = bind-eq-ok (raise_if (not (is_null v)) overall_with_id) _ g in
      inl (eq_of_== kind (text "overall") e, sym (ok-injective g))
  | inr e ↦
      let g : (raise_if (is_null v) scope_without_id
            >> (validate_safe_id v >>= λ name. ok (some name)))
          ≡ ok id =
        rw e at h in
      let (x, a, g) = bind-eq-ok (raise_if (is_null v) scope_without_id) _ g in
      let (name, n, g) = bind-eq-ok (validate_safe_id v) _ g in
      inr (scope_kind kind known e, (name, sym (ok-injective g), validate_safe_id-safe v name n))
]

checked_scope-IsScope :
    (scope scope_id confirmatory : Json) (s : AnalysisScope)
    → checked_scope scope scope_id confirmatory ≡ ok s
    → IsScope s
unfolding checked_scope scope_id_of
checked_scope-IsScope scope scope_id confirmatory s h =
    let (kind, k, h) = bind-eq-ok (member_of scope_kinds bad_scope scope) _ h in
    let (x, t, h) = bind-eq-ok (raise_if (not (is_true confirmatory)) not_confirmatory) _ h in
    let (id, i, h) = bind-eq-ok (scope_id_of kind scope_id) _ h in
    subst IsScope (ok-injective h) (
      refl,
      scope_id_of-named kind scope_id id (member_of-known scope_kinds bad_scope scope kind k) i,
    )

pub scope_of_json-IsScope : (v : Json) (s : AnalysisScope) → scope_of_json v ≡ ok s → IsScope s
unfolding scope_of_json
scope_of_json-IsScope v s h =
    let (clean, _, h) = bind-eq-ok (require_exact_keys v scope_keys) _ h in
    let (scope, _, h) = bind-eq-ok (index clean (text "scope")) _ h in
    let (id, _, h) = bind-eq-ok (index clean (text "scope_id")) _ h in
    let (confirmatory, _, h) = bind-eq-ok (index clean (text "confirmatory")) _ h in
    checked_scope-IsScope scope id confirmatory s h
