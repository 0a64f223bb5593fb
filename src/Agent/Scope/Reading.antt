-- ===== src/Agent/Scope/Reading.antt =====
-- A scope is read back from its mapping.
use measure_twice.Prelude.{
  ◌≡◌, refl, sym, ap, ◌∙◌, subst, ◌≢◌, inl, inr, true, false, ◌||◌, none, some, List, [], ◌∷◌,
  arith, Bool-cases, nat_eq, text_eq, option_eq, ◌==◌, contains, eq_of_==, ok,
}
use measure_twice.Text.{Text, text}
use measure_twice.Json.{
  Json, Items, Fields, null, bool, int, neg, flt, str, arr, obj, nil, cons, field, end, to_list,
  of_list, to_list-of_list, lookup, keys,
}
use measure_twice.Ledger.Source.{without, is_empty}
use measure_twice.Agent.Wire.{
  AgentInputError, require_exact_keys, index, is_null, validate_safe_id, is_safe_id, is_safe_first,
  is_safe_sign, member_of,
}
use measure_twice.Agent.Scope.{
  AnalysisScope, scope_kinds, is_true, scope_id_of, checked_scope, scope_of_json, scope_to_mapping,
  json_of,
}
use measure_twice.Agent.Scope.Named.{IsScope}

-- A safe id is neither "." nor "..", so the test for these never raises.
safe_not_dots : (s : Text) → is_safe_id s ≡ true → (s == text "." || s == text "..") ≡ false
unfolding is_safe_id is_safe_first is_safe_sign text_eq nat_eq
safe_not_dots [] h = cc
safe_not_dots (c ∷ s) h = grind (arith, h)

pub validate_safe_id-str : (s : Text) → is_safe_id s ≡ true → validate_safe_id (str s) ≡ ok s
unfolding validate_safe_id
validate_safe_id-str s h = rw (h, safe_not_dots s h) refl

pub member_of-str :
    (allowed : List Text) (e : AgentInputError) (s : Text)
    → contains allowed s ≡ true
    → member_of allowed e (str s) ≡ ok s
unfolding member_of
member_of-str allowed e s h = rw h refl

pub differs : (a b : Text) → a ≢ b → (a == b) ≡ false
differs a b n = ground (arith, n)

named_kind :
    (kind : Text)
    → contains (text "family" ∷ text "tag" ∷ []) kind ≡ true
    → ((kind == text "overall") ≡ false) × (contains scope_kinds kind ≡ true)
unfolding text_eq nat_eq
named_kind kind h = elim (Bool-cases (text "family" == kind)) [
  | inl e ↦
      subst (λ k. ((k == text "overall") ≡ false) × (contains scope_kinds k ≡ true))
        (eq_of_== (text "family") kind e) (refl, refl)
  | inr e ↦ elim (Bool-cases (text "tag" == kind)) [
    | inl f ↦
        subst (λ k. ((k == text "overall") ≡ false) × (contains scope_kinds k ≡ true))
          (eq_of_== (text "tag") kind f) (refl, refl)
    | inr f ↦ absurd (ground (arith, e, f, h))
  ]
]

checked_scope-named :
    (kind name : Text)
    → contains (text "family" ∷ text "tag" ∷ []) kind ≡ true
    → is_safe_id name ≡ true
    → checked_scope (str kind) (str name) (bool true)
      ≡ ok (record { scope = kind; scope_id = some name; confirmatory = true })
unfolding checked_scope scope_id_of member_of is_true is_null
checked_scope-named kind name k safe =
    let (other, known) = named_kind kind k in rw (known, other, validate_safe_id-str name safe) refl

checked_scope-overall :
    checked_scope (str (text "overall")) null (bool true)
    ≡ ok (record { scope = text "overall"; scope_id = none; confirmatory = true })
unfolding checked_scope scope_id_of member_of is_true is_null text_eq nat_eq
checked_scope-overall = refl

scope_of_json-mapping :
    (s : AnalysisScope)
    → scope_of_json (scope_to_mapping s)
      ≡ checked_scope (str s.scope) (json_of str s.scope_id) (bool s.confirmatory)
unfolding scope_of_json scope_to_mapping require_exact_keys index text_eq nat_eq lookup
    checked_scope measure_twice.Ledger.Source.is_empty member_of measure_twice.Ledger.Source.without
    measure_twice.Json.keys
scope_of_json-mapping s = refl

pub scope_roundtrip : (s : AnalysisScope) → IsScope s → scope_of_json (scope_to_mapping s) ≡ ok s
scope_roundtrip s (sure, inl (kind, id)) =
    scope_of_json-mapping s
    ∙ rw (kind, id, sure) checked_scope-overall
    ∙ ap ok (λ i. record { scope = sym kind i; scope_id = sym id i; confirmatory = sym sure i })
scope_roundtrip s (sure, inr (kind, (name, id, safe))) =
    scope_of_json-mapping s
    ∙ rw (id, sure) (checked_scope-named s.scope name kind safe)
    ∙ ap ok (λ i. record { scope = s.scope; scope_id = sym id i; confirmatory = sym sure i })
