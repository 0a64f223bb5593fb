-- ===== src/Agent/Scope.antt =====
-- measure_twice/agent_bench/analysis.py: `AnalysisScope`.
pub mod Named
pub mod Reading
use measure_twice.Prelude.{
  Bool, true, false, not, ◌&&◌, ◌||◌, Option, none, some, List, [], ◌∷◌, if◌then◌else◌, nat_eq,
  text_eq, option_eq, ◌==◌, Result, ok, ◌>>=◌, ◌>>◌, raise_if,
}
use measure_twice.Text.{Text, text}
use measure_twice.Json.{Json, null, bool, str, obj, field, end}
use measure_twice.Agent.Wire.{
  scope_without_id, not_confirmatory, bad_scope, overall_with_id, AgentInputError, validate_safe_id,
  require_exact_keys, index, member_of, is_null,
}

pub record AnalysisScope : Type 0 where
  pub scope : Text
  pub scope_id : Option Text
  pub confirmatory : Bool

abbrev pub scope_kinds : List Text
scope_kinds = text "overall" ∷ text "family" ∷ text "tag" ∷ []

-- `confirmatory is True`
unfoldable pub is_true : Json → Bool
is_true (bool b) = b
is_true v = false

-- the id of a scope of a kind
unfoldable pub scope_id_of : Text → Json → Result AgentInputError (Option Text)
scope_id_of scope v =
    if scope == text "overall"
    then raise_if (not (is_null v)) overall_with_id >> ok none
    else raise_if (is_null v) scope_without_id >> (validate_safe_id v >>= λ id. ok (some id))

-- `AnalysisScope.__post_init__`
unfoldable pub checked_scope : Json → Json → Json → Result AgentInputError AnalysisScope
checked_scope scope scope_id confirmatory = do
  kind ← member_of scope_kinds bad_scope scope
  raise_if (not (is_true confirmatory)) not_confirmatory
  id ← scope_id_of kind scope_id
  ok (record { scope = kind; scope_id = id; confirmatory = true })

abbrev pub scope_keys : List Text
scope_keys = text "scope" ∷ text "scope_id" ∷ text "confirmatory" ∷ []

-- `AnalysisScope.from_mapping`
unfoldable pub scope_of_json : Json → Result AgentInputError AnalysisScope
scope_of_json v = do
  clean ← require_exact_keys v scope_keys
  scope ← index clean (text "scope")
  scope_id ← index clean (text "scope_id")
  confirmatory ← index clean (text "confirmatory")
  checked_scope scope scope_id confirmatory

abbrev pub json_of : {A : Type 0} → (A → Json) → Option A → Json
json_of f none = null
json_of f (some a) = f a

-- `AnalysisScope.to_mapping`
unfoldable pub scope_to_mapping : AnalysisScope → Json
scope_to_mapping s = obj (
    field (text "scope") (str s.scope) (
      field (text "scope_id") (json_of str s.scope_id)
        (field (text "confirmatory") (bool s.confirmatory) end)))

-- `(scope.scope, scope.scope_id) in seen_scopes`
unfoldable pub has_scope : List AnalysisScope → AnalysisScope → Bool
has_scope [] s = false
has_scope (x ∷ seen) s = (x.scope == s.scope && x.scope_id == s.scope_id) || has_scope seen s

-- whether the loop over the scopes, after `seen`, finds a duplicate
unfoldable pub repeats : List AnalysisScope → List AnalysisScope → Bool
repeats seen [] = false
repeats seen (s ∷ scopes) = has_scope seen s || repeats (s ∷ seen) scopes

abbrev pub no_scope : List AnalysisScope → Bool
no_scope [] = true
no_scope (s ∷ scopes) = false
