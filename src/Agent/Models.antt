-- ===== src/Agent/Models.antt =====
-- measure_twice/agent_bench/models.py: `ModelSpec`, `ModelRegistry` and the selection of a roster.
pub mod Selected
use measure_twice.Prelude.{
  ℕ, zero, suc, ◌+◌, ◌-◌, ◌*◌, ◌≤◌, ◌<◌, String, ◌≡◌, refl, sym, ap, ◌∙◌, subst, ◌≢◌, ◌↔◌, ◌⊎◌, inl,
  inr, Bool, true, false, not, ◌&&◌, ◌||◌, Option, none, some, List, [], ◌∷◌, ◌++◌, map, append-nil,
  append_assoc, arith, ltb, leb, if◌then◌else◌, Bool-cases, Option-cases, Eq, nat_eq, text_eq,
  option_eq, ◌==◌, contains, ==_refl, eq_of_==, length, take, drop, all, All, length-append,
  All-append, All-map, Result, ok, err, ◌>>=◌, ◌>>◌, raise_if, or_raise, traverse, bind-eq-ok,
  Result-cases, ok-injective, traverse-All, traverse-map, List-cases, not_raised, not_raised_unless,
  keep, keep-keep, keep-append, keep-ext, All-keep, Distinct, Distinct-keep, Distinct-append,
}
use measure_twice.Text.{
  Text, text, is_space, strip_left, strip_right, strip, is_blank, is_digit, decimal, is_break,
  cons_line, splitlines, split, join, unlines,
}
use measure_twice.Json.{
  Json, Items, Fields, null, bool, int, neg, flt, str, arr, obj, nil, cons, field, end, to_list,
  of_list,
}
use measure_twice.Agent.Wire.{
  AgentInputError, bad_provider, models_not_list, no_models, duplicate_model, no_selection,
  unknown_model, require_exact_keys, index, is_null, validate_safe_id, validate_nonempty_string,
  member_of, validate_schema_version,
}
use measure_twice.Agent.Scope.{json_of}
use measure_twice.Agent.Canonical.{canonical_sha256}

pub record ModelSpec : Type 0 where
  pub name : Text
  pub provider : Text
  pub requested_model : Text
  pub effort : Option Text
  pub execution_profile_id : Text

-- `PROVIDERS`
abbrev pub providers : List Text
providers = text "codex-cli" ∷ text "claude-cli" ∷ []

-- `if self.effort is not None`
unfoldable pub effort_of : Json → Result AgentInputError (Option Text)
effort_of v = if is_null v then ok none else (validate_nonempty_string v >>= λ s. ok (some s))

abbrev pub model_keys : List Text
model_keys =
    text "name"
    ∷ text "provider"
    ∷ text "requested_model"
    ∷ text "effort"
    ∷ text "execution_profile_id"
    ∷ []

-- `ModelSpec.__post_init__`
unfoldable pub checked_model : Json → Json → Json → Json → Json → Result AgentInputError ModelSpec
checked_model name provider requested_model effort execution_profile_id = do
  id ← validate_safe_id name
  known ← member_of providers bad_provider provider
  requested ← validate_nonempty_string requested_model
  level ← effort_of effort
  profile ← validate_safe_id execution_profile_id
  ok (record {
    name = id;
    provider = known;
    requested_model = requested;
    effort = level;
    execution_profile_id = profile;
  })

-- `ModelSpec.from_mapping`
unfoldable pub model_of_json : Json → Result AgentInputError ModelSpec
model_of_json v = do
  clean ← require_exact_keys v model_keys
  name ← index clean (text "name")
  provider ← index clean (text "provider")
  requested_model ← index clean (text "requested_model")
  effort ← index clean (text "effort")
  execution_profile_id ← index clean (text "execution_profile_id")
  checked_model name provider requested_model effort execution_profile_id

-- `ModelSpec.to_mapping`
unfoldable pub model_to_mapping : ModelSpec → Json
model_to_mapping m = obj (
    field (text "name") (str m.name) (
      field (text "provider") (str m.provider) (
        field (text "requested_model") (str m.requested_model) (
          field (text "effort") (json_of str m.effort)
            (field (text "execution_profile_id") (str m.execution_profile_id) end)))))

pub record ModelRegistry : Type 0 where
  pub schema_version : ℕ
  pub models : List ModelSpec

-- the loop over the models of a registry, after the names `seen`
unfoldable pub check_models : List Text → List ModelSpec → Result AgentInputError (Unit {0})
check_models seen [] = ok tt
check_models seen (m ∷ models) =
    let rest = check_models (m.name ∷ seen) models in
    raise_if (contains seen m.name) duplicate_model >> rest

abbrev pub is_no_model : List ModelSpec → Bool
is_no_model [] = true
is_no_model (m ∷ models) = false

-- `isinstance(raw_models, list)`
unfoldable pub models_of_json : Json → Result AgentInputError (List Json)
models_of_json (arr v) = ok (to_list v)
models_of_json v = err models_not_list

-- `ModelRegistry.from_mapping`, with `__post_init__`
unfoldable pub registry_of_json : Json → Result AgentInputError ModelRegistry
registry_of_json v = do
  clean ← require_exact_keys v (text "schema_version" ∷ text "models" ∷ [])
  given ← index clean (text "schema_version")
  version ← validate_schema_version given
  given_models ← index clean (text "models")
  raw_models ← models_of_json given_models
  models ← traverse model_of_json raw_models
  checked ← validate_schema_version (int version)
  raise_if (is_no_model models) no_models
  check_models [] models
  ok (record { schema_version = checked; models = models })

-- `ModelRegistry.to_mapping`
unfoldable pub registry_to_mapping : ModelRegistry → Json
registry_to_mapping r = obj (
    field (text "schema_version") (int r.schema_version)
      (field (text "models") (arr (of_list (map model_to_mapping r.models))) end))

-- `by_id[safe_id]`, where the last of two models of one name counts
unfoldable pub by_id : List ModelSpec → Text → Option ModelSpec
by_id [] id = none
by_id (m ∷ models) id = elim (by_id models id) [
  | some later ↦ some later
  | none ↦ if m.name == id then some m else none
]

-- the loop of `select`, after the ids `seen`
unfoldable pub select_models :
    List ModelSpec → List Text → List Json → Result AgentInputError (List ModelSpec)
select_models models seen [] = ok []
select_models models seen (profile_id ∷ rest) = do
  id ← validate_safe_id profile_id
  raise_if (contains seen id) duplicate_model
  model ← or_raise (by_id models id) unknown_model
  others ← select_models models (id ∷ seen) rest
  ok (model ∷ others)

-- `ModelRegistry.select`, of a sequence of ids
unfoldable pub select : ModelRegistry → List Json → Result AgentInputError (List ModelSpec)
select registry [] = err no_selection
select registry (profile_id ∷ rest) = select_models registry.models [] (profile_id ∷ rest)

-- `compact` and `sha256` are those of `canonical_sha256`, which raises what cannot be encoded.
module _ (compact : Json → Option Text) (sha256 : Text → Text) where
  -- `selected_profile_hash`
  unfoldable pub selected_profile_hash : List ModelSpec → Result AgentInputError Text
  selected_profile_hash profiles = do
    raise_if (is_no_model profiles) no_selection
    check_models [] profiles
    canonical_sha256 compact sha256 (arr (of_list (map model_to_mapping profiles)))

  -- `selected_hash`
  unfoldable pub selected_hash : ModelRegistry → List Json → Result AgentInputError Text
  selected_hash registry profile_ids = do
    profiles ← select registry profile_ids
    selected_profile_hash profiles
