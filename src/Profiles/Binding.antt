-- ===== src/Profiles/Binding.antt =====
-- measure_twice/model_sweep_execution.py: the field checks, and `ModelBinding` with its two mappings.
use measure_twice.Prelude.{
  ℕ, Bool, false, not, ◌&&◌, ◌||◌, Option, none, some, List, [], ◌∷◌, ◌++◌, leb, if◌then◌else◌,
  nat_eq, text_eq, option_eq, ◌==◌, all, Result, ok, err, ◌>>=◌, ◌>>◌, raise_if, or_raise,
}
use measure_twice.Text.{Text, text}
use measure_twice.Json
use measure_twice.Json.{
  Json, Items, Fields, null, bool, int, neg, flt, str, arr, obj, nil, cons, field, end,
}
use measure_twice.Ledger.Source.{without, is_empty}
use measure_twice.Runner.Pending.{Provider, local, claude, gemini, ModelBinding}

-- `ExecutionProfileError`, a constructor for each place that raises one that is modelled.
pub data ExecutionProfileError : Type 0 where
  not_object key_error unsafe_id not_single_line unsafe_model_token bad_provider :
      ExecutionProfileError
  bad_keys : List Text → List Text → ExecutionProfileError
  not_positive not_seconds bad_contract bad_thinking_level : ExecutionProfileError
  bad_executable bad_sealing bad_argv bad_allowlist not_strings : ExecutionProfileError
  models_not_list bad_version no_models duplicate_alias : ExecutionProfileError
  gemini_without_context context_without_gemini no_binding : ExecutionProfileError

-- `_require_keys`
unfoldable pub require_keys : Json → List Text → List Text → Result ExecutionProfileError Fields
require_keys (obj value) required optional =
    let missing = without required (Json.keys value) in
    let unknown = without (Json.keys value) (required ++ optional) in
    raise_if (not (is_empty missing && is_empty unknown)) (bad_keys missing unknown) >> ok value
require_keys v required optional = err not_object

-- `clean[key]`
unfoldable pub value_of : Fields → Text → Result ExecutionProfileError Json
value_of value key = or_raise (Json.lookup key value) key_error

-- `[A-Za-z0-9]`
unfoldable pub is_letter_or_digit : ℕ → Bool
is_letter_or_digit c =
    (leb b'a' c && leb c b'z') || (leb b'A' c && leb c b'Z') || (leb b'0' c && leb c b'9')

-- `[A-Za-z0-9._-]`
unfoldable pub is_id_sign : ℕ → Bool
is_id_sign c = is_letter_or_digit c || c == b'.' || c == b'_' || c == b'-'

-- `_SAFE_ID_RE.fullmatch(value)`
unfoldable pub is_profile_id : Text → Bool
is_profile_id [] = false
is_profile_id (c ∷ s) = is_id_sign c && all is_id_sign s

-- `_SAFE_CLAUDE_MODEL_RE.fullmatch(value)` and `_SAFE_GEMINI_MODEL_RE.fullmatch(value)`
unfoldable pub is_model_token : Text → Bool
is_model_token [] = false
is_model_token (c ∷ s) = is_letter_or_digit c && all is_id_sign s

-- no `"\x00"`, `"\r"` or `"\n"`, and not empty
unfoldable pub is_single_line : Text → Bool
is_single_line [] = false
is_single_line (c ∷ s) = all (λ d. not (d == 0 || d == 13 || d == 10)) (c ∷ s)

-- a text that passes the test
unfoldable pub text_that :
    (Text → Bool) → ExecutionProfileError → Json → Result ExecutionProfileError Text
text_that test e (str s) = raise_if (not (test s)) e >> ok s
text_that test e v = err e

-- the text of a provider
unfoldable pub provider_name : Provider → Text
provider_name local = text "local-openai"
provider_name claude = text "claude-cli"
provider_name gemini = text "gemini-api"

-- the provider of a text, `none` for one that is not supported
unfoldable pub provider_of : Text → Option Provider
provider_of s =
    if s == text "local-openai"
    then some local
    else if s == text "claude-cli"
    then some claude
    else if s == text "gemini-api"
    then some gemini
    else none

unfoldable pub provider_of_json : Json → Result ExecutionProfileError Provider
provider_of_json (str s) = or_raise (provider_of s) bad_provider
provider_of_json v = err bad_provider

-- the test of the requested model, by the provider
unfoldable pub model_of : Provider → Json → Result ExecutionProfileError Text
model_of claude v = text_that is_model_token unsafe_model_token v
model_of gemini v = text_that is_model_token unsafe_model_token v
model_of local v = text_that is_single_line not_single_line v

-- `ModelBinding.__post_init__`
unfoldable pub checked_binding : Json → Json → Json → Result ExecutionProfileError ModelBinding
checked_binding alias provider requested_model = do
  id ← text_that is_profile_id unsafe_id alias
  by ← provider_of_json provider
  model ← model_of by requested_model
  ok (record { alias = id; provider = by; requested_model = model })

-- `ModelBinding.from_mapping`
unfoldable pub binding_of_json : Json → Result ExecutionProfileError ModelBinding
binding_of_json v = do
  clean ← require_keys v (text "alias" ∷ text "provider" ∷ text "requested_model" ∷ []) []
  alias ← value_of clean (text "alias")
  provider ← value_of clean (text "provider")
  requested_model ← value_of clean (text "requested_model")
  checked_binding alias provider requested_model

-- `ModelBinding.to_mapping`
unfoldable pub binding_to_mapping : ModelBinding → Json
binding_to_mapping b = obj (
    field (text "alias") (str b.alias) (
      field (text "provider") (str (provider_name b.provider))
        (field (text "requested_model") (str b.requested_model) end)))
