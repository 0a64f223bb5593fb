-- ===== src/Profiles/Whole.antt =====
-- measure_twice/model_sweep_execution.py: `ModelSweepExecutionProfile`.
pub mod Bound
use measure_twice.Prelude.{
  ℕ, zero, suc, ◌+◌, ◌-◌, ◌*◌, ◌≤◌, ◌<◌, String, ◌≡◌, refl, sym, ap, ◌∙◌, subst, ◌≢◌, ◌↔◌, ◌⊎◌, inl,
  inr, Bool, true, false, not, ◌&&◌, ◌||◌, Option, none, some, List, [], ◌∷◌, ◌++◌, map, append-nil,
  append_assoc, arith, ltb, leb, if◌then◌else◌, Bool-cases, Option-cases, Eq, nat_eq, text_eq,
  option_eq, ◌==◌, contains, ==_refl, eq_of_==, length, take, drop, all, All, length-append,
  All-append, All-map, Result, ok, err, ◌>>=◌, ◌>>◌, raise_if, or_raise, traverse, bind-eq-ok,
  Result-cases, ok-injective, traverse-All, traverse-map, List-cases, not_raised, not_raised_unless,
  keep, keep-keep, keep-append, keep-ext, All-keep, Distinct, Distinct-keep, Distinct-append,
}
use measure_twice.Text.{
  Text, text, is_space, strip_left, strip_right, strip, is_blank, is_digit, decimal, is_break,
  cons_line, splitlines, split, join, unlines,
}
use measure_twice.Json
use measure_twice.Json.{
  Json, Items, Fields, null, bool, int, neg, flt, str, arr, obj, nil, cons, field, end, to_list,
  of_list, to_list-of_list, lookup,
}
use measure_twice.Suite.{Float}
use measure_twice.Runner.Pending.{ModelBinding}
use measure_twice.Runner.Run.{is_gemini}
use measure_twice.Profiles.Binding.{
  ExecutionProfileError, unsafe_id, models_not_list, bad_version, no_models, duplicate_alias,
  gemini_without_context, context_without_gemini, no_binding, require_keys, value_of, is_profile_id,
  text_that, binding_of_json, binding_to_mapping,
}
use measure_twice.Profiles.Context.{
  ClaudeContextProfile, claude_of_json, claude_to_mapping, GeminiContextProfile, gemini_of_json,
  gemini_to_mapping,
}

pub record ModelSweepExecutionProfile : Type 0 where
  pub schema_version : ℕ
  pub id : Text
  pub models : List ModelBinding
  pub claude : ClaudeContextProfile
  pub gemini : Option GeminiContextProfile

-- the aliases that occur more than once, as a test for one
unfoldable pub repeats_alias : List ModelBinding → Bool
repeats_alias [] = false
repeats_alias (b ∷ models) = contains (map (λ m. m.alias) models) b.alias || repeats_alias models

-- `model.provider == PROVIDER_GEMINI`
unfoldable pub is_gemini_binding : ModelBinding → Bool
is_gemini_binding b = is_gemini b.provider

-- `has_gemini_binding`
unfoldable pub has_gemini_binding : List ModelBinding → Bool
has_gemini_binding [] = false
has_gemini_binding (b ∷ models) = is_gemini_binding b || has_gemini_binding models

unfoldable pub is_present : Option GeminiContextProfile → Bool
is_present none = false
is_present (some g) = true

unfoldable pub is_unbound : List ModelBinding → Bool
is_unbound [] = true
is_unbound (b ∷ models) = false

-- the version of a profile
unfoldable pub profile_version : Json → Result ExecutionProfileError ℕ
profile_version (int n) = raise_if (not (n == 1)) bad_version >> ok n
profile_version v = err bad_version

-- `ModelSweepExecutionProfile.__post_init__`
unfoldable pub checked_sweep_profile :
    Json
    → Json
    → List ModelBinding
    → ClaudeContextProfile
    → Option GeminiContextProfile
    → Result ExecutionProfileError ModelSweepExecutionProfile
checked_sweep_profile schema_version id models claude gemini = do
  version ← profile_version schema_version
  name ← text_that is_profile_id unsafe_id id
  raise_if (is_unbound models) no_models
  raise_if (repeats_alias models) duplicate_alias
  raise_if (has_gemini_binding models && not (is_present gemini)) gemini_without_context
  raise_if (is_present gemini && not (has_gemini_binding models)) context_without_gemini
  ok (record {
    schema_version = version;
    id = name;
    models = models;
    claude = claude;
    gemini = gemini;
  })

-- `isinstance(raw_models, list)`
unfoldable pub raw_models_of : Json → Result ExecutionProfileError (List Json)
raw_models_of (arr v) = ok (to_list v)
raw_models_of v = err models_not_list

module _ (float_of_int : ℕ → Option Float) where
  -- the Gemini context if the key is there
  unfoldable pub optional_gemini :
      Option Json → Result ExecutionProfileError (Option GeminiContextProfile)
  optional_gemini none = ok none
  optional_gemini (some v) = gemini_of_json float_of_int v >>= λ g. ok (some g)

  -- `ModelSweepExecutionProfile.from_mapping`
  unfoldable pub sweep_profile_of_json :
      Json → Result ExecutionProfileError ModelSweepExecutionProfile
  sweep_profile_of_json v = do
    clean ←
        require_keys v (text "schema_version" ∷ text "id" ∷ text "models" ∷ text "claude" ∷ [])
          (text "gemini" ∷ [])
    given_models ← value_of clean (text "models")
    raw_models ← raw_models_of given_models
    gemini ← optional_gemini (Json.lookup (text "gemini") clean)
    schema_version ← value_of clean (text "schema_version")
    id ← value_of clean (text "id")
    models ← traverse binding_of_json raw_models
    given_claude ← value_of clean (text "claude")
    claude ← claude_of_json given_claude
    checked_sweep_profile schema_version id models claude gemini

abbrev with_gemini : Option GeminiContextProfile → Fields
with_gemini none = end
with_gemini (some g) = field (text "gemini") (gemini_to_mapping g) end

-- `ModelSweepExecutionProfile.to_mapping`
unfoldable pub sweep_profile_to_mapping : ModelSweepExecutionProfile → Json
sweep_profile_to_mapping p = obj (
    field (text "schema_version") (int p.schema_version) (
      field (text "id") (str p.id) (
        field (text "models") (arr (of_list (map binding_to_mapping p.models)))
          (field (text "claude") (claude_to_mapping p.claude) (with_gemini p.gemini)))))

-- the loop of `binding_for`
unfoldable pub binding_for : List ModelBinding → Text → Result ExecutionProfileError ModelBinding
binding_for [] alias = err no_binding
binding_for (b ∷ models) alias =
    let rest = binding_for models alias in if b.alias == alias then ok b else rest

-- `bindings_for`
unfoldable pub bindings_for :
    ModelSweepExecutionProfile → List Text → Result ExecutionProfileError (List ModelBinding)
bindings_for profile aliases = traverse (binding_for profile.models) aliases
