-- ===== src/Tests/Binding.antt =====
-- Tests of measure_twice/model_sweep_execution.py: a profile of a local and a Gemini model.
use measure_twice.Prelude.{
  ℕ, ◌≡◌, refl, ap, true, Option, none, some, [], ◌∷◌, map, arith, nat_eq, text_eq, option_eq, ok,
  Distinct,
}
use measure_twice.Text.{Text, text}
use measure_twice.Json.{to_list, of_list, lookup, keys}
use measure_twice.Suite.{Float, one_float}
use measure_twice.Ledger.Source.{without, is_empty}
use measure_twice.Runner.Pending.{ModelBinding}
use measure_twice.Runner.Pending
use measure_twice.Runner.Run.{is_gemini}
use measure_twice.Profiles.Binding.{
  require_keys, value_of, is_letter_or_digit, is_id_sign, is_profile_id, is_model_token,
  is_single_line, text_that, provider_of, provider_of_json, model_of, checked_binding,
  binding_of_json, binding_to_mapping, provider_name,
}
use measure_twice.Profiles.Context.{
  ClaudeContextProfile, claude_argv_template, claude_env_allowlist, strings_in, strings_of,
  same_texts, checked_claude, claude_of_json, claude_to_mapping, GeminiContextProfile, positive_int,
  is_integer, is_finite_positive, seconds_of, gemini_of_json, gemini_to_mapping,
}
use measure_twice.Profiles.Whole.{
  ModelSweepExecutionProfile, repeats_alias, is_gemini_binding, has_gemini_binding, is_present,
  is_unbound, profile_version, checked_sweep_profile, raw_models_of, optional_gemini,
  sweep_profile_of_json, sweep_profile_to_mapping, binding_for, bindings_for,
}
use measure_twice.Profiles.Whole.Bound.{bindings_for-BoundTo}

abbrev float_of_int : ℕ → Option Float
float_of_int = λ n. none

abbrev near : ModelBinding
near = record { alias = text "n"; provider = Pending.local; requested_model = text "org/n:8b" }

abbrev far : ModelBinding
far = record { alias = text "g"; provider = Pending.gemini; requested_model = text "gemini-3" }

abbrev sealing : ClaudeContextProfile
sealing = record {
  executable = text "claude";
  sealing_mode = text "prompt-only-v1";
  argv_template = claude_argv_template;
  environment_allowlist = claude_env_allowlist;
}

abbrev contract : GeminiContextProfile
contract = record {
  request_contract = text "generate-content-text-v1";
  max_output_tokens = 4096;
  thinking_level = text "low";
  timeout_s = one_float;
}

abbrev profile : ModelSweepExecutionProfile
profile = record {
  schema_version = 1;
  id = text "p";
  models = near ∷ far ∷ [];
  claude = sealing;
  gemini = some contract;
}

near_read : binding_of_json (binding_to_mapping near) ≡ ok near
unfolding binding_of_json binding_to_mapping provider_name checked_binding require_keys value_of
    text_that is_profile_id is_id_sign is_letter_or_digit is_single_line provider_of
    provider_of_json model_of nat_eq text_eq lookup keys without is_empty
near_read = refl

far_read : binding_of_json (binding_to_mapping far) ≡ ok far
unfolding binding_of_json binding_to_mapping provider_name checked_binding require_keys value_of
    text_that is_profile_id is_id_sign is_letter_or_digit is_model_token provider_of
    provider_of_json model_of nat_eq text_eq lookup keys without is_empty
far_read = refl

sealing_read : claude_of_json (claude_to_mapping sealing) ≡ ok sealing
unfolding claude_of_json claude_to_mapping checked_claude strings_of strings_in same_texts
    require_keys value_of text_that nat_eq text_eq lookup keys without is_empty of_list
sealing_read = refl

contract_read : gemini_of_json float_of_int (gemini_to_mapping contract) ≡ ok contract
unfolding gemini_of_json gemini_to_mapping seconds_of is_finite_positive positive_int is_integer
    require_keys value_of text_that nat_eq text_eq lookup keys without is_empty
contract_read = refl

profile_read : sweep_profile_of_json float_of_int (sweep_profile_to_mapping profile) ≡ ok profile
unfolding sweep_profile_of_json sweep_profile_to_mapping checked_sweep_profile optional_gemini
    raw_models_of profile_version repeats_alias has_gemini_binding is_gemini_binding is_gemini
    is_present is_unbound require_keys value_of text_that is_profile_id is_id_sign
    is_letter_or_digit nat_eq text_eq lookup keys without is_empty of_list to_list
profile_read = rw (near_read, far_read, sealing_read, contract_read) refl

roster_bound : bindings_for profile (text "g" ∷ text "n" ∷ []) ≡ ok (far ∷ near ∷ [])
unfolding bindings_for binding_for nat_eq text_eq
roster_bound = refl

first_sign : Text → ℕ
first_sign [] = 0
first_sign (c ∷ t) = c

bindings_for-BoundTo_example :
    (map (λ (b : ModelBinding). b.alias) (far ∷ near ∷ []) ≡ text "g" ∷ text "n" ∷ [])
    × Distinct (λ (b : ModelBinding). b.alias) (far ∷ near ∷ [])
    × (has_gemini_binding (far ∷ near ∷ []) ≡ true → is_present profile.gemini ≡ true)
bindings_for-BoundTo_example =
    bindings_for-BoundTo float_of_int (sweep_profile_to_mapping profile) profile
      (text "g" ∷ text "n" ∷ []) (far ∷ near ∷ []) profile_read
      (((λ e. ground (arith, ap first_sign e)), tt), (tt, tt)) roster_bound
