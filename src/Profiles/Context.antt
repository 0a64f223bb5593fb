-- ===== src/Profiles/Context.antt =====
-- measure_twice/model_sweep_execution.py: `ClaudeContextProfile` and `GeminiContextProfile`.
use measure_twice.Prelude.{
  ℕ, Bool, true, false, not, ◌&&◌, Option, none, some, List, [], ◌∷◌, map, ltb, nat_eq, text_eq,
  option_eq, ◌==◌, contains, Result, ok, err, ◌>>=◌, ◌>>◌, raise_if, or_raise,
}
use measure_twice.Text.{Text, text}
use measure_twice.Json.{neg, Json, Items, int, flt, str, arr, obj, nil, cons, field, end, of_list}
use measure_twice.Suite.{Float}
use measure_twice.Profiles.Binding.{
  ExecutionProfileError, not_positive, not_seconds, bad_contract, bad_thinking_level,
  bad_executable, bad_sealing, bad_argv, bad_allowlist, not_strings, require_keys, value_of,
  text_that,
}

pub record ClaudeContextProfile : Type 0 where
  pub executable : Text
  pub sealing_mode : Text
  pub argv_template : List Text
  pub environment_allowlist : List Text

abbrev pub claude_argv_template : List Text
claude_argv_template =
    text "-p"
    ∷ text "--model"
    ∷ text "{requested_model}"
    ∷ text "--output-format"
    ∷ text "json"
    ∷ text "--safe-mode"
    ∷ text "--tools"
    ∷ text ""
    ∷ text "--disable-slash-commands"
    ∷ text "--no-chrome"
    ∷ text "--no-session-persistence"
    ∷ []

abbrev pub claude_env_allowlist : List Text
claude_env_allowlist =
    text "APPDATA"
    ∷ text "CLAUDE_CODE_OAUTH_TOKEN"
    ∷ text "COMSPEC"
    ∷ text "HOME"
    ∷ text "LANG"
    ∷ text "LC_ALL"
    ∷ text "LOCALAPPDATA"
    ∷ text "PATH"
    ∷ text "PATHEXT"
    ∷ text "SYSTEMROOT"
    ∷ text "TEMP"
    ∷ text "TMP"
    ∷ text "TMPDIR"
    ∷ text "USERPROFILE"
    ∷ text "WINDIR"
    ∷ []

-- the strings of a list of nothing else
unfoldable pub strings_in : Items → Option (List Text)
strings_in nil = some []
strings_in (cons (str s) rest) = elim (strings_in rest) [ none ↦ none | some l ↦ some (s ∷ l) ]
strings_in (cons v rest) = none

unfoldable pub strings_of : Json → Result ExecutionProfileError (List Text)
strings_of (arr v) = or_raise (strings_in v) not_strings
strings_of v = err not_strings

-- `==` of two sequences of texts
unfoldable pub same_texts : List Text → List Text → Bool
same_texts [] [] = true
same_texts (s ∷ xs) (t ∷ ys) = s == t && same_texts xs ys
same_texts xs ys = false

-- `ClaudeContextProfile.__post_init__`
unfoldable pub checked_claude :
    Json → Json → List Text → List Text → Result ExecutionProfileError ClaudeContextProfile
checked_claude executable sealing_mode argv env = do
  launcher ← text_that (λ s. s == text "claude") bad_executable executable
  mode ← text_that (λ s. s == text "prompt-only-v1") bad_sealing sealing_mode
  raise_if (not (same_texts argv claude_argv_template)) bad_argv
  raise_if (not (same_texts env claude_env_allowlist)) bad_allowlist
  ok (record {
    executable = launcher;
    sealing_mode = mode;
    argv_template = argv;
    environment_allowlist = env;
  })

-- `ClaudeContextProfile.from_mapping`
unfoldable pub claude_of_json : Json → Result ExecutionProfileError ClaudeContextProfile
claude_of_json v = do
  clean ←
      require_keys v
        (text "executable"
          ∷ text "sealing_mode"
          ∷ text "argv_template"
          ∷ text "environment_allowlist"
          ∷ [])
        []
  raw_argv ← value_of clean (text "argv_template")
  raw_env ← value_of clean (text "environment_allowlist")
  argv ← strings_of raw_argv
  env ← strings_of raw_env
  executable ← value_of clean (text "executable")
  sealing_mode ← value_of clean (text "sealing_mode")
  checked_claude executable sealing_mode argv env

-- `ClaudeContextProfile.to_mapping`
unfoldable pub claude_to_mapping : ClaudeContextProfile → Json
claude_to_mapping c = obj (
    field (text "executable") (str c.executable) (
      field (text "sealing_mode") (str c.sealing_mode) (
        field (text "argv_template") (arr (of_list (map str c.argv_template))) (
          field (text "environment_allowlist") (arr (of_list (map str c.environment_allowlist)))
            end))))

pub record GeminiContextProfile : Type 0 where
  pub request_contract : Text
  pub max_output_tokens : ℕ
  pub thinking_level : Text
  pub timeout_s : Float

abbrev pub gemini_thinking_levels : List Text
gemini_thinking_levels = text "low" ∷ text "medium" ∷ text "high" ∷ []

-- `isinstance(raw_tokens, int)`, and no bool
unfoldable pub is_integer : Json → Bool
is_integer (int n) = true
is_integer (neg n) = true
is_integer v = false

-- `_require_positive_int`
unfoldable pub positive_int : Json → Result ExecutionProfileError ℕ
positive_int (int n) = raise_if (n == 0) not_positive >> ok n
positive_int v = err not_positive

-- `math.isfinite(seconds) and seconds > 0`, by the bits
unfoldable pub is_finite_positive : Float → Bool
is_finite_positive x = ltb 0 x && ltb x 0x7ff0000000000000

-- `float_of_int` is Python's `float` of an integer, `none` for an `OverflowError`.
module _ (float_of_int : ℕ → Option Float) where
  -- `_require_finite_positive_number`
  unfoldable pub seconds_of : Json → Result ExecutionProfileError Float
  seconds_of (flt x) = raise_if (not (is_finite_positive x)) not_seconds >> ok x
  seconds_of (int n) = or_raise (float_of_int n) not_seconds >>= λ x.
      (raise_if (not (is_finite_positive x)) not_seconds >> ok x)
  seconds_of v = err not_seconds

  -- `GeminiContextProfile.from_mapping`, with `__post_init__`
  unfoldable pub gemini_of_json : Json → Result ExecutionProfileError GeminiContextProfile
  gemini_of_json v = do
    clean ←
        require_keys v
          (text "request_contract"
            ∷ text "max_output_tokens"
            ∷ text "thinking_level"
            ∷ text "timeout_s"
            ∷ [])
          []
    raw_tokens ← value_of clean (text "max_output_tokens")
    raise_if (not (is_integer raw_tokens)) not_positive
    raw_timeout ← value_of clean (text "timeout_s")
    timeout ← seconds_of raw_timeout
    given_contract ← value_of clean (text "request_contract")
    contract ← text_that (λ s. s == text "generate-content-text-v1") bad_contract given_contract
    tokens ← positive_int raw_tokens
    given_level ← value_of clean (text "thinking_level")
    level ← text_that (contains gemini_thinking_levels) bad_thinking_level given_level
    ok (record {
      request_contract = contract;
      max_output_tokens = tokens;
      thinking_level = level;
      timeout_s = timeout;
    })

-- `GeminiContextProfile.to_mapping`
unfoldable pub gemini_to_mapping : GeminiContextProfile → Json
gemini_to_mapping g = obj (
    field (text "request_contract") (str g.request_contract) (
      field (text "max_output_tokens") (int g.max_output_tokens) (
        field (text "thinking_level") (str g.thinking_level)
          (field (text "timeout_s") (flt g.timeout_s) end))))
