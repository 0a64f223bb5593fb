-- ===== src/Agent/Wire.antt =====
-- measure_twice/agent_bench/_wire.py: the strict decoding of JSON and the checks of single fields.
pub mod Checks
use measure_twice.Prelude.{
  ℕ, Bool, true, false, not, ◌&&◌, ◌||◌, Option, none, some, List, [], ◌∷◌, leb, nat_eq, text_eq,
  option_eq, ◌==◌, contains, length, all, Result, ok, err, ◌>>=◌, ◌>>◌, raise_if, or_raise,
}
use measure_twice.Text.{Text, text, is_blank}
use measure_twice.Json
use measure_twice.Json.{
  Json, Items, Fields, null, bool, int, neg, flt, str, arr, obj, nil, cons, field, end,
}
use measure_twice.Suite.Spec.{is_encodable}
use measure_twice.Ledger.Source.{without, is_empty}

-- `AgentInputError`, a constructor for each place that raises one, with those of the analysis plans.
pub data AgentInputError : Type 0 where
  unreadable not_object bad_version unsupported_version unsafe_id blank_string : AgentInputError
  lone_surrogate not_positive no_file key_error not_encodable : AgentInputError
  bad_keys : List Text → List Text → AgentInputError
  bad_scope not_confirmatory overall_with_id scope_without_id duplicate_scope : AgentInputError
  bad_policy scopes_not_list bad_multiplicity bad_iterations : AgentInputError
  none_with_profiles none_with_scopes none_with_decision none_with_multiplicity : AgentInputError
  no_profiles same_profiles bad_margin bad_confidence no_scopes wrong_multiplicity : AgentInputError
  duplicate_roster not_in_roster unknown_family unknown_tag : AgentInputError
  bad_provider models_not_list no_models duplicate_model no_selection unknown_model :
      AgentInputError
  wrong_terminal_cells tranche_too_small tranche_splits_block : AgentInputError
  bandwidth_too_large tmpfs_too_small too_few_inodes bad_retry : AgentInputError
  bad_repetitions bad_concurrency bad_algorithm wrong_attempts : AgentInputError
  wrong_suite_profile wrong_model_profile : AgentInputError

-- `[a-z0-9]`
unfoldable pub is_safe_first : ℕ → Bool
is_safe_first c = (leb b'a' c && leb c b'z') || (leb b'0' c && leb c b'9')

-- `[a-z0-9._-]`
unfoldable pub is_safe_sign : ℕ → Bool
is_safe_sign c = is_safe_first c || c == b'.' || c == b'_' || c == b'-'

-- `SAFE_ID_RE.fullmatch(value) is not None`
unfoldable pub is_safe_id : Text → Bool
is_safe_id [] = false
is_safe_id (c ∷ s) = is_safe_first c && leb (length s) 63 && all is_safe_sign s

-- `validate_safe_id`
unfoldable pub validate_safe_id : Json → Result AgentInputError Text
validate_safe_id (str s) =
    raise_if (not (is_safe_id s)) unsafe_id
    >> (raise_if (s == text "." || s == text "..") unsafe_id >> ok s)
validate_safe_id v = err unsafe_id

-- `validate_nonempty_string`
unfoldable pub validate_nonempty_string : Json → Result AgentInputError Text
validate_nonempty_string (str s) =
    raise_if (is_blank s) blank_string >> (raise_if (not (is_encodable s)) lone_surrogate >> ok s)
validate_nonempty_string v = err blank_string

-- `require_positive_int`
unfoldable pub require_positive_int : Json → Result AgentInputError ℕ
require_positive_int (int n) = raise_if (n == 0) not_positive >> ok n
require_positive_int v = err not_positive

-- `validate_schema_version`
unfoldable pub validate_schema_version : Json → Result AgentInputError ℕ
validate_schema_version (int n) = raise_if (not (n == 1)) unsupported_version >> ok n
validate_schema_version (neg n) = err unsupported_version
validate_schema_version v = err bad_version

-- `require_exact_keys`
unfoldable pub require_exact_keys : Json → List Text → Result AgentInputError Fields
require_exact_keys (obj value) expected =
    let missing = without expected (Json.keys value) in
    let unknown = without (Json.keys value) expected in
    raise_if (not (is_empty missing && is_empty unknown)) (bad_keys missing unknown) >> ok value
require_exact_keys v expected = err not_object

-- `clean[key]`
unfoldable pub index : Fields → Text → Result AgentInputError Json
index value key = or_raise (Json.lookup key value) key_error

-- Whether `_pairs_object` raises for no object of the value: `json.loads` calls it on the pairs of
-- every object.
unfoldable mutual
  pub is_strict : Json → Bool
  is_strict (arr v) = are_strict v
  is_strict (obj v) = is_strict_object [] v
  is_strict v = true

  pub are_strict : Items → Bool
  are_strict nil = true
  are_strict (cons v rest) = is_strict v && are_strict rest

  -- the loop of `_pairs_object` after the keys `seen`
  pub is_strict_object : List Text → Fields → Bool
  is_strict_object seen end = true
  is_strict_object seen (field k v rest) =
      not (contains seen k) && is_strict v && is_strict_object (k ∷ seen) rest

-- `isinstance(value, dict)`
unfoldable pub object_of : Json → Result AgentInputError Fields
object_of (obj d) = ok d
object_of v = err not_object

-- `decode_json_object`: `parse` is what `json.loads` reads in the bytes, with the pairs of each object
-- in order, and `none` where it or the decoding of the bytes raises.
unfoldable pub decode_json_object : (List ℕ → Option Json) → List ℕ → Result AgentInputError Fields
decode_json_object parse raw = do
  value ← or_raise (parse raw) unreadable
  raise_if (not (is_strict value)) unreadable
  object_of value

-- `load_json_object`, of the bytes of a file, `none` for a path that is no file
unfoldable pub load_json_object :
    (List ℕ → Option Json) → Option (List ℕ) → Result AgentInputError Fields
load_json_object parse none = err no_file
load_json_object parse (some raw) = decode_json_object parse raw

-- a text that is one of the allowed
unfoldable pub member_of : List Text → AgentInputError → Json → Result AgentInputError Text
member_of allowed e (str s) = raise_if (not (contains allowed s)) e >> ok s
member_of allowed e v = err e

-- an integer, and no bool, that equals the expected one
unfoldable pub exact_int : ℕ → AgentInputError → Json → Result AgentInputError ℕ
exact_int expected e (int n) = raise_if (not (n == expected)) e >> ok n
exact_int expected e v = err e

unfoldable pub is_null : Json → Bool
is_null null = true
is_null v = false
