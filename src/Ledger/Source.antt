-- ===== src/Ledger/Source.antt =====
-- measure_twice/ledger.py: the field validators, and `ClaimSource`.
pub mod Schema
pub mod Range
use measure_twice.Prelude.{
  ℕ, Bool, true, false, not, ◌&&◌, ◌||◌, List, [], ◌∷◌, ltb, leb, if◌then◌else◌, nat_eq, text_eq,
  ◌==◌, contains, length, all, Result, ok, err, ◌>>=◌, ◌>>◌, raise_if, or_raise,
}
use measure_twice.Text.{Text, text, is_blank, is_digit, decimal, split}
use measure_twice.Json
use measure_twice.Json.{Json, Fields, field, str, obj, end}

-- `LedgerError`, a constructor for each place that raises one. `int_too_long` is the `ValueError`
-- of `int` on a text of more than 4300 digits, and `key_error` that of an index into a dict.
pub data LedgerError : Type 0 where
  bad_keys : List Text → List Text → LedgerError
  empty_string bad_lines lines_reversed int_too_long key_error bad_path : LedgerError
  backslash unsafe_path not_utc not_iso no_offset bad_digest : LedgerError
  unsafe_claim_id no_sources source_not_object bad_status : LedgerError
  evidence_not_list duplicate_run bad_verdict bad_preregistration : LedgerError
  blank_preregistration measured_without_evidence measured_without_preregistration : LedgerError
  no_root root_not_directory no_source outside_root not_file not_utf8 cites_past_end : LedgerError
  not_object unreadable blank_line bad_json duplicate_claim not_written : LedgerError

-- the elements of `xs` that are not in `ys`
unfoldable pub without : List Text → List Text → List Text
without [] ys = []
without (x ∷ xs) ys = let rest = without xs ys in if contains ys x then rest else x ∷ rest

unfoldable pub is_empty : List Text → Bool
is_empty [] = true
is_empty (x ∷ xs) = false

unfoldable pub require_exact_keys : Fields → List Text → Result LedgerError (Unit {0})
unfolding without is_empty Json.keys
require_exact_keys value expected =
    let missing = without expected (Json.keys value) in
    let unknown = without (Json.keys value) expected in
    raise_if (not (is_empty missing && is_empty unknown)) (bad_keys missing unknown)

-- `value[key]`
unfoldable pub index : Fields → Text → Result LedgerError Json
unfolding Json.lookup
index value key = or_raise (Json.lookup key value) key_error

unfoldable pub require_nonempty_string : Json → Result LedgerError Text
unfolding is_blank
require_nonempty_string (str s) = if is_blank s then err empty_string else ok s
require_nonempty_string v = err empty_string

-- `_require_nonempty_string(value[key], label)`
unfoldable pub text_field : Fields → Text → Result LedgerError Text
text_field value key = do v ← index value key; require_nonempty_string v

-- `[1-9][0-9]*`
unfoldable pub is_positive : Text → Bool
unfolding is_digit
is_positive [] = false
is_positive (c ∷ s) = leb b'1' c && leb c b'9' && all is_digit s

-- `int(digits)`, with the interpreter's limit on the digits
unfoldable pub to_int : Text → Result LedgerError ℕ
unfolding decimal
to_int s = if leb (length s) 4300 then ok (decimal 0 s) else err int_too_long

abbrev in_order : ℕ → ℕ → Result LedgerError (ℕ × ℕ)
in_order start stop = if ltb stop start then err lines_reversed else ok (start, stop)

-- the groups of `_LINE_RANGE_RE`
abbrev range_of_parts : List Text → Result LedgerError (ℕ × ℕ)
range_of_parts (first ∷ []) =
    if is_positive first then (do start ← to_int first; in_order start start) else err bad_lines
range_of_parts (first ∷ last ∷ []) =
    if is_positive first && is_positive last
    then (do start ← to_int first; stop ← to_int last; in_order start stop)
    else err bad_lines
range_of_parts parts = err bad_lines

unfoldable pub parse_line_range : Text → Result LedgerError (ℕ × ℕ)
unfolding split is_positive to_int
parse_line_range value = range_of_parts (split b'-' value)

-- `PurePosixPath(value).parts` of a relative path: empty parts and "." are dropped
abbrev keep_parts : List Text → List Text
keep_parts [] = []
keep_parts (p ∷ rest) =
    let kept = keep_parts rest in if p == [] || p == text "." then kept else p ∷ kept

unfoldable pub path_parts : Text → List Text
unfolding split
path_parts value = keep_parts (split b'/' value)

abbrev pub is_absolute : Text → Bool
is_absolute [] = false
is_absolute (c ∷ s) = c == b'/'

unfoldable pub validate_source_file : Text → Result LedgerError (Unit {0})
unfolding path_parts is_empty
validate_source_file value = do
  raise_if (contains value b'\\') backslash
  let parts = path_parts value
  raise_if
      (is_absolute value || is_empty parts || contains parts (text "..") || contains value b':')
      unsafe_path

-- `_SHA256_RE`
unfoldable pub is_digest : Text → Bool
unfolding is_digit
is_digest s = length s == 64 && all (λ c. is_digit c || leb b'a' c && leb c b'f') s

pub record ClaimSource : Type 0 where
  pub file : Text
  pub lines : Text
  pub quote_sha256 : Text

abbrev source_keys : List Text
source_keys = text "file" ∷ text "lines" ∷ text "quote_sha256" ∷ []

-- `ClaimSource.from_mapping`
unfoldable pub source_from_mapping : Fields → Result LedgerError ClaimSource
source_from_mapping value = do
  require_exact_keys value source_keys
  file ← text_field value (text "file")
  lines ← text_field value (text "lines")
  quote_sha256 ← text_field value (text "quote_sha256")
  validate_source_file file
  parse_line_range lines
  raise_if (not (is_digest quote_sha256)) bad_digest
  ok (record { file = file; lines = lines; quote_sha256 = quote_sha256 })

-- `ClaimSource.to_mapping`
unfoldable pub source_to_mapping : ClaimSource → Fields
source_to_mapping s =
    field (text "file") (str s.file)
      (field (text "lines") (str s.lines) (field (text "quote_sha256") (str s.quote_sha256) end))
