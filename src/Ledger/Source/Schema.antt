-- ===== src/Ledger/Source/Schema.antt =====
-- What a `ClaimSource` that was accepted satisfies, and the way back from its mapping.
use measure_twice.Prelude.{
  Result-cases, inl, inr, text_eq, ℕ, ◌≡◌, refl, inl, inr, true, false, arith, nat_eq, text_eq,
  option_eq, ok, bind-eq-ok,
}
use measure_twice.Text.{Text, text, is_blank}
use measure_twice.Json
use measure_twice.Json.{Fields}
use measure_twice.Ledger.Source.{
  ClaimSource, text_field, require_exact_keys, require_nonempty_string, index, is_digest,
  parse_line_range, validate_source_file, source_from_mapping, source_to_mapping,
}

pub record IsValidSource (s : ClaimSource) : Type 0 where
  pub file_present : is_blank s.file ≡ false
  pub lines_present : is_blank s.lines ≡ false
  pub digest_present : is_blank s.quote_sha256 ≡ false
  pub file_safe : validate_source_file s.file ≡ ok tt
  pub lines_parse : (r : ℕ × ℕ) × (parse_line_range s.lines ≡ ok r)
  pub digest_shape : is_digest s.quote_sha256 ≡ true

-- A text that `_require_nonempty_string` returns is not blank.
pub require_nonempty_string-present :
    (v : Json.Json) (s : Text) → require_nonempty_string v ≡ ok s → is_blank s ≡ false
unfolding require_nonempty_string is_blank
require_nonempty_string-present (Json.str t) s h = ground arith
require_nonempty_string-present _ s h = cc

pub text_field-present :
    (value : Fields) (key : Text) (s : Text) → text_field value key ≡ ok s → is_blank s ≡ false
unfolding text_field
text_field-present value key s h =
    let (v, _, e) = bind-eq-ok (index value key) require_nonempty_string h in
    require_nonempty_string-present v s e

-- The checks that a mapping passes on its way to a source.
source_fields :
    (value : Fields) (s : ClaimSource)
    → source_from_mapping value ≡ ok s
    → (text_field value (text "file") ≡ ok s.file)
      × (text_field value (text "lines") ≡ ok s.lines)
      × (text_field value (text "quote_sha256") ≡ ok s.quote_sha256)
      × (validate_source_file s.file ≡ ok tt)
      × (is_digest s.quote_sha256 ≡ true)
unfolding source_from_mapping
source_fields value s h = ground arith

source_lines :
    (value : Fields) (s : ClaimSource)
    → source_from_mapping value ≡ ok s
    → (r : ℕ × ℕ) × (parse_line_range s.lines ≡ ok r)
unfolding source_from_mapping
source_lines value s h = elim (Result-cases (parse_line_range s.lines)) [
  | inl found ↦ found
  | inr (e, bad) ↦ absurd (ground arith)
]

pub source_from_mapping-IsValidSource :
    (value : Fields) (s : ClaimSource) → source_from_mapping value ≡ ok s → IsValidSource s
source_from_mapping-IsValidSource value s h =
    let (f, l, q, safe, shape) = source_fields value s h in
    record {
      file_present = text_field-present value _ _ f;
      lines_present = text_field-present value _ _ l;
      digest_present = text_field-present value _ _ q;
      file_safe = safe;
      lines_parse = source_lines value s h;
      digest_shape = shape;
    }

-- A valid source is read back from its mapping.
pub source_roundtrip :
    (s : ClaimSource) → IsValidSource s → source_from_mapping (source_to_mapping s) ≡ ok s
unfolding source_from_mapping source_to_mapping require_exact_keys text_field index
    require_nonempty_string text_eq
source_roundtrip s v =
    rw
      (
        v.file_present, v.lines_present, v.digest_present, v.file_safe, v.lines_parse.1,
        v.digest_shape,
      )
      refl
