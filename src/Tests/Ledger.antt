-- ===== src/Tests/Ledger.antt =====
-- Tests of measure_twice/ledger.py.
mod Audit
mod Render
use measure_twice.Prelude.{
  nat_eq, text_eq, ℕ, zero, suc, ◌+◌, ◌-◌, ◌*◌, ◌≤◌, ◌<◌, String, ◌≡◌, refl, sym, ap, ◌∙◌, subst,
  ◌≢◌, ◌↔◌, ◌⊎◌, inl, inr, Bool, true, false, not, ◌&&◌, ◌||◌, Option, none, some, List, [], ◌∷◌,
  ◌++◌, map, append-nil, append_assoc, arith, ltb, leb, if◌then◌else◌, Bool-cases, Option-cases, Eq,
  option_eq, ◌==◌, contains, ==_refl, eq_of_==, length, take, drop, all, All, length-append,
  All-append, All-map, Result, ok, err, ◌>>=◌, ◌>>◌, raise_if, or_raise, traverse, bind-eq-ok,
  Result-cases, ok-injective, traverse-All, traverse-map, List-cases,
}
use measure_twice.Text.{
  Text, text, is_space, strip_left, strip_right, strip, is_blank, is_digit, decimal, is_break,
  cons_line, splitlines, split, join, unlines,
}
use measure_twice.Externals.{Externals}
use measure_twice.Json.{Json, Fields, field, end, null, str, arr, obj, of_list}
use measure_twice.Ledger.Source.{
  index, is_digest, is_absolute, require_exact_keys, text_field, source_from_mapping, LedgerError,
  ClaimSource, backslash, unsafe_path, bad_lines, lines_reversed, parse_line_range,
  validate_source_file, path_parts,
}
use measure_twice.Ledger.Source.Range.{
  IsInner, parse_line_range_bounds, validate_source_file-IsInner,
}
use measure_twice.Ledger.Claim.{
  sources_field, status_field, evidence_field, optional_field, require_not_blank,
  validate_timestamp, require_measured, sources_of_json, status_of_value, evidence_of_json,
  optional_text, Claim, measured, partial, stale, to_mapping, from_mapping, claim_of_json,
}
use measure_twice.Ledger.Claim.Schema.{IsValid, from_mapping-IsValid}
use measure_twice.Ledger.Store.Loading.{claim_of_json-IsValid}
use measure_twice.Ledger.Claim.Roundtrip.{from_mapping_stable}

abbrev is_safe : ℕ → Bool
is_safe c = leb b'a' c && leb c b'z' || leb b'0' c && leb c b'9' || c == b'-'

abbrev pub digest_a : Text
digest_a = text "aaaaaaaaaaaaaaaaaaaaaaaaaaaaaaaaaaaaaaaaaaaaaaaaaaaaaaaaaaaaaaaa"

abbrev pub digest_b : Text
digest_b = text "bbbbbbbbbbbbbbbbbbbbbbbbbbbbbbbbbbbbbbbbbbbbbbbbbbbbbbbbbbbbbbbb"

-- A hash that tells one text from the others, and timestamps that all parse.
abbrev pub externals : Externals
externals = record {
  safe_name = λ s. all is_safe s;
  safe_start = λ s. all (λ c. is_safe c || c == 10) s;
  fromisoformat = λ s. some true;
  sha256 = λ s. if s == text "alpha" then digest_a else digest_b;
}

abbrev pub source : ClaimSource
source = record { file = text "docs/a.md"; lines = text "1"; quote_sha256 = digest_a }

abbrev pub second : ClaimSource
second = record { file = text "docs/a.md"; lines = text "2-3"; quote_sha256 = digest_a }

abbrev pub claim : Claim
claim = record {
  claim_id = text "c1";
  statement = text "haiku judges";
  decision_surface = text "routing";
  sources = source ∷ [];
  status = measured;
  evidence = text "run1" ∷ [];
  verdict = none;
  preregistration = some (text "before");
  last_verified_utc = text "2026-01-01T00:00:00Z";
}

abbrev pub drifted : Claim
drifted = record claim { claim_id = text "c2"; sources = source ∷ second ∷ [] }

abbrev claim_fields : Fields
claim_fields = field (text "claim_id") (str (text "c1")) (
    field (text "statement") (str (text "haiku judges")) (
      field (text "decision_surface") (str (text "routing")) (
        field (text "last_verified_utc") (str (text "2026-01-01T00:00:00Z")) (
          field (text "sources")
            (arr (
              of_list (
                obj (
                  field (text "file") (str (text "docs/a.md")) (
                    field (text "lines") (str (text "1"))
                      (field (text "quote_sha256") (str digest_a) end)))
                ∷ [])))
            (field (text "status") (str (text "MEASURED")) (
              field (text "evidence") (arr (of_list (str (text "run1") ∷ []))) (
                field (text "verdict") null
                  (field (text "preregistration") (str (text "before")) end))))))))

from_mapping-claim : from_mapping externals claim_fields ≡ ok claim
unfolding from_mapping require_exact_keys text_field sources_field status_field evidence_field
    optional_field require_not_blank validate_timestamp require_measured source_from_mapping nat_eq
    text_eq of_list sources_of_json status_of_value evidence_of_json optional_text index
    validate_source_file parse_line_range is_digest
from_mapping-claim = refl

refused_ranges :
    (parse_line_range (text "0-3") ≡ err bad_lines)
    × (parse_line_range (text "9-3") ≡ err lines_reversed)
    × (parse_line_range (text "3-") ≡ err bad_lines)
unfolding parse_line_range nat_eq
refused_ranges = (refl, refl, refl)

refused_paths :
    (validate_source_file (text "/etc/passwd") ≡ err unsafe_path)
    × (validate_source_file (text "a/../b") ≡ err unsafe_path)
    × (validate_source_file (text "a\\b") ≡ err backslash)
unfolding validate_source_file nat_eq text_eq
refused_paths = (refl, refl, refl)

parse_line_range_bounds_example : (1 ≤ 30) × (30 ≤ 33)
unfolding parse_line_range nat_eq
parse_line_range_bounds_example = parse_line_range_bounds (text "30-33") (30, 33) refl

validate_source_file-IsInner_example :
    (is_absolute (text "docs/a.md") ≡ false)
    × (path_parts (text "docs/a.md") ≢ [])
    × All IsInner (path_parts (text "docs/a.md"))
unfolding validate_source_file nat_eq text_eq
validate_source_file-IsInner_example = validate_source_file-IsInner (text "docs/a.md") refl

pub claim-IsValid : IsValid externals claim
claim-IsValid = from_mapping-IsValid externals claim_fields claim from_mapping-claim

pub drifted-IsValid : IsValid externals drifted
unfolding claim_of_json to_mapping from_mapping require_exact_keys text_field sources_field
    status_field evidence_field optional_field require_not_blank validate_timestamp require_measured
    source_from_mapping nat_eq text_eq of_list sources_of_json status_of_value evidence_of_json
    optional_text index validate_source_file parse_line_range is_digest
drifted-IsValid = claim_of_json-IsValid externals (to_mapping drifted) drifted refl

from_mapping_stable_example : claim_of_json externals (to_mapping claim) ≡ ok claim
from_mapping_stable_example = from_mapping_stable externals claim_fields claim from_mapping-claim
