-- ===== src/Tests/Suite.antt =====
-- Tests of measure_twice/suite.py.
use measure_twice.Prelude.{
  ℕ, ◌+◌, ◌≡◌, refl, ◌⊎◌, true, false, ◌&&◌, some, List, [], ◌∷◌, leb, if◌then◌else◌, nat_eq,
  text_eq, option_eq, ◌==◌, contains, err,
}
use measure_twice.Text.{text}
use measure_twice.Json.{Json, field, end, str, arr, obj, of_list, lookup, keys, to_list}
use measure_twice.Unicode.{Unicode, casefold}
use measure_twice.Suite.{ScoringSpec}
use measure_twice.Suite.Spec.{
  allowed_types, spec_of_json, reject_unknown_and_missing, check_labels, validate_str_list,
  validate_label, is_encodable, label_collision,
}
use measure_twice.Suite.Spec.Labels.{DistinctLabels, spec_of_json-DistinctLabels}

abbrev lower : ℕ → ℕ
lower c = if leb b'A' c && leb c b'Z' then c + 32 else c

abbrev unicode : Unicode
unicode = record { fold_char = λ c. lower c ∷ []; same_char = λ a b. lower a == lower b }

abbrev verdict_json : List Json → Json
verdict_json labels =
    obj (
      field (text "type") (str (text "verdict")) (field (text "labels") (arr (of_list labels)) end))

abbrev spec : ScoringSpec
spec = record {
  kind = text "verdict";
  labels = some (text "flag" ∷ text "pass" ∷ []);
  regex = false;
}

refused_labels :
    spec_of_json unicode (verdict_json (str (text "Flag") ∷ str (text "flag") ∷ []))
    ≡ err label_collision
unfolding spec_of_json reject_unknown_and_missing check_labels validate_str_list validate_label
    is_encodable casefold lookup keys to_list of_list nat_eq text_eq
refused_labels = refl

spec_of_json-DistinctLabels_example :
    (contains allowed_types (text "verdict") ≡ true)
    × ((false ≡ false) ⊎ (text "verdict" ≡ text "exact"))
    × DistinctLabels unicode (some (text "flag" ∷ text "pass" ∷ []))
unfolding spec_of_json reject_unknown_and_missing check_labels validate_str_list validate_label
    is_encodable casefold lookup keys to_list of_list nat_eq text_eq
spec_of_json-DistinctLabels_example =
    spec_of_json-DistinctLabels unicode (verdict_json (str (text "flag") ∷ str (text "pass") ∷ []))
      spec refl
