-- ===== src/Tests/Entry.antt =====
-- Tests of `Item.from_mapping` and `Suite.from_mapping`.
use measure_twice.Prelude.{
  ℕ, refl, Bool, true, false, ◌&&◌, ◌||◌, none, some, [], ◌∷◌, leb, nat_eq, text_eq, option_eq,
  ◌==◌, all,
}
use measure_twice.Text.{Text, text}
use measure_twice.Json.{Json, field, end, str, int, arr, obj, of_list, lookup, keys, to_list}
use measure_twice.Externals.{Externals}
use measure_twice.Suite.{one_float, Item}
use measure_twice.Suite.Spec.{
  check_labels, spec_of_json, reject_unknown_and_missing, validate_str_list, validate_label,
  is_encodable,
}
use measure_twice.Suite.Entry.{
  item_of_json, checked_item, raw_item, validate_safe_name, has_alnum, validate_nonempty_str,
  validate_unit_float,
}
use measure_twice.Unicode.{Unicode}
use measure_twice.Suite.Whole.{
  Suite, suite_of_json, suite_of_fields, check_items, are_distinct, DistinctIds,
  suite_of_json-DistinctIds,
}

abbrev is_letter : ℕ → Bool
is_letter c = leb b'a' c && leb c b'z'

abbrev externals : Externals
externals = record {
  safe_name = λ s. all (λ c. is_letter c || c == b'.') s;
  safe_start = λ s. all (λ c. is_letter c || c == b'.' || c == 10) s;
  fromisoformat = λ s. some true;
  sha256 = λ s. s;
}

abbrev item_json : Json
item_json = obj (
    field (text "id") (str (text "a.b")) (
      field (text "tags") (arr (of_list [])) (
        field (text "prompt") (str (text "?")) (
          field (text "expected") (str (text "yes")) (
            field (text "difficulty_prior") (int 1)
              (field (text "provenance") (str (text "authored")) end))))))

abbrev item : Item
item = record {
  id = text "a.b";
  tags = [];
  prompt = text "?";
  expected = text "yes";
  difficulty_prior = one_float;
  provenance = text "authored";
}

abbrev unicode : Unicode
unicode = record { fold_char = λ c. c ∷ []; same_char = λ a b. a == b }

abbrev compiles : Text → Bool
compiles = λ s. true

abbrev suite_json : Json
suite_json = obj (
    field (text "suite") (str (text "s")) (
      field (text "version") (int 1) (
        field (text "description") (str (text "d")) (
          field (text "domain") (str (text "d")) (
            field (text "scoring") (obj (field (text "type") (str (text "exact")) end))
              (field (text "items") (arr (of_list (item_json ∷ []))) end))))))

abbrev suite : Suite
suite = record {
  suite = text "s";
  version = 1;
  description = text "d";
  domain = text "d";
  scoring = record { kind = text "exact"; labels = none; regex = false };
  items = item ∷ [];
}

suite_of_json-DistinctIds_example : DistinctIds unicode externals compiles is_letter [] (item ∷ [])
unfolding suite_of_json suite_of_fields check_items are_distinct spec_of_json check_labels
    item_of_json checked_item raw_item validate_safe_name has_alnum validate_nonempty_str
    validate_unit_float reject_unknown_and_missing validate_str_list validate_label is_encodable
    lookup keys to_list of_list nat_eq text_eq
suite_of_json-DistinctIds_example =
    suite_of_json-DistinctIds unicode externals compiles is_letter suite_json suite refl
