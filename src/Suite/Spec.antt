-- ===== src/Suite/Spec.antt =====
-- measure_twice/suite.py: `ScoringSpec.from_mapping` and the checks of its `__post_init__`.
pub mod Labels
use measure_twice.Prelude.{
  ℕ, zero, suc, ◌+◌, ◌-◌, ◌*◌, ◌≤◌, ◌<◌, String, ◌≡◌, refl, sym, ap, ◌∙◌, subst, ◌≢◌, ◌↔◌, ◌⊎◌, inl,
  inr, Bool, true, false, not, ◌&&◌, ◌||◌, Option, none, some, List, [], ◌∷◌, ◌++◌, map, append-nil,
  append_assoc, arith, ltb, leb, if◌then◌else◌, Bool-cases, Option-cases, Eq, nat_eq, text_eq,
  option_eq, ◌==◌, contains, ==_refl, eq_of_==, length, take, drop, all, All, length-append,
  All-append, All-map, Result, ok, err, ◌>>=◌, ◌>>◌, raise_if, or_raise, traverse, bind-eq-ok,
  Result-cases, ok-injective, traverse-All, traverse-map, List-cases,
}
use measure_twice.Text.{
  Text, text, is_space, strip_left, strip_right, strip, is_blank, is_digit, decimal, is_break,
  cons_line, splitlines, split, join, unlines,
}
use measure_twice.Json.{Json, Fields, str, arr, obj, bool, null, lookup, keys, to_list}
use measure_twice.Unicode.{Unicode, casefold}
use measure_twice.Suite.{ScoringSpec}

-- `SuiteError`, a constructor for each check of a suite.
pub data SuiteError : Type 0 where
  not_object unknown_key missing_field bad_type bad_regex regex_not_exact not_labels empty_label :
      SuiteError
  lone_surrogate label_collision not_text unsafe_name no_alnum not_number not_in_unit bad_version
        not_list no_items duplicate_ids bad_pattern :
      SuiteError

-- whether `value.encode("utf-8")` succeeds
unfoldable pub is_encodable : Text → Bool
is_encodable s = all (λ c. not (leb 0xd800 c && leb c 0xdfff)) s

-- one turn of the loop of `_validate_str_list`
unfoldable pub validate_label : Json → Result SuiteError Text
validate_label (str []) = err empty_label
validate_label (str (c ∷ s)) = raise_if (not (is_encodable (c ∷ s))) lone_surrogate >> ok (c ∷ s)
validate_label v = err empty_label

unfoldable pub validate_str_list : Json → Result SuiteError (List Text)
validate_str_list (arr items) = traverse validate_label (to_list items)
validate_str_list v = err not_labels

-- `unknown = keys - allowed` and `missing = required - keys`
unfoldable pub reject_unknown_and_missing : List Text → List Text → Json → Result SuiteError Fields
reject_unknown_and_missing allowed required (obj fields) = do
  raise_if (not (all (contains allowed) (keys fields))) unknown_key
  raise_if (not (all (contains (keys fields)) required)) missing_field
  ok fields
reject_unknown_and_missing allowed required v = err not_object

abbrev pub allowed_types : List Text
allowed_types = text "verdict" ∷ text "exact" ∷ text "rubric" ∷ []

abbrev type_of : Option Json → Result SuiteError Text
type_of (some (str kind)) = raise_if (not (contains allowed_types kind)) bad_type >> ok kind
type_of v = err bad_type

abbrev regex_of : Option Json → Result SuiteError Bool
regex_of none = ok false
regex_of (some (bool b)) = ok b
regex_of (some v) = err bad_regex

module _ (u : Unicode) where
  -- the loop over `self.labels`, after the folded labels `seen`
  unfoldable pub check_labels : List Text → List Text → Result SuiteError (Unit {0})
  check_labels seen [] = ok tt
  check_labels seen (label ∷ rest) =
      raise_if (contains seen (casefold u label)) label_collision
      >> check_labels (casefold u label ∷ seen) rest

  abbrev distinct_labels : Json → Result SuiteError (Option (List Text))
  distinct_labels v = validate_str_list v >>= λ labels. check_labels [] labels >> ok (some labels)

  abbrev labels_of : Option Json → Result SuiteError (Option (List Text))
  labels_of none = ok none
  labels_of (some null) = ok none
  labels_of (some v) = distinct_labels v

  unfoldable pub spec_of_json : Json → Result SuiteError ScoringSpec
  spec_of_json v =
      reject_unknown_and_missing (text "type" ∷ text "labels" ∷ text "regex" ∷ [])
        (text "type" ∷ []) v
      >>= λ clean. type_of (lookup (text "type") clean) >>= λ kind.
          regex_of (lookup (text "regex") clean) >>= λ regex.
          raise_if (regex && not (kind == text "exact")) regex_not_exact
          >> (labels_of (lookup (text "labels") clean) >>= λ labels.
              ok (record { kind = kind; labels = labels; regex = regex }))
