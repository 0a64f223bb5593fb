-- ===== src/Suite/Entry.antt =====
-- measure_twice/suite.py: `Item.from_mapping` and the checks of its `__post_init__`.
pub mod Checked
use measure_twice.Prelude.{
  ℕ, zero, suc, ◌+◌, ◌-◌, ◌*◌, ◌≤◌, ◌<◌, String, ◌≡◌, refl, sym, ap, ◌∙◌, subst, ◌≢◌, ◌↔◌, ◌⊎◌, inl,
  inr, Bool, true, false, not, ◌&&◌, ◌||◌, Option, none, some, List, [], ◌∷◌, ◌++◌, map, append-nil,
  append_assoc, arith, ltb, leb, if◌then◌else◌, Bool-cases, Option-cases, Eq, nat_eq, text_eq,
  option_eq, ◌==◌, contains, ==_refl, eq_of_==, length, take, drop, all, All, length-append,
  All-append, All-map, Result, ok, err, ◌>>=◌, ◌>>◌, raise_if, or_raise, traverse, bind-eq-ok,
  Result-cases, ok-injective, traverse-All, traverse-map, List-cases, not_raised, not_raised_unless,
}
use measure_twice.Text.{
  Text, text, is_space, strip_left, strip_right, strip, is_blank, is_digit, decimal, is_break,
  cons_line, splitlines, split, join, unlines,
}
use measure_twice.Json.{Json, Fields, str, int, neg, flt, lookup}
use measure_twice.Externals.{Externals}
use measure_twice.Suite.{Float, zero_float, one_float, Item}
use measure_twice.Suite.Spec.{
  SuiteError, missing_field, not_text, unsafe_name, no_alnum, lone_surrogate, not_number,
  not_in_unit, is_encodable, validate_str_list, reject_unknown_and_missing,
}

-- `not isinstance(value, str) or not value`
abbrev pub nonempty : Json → Result SuiteError Text
nonempty (str (c ∷ s)) = ok (c ∷ s)
nonempty v = err not_text

unfoldable pub validate_nonempty_str : Json → Result SuiteError Text
validate_nonempty_str v = do
  value ← nonempty v
  raise_if (not (is_encodable value)) lone_surrogate
  ok value

-- `0.0 <= x <= 1.0` of a float: its bits are those of 0.0 to 1.0, or of -0.0
unfoldable pub is_unit : Float → Bool
is_unit x = leb x one_float || x == 0x8000000000000000

-- `_validate_unit_float`, and the float that the value becomes
unfoldable pub validate_unit_float : Json → Result SuiteError Float
validate_unit_float (flt x) = raise_if (not (is_unit x)) not_in_unit >> ok x
validate_unit_float (int n) =
    if n == 0 then ok zero_float else if n == 1 then ok one_float else err not_in_unit
validate_unit_float (neg n) = err not_in_unit
validate_unit_float v = err not_number

-- `data[key]` of a key that is required
abbrev value_of : Fields → Text → Result SuiteError Json
value_of fields key = or_raise (lookup key fields) missing_field

abbrev pub item_fields : List Text
item_fields =
    text "id"
    ∷ text "tags"
    ∷ text "prompt"
    ∷ text "expected"
    ∷ text "difficulty_prior"
    ∷ text "provenance"
    ∷ []

-- The fields of an item before its `__post_init__`.
pub record RawItem : Type 0 where
  pub id : Json
  pub tags : Json
  pub prompt : Json
  pub expected : Json
  pub difficulty_prior : Json
  pub provenance : Json

-- `cls(**clean)`
unfoldable pub raw_item : Fields → Result SuiteError RawItem
raw_item clean = do
  id ← value_of clean (text "id")
  tags ← value_of clean (text "tags")
  prompt ← value_of clean (text "prompt")
  expected ← value_of clean (text "expected")
  prior ← value_of clean (text "difficulty_prior")
  provenance ← value_of clean (text "provenance")
  ok (record {
    id = id;
    tags = tags;
    prompt = prompt;
    expected = expected;
    difficulty_prior = prior;
    provenance = provenance;
  })

-- `is_alnum` is `str.isalnum` of one character.
module _ (x : Externals) (is_alnum : ℕ → Bool) where
  -- `any(ch.isalnum() for ch in value)`
  unfoldable pub has_alnum : Text → Bool
  has_alnum [] = false
  has_alnum (c ∷ s) = is_alnum c || has_alnum s

  unfoldable pub validate_safe_name : Json → Result SuiteError Text
  validate_safe_name v = do
    value ← nonempty v
    raise_if (not (x.safe_start value)) unsafe_name
    raise_if (not (has_alnum value)) no_alnum
    ok value

  -- `__post_init__`
  unfoldable pub checked_item : RawItem → Result SuiteError Item
  checked_item self = do
    id ← validate_safe_name self.id
    tags ← validate_str_list self.tags
    prompt ← validate_nonempty_str self.prompt
    expected ← validate_nonempty_str self.expected
    prior ← validate_unit_float self.difficulty_prior
    provenance ← validate_nonempty_str self.provenance
    ok (record {
      id = id;
      tags = tags;
      prompt = prompt;
      expected = expected;
      difficulty_prior = prior;
      provenance = provenance;
    })

  unfoldable pub item_of_json : Json → Result SuiteError Item
  item_of_json v = do
    clean ← reject_unknown_and_missing item_fields item_fields v
    self ← raw_item clean
    checked_item self
