-- ===== src/Suite/Whole.antt =====
-- measure_twice/suite.py: `Suite.from_mapping` and the checks of its `__post_init__`.
use measure_twice.Prelude.{
  ℕ, ◌≡◌, subst, inl, inr, Bool, true, false, not, ◌&&◌, List, [], ◌∷◌, ltb, Bool-cases, nat_eq,
  text_eq, option_eq, ◌==◌, contains, length, all, Result, ok, err, ◌>>=◌, ◌>>◌, raise_if, or_raise,
  traverse, bind-eq-ok, ok-injective, not_raised_unless,
}
use measure_twice.Text.{Text, text}
use measure_twice.Json.{Json, Fields, int, arr, lookup, to_list}
use measure_twice.Unicode.{Unicode}
use measure_twice.Externals.{Externals}
use measure_twice.Suite.{ScoringSpec, Item}
use measure_twice.Suite.Spec.{
  SuiteError, missing_field, bad_version, not_list, no_items, duplicate_ids, bad_pattern,
  reject_unknown_and_missing, spec_of_json,
}
use measure_twice.Suite.Entry.{validate_nonempty_str, validate_safe_name, item_of_json}

pub record Suite : Type 0 where
  pub suite : Text
  pub version : ℕ
  pub description : Text
  pub domain : Text
  pub scoring : ScoringSpec
  pub items : List Item

-- `_validate_int_at_least(version, ..., 1)`
abbrev version_of : Json → Result SuiteError ℕ
version_of (int n) = raise_if (ltb n 1) bad_version >> ok n
version_of v = err bad_version

-- whether `dupes` stays empty, after the ids `seen`
unfoldable pub are_distinct : List Text → List Item → Bool
are_distinct seen [] = true
are_distinct seen (item ∷ rest) = not (contains seen item.id) && are_distinct (item.id ∷ seen) rest

abbrev suite_fields : List Text
suite_fields =
    text "suite"
    ∷ text "version"
    ∷ text "description"
    ∷ text "domain"
    ∷ text "scoring"
    ∷ text "items"
    ∷ []

abbrev value_at : Fields → Text → Result SuiteError Json
value_at fields key = or_raise (lookup key fields) missing_field

abbrev list_of : Json → Result SuiteError (List Json)
list_of (arr entries) = ok (to_list entries)
list_of v = err not_list

false-not-true : false ≡ true → ⊥
false-not-true h = cc

-- `compiles` says that `compile_exact_pattern` raises no `re.error`.
module _ (u : Unicode) (x : Externals) (compiles : Text → Bool) (is_alnum_char : ℕ → Bool) where
  -- the checks of the items in `__post_init__`
  unfoldable pub check_items : ScoringSpec → List Item → Result SuiteError (Unit {0})
  check_items scoring items =
      raise_if (length items == 0) no_items
      >> (raise_if (not (are_distinct [] items)) duplicate_ids
          >> raise_if (scoring.regex && not (all (λ i. compiles i.expected) items)) bad_pattern)

  unfoldable pub suite_of_fields : Fields → ScoringSpec → List Item → Result SuiteError Suite
  suite_of_fields clean scoring items = do
    suite ← value_at clean (text "suite") >>= validate_safe_name x is_alnum_char
    version ← value_at clean (text "version") >>= version_of
    description ← value_at clean (text "description") >>= validate_nonempty_str
    domain ← value_at clean (text "domain") >>= validate_nonempty_str
    check_items scoring items
    ok (record {
      suite = suite;
      version = version;
      description = description;
      domain = domain;
      scoring = scoring;
      items = items;
    })

  unfoldable pub suite_of_json : Json → Result SuiteError Suite
  suite_of_json v = do
    clean ← reject_unknown_and_missing suite_fields suite_fields v
    scoring ← value_at clean (text "scoring") >>= spec_of_json u
    entries ← value_at clean (text "items") >>= list_of
    items ← traverse (item_of_json x is_alnum_char) entries
    suite_of_fields clean scoring items

  -- No item has the id of another, or one of those that were seen.
  abbrev pub DistinctIds : List Text → List Item → Type 0
  DistinctIds seen [] = Unit
  DistinctIds seen (i ∷ rest) = (contains seen i.id ≡ false) × DistinctIds (i.id ∷ seen) rest

  are_distinct-DistinctIds :
      (seen : List Text) (items : List Item)
      → are_distinct seen items ≡ true
      → DistinctIds seen items
  unfolding are_distinct
  are_distinct-DistinctIds seen [] h = tt
  are_distinct-DistinctIds seen (i ∷ rest) h = elim (Bool-cases (contains seen i.id)) [
    | inl t ↦ absurd (false-not-true (rw t at h))
    | inr t ↦ (t, are_distinct-DistinctIds (i.id ∷ seen) rest (rw t at h))
  ]

  check_items-DistinctIds :
      (scoring : ScoringSpec) (items : List Item) (t : Unit {0})
      → check_items scoring items ≡ ok t
      → DistinctIds [] items
  unfolding check_items
  check_items-DistinctIds scoring items t h =
      let (_, _, h) = bind-eq-ok (raise_if (length items == 0) no_items) _ h in
      let (d, e, h) = bind-eq-ok (raise_if (not (are_distinct [] items)) duplicate_ids) _ h in
      are_distinct-DistinctIds [] items
        (not_raised_unless (are_distinct [] items) duplicate_ids d e)

  suite_of_fields-DistinctIds :
      (clean : Fields) (scoring : ScoringSpec) (items : List Item) (suite : Suite)
      → suite_of_fields clean scoring items ≡ ok suite
      → DistinctIds [] suite.items
  unfolding suite_of_fields
  suite_of_fields-DistinctIds clean scoring items suite h =
      let (_, _, h) =
        bind-eq-ok (value_at clean (text "suite") >>= validate_safe_name x is_alnum_char) _ h in
      let (_, _, h) = bind-eq-ok (value_at clean (text "version") >>= version_of) _ h in
      let (_, _, h) =
        bind-eq-ok (value_at clean (text "description") >>= validate_nonempty_str) _ h in
      let (_, _, h) = bind-eq-ok (value_at clean (text "domain") >>= validate_nonempty_str) _ h in
      let (t, c, h) = bind-eq-ok (check_items scoring items) _ h in
      subst (λ s. DistinctIds [] s.items) (ok-injective h)
        (check_items-DistinctIds scoring items t c)

  -- No two items of a suite that loads have the same id, so a cell of a run names one item.
  pub suite_of_json-DistinctIds :
      (v : Json) (suite : Suite) → suite_of_json v ≡ ok suite → DistinctIds [] suite.items
  unfolding suite_of_json
  suite_of_json-DistinctIds v suite h =
      let (clean, _, h) = bind-eq-ok (reject_unknown_and_missing suite_fields suite_fields v) _ h in
      let (scoring, _, h) = bind-eq-ok (value_at clean (text "scoring") >>= spec_of_json u) _ h in
      let (entries, _, h) = bind-eq-ok (value_at clean (text "items") >>= list_of) _ h in
      let (items, _, h) = bind-eq-ok (traverse (item_of_json x is_alnum_char) entries) _ h in
      suite_of_fields-DistinctIds clean scoring items suite h
