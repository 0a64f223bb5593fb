-- ===== src/Scoring/Verdict.antt =====
-- measure_twice/scoring/deterministic.py: `extract_verdict_label` and the functions under it.
pub mod Spans
pub mod Labels
pub mod Agreement
pub mod Leakage
use measure_twice.Prelude.{
  ℕ, suc, ◌+◌, ◌-◌, Bool, true, false, not, ◌&&◌, ◌||◌, Option, none, some, List, [], ◌∷◌, ◌++◌,
  ltb, if◌then◌else◌, nat_eq, text_eq, option_eq, ◌==◌, contains, drop,
}
use measure_twice.Text.{Text, text, strip_left, strip, split}
use measure_twice.Unicode.{Unicode, casefold, is_alnum, slice}
use measure_twice.Json.{Json, Fields, field, end, null, str, obj, Codec}

-- The variables of the loop of `_json_object_spans`; `none` stands for `start = -1`.
pub record Scan : Type 0 where
  pub spans : List (ℕ × ℕ)
  pub depth : ℕ
  pub start : Option ℕ
  pub in_str : Bool
  pub escape : Bool

abbrev unscanned : Scan
unscanned = record { spans = []; depth = 0; start = none; in_str = false; escape = false }

-- `if depth == 0 and start >= 0`, after a closing brace at `i`
unfoldable pub close_span : ℕ → Option ℕ → Scan → Scan
close_span i none s = s
close_span i (some a) s =
    if s.depth == 0 then record s { spans = s.spans ++ (a, i + 1) ∷ []; start = none } else s

-- one turn of `for i, ch in enumerate(text)`
unfoldable pub scan_char : ℕ → ℕ → Scan → Scan
scan_char i ch s =
    if s.in_str
    then if s.escape
      then record s { escape = false }
      else if ch == b'\\'
      then record s { escape = true }
      else if ch == b'"'
      then record s { in_str = false }
      else s
    else if ch == b'"'
    then record s { in_str = true }
    else if ch == b'{'
    then record s { start = (if s.depth == 0 then some i else s.start); depth = s.depth + 1 }
    else if ch == b'}' && ltb 0 s.depth
    then close_span i s.start (record s { depth = s.depth - 1 })
    else s

unfoldable pub scan_from : ℕ → Text → Scan → Scan
scan_from i [] s = s
scan_from i (ch ∷ rest) s = scan_from (suc i) rest (scan_char i ch s)

unfoldable pub json_object_spans : Text → List (ℕ × ℕ)
json_object_spans s = (scan_from 0 s unscanned).spans

-- `list(dict.fromkeys(found))`, after the elements `seen`
unfoldable pub distinct_after : List Text → List Text → List Text
distinct_after seen [] = []
distinct_after seen (x ∷ xs) =
    let kept = distinct_after (x ∷ seen) xs in
    let dropped = distinct_after seen xs in if contains seen x then dropped else x ∷ kept

unfoldable pub distinct : List Text → List Text
distinct found = distinct_after [] found

abbrev verdict_of_distinct : List Text → Option Text × Bool
verdict_of_distinct [] = (none, false)
verdict_of_distinct (l ∷ []) = (some l, false)
verdict_of_distinct (l ∷ m ∷ rest) = (none, true)

unfoldable pub single_or_conflict : List Text → Option Text × Bool
single_or_conflict found = verdict_of_distinct (distinct found)

-- `_VERDICT_KEY_PRIORITY`, which are also the words of `_LABELED_LINE_RE`
abbrev pub verdict_keys : List Text
verdict_keys = text "verdict" ∷ text "label" ∷ text "answer" ∷ text "classification" ∷ []

module _ (u : Unicode) where
  -- What is left of a text after a literal that it starts with, whatever the case.
  unfoldable pub after_literal : Text → Text → Option Text
  after_literal [] s = some s
  after_literal (l ∷ rest) [] = none
  after_literal (l ∷ rest) (c ∷ s) =
      let r = after_literal rest s in if u.same_char l c then r else none

  abbrev ends_word : Option Text → Bool
  ends_word none = false
  ends_word (some []) = true
  ends_word (some (c ∷ s)) = not (is_alnum c)

  -- `pattern.search(text)` of a label as a whole word; `at_boundary` says that no letter or digit
  -- stands before the text
  unfoldable pub occurs : Text → Bool → Text → Bool
  occurs label at_boundary [] = at_boundary && ends_word (after_literal label [])
  occurs label at_boundary (c ∷ s) =
      at_boundary && ends_word (after_literal label (c ∷ s)) || occurs label (not (is_alnum c)) s

  -- the loop of `_labels_present`, with the labels found so far
  unfoldable pub labels_present : Text → List Text → List Text → List Text
  labels_present s found [] = found
  labels_present s found (label ∷ rest) =
      labels_present s
        (if occurs label true s && not (contains found label) then found ++ label ∷ [] else found)
        rest

  abbrev only : List Text → Option Text
  only (l ∷ []) = some l
  only other = none

  unfoldable pub unique_label : Text → List Text → Option Text
  unique_label s labels = only (labels_present s [] labels)

  -- `lowered.get(key)`: of two keys that fold alike, the later one has been kept
  unfoldable pub lowered_get : Text → Fields → Option Json
  lowered_get key end = none
  lowered_get key (field k v rest) = elim (lowered_get key rest) [
    | some w ↦ some w
    | none ↦ if casefold u k == key then some v else none
  ]

  abbrev label_of_value : List Text → Option Json → Option Text
  label_of_value labels (some (str s)) = unique_label s labels
  label_of_value labels v = none

  -- `for key in _VERDICT_KEY_PRIORITY`
  unfoldable pub resolve_keys : List Text → Fields → List Text → Option Text
  resolve_keys labels value [] = none
  resolve_keys labels value (key ∷ rest) =
      let other = resolve_keys labels value rest in
      elim (label_of_value labels (lowered_get key value)) [ some l ↦ some l | none ↦ other ]

  -- the value of a line that `_LABELED_LINE_RE` matches, from what follows the word
  abbrev after_word : Text → Option Text
  after_word [] = none
  after_word (c ∷ s) = if c == b':' || c == b'=' then some (strip s) else none

  unfoldable pub labeled_value : List Text → Text → Option Text
  labeled_value [] line = none
  labeled_value (word ∷ words) line =
      let other = labeled_value words line in
      elim (after_literal word line) [ some rest ↦ after_word (strip_left rest) | none ↦ other ]

  -- `for match in _LABELED_LINE_RE.finditer(response_raw)`: a line is matched at most once
  unfoldable pub labeled_lines : List Text → List Text → List Text
  labeled_lines labels [] = []
  labeled_lines labels (line ∷ rest) =
      let others = labeled_lines labels rest in
      elim (labeled_value verdict_keys (strip_left line)) [
        | none ↦ others
        | some value ↦ elim (unique_label value labels) [ none ↦ others | some l ↦ l ∷ others ]
      ]

module _ (u : Unicode) (codec : Codec) where
  -- `_try_json`; a JSON null gives `None` too
  unfoldable pub try_json : Text → Option Json
  try_json candidate = elim (codec.loads candidate) [ some null ↦ none | other ↦ other ]

  -- `_text_outside_valid_json`, from the end `prev` of the last object that was blanked
  unfoldable pub text_outside : Text → ℕ → List (ℕ × ℕ) → Text
  text_outside s prev [] = drop prev s
  text_outside s prev ((start, stop) ∷ spans) =
      let kept = text_outside s prev spans in
      elim (try_json (slice start stop s)) [
        | none ↦ kept
        | some v ↦ slice prev start s ++ (b' ' ∷ text_outside s stop spans)
      ]

  abbrev label_of_object : List Text → Option Json → Option Text
  label_of_object labels (some (obj value)) = resolve_keys u labels value verdict_keys
  label_of_object labels v = none

  -- the labels of the JSON tier
  unfoldable pub json_labels : Text → List Text → List (ℕ × ℕ) → List Text
  json_labels s labels [] = []
  json_labels s labels ((start, stop) ∷ spans) =
      let others = json_labels s labels spans in
      elim (label_of_object labels (try_json (slice start stop s))) [
        | none ↦ others
        | some l ↦ l ∷ others
      ]

  -- a tier that resolves ends the search, and so does one that disagrees with itself
  abbrev tier : Option Text × Bool → Option Text → Option Text
  tier (some l, conflict) next = some l
  tier (none, conflict) next = if conflict then none else next

  unfoldable pub extract_verdict_label : Text → List Text → Option Text
  extract_verdict_label s [] = none
  extract_verdict_label s (l ∷ ls) =
      let labels = l ∷ ls in
      let spans = json_object_spans s in
      tier (single_or_conflict (json_labels s labels spans)) (
        tier (single_or_conflict (labeled_lines u labels (split 10 s)))
          (unique_label u (text_outside s 0 spans) labels))
