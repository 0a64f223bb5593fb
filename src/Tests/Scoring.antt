-- ===== src/Tests/Scoring.antt =====
-- Tests of measure_twice/scoring/deterministic.py.
use measure_twice.Prelude.{
  ℕ, ◌+◌, ◌≡◌, refl, sym, ap, ◌∙◌, ◌≢◌, ◌⊎◌, inl, true, false, ◌&&◌, none, some, List, [], ◌∷◌,
  ◌++◌, arith, leb, if◌then◌else◌, nat_eq, text_eq, option_eq, ◌==◌, contains, length, ok,
}
use measure_twice.Text.{Text, text, is_space, strip_left, strip_right, strip, cons_line, split}
use measure_twice.Unicode.{casefold, is_alnum, slice, Unicode}
use measure_twice.Json.{Codec, str, obj, field, end}
use measure_twice.Suite.{zero_float, one_float, ScoringSpec, Item}
use measure_twice.Scoring.{ScoreOutcome}
use measure_twice.Scoring.Verdict.{
  single_or_conflict, distinct, distinct_after, scan_from, scan_char, close_span, try_json,
  resolve_keys, lowered_get, unique_label, labels_present, occurs, after_literal, labeled_lines,
  labeled_value, text_outside, json_labels, json_object_spans, extract_verdict_label,
}
use measure_twice.Scoring.Verdict.Spans.{InOrder, json_object_spans-InOrder}
use measure_twice.Scoring.Verdict.Labels.{extract_verdict_label-mem}
use measure_twice.Scoring.Verdict.Agreement.{SameSet, extract-SameSet, extract_disputed}
use measure_twice.Scoring.Verdict.Leakage.{extract-object_only}
use measure_twice.Scoring.Deterministic.{
  Regex, Scorer, verdict_scorer, parse_fail_marker, same_answer, score_verdict,
  make_deterministic_scorer,
}
use measure_twice.Scoring.Deterministic.Outcomes.{verdict_scorer_outcome}

abbrev lower : ℕ → ℕ
lower c = if leb b'A' c && leb c b'Z' then c + 32 else c

abbrev unicode : Unicode
unicode = record { fold_char = λ c. lower c ∷ []; same_char = λ a b. lower a == lower b }

abbrev flag_object : Text
flag_object = text "{\"verdict\": \"Flag\"}"

abbrev pass_object : Text
pass_object = text "{\"label\": \"pass\"}"

abbrev key_object : Text
key_object = text "{\"flag\": \"}\"}"

-- A codec that reads the objects of this file.
abbrev codec : Codec
codec = record {
  dumps = λ v. [];
  loads = λ s.
      if s == flag_object
      then some (obj (field (text "verdict") (str (text "Flag")) end))
      else if s == pass_object
      then some (obj (field (text "label") (str (text "pass")) end))
      else if s == key_object
      then some (obj (field (text "flag") (str (text "}")) end))
      else none;
}

abbrev regex : Regex
regex = record { fullmatch = λ pattern s. some (pattern == s) }

abbrev labels : List Text
labels = text "flag" ∷ text "pass" ∷ []

abbrev verdict_spec : ScoringSpec
verdict_spec = record { kind = text "verdict"; labels = some labels; regex = false }

abbrev item : Item
item = record {
  id = text "i1";
  tags = [];
  prompt = text "?";
  expected = text "FLAG";
  difficulty_prior = zero_float;
  provenance = text "seed";
}

abbrev prose : Text
prose = text "I would say flag, not flags."

abbrev doubled : Text
doubled = flag_object ++ pass_object

abbrev swapped : Text
swapped = pass_object ++ flag_object

pair_swapped : (a b x : Text) → contains (a ∷ b ∷ []) x ≡ contains (b ∷ a ∷ []) x
pair_swapped a b x = ground arith

flag_not_pass : text "flag" ≢ text "pass"
flag_not_pass p = ground (arith, p)

-- Lists known to be the two orders of two labels hold the same texts.
SameSet-swapped : (f g : List Text) (a b : Text) → f ≡ a ∷ b ∷ [] → g ≡ b ∷ a ∷ [] → SameSet f g
SameSet-swapped f g a b p q =
    λ x. ap (λ h. contains h x) p ∙ pair_swapped a b x ∙ sym (ap (λ h. contains h x) q)

objects_of_responses :
    (json_labels unicode codec doubled labels (json_object_spans doubled)
      ≡ text "flag" ∷ text "pass" ∷ [])
    × (json_labels unicode codec swapped labels (json_object_spans swapped)
        ≡ text "pass" ∷ text "flag" ∷ [])
unfolding json_labels json_object_spans scan_from scan_char nat_eq text_eq close_span try_json slice
    resolve_keys lowered_get casefold unique_label labels_present occurs after_literal is_alnum
objects_of_responses = (refl, refl)

labels_of_responses :
    (extract_verdict_label unicode codec flag_object labels ≡ some (text "flag"))
    × (extract_verdict_label unicode codec prose labels ≡ some (text "flag"))
    × (extract_verdict_label unicode codec (text "Answer = PASS ") labels ≡ some (text "pass"))
    × (extract_verdict_label unicode codec (text "flags or unpass") labels ≡ none)
unfolding extract_verdict_label single_or_conflict distinct distinct_after json_labels
    json_object_spans scan_from scan_char nat_eq text_eq close_span try_json slice resolve_keys
    lowered_get casefold unique_label labels_present occurs after_literal is_alnum labeled_lines
    split labeled_value strip_left strip strip_right is_space text_outside cons_line
labels_of_responses = (refl, refl, refl, refl)

json_object_spans-InOrder_example : InOrder 0 (length doubled) (json_object_spans doubled)
json_object_spans-InOrder_example = json_object_spans-InOrder doubled

extract_verdict_label-mem_example : contains labels (text "flag") ≡ true
unfolding extract_verdict_label single_or_conflict distinct distinct_after json_labels
    json_object_spans scan_from scan_char nat_eq text_eq close_span try_json slice resolve_keys
    lowered_get casefold unique_label labels_present occurs after_literal is_alnum labeled_lines
    split labeled_value strip_left strip strip_right is_space text_outside cons_line
extract_verdict_label-mem_example =
    extract_verdict_label-mem unicode codec prose labels (text "flag") refl

lines_of_responses :
    SameSet
      (labeled_lines unicode labels (split 10 doubled))
      (labeled_lines unicode labels (split 10 swapped))
unfolding labeled_lines split labeled_value strip_left is_space after_literal nat_eq cons_line
lines_of_responses = λ x. refl

prose_of_responses :
    unique_label unicode (text_outside unicode codec doubled 0 (json_object_spans doubled)) labels
    ≡ unique_label unicode (text_outside unicode codec swapped 0 (json_object_spans swapped)) labels
unfolding json_object_spans scan_from scan_char nat_eq text_eq close_span try_json slice
    unique_label labels_present occurs after_literal is_alnum text_outside
prose_of_responses = refl

extract-SameSet_example :
    extract_verdict_label unicode codec doubled labels
    ≡ extract_verdict_label unicode codec swapped labels
extract-SameSet_example =
    extract-SameSet unicode codec doubled swapped labels
      (SameSet-swapped _ _ (text "flag") (text "pass") objects_of_responses.0
        objects_of_responses.1)
      lines_of_responses prose_of_responses

extract_disputed_example : extract_verdict_label unicode codec doubled labels ≡ none
unfolding text_eq
extract_disputed_example =
    extract_disputed unicode codec doubled (text "flag") (text "pass") labels flag_not_pass
      (inl (rw objects_of_responses.0 refl, rw objects_of_responses.0 refl))

extract-object_only_example : extract_verdict_label unicode codec key_object labels ≡ none
unfolding extract_verdict_label single_or_conflict distinct distinct_after json_labels
    json_object_spans scan_from scan_char nat_eq text_eq close_span try_json slice resolve_keys
    lowered_get casefold unique_label labels_present occurs after_literal is_alnum labeled_lines
    split labeled_value strip_left strip strip_right is_space text_outside cons_line
extract-object_only_example =
    extract-object_only unicode codec key_object (obj (field (text "flag") (str (text "}")) end))
      labels (refl, (refl, tt)) refl refl refl refl

-- A label of one space is accepted as one, and found where the object was.
blank_label : extract_verdict_label unicode codec key_object (text " " ∷ []) ≡ some (text " ")
unfolding extract_verdict_label single_or_conflict distinct distinct_after json_labels
    json_object_spans scan_from scan_char nat_eq text_eq close_span try_json slice resolve_keys
    lowered_get casefold unique_label labels_present occurs after_literal is_alnum labeled_lines
    split labeled_value strip_left strip strip_right is_space text_outside cons_line
blank_label = refl

abbrev scorer : Scorer
scorer = λ i response. ok (score_verdict unicode codec i response labels)

verdict_scorer_outcome_example :
    (ls : List Text) × (o : ScoreOutcome) × (some labels ≡ some ls)
    × (scorer item prose ≡ ok o)
    × (o.scorer ≡ some verdict_scorer)
    × ((extract_verdict_label unicode codec prose ls ≡ none)
          × (o.parsed ≡ some parse_fail_marker)
          × (o.score ≡ some zero_float)
        ⊎ ((l : Text) × (extract_verdict_label unicode codec prose ls ≡ some l)
            × (contains ls l ≡ true)
            × (l ≢ parse_fail_marker)
            × (o.parsed ≡ some l)
            × (o.score
                ≡ some (if same_answer unicode l item.expected then one_float else zero_float))))
unfolding make_deterministic_scorer measure_twice.Unicode.casefold text_eq
    measure_twice.Scoring.Deterministic.reserves_marker
verdict_scorer_outcome_example =
    verdict_scorer_outcome unicode codec regex verdict_spec scorer item prose refl refl refl
