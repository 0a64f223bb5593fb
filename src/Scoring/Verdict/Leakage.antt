-- ===== src/Scoring/Verdict/Leakage.antt =====
-- What stands inside a well-formed JSON object does not reach the prose tier.
use measure_twice.Prelude.{
  ℕ, ◌≡◌, refl, Bool, true, false, none, some, List, [], ◌∷◌, arith, nat_eq, text_eq, option_eq,
  length, drop, All,
}
use measure_twice.Text.{Text, split}
use measure_twice.Unicode.{Unicode, slice}
use measure_twice.Json.{Json, Codec}
use measure_twice.Scoring.Verdict.{
  labels_present, occurs, after_literal, unique_label, labeled_lines, json_labels,
  single_or_conflict, distinct, distinct_after, extract_verdict_label, text_outside,
  json_object_spans, try_json,
}

-- A text of spaces holds no label that is a word of other characters.
occurs-spaces :
    (u : Unicode) (l : ℕ) (label : Text) (b : Bool)
    → u.same_char l b' ' ≡ false
    → occurs u (l ∷ label) b (b' ' ∷ []) ≡ false
unfolding occurs after_literal
occurs-spaces u l label b h = ground (arith)

abbrev Visible : Unicode → Text → Type 0
Visible u [] = ⊥
Visible u (l ∷ label) = u.same_char l b' ' ≡ false

labels_present-space :
    (u : Unicode) (labels : List Text)
    → All (Visible u) labels
    → labels_present u (b' ' ∷ []) [] labels ≡ []
unfolding labels_present
labels_present-space u [] h = refl
labels_present-space u ([] ∷ rest) h = absurd h.0
labels_present-space u ((l ∷ label) ∷ rest) h =
    rw (occurs-spaces u l label true h.0) (labels_present-space u rest h.1)

drop-length : (s : Text) → drop (length s) s ≡ []
drop-length [] = refl
drop-length (c ∷ s) = drop-length s

text_outside-object :
    (u : Unicode) (codec : Codec) (s : Text) (v : Json)
    → try_json u codec (slice 0 (length s) s) ≡ some v
    → text_outside u codec s 0 ((0, length s) ∷ []) ≡ b' ' ∷ []
unfolding text_outside
text_outside-object u codec s v parsed =
    rw (parsed, text_outside, drop-length s) (unfold slice in refl)

unique_label-space :
    (u : Unicode) (labels : List Text)
    → All (Visible u) labels
    → unique_label u (b' ' ∷ []) labels ≡ none
unfolding unique_label
unique_label-space u labels h = rw (labels_present-space u labels h)

-- Let no label be empty or start with a character that matches a space, which a suite is not
-- checked for. Then a response that is one object from its first to its last character, and
-- well-formed JSON, is a parse failure if neither its verdict fields nor a labelled line resolve:
-- no other key or text inside the object is taken for a verdict.
pub extract-object_only :
    (u : Unicode) (codec : Codec) (s : Text) (v : Json) (labels : List Text)
    → All (Visible u) labels
    → json_object_spans s ≡ (0, length s) ∷ []
    → try_json u codec (slice 0 (length s) s) ≡ some v
    → json_labels u codec s labels (json_object_spans s) ≡ []
    → labeled_lines u labels (split 10 s) ≡ []
    → extract_verdict_label u codec s labels ≡ none
unfolding extract_verdict_label
extract-object_only u codec s v [] vis spans parsed j l = refl
extract-object_only u codec s v (w ∷ ws) vis spans parsed j l =
    rw (j, l, spans, text_outside-object u codec s v parsed, unique_label-space u (w ∷ ws) vis)
      (unfold single_or_conflict distinct distinct_after in refl)
