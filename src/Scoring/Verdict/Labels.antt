-- ===== src/Scoring/Verdict/Labels.antt =====
-- A verdict that is extracted is one of the labels of the suite.
use measure_twice.Prelude.{
  ℕ, ◌≡◌, subst, inl, inr, Bool, true, false, not, ◌&&◌, Option, none, some, List, [], ◌∷◌, ◌++◌,
  append_assoc, arith, Bool-cases, Option-cases, nat_eq, text_eq, option_eq, contains, All,
  All-append,
}
use measure_twice.Text.{Text, strip_left, split}
use measure_twice.Unicode.{slice, Unicode}
use measure_twice.Json.{Json, Fields, Codec}
use measure_twice.Scoring.Verdict.{
  occurs, labels_present, unique_label, only, resolve_keys, label_of_value, label_of_object,
  labeled_lines, labeled_value, json_labels, single_or_conflict, distinct, distinct_after,
  verdict_of_distinct, extract_verdict_label, tier, text_outside, json_object_spans, try_json,
  lowered_get, verdict_keys,
}

-- Every text of the list is a label.
abbrev pub Among : List Text → List Text → Type 0
Among labels = All (λ l. contains labels l ≡ true)

abbrev AmongOption : List Text → Option Text → Type 0
AmongOption labels none = Unit
AmongOption labels (some l) = contains labels l ≡ true

contains-middle : (xs : List Text) (l : Text) (ys : List Text) → contains (xs ++ l ∷ ys) l ≡ true
contains-middle [] l ys = ground arith
contains-middle (x ∷ xs) l ys = ground (arith, contains-middle xs l ys)

Among-refl : (seen labels : List Text) → Among (seen ++ labels) labels
Among-refl seen [] = tt
Among-refl seen (l ∷ labels) = (
  contains-middle seen l labels,
  subst (λ m. Among m labels) (append_assoc seen (l ∷ []) labels)
      (Among-refl (seen ++ l ∷ []) labels),
)

-- the first of two that is there
prefer-Among :
    (labels : List Text) (o next : Option Text)
    → AmongOption labels o
    → AmongOption labels next
    → AmongOption labels (elim o [ some l ↦ some l | none ↦ next ])
prefer-Among labels none next h k = k
prefer-Among labels (some l) next h k = h

cons-Among :
    (labels : List Text) (o : Option Text) (others : List Text)
    → AmongOption labels o
    → Among labels others
    → Among labels (elim o [ none ↦ others | some l ↦ l ∷ others ])
cons-Among labels none others h k = k
cons-Among labels (some l) others h k = (h, k)

module _ (u : Unicode) where
  labels_present-Among :
      (s : Text) (found labels all_labels : List Text)
      → Among all_labels found
      → Among all_labels labels
      → Among all_labels (labels_present u s found labels)
  unfolding labels_present
  labels_present-Among s found [] all_labels f l = f
  labels_present-Among s found (label ∷ rest) all_labels f l =
      elim (Bool-cases (occurs u label true s && not (contains found label))) [
        | inl e ↦ rw e (
            labels_present-Among s (found ++ label ∷ []) rest all_labels
              (All-append _ found (label ∷ []) f (l.0, tt)) l.1)
        | inr e ↦ rw e (labels_present-Among s found rest all_labels f l.1)
      ]

  only-Among : (labels found : List Text) → Among labels found → AmongOption labels (only u found)
  only-Among labels [] h = tt
  only-Among labels (l ∷ []) h = h.0
  only-Among labels (l ∷ m ∷ rest) h = tt

  unique_label-Among :
      (s : Text) (labels : List Text) → AmongOption labels (unique_label u s labels)
  unfolding unique_label
  unique_label-Among s labels =
      only-Among labels _ (labels_present-Among s [] labels labels tt (Among-refl [] labels))

  label_of_value-Among :
      (labels : List Text) (v : Option Json) → AmongOption labels (label_of_value u labels v)
  label_of_value-Among labels (some (Json.str s)) = unique_label-Among s labels
  label_of_value-Among labels _ = tt

  resolve_keys-Among :
      (labels : List Text) (value : Fields) (words : List Text)
      → AmongOption labels (resolve_keys u labels value words)
  unfolding resolve_keys
  resolve_keys-Among labels value [] = tt
  resolve_keys-Among labels value (key ∷ rest) =
      prefer-Among labels (label_of_value u labels (lowered_get u key value)) _
        (label_of_value-Among labels (lowered_get u key value))
        (resolve_keys-Among labels value rest)

  labeled_lines-Among : (labels lines : List Text) → Among labels (labeled_lines u labels lines)
  unfolding labeled_lines
  labeled_lines-Among labels [] = tt
  labeled_lines-Among labels (line ∷ rest) =
      elim (Option-cases (labeled_value u verdict_keys (strip_left line))) [
        | inl e ↦ rw (e, labeled_lines) (labeled_lines-Among labels rest)
        | inr (value, e) ↦
            rw (e, labeled_lines)
              (cons-Among labels (unique_label u value labels) _ (unique_label-Among value labels)
                (labeled_lines-Among labels rest))
      ]

module _ (u : Unicode) (codec : Codec) where
  label_of_object-Among :
      (labels : List Text) (v : Option Json) → AmongOption labels (label_of_object u codec labels v)
  label_of_object-Among labels (some (Json.obj value)) =
      resolve_keys-Among u labels value verdict_keys
  label_of_object-Among labels _ = tt

  json_labels-Among :
      (s : Text) (labels : List Text) (spans : List (ℕ × ℕ))
      → Among labels (json_labels u codec s labels spans)
  unfolding json_labels
  json_labels-Among s labels [] = tt
  json_labels-Among s labels ((a, b) ∷ spans) =
      cons-Among labels (label_of_object u codec labels (try_json u codec (slice a b s))) _
        (label_of_object-Among labels (try_json u codec (slice a b s)))
        (json_labels-Among s labels spans)

  distinct_after-Among :
      (labels seen found : List Text)
      → Among labels found
      → Among labels (distinct_after seen found)
  unfolding distinct_after
  distinct_after-Among labels seen [] h = tt
  distinct_after-Among labels seen (x ∷ xs) h = elim (Bool-cases (contains seen x)) [
    | inl e ↦ rw e (distinct_after-Among labels seen xs h.1)
    | inr e ↦ rw e (h.0, distinct_after-Among labels (x ∷ seen) xs h.1)
  ]

  verdict_of_distinct-Among :
      (labels found : List Text)
      → Among labels found
      → AmongOption labels (verdict_of_distinct found).0
  verdict_of_distinct-Among labels [] h = tt
  verdict_of_distinct-Among labels (l ∷ []) h = h.0
  verdict_of_distinct-Among labels (l ∷ m ∷ rest) h = tt

  single_or_conflict-Among :
      (labels found : List Text)
      → Among labels found
      → AmongOption labels (single_or_conflict found).0
  unfolding single_or_conflict distinct
  single_or_conflict-Among labels found h =
      verdict_of_distinct-Among labels _ (distinct_after-Among labels [] found h)

  tier-Among :
      (labels : List Text) (r : Option Text × Bool) (next : Option Text)
      → AmongOption labels r.0
      → AmongOption labels next
      → AmongOption labels (tier u codec r next)
  tier-Among labels (some l, c) next h k = h
  tier-Among labels (none, true) next h k = tt
  tier-Among labels (none, false) next h k = k

  extract-AmongOption :
      (s : Text) (labels : List Text) → AmongOption labels (extract_verdict_label u codec s labels)
  unfolding extract_verdict_label
  extract-AmongOption s [] = tt
  extract-AmongOption s (l ∷ ls) =
      let labels = l ∷ ls in
      let spans = json_object_spans s in
      tier-Among labels (single_or_conflict (json_labels u codec s labels spans)) _
        (single_or_conflict-Among labels _ (json_labels-Among s labels spans))
        (tier-Among labels (single_or_conflict (labeled_lines u labels (split 10 s))) _
          (single_or_conflict-Among labels _ (labeled_lines-Among u labels (split 10 s)))
          (unique_label-Among u (text_outside u codec s 0 spans) labels))

  -- A verdict that is extracted is one of the suite's labels, in the suite's own spelling, whatever
  -- the response.
  pub extract_verdict_label-mem :
      (s : Text) (labels : List Text) (l : Text)
      → extract_verdict_label u codec s labels ≡ some l
      → contains labels l ≡ true
  extract_verdict_label-mem s labels l h =
      subst (AmongOption labels) h (extract-AmongOption s labels)
