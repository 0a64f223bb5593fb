-- ===== src/Suite/Spec/Labels.antt =====
-- What a scoring spec that loads is known to satisfy.
use measure_twice.Prelude.{
  ◌≡◌, refl, subst, ◌⊎◌, inl, inr, Bool, true, false, not, ◌&&◌, Option, none, some, List, [], ◌∷◌,
  Bool-cases, nat_eq, text_eq, option_eq, ◌==◌, contains, eq_of_==, ok, raise_if, bind-eq-ok,
  ok-injective, not_raised, not_raised_unless,
}
use measure_twice.Text.{Text, text}
use measure_twice.Json.{bool, int, neg, flt, str, arr, obj, Json, null, lookup}
use measure_twice.Unicode.{Unicode, casefold}
use measure_twice.Suite.{ScoringSpec}
use measure_twice.Suite.Spec.{
  allowed_types, check_labels, validate_str_list, type_of, regex_of, distinct_labels, labels_of,
  reject_unknown_and_missing, spec_of_json, regex_not_exact, bad_type, label_collision,
}

true-not-false : true ≡ false → ⊥
true-not-false h = cc

exact_regex :
    (regex : Bool) (kind : Text)
    → (regex && not (kind == text "exact")) ≡ false
    → (regex ≡ false) ⊎ (kind ≡ text "exact")
exact_regex false kind h = inl refl
exact_regex true kind h = elim (Bool-cases (kind == text "exact")) [
  | inl e ↦ inr (eq_of_== kind (text "exact") e)
  | inr e ↦ absurd (true-not-false (rw e at h))
]

type_of-allowed :
    (v : Option Json) (kind : Text) → type_of v ≡ ok kind → contains allowed_types kind ≡ true
type_of-allowed none kind h = cc
type_of-allowed (some (str k)) kind h =
    let (x, r, h) = bind-eq-ok (raise_if (not (contains allowed_types k)) bad_type) _ h in
    subst (λ t. contains allowed_types t ≡ true) (ok-injective h)
      (not_raised_unless (contains allowed_types k) bad_type x r)
type_of-allowed (some null) kind h = cc
type_of-allowed (some (bool b)) kind h = cc
type_of-allowed (some (int n)) kind h = cc
type_of-allowed (some (neg n)) kind h = cc
type_of-allowed (some (flt n)) kind h = cc
type_of-allowed (some (arr v)) kind h = cc
type_of-allowed (some (obj v)) kind h = cc

module _ (u : Unicode) where
  -- None of the labels folds like one of the texts that were seen, and no two fold alike.
  abbrev pub FoldDistinct : List Text → List Text → Type 0
  FoldDistinct seen [] = Unit
  FoldDistinct seen (l ∷ ls) =
      (contains seen (casefold u l) ≡ false) × FoldDistinct (casefold u l ∷ seen) ls

  -- The labels of a spec that has any.
  abbrev pub DistinctLabels : Option (List Text) → Type 0
  DistinctLabels none = Unit
  DistinctLabels (some labels) = FoldDistinct [] labels

  check_labels-FoldDistinct :
      (seen labels : List Text) (t : Unit {0})
      → check_labels u seen labels ≡ ok t
      → FoldDistinct seen labels
  unfolding check_labels
  check_labels-FoldDistinct seen [] t h = tt
  check_labels-FoldDistinct seen (l ∷ ls) t h =
      let (x, r, h) = bind-eq-ok (raise_if (contains seen (casefold u l)) label_collision) _ h in
      (
        not_raised (contains seen (casefold u l)) label_collision x r,
        check_labels-FoldDistinct (casefold u l ∷ seen) ls t h,
      )

  distinct_labels-Distinct :
      (v : Json) (labels : Option (List Text))
      → distinct_labels u v ≡ ok labels
      → DistinctLabels labels
  distinct_labels-Distinct v labels h =
      let (found, f, h) = bind-eq-ok (validate_str_list v) _ h in
      let (x, c, h) = bind-eq-ok (check_labels u [] found) _ h in
      subst DistinctLabels (ok-injective h) (check_labels-FoldDistinct [] found x c)

  labels_of-Distinct :
      (v : Option Json) (labels : Option (List Text))
      → labels_of u v ≡ ok labels
      → DistinctLabels labels
  labels_of-Distinct none labels h = subst DistinctLabels (ok-injective h) tt
  labels_of-Distinct (some null) labels h = subst DistinctLabels (ok-injective h) tt
  labels_of-Distinct (some (bool b)) labels h = distinct_labels-Distinct (bool b) labels h
  labels_of-Distinct (some (int n)) labels h = distinct_labels-Distinct (int n) labels h
  labels_of-Distinct (some (neg n)) labels h = distinct_labels-Distinct (neg n) labels h
  labels_of-Distinct (some (flt n)) labels h = distinct_labels-Distinct (flt n) labels h
  labels_of-Distinct (some (str s)) labels h = distinct_labels-Distinct (str s) labels h
  labels_of-Distinct (some (arr v)) labels h = distinct_labels-Distinct (arr v) labels h
  labels_of-Distinct (some (obj v)) labels h = distinct_labels-Distinct (obj v) labels h

  -- A scoring spec that loads has a known type, asks for a regex only where the type is exact, and
  -- no two of its labels are the same text after `casefold`.
  pub spec_of_json-DistinctLabels :
      (v : Json) (spec : ScoringSpec)
      → spec_of_json u v ≡ ok spec
      → (contains allowed_types spec.kind ≡ true)
        × ((spec.regex ≡ false) ⊎ (spec.kind ≡ text "exact"))
        × DistinctLabels spec.labels
  unfolding spec_of_json
  spec_of_json-DistinctLabels v spec h =
      let (clean, _, h) =
        bind-eq-ok
          (reject_unknown_and_missing (text "type" ∷ text "labels" ∷ text "regex" ∷ [])
            (text "type" ∷ []) v)
          _ h in
      let (kind, t, h) = bind-eq-ok (type_of (lookup (text "type") clean)) _ h in
      let (regex, r, h) = bind-eq-ok (regex_of (lookup (text "regex") clean)) _ h in
      let (x, e, h) =
        bind-eq-ok (raise_if (regex && not (kind == text "exact")) regex_not_exact) _ h in
      let (labels, l, h) = bind-eq-ok (labels_of u (lookup (text "labels") clean)) _ h in
      subst
        (λ s.
          (contains allowed_types s.kind ≡ true)
          × ((s.regex ≡ false) ⊎ (s.kind ≡ text "exact"))
          × DistinctLabels s.labels)
        (ok-injective h)
        (
          type_of-allowed (lookup (text "type") clean) kind t,
          exact_regex regex kind
              (not_raised (regex && not (kind == text "exact")) regex_not_exact x e),
          labels_of-Distinct (lookup (text "labels") clean) labels l,
        )
