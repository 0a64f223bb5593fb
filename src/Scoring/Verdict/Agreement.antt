-- ===== src/Scoring/Verdict/Agreement.antt =====
-- A tier of the recognition ladder resolves by the set of its labels, not by their order.
use measure_twice.Prelude.{
  ◌≡◌, refl, sym, ◌∙◌, ◌≢◌, ◌⊎◌, inl, inr, Bool, true, false, none, some, List, [], ◌∷◌, arith,
  if◌then◌else◌, Bool-cases, nat_eq, text_eq, option_eq, ◌==◌, contains, all,
}
use measure_twice.Text.{Text, split}
use measure_twice.Unicode.{Unicode}
use measure_twice.Json.{Codec}
use measure_twice.Scoring.Verdict.{
  unique_label, labeled_lines, json_labels, single_or_conflict, distinct, distinct_after,
  extract_verdict_label, text_outside, json_object_spans,
}

-- The two lists hold the same texts.
abbrev pub SameSet : List Text → List Text → Type 0
SameSet f g = (x : Text) → contains f x ≡ contains g x

-- every text of the list is `l`
abbrev uniform : Text → List Text → Bool
uniform l xs = all (λ x. contains (l ∷ []) x) xs

distinct_after-nil :
    (seen xs : List Text) → all (λ x. contains seen x) xs ≡ true → distinct_after seen xs ≡ []
unfolding distinct_after
distinct_after-nil seen [] h = refl
distinct_after-nil seen (x ∷ xs) h = ground (arith, distinct_after-nil seen xs)

distinct_after-cons :
    (seen xs : List Text)
    → all (λ x. contains seen x) xs ≡ false
    → (y : Text) × (ys : List Text) × (distinct_after seen xs ≡ y ∷ ys)
unfolding distinct_after
distinct_after-cons seen [] h = cc
distinct_after-cons seen (x ∷ xs) h = elim (Bool-cases (contains seen x)) [
  | inl e ↦ let (y, ys, p) = distinct_after-cons seen xs (rw e at h) in (y, ys, rw e p)
  | inr e ↦ (x, distinct_after (x ∷ seen) xs, rw e)
]

single_or_conflict-cons :
    (x : Text) (xs : List Text)
    → single_or_conflict (x ∷ xs) ≡ (if uniform x xs then (some x, false) else (none, true))
unfolding single_or_conflict distinct distinct_after
single_or_conflict-cons x xs = elim (Bool-cases (uniform x xs)) [
  | inl e ↦ rw (distinct_after-nil (x ∷ []) xs e, e)
  | inr e ↦ let (y, ys, p) = distinct_after-cons (x ∷ []) xs e in rw (p, e)
]

uniform_of_all :
    (l : Text) (xs : List Text) → ((x : Text) → contains xs x ≡ true → x ≡ l) → uniform l xs ≡ true
uniform_of_all l [] h = refl
uniform_of_all l (x ∷ xs) h =
    let head : x ≡ l = h x (ground arith) in
    let rest = uniform_of_all l xs (λ y m. h y (ground arith)) in ground arith

uniform-eq : (l x : Text) (xs : List Text) → uniform l xs ≡ true → contains xs x ≡ true → x ≡ l
uniform-eq l x [] u h = cc
uniform-eq l x (y ∷ ys) u h = ground (arith, uniform-eq l x ys)

uniform-member :
    (x a : Text) (xs : List Text) → uniform x xs ≡ true → contains (x ∷ xs) a ≡ true → a ≡ x
uniform-member x a xs u h = ground (arith, uniform-eq x a xs)

uniform_witness :
    (l : Text) (xs : List Text)
    → uniform l xs ≡ false
    → (z : Text) × (contains xs z ≡ true) × (z ≢ l)
uniform_witness l [] h = cc
uniform_witness l (x ∷ xs) h = elim (Bool-cases (x == l)) [
  | inl e ↦ let (z, m, ne) = uniform_witness l xs (ground arith) in (z, ground arith, ne)
  | inr e ↦ (x, ground arith, λ p. ground arith)
]

-- Labels that all agree resolve to the one that they name.
pub single_or_conflict_agreed :
    (found : List Text) (l : Text)
    → contains found l ≡ true
    → ((x : Text) → contains found x ≡ true → x ≡ l)
    → single_or_conflict found ≡ (some l, false)
single_or_conflict_agreed [] l h all_l = cc
single_or_conflict_agreed (x ∷ xs) l h all_l =
    let e : x ≡ l = all_l x (ground arith) in
    rw (single_or_conflict-cons, uniform_of_all x xs (λ y m. all_l y (ground arith) ∙ sym e), e)

-- Two labels that differ are a conflict, wherever they stand.
pub single_or_conflict_disputed :
    (found : List Text) (a b : Text)
    → contains found a ≡ true
    → contains found b ≡ true
    → a ≢ b
    → single_or_conflict found ≡ (none, true)
single_or_conflict_disputed [] a b h k ne = cc
single_or_conflict_disputed (x ∷ xs) a b h k ne = elim (Bool-cases (uniform x xs)) [
  | inl u ↦ absurd (ne (uniform-member x a xs u h ∙ sym (uniform-member x b xs u k)))
  | inr u ↦ rw (single_or_conflict-cons, u)
]

contains_self : (x : Text) (xs : List Text) → contains (x ∷ xs) x ≡ true
contains_self x xs = ground arith

contains_later : (z x : Text) (xs : List Text) → contains xs z ≡ true → contains (x ∷ xs) z ≡ true
contains_later z x xs h = ground arith

single_or_conflict-SameSet :
    (f g : List Text) → SameSet f g → single_or_conflict f ≡ single_or_conflict g
single_or_conflict-SameSet [] [] same = refl
single_or_conflict-SameSet [] (y ∷ ys) same = absurd (ground (arith, same y))
single_or_conflict-SameSet (x ∷ xs) [] same = absurd (ground (arith, same x))
single_or_conflict-SameSet (x ∷ xs) (y ∷ ys) same = elim (Bool-cases (uniform x xs)) [
  | inl u ↦ rw (
    single_or_conflict-cons x xs,
    u,
    single_or_conflict_agreed (y ∷ ys) x (sym (same x) ∙ contains_self x xs)
        (λ z m. uniform-member x z xs u (same z ∙ m)),
  )
  | inr u ↦
      let (z, m, ne) = uniform_witness x xs u in
      rw (
        single_or_conflict-cons x xs,
        u,
        single_or_conflict_disputed (y ∷ ys) z x (sym (same z) ∙ contains_later z x xs m)
            (sym (same x) ∙ contains_self x xs) ne,
      )
]

-- The verdict of a response turns only on the set of labels that each tier resolves and on the one
-- that its prose names: neither the order of the objects or lines nor how often each says it counts.
pub extract-SameSet :
    (u : Unicode) (codec : Codec) (s t : Text) (labels : List Text)
    → SameSet
        (json_labels u codec s labels (json_object_spans s))
        (json_labels u codec t labels (json_object_spans t))
    → SameSet (labeled_lines u labels (split 10 s)) (labeled_lines u labels (split 10 t))
    → unique_label u (text_outside u codec s 0 (json_object_spans s)) labels
      ≡ unique_label u (text_outside u codec t 0 (json_object_spans t)) labels
    → extract_verdict_label u codec s labels ≡ extract_verdict_label u codec t labels
unfolding extract_verdict_label
extract-SameSet u codec s t [] j l p = refl
extract-SameSet u codec s t (_ ∷ _) j l p =
    rw (single_or_conflict-SameSet _ _ j, single_or_conflict-SameSet _ _ l, p)

-- Two objects of a response that resolve to different labels make it a parse failure, and if no
-- object resolves, so do two labelled lines.
pub extract_disputed :
    (u : Unicode) (codec : Codec) (s a b : Text) (labels : List Text)
    → a ≢ b
    → let objects = json_labels u codec s labels (json_object_spans s) in
      let lines = labeled_lines u labels (split 10 s) in
      (contains objects a ≡ true) × (contains objects b ≡ true)
        ⊎ (objects ≡ []) × (contains lines a ≡ true) × (contains lines b ≡ true)
      → extract_verdict_label u codec s labels ≡ none
unfolding extract_verdict_label
extract_disputed u codec s a b [] ne h = refl
extract_disputed u codec s a b (l ∷ ls) ne (inl (h, k)) =
    let objects = json_labels u codec s (l ∷ ls) (json_object_spans s) in
    rw (single_or_conflict_disputed objects a b h k ne)
extract_disputed u codec s a b (l ∷ ls) ne (inr (e, h, k)) =
    rw (e, single_or_conflict_disputed (labeled_lines u (l ∷ ls) (split 10 s)) a b h k ne)
      (unfold single_or_conflict distinct distinct_after in refl)
