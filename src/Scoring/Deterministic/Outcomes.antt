-- ===== src/Scoring/Deterministic/Outcomes.antt =====
-- What the deterministic scorers record.
use measure_twice.Prelude.{
  ◌≡◌, refl, sym, ap, ◌∙◌, subst, ◌≢◌, ◌⊎◌, inl, inr, true, false, Option, none, some, List, [],
  ◌∷◌, arith, if◌then◌else◌, Bool-cases, Option-cases, nat_eq, text_eq, option_eq, ◌==◌, contains,
  eq_of_==, ok, bind-eq-ok, ok-injective,
}
use measure_twice.Text.{Text, text}
use measure_twice.Unicode.{Unicode, casefold}
use measure_twice.Json.{Codec}
use measure_twice.Suite.{zero_float, one_float, ScoringSpec, Item}
use measure_twice.Scoring.{ScoreOutcome}
use measure_twice.Scoring.Verdict.{extract_verdict_label}
use measure_twice.Scoring.Verdict.Labels.{extract_verdict_label-mem}
use measure_twice.Scoring.Deterministic.{
  Regex, Scorer, verdict_scorer, parse_fail_marker, outcome, same_answer, score_verdict,
  reserves_marker, verdict_labels, make_deterministic_scorer,
}

not-reserves_marker :
    (u : Unicode) (labels : List Text) (l : Text)
    → reserves_marker u labels ≡ false
    → contains labels l ≡ true
    → (casefold u l == parse_fail_marker) ≡ false
unfolding reserves_marker
not-reserves_marker u [] l h m = cc
not-reserves_marker u (x ∷ xs) l h m = elim (Bool-cases (x == l)) [
  | inl e ↦ subst (λ t. (casefold u t == parse_fail_marker) ≡ false) (eq_of_== x l e) (ground arith)
  | inr e ↦ not-reserves_marker u xs l (ground arith) (ground arith)
]

verdict_labels-ok :
    (u : Unicode) (o : Option (List Text)) (labels : List Text)
    → verdict_labels u o ≡ ok labels
    → (o ≡ some labels) × (reserves_marker u labels ≡ false)
verdict_labels-ok u none labels h = cc
verdict_labels-ok u (some []) labels h = cc
verdict_labels-ok u (some (l ∷ ls)) labels h = ground arith

score_verdict_failed :
    (u : Unicode) (codec : Codec) (item : Item) (response : Text) (labels : List Text)
    → extract_verdict_label u codec response labels ≡ none
    → score_verdict u codec item response labels ≡ outcome parse_fail_marker false verdict_scorer
unfolding score_verdict
score_verdict_failed u codec item response labels e = rw (e, score_verdict)

score_verdict_read :
    (u : Unicode) (codec : Codec) (item : Item) (response : Text) (labels : List Text) (l : Text)
    → extract_verdict_label u codec response labels ≡ some l
    → score_verdict u codec item response labels
      ≡ outcome l (same_answer u l item.expected) verdict_scorer
unfolding score_verdict
score_verdict_read u codec item response labels l e = rw (e, score_verdict)

marker-differs :
    (u : Unicode) (l : Text)
    → casefold u parse_fail_marker ≡ parse_fail_marker
    → (casefold u l == parse_fail_marker) ≡ false
    → l ≢ parse_fail_marker
marker-differs u l folds ne p = ground (arith, ap (casefold u) p)

-- A scorer that is built for a verdict suite never raises, and what it records tells its three
-- results apart: the parse-fail marker with score 0 exactly where no label was extracted, and
-- otherwise the label itself, which is one of the suite's and is not the marker, with score 1
-- exactly where it is the expected answer up to white space and case.
pub verdict_scorer_outcome :
    (u : Unicode) (codec : Codec) (re : Regex) (scoring : ScoringSpec) (scorer : Scorer)
    (item : Item) (response : Text)
    → casefold u parse_fail_marker ≡ parse_fail_marker
    → scoring.kind ≡ text "verdict"
    → make_deterministic_scorer u codec re scoring ≡ ok scorer
    → (labels : List Text) × (o : ScoreOutcome) × (scoring.labels ≡ some labels)
      × (scorer item response ≡ ok o)
      × (o.scorer ≡ some verdict_scorer)
      × ((extract_verdict_label u codec response labels ≡ none)
            × (o.parsed ≡ some parse_fail_marker)
            × (o.score ≡ some zero_float)
          ⊎ ((l : Text) × (extract_verdict_label u codec response labels ≡ some l)
              × (contains labels l ≡ true)
              × (l ≢ parse_fail_marker)
              × (o.parsed ≡ some l)
              × (o.score ≡ some (if same_answer u l item.expected then one_float else zero_float))))
unfolding make_deterministic_scorer text_eq
verdict_scorer_outcome u codec re scoring scorer item response folds kind made =
    let (labels, e, f) = bind-eq-ok (verdict_labels u scoring.labels) _ (rw kind at made) in
    let (present, free) = verdict_labels-ok u scoring.labels labels e in
    let scored : scorer item response ≡ ok (score_verdict u codec item response labels) =
      ap (λ s. s item response) (sym (ok-injective f)) in
    elim (Option-cases (extract_verdict_label u codec response labels)) [
      | inl q ↦ (
        labels,
        outcome parse_fail_marker false verdict_scorer,
        present,
        scored ∙ ap ok (score_verdict_failed u codec item response labels q),
        refl,
        inl (q, refl, refl),
      )
      | inr (l, q) ↦
          let member = extract_verdict_label-mem u codec response labels l q in
          (
            labels,
            outcome l (same_answer u l item.expected) verdict_scorer,
            present,
            scored ∙ ap ok (score_verdict_read u codec item response labels l q),
            refl,
            inr (
              l,
              q,
              member,
              marker-differs u l folds (not-reserves_marker u labels l free member),
              refl,
              refl,
            ),
          )
    ]
