-- ===== src/Runner/Rescore/Evidence.antt =====
-- What rescoring a run keeps of its rows, and what a second pass does.
use measure_twice.Prelude.{
  ℕ, ◌≡◌, refl, sym, ap, ◌∙◌, subst, ◌⊎◌, inl, inr, Bool, true, false, not, ◌||◌, Option, none,
  some, List, [], ◌∷◌, Bool-cases, nat_eq, text_eq, option_eq, ok, or_raise, bind-eq-ok,
  ok-injective,
}
use measure_twice.Json.{Json}
use measure_twice.Suite.{Item}
use measure_twice.Scoring.{ScoreOutcome}
use measure_twice.Runner.Row.{
  json_float, RunRow, RunError, Scorer, json_text, no_response_scorer, unknown_item,
}
use measure_twice.Runner.Rescore.{
  count, with_outcome, is_null, is_text, is_forced, score_row, rescore_row, rescore_rows, find_item,
}

-- Two lists of the same length whose rows are related one by one.
abbrev pub Pairs : (RunRow → RunRow → Type 0) → List RunRow → List RunRow → Type 0
Pairs P [] [] = Unit
Pairs P [] (y ∷ ys) = ⊥
Pairs P (x ∷ xs) [] = ⊥
Pairs P (x ∷ xs) (y ∷ ys) = P x y × Pairs P xs ys

-- an error row, or one that was forced to zero
abbrev pub is_terminal : RunRow → Bool
is_terminal row = not (is_null row.error) || is_forced row

not_terminal :
    (is_fine forced : Bool) → (not is_fine || forced) ≡ false → (is_fine ≡ true) × (forced ≡ false)
not_terminal true forced h = (refl, h)
not_terminal false forced h = cc

or_raise-ok :
    {A : Type 0} (e : RunError) (found : Option A) (a : A)
    → or_raise found e ≡ ok a
    → found ≡ some a
or_raise-ok e none a h = cc
or_raise-ok e (some b) a h = ap some (ok-injective h)

module _ (scorer : Scorer) (items : List Item) where
  -- The row is the same if it is terminal. Otherwise it has the verdict that the scorer gives of its
  -- item and its stored response, and has kept all else.
  abbrev pub Rescored : RunRow → RunRow → Type 0
  Rescored row again =
      ((is_terminal row ≡ true) × (again ≡ row))
      ⊎ ((is_terminal row ≡ false)
          × (item : Item) × (o : ScoreOutcome) × (find_item items row.item_id ≡ ok (some item))
          × (scorer item row.response_raw ≡ ok o)
          × (again ≡ with_outcome row o))

  score_row-ok :
      (row again : RunRow)
      → score_row scorer items row ≡ ok again
      → (item : Item) × (o : ScoreOutcome) × (find_item items row.item_id ≡ ok (some item))
        × (scorer item row.response_raw ≡ ok o)
        × (again ≡ with_outcome row o)
  score_row-ok row again h =
      let (found, f, h) = bind-eq-ok (find_item items row.item_id) _ h in
      let (item, i, h) = bind-eq-ok (or_raise found unknown_item) _ h in
      let (outcome, o, h) = bind-eq-ok (scorer item row.response_raw) _ h in
      (item, outcome, f ∙ ap ok (or_raise-ok unknown_item found item i), o, sym (ok-injective h))

  rescore_row-Rescored :
      (row : RunRow) (again : RunRow × ℕ × ℕ)
      → rescore_row scorer items row ≡ ok again
      → Rescored row again.0
  unfolding rescore_row
  rescore_row-Rescored row again h = elim (Bool-cases (is_null row.error)) [
    | inr e ↦ inl (rw e refl, ap (λ p. p.0) (sym (ok-injective (rw e at h))))
    | inl e ↦ elim (Bool-cases (is_forced row)) [
      | inl f ↦ inl (rw (e, f) refl, ap (λ p. p.0) (sym (ok-injective (rw (e, f) at h))))
      | inr f ↦
          let (scored, s, h) = bind-eq-ok (score_row scorer items row) _ (rw (e, f) at h) in
          let (item, o, p, q, r) = score_row-ok row scored s in
          inr (rw (e, f) refl, item, o, p, q, ap (λ t. t.0) (sym (ok-injective h)) ∙ r)
    ]
  ]

  pub rescore_rows-Rescored :
      (rows : List RunRow) (again : List RunRow × ℕ × ℕ)
      → rescore_rows scorer items rows ≡ ok again
      → Pairs Rescored rows again.0
  unfolding rescore_rows
  rescore_rows-Rescored [] again h = subst (λ a. Pairs Rescored [] a.0) (ok-injective h) tt
  rescore_rows-Rescored (row ∷ rows) again h =
      let (first, f, h) = bind-eq-ok (rescore_row scorer items row) _ h in
      let (others, o, h) = bind-eq-ok (rescore_rows scorer items rows) _ h in
      subst (λ a. Pairs Rescored (row ∷ rows) a.0) (ok-injective h)
        (rescore_row-Rescored row first f, rescore_rows-Rescored rows others o)

  rescore_row-live :
      (row : RunRow) (item : Item) (o : ScoreOutcome)
      → is_null row.error ≡ true
      → is_forced row ≡ false
      → find_item items row.item_id ≡ ok (some item)
      → scorer item row.response_raw ≡ ok o
      → rescore_row scorer items row
        ≡ ok (with_outcome row o, count (not (is_null (json_float o.score))), 0)
  unfolding rescore_row
  rescore_row-live row item o e f p q = rw (e, f, p, q) refl

  -- The scorer leaves the name of the force-0 rows alone.
  abbrev pub Unreserved : Type 0
  Unreserved =
      (item : Item) (response : Json) (o : ScoreOutcome)
      → scorer item response ≡ ok o
      → is_text no_response_scorer (json_text o.scorer) ≡ false

  -- A second pass over a row finds what the first found.
  rescore_row_again :
      Unreserved
      → (row : RunRow) (again : RunRow × ℕ × ℕ) → rescore_row scorer items row ≡ ok again
      → rescore_row scorer items again.0 ≡ ok again
  rescore_row_again free row again h = elim (rescore_row-Rescored row again h) [
    | inl (t, same) ↦ subst (λ r. rescore_row scorer items r ≡ ok again) (sym same) h
    | inr (t, item, o, p, q, same) ↦
        let (e, f) = not_terminal (is_null row.error) (is_forced row) t in
        subst (λ r. rescore_row scorer items r ≡ ok again) (sym same)
          (rescore_row-live (with_outcome row o) item o e (free item row.response_raw o q) p q
            ∙ sym (rescore_row-live row item o e f p q)
            ∙ h)
  ]

  pub rescore_rows_again :
      Unreserved
      → (rows : List RunRow) (again : List RunRow × ℕ × ℕ)
      → rescore_rows scorer items rows ≡ ok again
      → rescore_rows scorer items again.0 ≡ ok again
  unfolding rescore_rows
  rescore_rows_again free [] again h =
      subst (λ a. rescore_rows scorer items a.0 ≡ ok a) (ok-injective h) refl
  rescore_rows_again free (row ∷ rows) again h =
      let (first, f, h) = bind-eq-ok (rescore_row scorer items row) _ h in
      let (others, o, h) = bind-eq-ok (rescore_rows scorer items rows) _ h in
      subst (λ a. rescore_rows scorer items a.0 ≡ ok a) (ok-injective h)
        (rw (rescore_row_again free row first f, rescore_rows_again free rows others o) refl)
