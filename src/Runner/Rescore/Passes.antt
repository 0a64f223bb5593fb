-- ===== src/Runner/Rescore/Passes.antt =====
-- What a rescoring pass leaves in the rows file.
use measure_twice.Prelude.{
  ℕ, suc, ◌≡◌, refl, sym, ap, ◌∙◌, subst, ◌⊎◌, inl, inr, Bool, false, not, List, [], ◌∷◌, nat_eq,
  text_eq, option_eq, ◌==◌, eq_of_==, length, All, ok, err, raise_if, bind-eq-ok, Result-cases,
  ok-injective, not_raised_unless,
}
use measure_twice.Json.{Codec}
use measure_twice.Suite.{Item}
use measure_twice.Runner.Row.{RunRow, RunError, Scorer, wrong_length}
use measure_twice.Runner.Store.{RowsFile, read_rows, rewrite_rows}
use measure_twice.Runner.Store.Recovery.{IsStored, read_rows-rewrite}
use measure_twice.Runner.Rescore.{
  count_rows, is_scored, is_forced, ScoreResult, RunScorer, rescore_rows, score_run, batch_rescored,
  score_run_batch,
}
use measure_twice.Runner.Rescore.Evidence.{
  Pairs, Rescored, Unreserved, rescore_rows-Rescored, rescore_rows_again,
}

Pairs-length :
    (P : RunRow → RunRow → Type 0) (xs ys : List RunRow) → Pairs P xs ys → length ys ≡ length xs
Pairs-length P [] [] h = refl
Pairs-length P [] (y ∷ ys) h = absurd h
Pairs-length P (x ∷ xs) [] h = absurd h
Pairs-length P (x ∷ xs) (y ∷ ys) h = ap suc (Pairs-length P xs ys h.1)

module _ (codec : Codec) (items : List Item) where
  score_run-ok :
      (scorer : Scorer) (file : RowsFile) (rows : List RunRow) (torn : Bool)
      (again : List RunRow × ℕ × ℕ)
      → read_rows codec file ≡ ok (rows, torn)
      → rescore_rows scorer items rows ≡ ok again
      → score_run codec scorer items file ≡ (
        ok (record { total = length rows; scored = again.1; no_response = again.2 }),
        rewrite_rows codec again.0 file,
      )
  unfolding score_run
  score_run-ok scorer file rows torn again r h = rw (r, h, score_run) refl

  -- A rescored run keeps its rows in number and order. Error rows and force-0 rows come back as they
  -- were, and every other row gets the verdict that the scorer gives of its item and its stored
  -- response and keeps all other fields, the response among them.
  pub score_run-Rescored :
      (scorer : Scorer) (file : RowsFile) (rows : List RunRow) (torn : Bool)
      (again : List RunRow × ℕ × ℕ)
      → read_rows codec file ≡ ok (rows, torn)
      → rescore_rows scorer items rows ≡ ok again
      → All (IsStored codec) again.0
      → Pairs (Rescored scorer items) rows again.0
        × (read_rows codec (score_run codec scorer items file).1 ≡ ok (again.0, false))
  score_run-Rescored scorer file rows torn again r h stored = (
    rescore_rows-Rescored scorer items rows again h,
    ap (λ p. read_rows codec p.1) (score_run-ok scorer file rows torn again r h)
        ∙ read_rows-rewrite codec again.0 file stored,
  )

  -- To score a run twice is to score it once: with a scorer that leaves the name of the force-0 rows
  -- alone, the second pass gives the same counts and writes the same file.
  pub score_run_idempotent :
      (scorer : Scorer) (file : RowsFile) (rows : List RunRow) (torn : Bool)
      (again : List RunRow × ℕ × ℕ)
      → Unreserved scorer items
      → read_rows codec file ≡ ok (rows, torn)
      → rescore_rows scorer items rows ≡ ok again
      → All (IsStored codec) again.0
      → score_run codec scorer items (score_run codec scorer items file).1
        ≡ score_run codec scorer items file
  unfolding rewrite_rows
  score_run_idempotent scorer file rows torn again free r h stored =
      ap (λ p. score_run codec scorer items p.1) (score_run-ok scorer file rows torn again r h)
      ∙ score_run-ok scorer (rewrite_rows codec again.0 file) again.0 false again
          (read_rows-rewrite codec again.0 file stored)
          (rescore_rows_again scorer items free rows again h)
      ∙ ap
          (λ n. (
            ok (record { total = n; scored = again.1; no_response = again.2 }),
            rewrite_rows codec again.0 file,
          ))
          (Pairs-length (Rescored scorer items) rows again.0
            (rescore_rows-Rescored scorer items rows again h))
      ∙ sym (score_run-ok scorer file rows torn again r h)

  batch_rescored-ok :
      (run_scorer : RunScorer) (file : RowsFile) (found : List RunRow × List RunRow)
      → batch_rescored codec run_scorer items file ≡ ok found
      → (torn : Bool) × (read_rows codec file ≡ ok (found.0, torn))
        × (run_scorer found.0 items ≡ ok found.1)
        × (length found.1 ≡ length found.0)
  batch_rescored-ok run_scorer file found h =
      let ((rows, torn), r, k) = bind-eq-ok (read_rows codec file) _ h in
      let (scored, s, k) = bind-eq-ok (run_scorer rows items) _ k in
      let (checked, c, k) =
        bind-eq-ok (raise_if (not (length scored == length rows)) wrong_length) _ k in
      subst
        (λ f.
          (t : Bool) × (read_rows codec file ≡ ok (f.0, t))
          × (run_scorer f.0 items ≡ ok f.1)
          × (length f.1 ≡ length f.0))
        (ok-injective k)
        (
          torn,
          r,
          s,
          eq_of_== (length scored) (length rows)
              (not_raised_unless (length scored == length rows) wrong_length checked c),
        )

  -- A run-level pass is all or nothing: either it raises and the rows file is untouched, or the
  -- file becomes the rows that the scorer returned, as many as were read.
  pub score_run_batch_atomic :
      (run_scorer : RunScorer) (file : RowsFile)
      → ((e : RunError) × (score_run_batch codec run_scorer items file ≡ (err e, file)))
        ⊎ ((rows : List RunRow) × (torn : Bool) × (again : List RunRow) × (result : ScoreResult)
            × (read_rows codec file ≡ ok (rows, torn))
            × (run_scorer rows items ≡ ok again)
            × (length again ≡ length rows)
            × (result.total ≡ length rows)
            × (score_run_batch codec run_scorer items file
                ≡ (ok result, rewrite_rows codec again file)))
  unfolding score_run_batch
  score_run_batch_atomic run_scorer file =
      elim (Result-cases (batch_rescored codec run_scorer items file)) [
        | inr (e, h) ↦ inl (e, rw (h, score_run_batch) refl)
        | inl (found, h) ↦
            let (torn, r, s, same) = batch_rescored-ok run_scorer file found h in
            let result : ScoreResult = record {
              total = length found.0;
              scored = count_rows is_scored found.1;
              no_response = count_rows is_forced found.1;
            } in
            inr (found.0, torn, found.1, result, r, s, same, refl, rw (h, score_run_batch) refl)
      ]
