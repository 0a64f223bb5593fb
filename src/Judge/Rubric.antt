-- ===== src/Judge/Rubric.antt =====
-- measure_twice/scoring/judge.py: `make_rubric_run_scorer`, which scores the rows of a run.
use measure_twice.Prelude.{
  ℕ, ◌≡◌, refl, sym, subst, inl, inr, true, false, List, [], ◌∷◌, map, if◌then◌else◌, Bool-cases,
  nat_eq, text_eq, option_eq, Result, ok, err, ◌>>=◌, or_raise, bind-eq-ok, ok-injective,
}
use measure_twice.Text.{Text, text}
use measure_twice.Json.{Json, null, flt, str, arr, of_list}
use measure_twice.Suite.{Float, Item}
use measure_twice.Runner.Row.{RunRow}
use measure_twice.Runner.Rescore.{find_item}
use measure_twice.Runner.Rescore.Evidence.{is_terminal}
use measure_twice.Judge.Cell.{
  Session, JudgeCellStat, judge_one_cell, JudgeError, JudgeCell, JudgeItemResult, JudgeMath,
  JudgeCaller, unknown_item, unhashable,
}
use measure_twice.Judge.Run.{judge_run}
use measure_twice.Judge.Run.Tally.{Judging, cell_judged}
use measure_twice.Scoring.Verdict.{distinct}
use measure_twice.Judge.Run.Gate.{judge_run-Within}

-- `items_by_id.get(row.item_id)`, with the errors of this pass
unfoldable pub item_of_row : List Item → RunRow → Result JudgeError Item
item_of_row items row = elim (find_item items row.item_id) [
  | err e ↦ err unhashable
  | ok found ↦ or_raise found unknown_item
]

abbrev cell_of_row : RunRow → Item → JudgeCell
cell_of_row row item = record {
  item_id = row.item_id;
  prompt = item.prompt;
  rubric = item.expected;
  response = row.response_raw;
}

-- `for index, row in enumerate(rows)`: the cells of the rows that are neither errors nor force-0
unfoldable pub rubric_cells : List Item → List RunRow → Result JudgeError (List JudgeCell)
rubric_cells items [] = ok []
rubric_cells items (row ∷ rest) =
    let others = rubric_cells items rest in
    if is_terminal row
    then others
    else item_of_row items row >>= λ item. others >>= λ cells. ok (cell_of_row row item ∷ cells)

abbrev judge_scores_of : List Float → Json
judge_scores_of [] = null
judge_scores_of (x ∷ xs) = arr (of_list (map flt (x ∷ xs)))

-- `replace(rows[index], ...)`
abbrev pub with_result : RunRow → JudgeItemResult → RunRow
with_result row r = record row {
  parsed = str r.parsed;
  score = flt r.score;
  scorer = str (text "rubric");
  judge_scores = judge_scores_of r.judge_scores;
}

-- `for position, index in enumerate(cell_positions)`: each judged row takes the next result
unfoldable pub place_results : List RunRow → List JudgeItemResult → List RunRow
place_results [] results = []
place_results (row ∷ rest) [] = row ∷ place_results rest []
place_results (row ∷ rest) (r ∷ results) =
    let skipped = place_results rest (r ∷ results) in
    let placed = place_results rest results in
    if is_terminal row then row ∷ skipped else with_result row r ∷ placed

unfoldable pub rubric_run_scorer :
    {W : Type 0}
    → JudgeMath
    → JudgeCaller W
    → ℕ
    → List Text
    → W
    → List RunRow
    → List Item
    → Result JudgeError (List RunRow)
rubric_run_scorer math call k judges world rows items = do
  cells ← rubric_cells items rows
  judged ← judge_run math call k cells judges world
  ok (place_results rows judged.results)

place_results-terminal :
    (row : RunRow) (rest : List RunRow) (results : List JudgeItemResult)
    → is_terminal row ≡ true
    → place_results (row ∷ rest) results ≡ row ∷ place_results rest results
unfolding place_results
place_results-terminal row rest [] t = refl
place_results-terminal row rest (r ∷ results) t = rw t refl

module _ {W : Type 0} (math : JudgeMath) (call : JudgeCaller W) (k : ℕ) (judges : List Text)
    (items : List Item) where
  -- One pass over the rows, from a session. An error row or a force-0 row stays as it was. Any
  -- other row takes the result that the judges give, in the session that the rows before it left,
  -- of its own response and the prompt and rubric of its own item, and keeps all else.
  pub data Judged : Session W → List RunRow → List RunRow → Type 0 where
    no_row : (s : Session W) → Judged s [] []
    kept_row :
        (s : Session W) (row : RunRow) (rest again : List RunRow)
        → is_terminal row ≡ true
        → Judged s rest again
        → Judged s (row ∷ rest) (row ∷ again)
    judged_row :
        (s later : Session W) (row : RunRow) (item : Item) (result : JudgeItemResult)
        (stats : List JudgeCellStat) (rest again : List RunRow)
        → is_terminal row ≡ false
        → item_of_row items row ≡ ok item
        → judge_one_cell math call (cell_of_row row item) judges k s ≡ ok ((result, stats), later)
        → Judged later rest again
        → Judged s (row ∷ rest) (with_result row result ∷ again)

  place_results-next :
      (s : Session W) (row : RunRow) (item : Item) (rest : List RunRow) (cells : List JudgeCell)
      (results : List JudgeItemResult) (stats : List JudgeCellStat)
      → is_terminal row ≡ false
      → item_of_row items row ≡ ok item
      → Judging math call k judges (cell_of_row row item ∷ cells) s results stats
      → ((later : Session W) (others : List JudgeItemResult) (more : List JudgeCellStat)
          → Judging math call k judges cells later others more
          → Judged later rest (place_results rest others))
      → Judged s (row ∷ rest) (place_results (row ∷ rest) results)
  unfolding place_results
  place_results-next s row item rest cells results stats t found
        (cell_judged _ _ _ later result own others more one run) place =
      rw t (
        judged_row s later row item result own rest (place_results rest others) t found one
          (place later others more run))

  place_results-Judged :
      (rows : List RunRow) (cells : List JudgeCell) (s : Session W) (results : List JudgeItemResult)
      (stats : List JudgeCellStat)
      → rubric_cells items rows ≡ ok cells
      → Judging math call k judges cells s results stats
      → Judged s rows (place_results rows results)
  unfolding rubric_cells
  place_results-Judged [] cells s results stats h run = unfold place_results in no_row s
  place_results-Judged (row ∷ rest) cells s results stats h run =
      elim (Bool-cases (is_terminal row)) [
        | inl t ↦ subst (Judged s (row ∷ rest)) (sym (place_results-terminal row rest results t)) (
            kept_row s row rest (place_results rest results) t
              (place_results-Judged rest cells s results stats (rw t at h) run))
        | inr t ↦
            let (item, i, h) = bind-eq-ok (item_of_row items row) _ (rw t at h) in
            let (others, o, h) = bind-eq-ok (rubric_cells items rest) _ h in
            place_results-next s row item rest others results stats t i
              (subst (λ c. Judging math call k judges c s results stats) (sym (ok-injective h)) run)
              (λ later found more. place_results-Judged rest others later found more o)
      ]

-- A rubric pass that succeeds is one pass over its rows in their order: error rows and force-0 rows
-- come back as they were, and every other row has the result that the judges, duplicates dropped,
-- give of its own response and its own item, one row after the other.
pub rubric_run_scorer-Judged :
    {W : Type 0} (math : JudgeMath) (call : JudgeCaller W) (k : ℕ) (judges : List Text) (world : W)
    (rows : List RunRow) (items : List Item) (again : List RunRow)
    → rubric_run_scorer math call k judges world rows items ≡ ok again
    → Judged math call k
        (distinct judges)
        items
        (record { world = world; identities = [] })
        rows
        again
unfolding rubric_run_scorer
rubric_run_scorer-Judged math call k judges world rows items again h =
    let start : Session _ = record { world = world; identities = [] } in
    let (cells, c, h) = bind-eq-ok (rubric_cells items rows) _ h in
    let (judged, j, h) = bind-eq-ok (judge_run math call k cells judges world) _ h in
    let (stats, run, _, _, _) = judge_run-Within math call k cells judges world judged j in
    subst (Judged math call k (distinct judges) items start rows) (ok-injective h) (
      place_results-Judged math call k (distinct judges) items rows cells start judged.results stats
        c run)
