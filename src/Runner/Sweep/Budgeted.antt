-- ===== src/Runner/Sweep/Budgeted.antt =====
-- What a sequential sweep writes within its budget.
use measure_twice.Prelude.{
  ℕ, zero, suc, ◌+◌, ◌-◌, ◌≡◌, refl, sym, ap, ◌∙◌, inl, inr, Bool, true, false, none, some, List,
  [], ◌∷◌, ◌++◌, map, append-nil, append_assoc, arith, ltb, leb, Bool-cases, Option-cases, nat_eq,
  text_eq, option_eq, ◌==◌, length, take, Result, ok,
}
use measure_twice.Text.{Text, unlines}
use measure_twice.Json.{Json, Codec, str, int}
use measure_twice.Suite.{Item}
use measure_twice.Scoring.{ScoreOutcome}
use measure_twice.Runner.Row.{
  RunRow, RunError, Scorer, Cell, ModelCallResult, build_row, no_response_mark, row_of, unscored,
  forced_zero,
}
use measure_twice.Runner.Store.{contents, append_row, rows_text, row_line}
use measure_twice.Runner.Sweep.{
  CallBudget, consume, Sweep, ModelCall, sweep_cells, sweep_sequential,
}

-- The model, the item and the sample that a row or a cell is about.
abbrev pub row_key : RunRow → Json × Json × Json
row_key row = (row.model, row.item_id, row.sample_k)

abbrev pub key_of_cell : Cell → Json × Json × Json
key_of_cell cell = (str cell.model, str cell.item.id, int cell.sample_k)

-- The scorer raises on no text.
abbrev pub Answers : Scorer → Type 0
Answers scorer =
    (item : Item) (response : Text) → (o : ScoreOutcome) × (scorer item (str response) ≡ ok o)

pub build_row-key :
    (run_id : Text) (cell : Cell) (result : ModelCallResult) (scorer : Scorer)
    → Answers scorer
    → (row : RunRow) × (build_row run_id cell result scorer ≡ ok row)
      × (row_key row ≡ key_of_cell cell)
unfolding build_row
build_row-key run_id cell result scorer total = elim (Option-cases result.reason_class) [
  | inr (reason, e) ↦ (row_of run_id cell result [] unscored (some reason), rw e refl, refl)
  | inl e ↦ elim (Bool-cases (result.response_raw == no_response_mark)) [
    | inl f ↦ (row_of run_id cell result [] forced_zero none, rw (e, f) refl, refl)
    | inr f ↦
        let (o, h) = total cell.item result.response_raw in
        (row_of run_id cell result result.response_raw o none, rw (e, f, h) refl, refl)
  ]
]

pub rows_text-snoc :
    (codec : Codec) (rows : List RunRow) (row : RunRow)
    → rows_text codec rows ++ (row_line codec row ++ (10 ∷ [])) ≡ rows_text codec (rows ++ row ∷ [])
unfolding rows_text unlines
rows_text-snoc codec [] row = refl
rows_text-snoc codec (r ∷ rows) row =
    rw
      (append_assoc (row_line codec r) (10 ∷ unlines (map (row_line codec) rows))
        (row_line codec row ++ (10 ∷ [])))
      (ap (λ s. row_line codec r ++ (10 ∷ s)) (rows_text-snoc codec rows row))

no_room : (m u : ℕ) → leb m u ≡ true → m - u ≡ 0
no_room m u h = grind (arith, h)

some_room : (m u : ℕ) → leb m u ≡ false → m - u ≡ suc (m - (u + 1))
some_room m u h = grind (arith, h)

ltb-zero : (n : ℕ) → ltb n 0 ≡ false
ltb-zero n = grind arith

ltb-suc : (n k : ℕ) → ltb (suc n) (suc k) ≡ ltb n k
ltb-suc n k = grind arith

more_room : (m u k : ℕ) → leb m u ≡ false → ltb (m - u) (suc k) ≡ ltb (m - (u + 1)) k
more_room m u k h = ap (λ n. ltb n (suc k)) (some_room m u h) ∙ ltb-suc (m - (u + 1)) k

take_nothing : (n : ℕ) → ◌≡◌ {A = List Cell} (take n []) []
take_nothing zero = refl
take_nothing (suc n) = refl

ltb_zero-suc : (k : ℕ) → ltb 0 (suc k) ≡ true
ltb_zero-suc k = grind arith

shift : (w n : ℕ) → w + 1 + n ≡ w + suc n
shift w n = omega arith

-- What a sweep returns, from the numbers it counts.
abbrev returns : {W : Type 0} → ℕ → Bool → Sweep W → Result RunError (ℕ × Bool) × Sweep W
returns written aborted after = (ok (written, aborted), after)

module _ {W : Type 0} (codec : Codec) (call : ModelCall W) (run_id : Text) (scorer : Scorer) where
  -- What a sweep of the cells leaves, that began with `rows` in the file.
  pub record Swept (cells : List Cell) (rows : List RunRow) (written : ℕ) (s : Sweep W)
      : Type 0 where
    pub news : List RunRow
    pub after : Sweep W
    pub returned : sweep_cells codec call run_id scorer cells written s ≡ (
      ok (written + length news, ltb (s.budget.max_calls - s.budget.used) (length cells)),
      after,
    )
    pub appended : after.file ≡ contents (rows_text codec (rows ++ news))
    pub one_each :
        map row_key news ≡ map key_of_cell (take (s.budget.max_calls - s.budget.used) cells)
    pub spent :
        after.budget ≡ record { max_calls = s.budget.max_calls; used = s.budget.used + length news }

  sweep_cells-step :
      (cell : Cell) (cells : List Cell) (rows : List RunRow) (written m u : ℕ) (world : W)
      (row : RunRow)
      → leb m u ≡ false
      → build_row run_id cell (call cell.item.prompt cell.requested_model world).0 scorer ≡ ok row
      → sweep_cells codec call run_id scorer (cell ∷ cells) written (record {
        budget = record { max_calls = m; used = u };
        file = contents (rows_text codec rows);
        world = world;
      })
        ≡ sweep_cells codec call run_id scorer cells (written + 1) (record {
          budget = record { max_calls = m; used = u + 1 };
          file = contents (rows_text codec (rows ++ row ∷ []));
          world = (call cell.item.prompt cell.requested_model world).1;
        })
  unfolding sweep_cells consume append_row
  sweep_cells-step cell cells rows written m u world row room built =
      rw (room, sweep_cells, built) (rw (rows_text-snoc codec rows row) refl)

  pub sweep_cells-Swept :
      Answers scorer
      → (cells : List Cell) (rows : List RunRow) (written m u : ℕ) (world : W)
      → Swept cells rows written (record {
        budget = record { max_calls = m; used = u };
        file = contents (rows_text codec rows);
        world = world;
      })
  unfolding sweep_cells consume append_row
  sweep_cells-Swept total [] rows written m u world = record {
    news = [];
    after = record {
      budget = record { max_calls = m; used = u };
      file = contents (rows_text codec rows);
      world = world;
    };
    returned = rw (ltb-zero (m - u)) (ap (λ n. returns n false _) (omega arith));
    appended = ap (λ l. contents (rows_text codec l)) (sym (append-nil rows));
    one_each = ap (map key_of_cell) (sym (take_nothing (m - u)));
    spent = ap (λ n. record { max_calls = m; used = n }) (omega arith);
  }
  sweep_cells-Swept total (cell ∷ cells) rows written m u world = elim (Bool-cases (leb m u)) [
    | inl full ↦ record {
      news = [];
      after = record {
        budget = record { max_calls = m; used = u };
        file = contents (rows_text codec rows);
        world = world;
      };
      returned =
          rw (full, sweep_cells, no_room m u full, ltb_zero-suc (length cells))
            (ap (λ n. returns n true _) (omega arith));
      appended = ap (λ l. contents (rows_text codec l)) (sym (append-nil rows));
      one_each = rw (no_room m u full) refl;
      spent = ap (λ n. record { max_calls = m; used = n }) (omega arith);
    }
    | inr room ↦
        let (result, later) = call cell.item.prompt cell.requested_model world in
        let (row, built, key) = build_row-key run_id cell result scorer total in
        let rest = sweep_cells-Swept total cells (rows ++ row ∷ []) (written + 1) m (u + 1) later in
        record {
          news = row ∷ rest.news;
          after = rest.after;
          returned =
              sweep_cells-step cell cells rows written m u world row room built
              ∙ rest.returned
              ∙ ap (λ n. returns n (ltb (m - (u + 1)) (length cells)) rest.after)
                  (shift written (length rest.news))
              ∙ ap (λ b. returns (written + suc (length rest.news)) b rest.after)
                  (sym (more_room m u (length cells) room));
          appended =
              rest.appended
              ∙ ap (λ l. contents (rows_text codec l)) (append_assoc rows (row ∷ []) rest.news);
          one_each = rw (some_room m u room, key, rest.one_each) refl;
          spent = rest.spent ∙ ap (λ n. record { max_calls = m; used = n }) (omega arith);
        }
  ]

  -- With a scorer that answers every response, a sequential sweep calls its cells in order until the
  -- budget is spent: it appends one row for each of the first `max_calls - used` cells, spends one
  -- call on each, and says that it was aborted exactly if cells are left over.
  pub sweep_sequential-Swept :
      Answers scorer
      → (cells : List Cell) (rows : List RunRow) (budget : CallBudget) (world : W)
      → (news : List RunRow) × (after : Sweep W) × (sweep_sequential codec call run_id scorer cells
            (record { budget = budget; file = contents (rows_text codec rows); world = world })
          ≡ (ok (length news, ltb (budget.max_calls - budget.used) (length cells)), after))
        × (after.file ≡ contents (rows_text codec (rows ++ news)))
        × (map row_key news ≡ map key_of_cell (take (budget.max_calls - budget.used) cells))
        × (after.budget.used ≡ budget.used + length news)
  unfolding sweep_sequential
  sweep_sequential-Swept total cells rows budget world =
      let swept = sweep_cells-Swept total cells rows 0 budget.max_calls budget.used world in
      (
        swept.news,
        swept.after,
        swept.returned
            ∙ ap (λ n. returns n (ltb (budget.max_calls - budget.used) (length cells)) swept.after)
                (omega arith),
        swept.appended,
        swept.one_each,
        ap (λ b. b.used) swept.spent,
      )
