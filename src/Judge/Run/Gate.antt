-- ===== src/Judge/Run/Gate.antt =====
-- The parse-fail gate of `judge_run`, and the shape of what it returns.
use measure_twice.Prelude.{
  ℕ, ◌*◌, ◌≤◌, ◌<◌, ◌≡◌, refl, ◌∙◌, subst, ◌⊎◌, inl, inr, true, false, not, ◌&&◌, List, [], ◌∷◌,
  ◌++◌, map, arith, ltb, Bool-cases, nat_eq, text_eq, option_eq, ◌==◌, contains, ==_refl, eq_of_==,
  length, All, Result, ok, err, raise_if, bind-eq-ok, ok-injective, List-cases,
}
use measure_twice.Text.{Text}
use measure_twice.Scoring.Verdict.{distinct}
use measure_twice.Judge.Cell.{
  JudgeError, JudgeCell, JudgeItemResult, JudgeCellStat, JudgeMath, Session, JudgeCaller,
  judge_one_cell, judge_all, item_result-item_id, medians, build_judge_prompt, no_judges, bad_k,
  parse_fail_rate,
}
use measure_twice.Judge.Run.Tally.{
  tally, Judging, nothing_left, cell_judged, judge_cells-Judging, add_stats-tally,
}
use measure_twice.Judge.Run.{
  ParseStat, is_offender, offenders, check_parse_fail_gate, JudgeRunResult, started, judge_cells,
  judge_run,
}

-- The judge has no attempts, or at most half of them failed to parse.
abbrev pub Within : ParseStat → Type 0
Within stat = (stat.n_attempts ≡ 0) ⊎ (2 * stat.n_fail ≤ stat.n_attempts)

at_most : (a f : ℕ) → ltb a f ≡ false → f ≤ a
at_most a f h = grind (arith, h)

cons-not-nil : {A : Type 0} {x : A} {xs : List A} → ◌≡◌ {A = List A} (x ∷ xs) [] → ⊥
cons-not-nil h = cc

contains_later : (y x : Text) (xs : List Text) → contains xs x ≡ true → contains (y ∷ xs) x ≡ true
contains_later y x xs h = ground arith

raised-not-ok :
    {A : Type 0} {e : JudgeError} {a : A} → ◌≡◌ {A = Result JudgeError A} (err e) (ok a) → ⊥
raised-not-ok h = cc

false-not-true : false ≡ true → ⊥
false-not-true h = cc

offends :
    (fail attempts : ℕ)
    → 1 ≤ attempts
    → attempts < 2 * fail
    → (not (attempts == 0) && ltb attempts (2 * fail)) ≡ true
offends fail attempts h k = ground (arith, h, k)

not_offender :
    (fail attempts : ℕ)
    → (not (attempts == 0) && ltb attempts (2 * fail)) ≡ false
    → (attempts ≡ 0) ⊎ (2 * fail ≤ attempts)
not_offender fail attempts h = elim (Bool-cases (attempts == 0)) [
  | inl e ↦ inl (eq_of_== attempts 0 e)
  | inr e ↦ inr (at_most attempts (2 * fail) (rw e at h))
]

offender_of :
    (stat : ParseStat)
    → (not (stat.n_attempts == 0) && ltb stat.n_attempts (2 * stat.n_fail)) ≡ true
    → is_offender stat ≡ true
unfolding is_offender
offender_of stat h = h

offenders-Within : (stats : List ParseStat) → offenders stats ≡ [] → All Within stats
unfolding offenders is_offender
offenders-Within [] h = tt
offenders-Within (stat ∷ rest) h = elim (Bool-cases (is_offender stat)) [
  | inl f ↦ absurd (cons-not-nil (rw f at h))
  | inr f ↦ (not_offender stat.n_fail stat.n_attempts f, offenders-Within rest (rw f at h))
]

offenders-contains :
    (before : List ParseStat) (stat : ParseStat) (after : List ParseStat)
    → is_offender stat ≡ true
    → contains (offenders (before ++ stat ∷ after)) stat.judge ≡ true
unfolding offenders
offenders-contains [] stat after h = rw (h, ==_refl stat.judge) refl
offenders-contains (b ∷ before) stat after h =
    let later = offenders-contains before stat after h in
    elim (Bool-cases (is_offender b)) [
      | inl e ↦ rw e (contains_later b.judge stat.judge (offenders (before ++ stat ∷ after)) later)
      | inr e ↦ rw e later
    ]

gate-Within :
    (stats : List ParseStat) (u : Unit {0}) → check_parse_fail_gate stats ≡ ok u → All Within stats
unfolding check_parse_fail_gate
gate-Within stats u h = elim (List-cases (offenders stats)) [
  | inl e ↦ offenders-Within stats e
  | inr (j, js, e) ↦ absurd (raised-not-ok (rw (e, check_parse_fail_gate) at h))
]

module _ {W : Type 0} (math : JudgeMath) (call : JudgeCaller W) (k : ℕ) where
  judge_one_cell-item_id :
      (cell : JudgeCell) (judges : List Text) (s : Session W)
      (judged : (JudgeItemResult × List JudgeCellStat) × Session W)
      → judge_one_cell math call cell judges k s ≡ ok judged
      → judged.0.0.item_id ≡ cell.item_id
  unfolding judge_one_cell
  judge_one_cell-item_id cell judges s judged h =
      let (all_judged, a, h) =
        bind-eq-ok
          (judge_all math call (build_judge_prompt math cell.prompt cell.response cell.rubric) k
            judges s)
          _ h in
      subst (λ j. j.0.0.item_id ≡ cell.item_id) (ok-injective h)
        (item_result-item_id math call cell.item_id (medians math call all_judged.0))

  Judging-item_id :
      (judges : List Text) (cells : List JudgeCell) (s : Session W) (results : List JudgeItemResult)
      (stats : List JudgeCellStat)
      → Judging math call k judges cells s results stats
      → map (λ r. r.item_id) results ≡ map (λ c. c.item_id) cells
  Judging-item_id judges [] s results stats (nothing_left _) = refl
  Judging-item_id judges (cell ∷ cells) s results stats
        (cell_judged _ _ _ later result own others more one rest) =
      rw
        (
          judge_one_cell-item_id cell judges s ((result, own), later) one,
          Judging-item_id judges cells later others more rest,
        )
        refl

  -- A rubric run that returns has judged its cells one after the other, each with every judge,
  -- duplicates dropped, and in the session that the cell before it left. Its results are those of
  -- the cells in their order, for the items of the cells; the count of each judge is the sum of its
  -- counts over all cells; and no judge failed to parse on more than half of its attempts.
  pub judge_run-Within :
      (cells : List JudgeCell) (judges : List Text) (world : W) (r : JudgeRunResult)
      → judge_run math call k cells judges world ≡ ok r
      → (stats : List JudgeCellStat) × Judging math call k
          (distinct judges)
          cells
          (record { world = world; identities = [] })
          r.results
          stats
        × (map (λ i. i.item_id) r.results ≡ map (λ c. c.item_id) cells)
        × (r.per_judge_parse_stats ≡ map (tally stats) (distinct judges))
        × All Within r.per_judge_parse_stats
  unfolding judge_run
  judge_run-Within cells judges world r h =
      let start : Session W = record { world = world; identities = [] } in
      let (_, _, h) = bind-eq-ok (raise_if (length (distinct judges) == 0) no_judges) _ h in
      let (_, _, h) = bind-eq-ok (raise_if (k == 0) bad_k) _ h in
      let (found, f, h) =
        bind-eq-ok
          (judge_cells math call k (distinct judges) cells (map started (distinct judges)) start) _
          h in
      let (_, gate, h) = bind-eq-ok (check_parse_fail_gate found.1) _ h in
      let (stats, run, counts) =
        judge_cells-Judging math call k (distinct judges) cells (map started (distinct judges))
          start found f in
      subst
        (λ t.
          (stats : List JudgeCellStat) × Judging math call k (distinct judges) cells start t.results
            stats
          × (map (λ i. i.item_id) t.results ≡ map (λ c. c.item_id) cells)
          × (t.per_judge_parse_stats ≡ map (tally stats) (distinct judges))
          × All Within t.per_judge_parse_stats)
        (ok-injective h)
        (
          stats,
          run,
          Judging-item_id (distinct judges) cells start found.0 stats run,
          counts ∙ add_stats-tally stats (distinct judges),
          gate-Within found.1 _ gate,
        )

  -- One judge that failed to parse on more than half of its attempts stops the whole rubric run,
  -- however well the others did, and the error names it.
  pub judge_run_refused :
      (cells : List JudgeCell) (judges : List Text) (world : W) (results : List JudgeItemResult)
      (before : List ParseStat) (stat : ParseStat) (after : List ParseStat)
      → (length (distinct judges) == 0) ≡ false
      → (k == 0) ≡ false
      → judge_cells math call k
          (distinct judges)
          cells
          (map started (distinct judges))
          (record { world = world; identities = [] })
        ≡ ok (results, before ++ stat ∷ after)
      → 1 ≤ stat.n_attempts
      → stat.n_attempts < 2 * stat.n_fail
      → (names : List Text) × (judge_run math call k cells judges world
          ≡ err (parse_fail_rate names))
        × (contains names stat.judge ≡ true)
  unfolding judge_run check_parse_fail_gate
  judge_run_refused cells judges world results before stat after some_judge some_k ran tried over =
      let named =
        offenders-contains before stat after
          (offender_of stat (offends stat.n_fail stat.n_attempts tried over)) in
      elim (List-cases (offenders (before ++ stat ∷ after))) [
        | inl e ↦ absurd (false-not-true (rw e at named))
        | inr (j, js, e) ↦
            (j ∷ js, rw (some_judge, some_k, ran, e, check_parse_fail_gate) refl, rw e at named)
      ]
