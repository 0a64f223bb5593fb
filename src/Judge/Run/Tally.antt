-- ===== src/Judge/Run/Tally.antt =====
-- What `judge_run` adds up: the results and the counts of its cells, judged one after the other.
use measure_twice.Prelude.{
  ℕ, ◌+◌, ◌≡◌, refl, sym, ap, ◌∙◌, subst, inl, inr, List, [], ◌∷◌, ◌++◌, map, arith, if◌then◌else◌,
  Bool-cases, nat_eq, text_eq, option_eq, ◌==◌, ok, bind-eq-ok, ok-injective,
}
use measure_twice.Text.{Text}
use measure_twice.Judge.Cell.{
  JudgeCell, JudgeItemResult, JudgeCellStat, JudgeMath, Session, JudgeCaller, judge_one_cell,
}
use measure_twice.Judge.Run.{ParseStat, added, add_stat, add_stats, started, judge_cells}

-- The sum of a count over the cells, for one judge.
unfoldable pub total : (JudgeCellStat → ℕ) → Text → List JudgeCellStat → ℕ
total count judge [] = 0
total count judge (stat ∷ rest) =
    let later = total count judge rest in if judge == stat.judge then count stat + later else later

abbrev pub tally : List JudgeCellStat → Text → ParseStat
tally stats judge = record {
  judge = judge;
  n_fail = total (λ s. s.n_parse_fail) judge stats;
  n_attempts = total (λ s. s.n_parse_attempts) judge stats;
}

-- An entry after the counts of more cells.
abbrev grown : List JudgeCellStat → ParseStat → ParseStat
grown stats acc = record {
  judge = acc.judge;
  n_fail = acc.n_fail + total (λ s. s.n_parse_fail) acc.judge stats;
  n_attempts = acc.n_attempts + total (λ s. s.n_parse_attempts) acc.judge stats;
}

map-ext :
    (f g : ParseStat → ParseStat) (l : List ParseStat)
    → ((a : ParseStat) → f a ≡ g a)
    → map f l ≡ map g l
map-ext f g [] h = refl
map-ext f g (a ∷ l) h = λ i. h a i ∷ map-ext f g l h i

same_stat :
    (judge : Text) (a b c d : ℕ)
    → a ≡ b
    → c ≡ d
    → ◌≡◌ {A = ParseStat}
        (record { judge = judge; n_fail = a; n_attempts = c })
        (record { judge = judge; n_fail = b; n_attempts = d })
same_stat judge a b c d p q = λ i. record { judge = judge; n_fail = p i; n_attempts = q i }

grown-nil : (a : ParseStat) → a ≡ grown [] a
unfolding total
grown-nil a = same_stat a.judge _ _ _ _ (omega arith) (omega arith)

grown-added :
    (s : JudgeCellStat) (rest : List JudgeCellStat) (a : ParseStat)
    → grown rest (added s a) ≡ grown (s ∷ rest) a
unfolding total added
grown-added s rest a = elim (Bool-cases (a.judge == s.judge)) [
  | inl e ↦ rw e (same_stat a.judge _ _ _ _ (omega arith) (omega arith))
  | inr e ↦ rw e refl
]

map-map-stats :
    (f g : ParseStat → ParseStat) (l : List ParseStat) → map f (map g l) ≡ map (λ a. f (g a)) l
map-map-stats f g [] = refl
map-map-stats f g (a ∷ l) = ap (◌∷◌ (f (g a))) (map-map-stats f g l)

map-own : (l : List ParseStat) → map (λ a. a) l ≡ l
map-own [] = refl
map-own (a ∷ l) = ap (◌∷◌ a) (map-own l)

add_stats-grown :
    (stats : List JudgeCellStat) (acc : List ParseStat)
    → add_stats stats acc ≡ map (grown stats) acc
unfolding add_stats add_stat
add_stats-grown [] acc = sym (map-own acc) ∙ map-ext (λ a. a) (grown []) acc grown-nil
add_stats-grown (s ∷ rest) acc =
    add_stats-grown rest (map (added s) acc)
    ∙ map-map-stats (grown rest) (added s) acc
    ∙ map-ext (λ a. grown rest (added s a)) (grown (s ∷ rest)) acc (grown-added s rest)

add_stats-append :
    (a b : List JudgeCellStat) (acc : List ParseStat)
    → add_stats (a ++ b) acc ≡ add_stats b (add_stats a acc)
unfolding add_stats
add_stats-append [] b acc = refl
add_stats-append (s ∷ a) b acc = add_stats-append a b (add_stat s acc)

-- What is added up from the start is the tally of each judge.
pub add_stats-tally :
    (stats : List JudgeCellStat) (judges : List Text)
    → add_stats stats (map started judges) ≡ map (tally stats) judges
add_stats-tally stats judges = add_stats-grown stats (map started judges) ∙ from_start judges
  where
    zero_first : (n : ℕ) → 0 + n ≡ n
    zero_first n = omega arith

    from_start : (js : List Text) → map (grown stats) (map started js) ≡ map (tally stats) js
    from_start [] = refl
    from_start (j ∷ js) = λ i.
        same_stat j _ _ _ _ (zero_first (total (λ s. s.n_parse_fail) j stats))
          (zero_first (total (λ s. s.n_parse_attempts) j stats)) i
        ∷ from_start js i

module _ {W : Type 0} (math : JudgeMath) (call : JudgeCaller W) (k : ℕ) (judges : List Text) where
  -- The cells were judged one after the other, each from the session that the one before it left,
  -- with these results and with these counts, those of each cell in its turn.
  pub data Judging
      : List JudgeCell → Session W → List JudgeItemResult → List JudgeCellStat → Type 0 where
    nothing_left : (s : Session W) → Judging [] s [] []
    cell_judged :
        (cell : JudgeCell) (cells : List JudgeCell) (s later : Session W) (result : JudgeItemResult)
        (stats : List JudgeCellStat) (results : List JudgeItemResult) (more : List JudgeCellStat)
        → judge_one_cell math call cell judges k s ≡ ok ((result, stats), later)
        → Judging cells later results more
        → Judging (cell ∷ cells) s (result ∷ results) (stats ++ more)

  pub judge_cells-Judging :
      (cells : List JudgeCell) (acc : List ParseStat) (s : Session W)
      (found : List JudgeItemResult × List ParseStat)
      → judge_cells math call k judges cells acc s ≡ ok found
      → (stats : List JudgeCellStat) × Judging cells s found.0 stats
        × (found.1 ≡ add_stats stats acc)
  unfolding judge_cells
  judge_cells-Judging [] acc s found h =
      subst
        (λ f. (stats : List JudgeCellStat) × Judging [] s f.0 stats × (f.1 ≡ add_stats stats acc))
        (ok-injective h) ([], nothing_left s, unfold add_stats in refl)
  judge_cells-Judging (cell ∷ cells) acc s found h =
      let (judged, j, h) = bind-eq-ok (judge_one_cell math call cell judges k s) _ h in
      let (others, o, h) =
        bind-eq-ok (judge_cells math call k judges cells (add_stats judged.0.1 acc) judged.1) _ h in
      let (more, run, counts) =
        judge_cells-Judging cells (add_stats judged.0.1 acc) judged.1 others o in
      subst
        (λ f.
          (stats : List JudgeCellStat) × Judging (cell ∷ cells) s f.0 stats
          × (f.1 ≡ add_stats stats acc))
        (ok-injective h)
        (
          judged.0.1 ++ more,
          cell_judged cell cells s judged.1 judged.0.0 judged.0.1 others.0 more j run,
          counts ∙ sym (add_stats-append judged.0.1 more acc),
        )
