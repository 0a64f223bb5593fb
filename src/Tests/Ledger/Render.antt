-- ===== src/Tests/Ledger/Render.antt =====
-- Tests of `render_claim_list` and `render_ledger`, on texts that would break a table.
use measure_twice.Prelude.{◌≡◌, refl, false, none, [], ◌∷◌, ◌++◌, nat_eq, text_eq, option_eq, All}
use measure_twice.Text.{text, strip_right, join, unlines}
use measure_twice.Tests.Ledger.{source, second}
use measure_twice.Ledger.Claim.{Claim, measured, stale, status_value}
use measure_twice.Ledger.Render.{
  markdown_cell, table_row, render_claim_list, render_ledger, count_of, reversed,
}
use measure_twice.Ledger.Render.Cells.{table_row-bars, bars, is_line_end}

abbrev awkward : Claim
awkward = record {
  claim_id = text "b|1";
  statement = 10 ∷ text "a | b \\";
  decision_surface = text "x\\|";
  sources = source ∷ second ∷ [];
  status = stale;
  evidence = [];
  verdict = none;
  preregistration = none;
  last_verified_utc = text "2026-01-01T00:00:00Z";
}

abbrev earlier : Claim
earlier = record {
  claim_id = text "a";
  statement = text "s";
  decision_surface = text "d";
  sources = source ∷ [];
  status = measured;
  evidence = text "r1" ∷ text "r2" ∷ [];
  verdict = none;
  preregistration = none;
  last_verified_utc = text "2026-01-01T00:00:00Z";
}

awkward_row :
    table_row awkward
    ≡ text "| `b\\|1` | `x\\\\\\|` |  a \\| b \\\\ | - | `docs/a.md:1<br>docs/a.md:2-3` |"
unfolding table_row join measure_twice.Ledger.Render.cells_of measure_twice.Ledger.Render.code_cell
    markdown_cell measure_twice.Ledger.Render.escaped nat_eq
    measure_twice.Ledger.Render.evidence_cell measure_twice.Ledger.Render.source_cell
awkward_row = refl

sorted_list :
    render_claim_list (earlier ∷ earlier ∷ [])
    ≡ text "MEASURED"
      ++ 9 ∷ text "a"
      ++ 9 ∷ text "s"
      ++ 10 ∷ text "MEASURED"
      ++ 9 ∷ text "a"
      ++ 9 ∷ text "s"
unfolding render_claim_list join measure_twice.Ledger.Render.sorted_claims
    measure_twice.Ledger.Render.insert_claim measure_twice.Agent.Canonical.less nat_eq
    measure_twice.Ledger.Render.list_line status_value
sorted_list = refl

ten_claims :
    reversed (
      count_of (
        earlier ∷ earlier ∷ earlier ∷ earlier ∷ earlier ∷ earlier ∷ earlier ∷ earlier ∷ earlier
        ∷ awkward ∷ []))
    ≡ text "10"
unfolding reversed count_of measure_twice.Ledger.Render.next_number nat_eq
ten_claims = refl

empty_ledger :
    render_ledger []
    ≡ unlines (
        text "# Evidence ledger"
        ∷ []
        ∷ text "## MEASURED (0)"
        ∷ []
        ∷ text "No claims."
        ∷ []
        ∷ text "## PARTIAL (0)"
        ∷ []
        ∷ text "No claims."
        ∷ []
        ∷ text "## ASSERTED (0)"
        ∷ []
        ∷ text "No claims."
        ∷ []
        ∷ text "## STALE (0)"
        ∷ []
        ∷ text "No claims."
        ∷ [])
unfolding unlines render_ledger strip_right join measure_twice.Ledger.Render.section_of status_value
    reversed count_of measure_twice.Ledger.Render.sorted_claims measure_twice.Ledger.Render.table_of
    nat_eq
empty_ledger = refl

table_row-bars_example :
    (bars false (table_row awkward) ≡ 6) × All (λ d. is_line_end d ≡ false) (table_row awkward)
table_row-bars_example = table_row-bars awkward
