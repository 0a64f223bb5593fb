-- ===== src/Ledger/Render/Cells.antt =====
-- The text of a claim stays inside its row of the table.
use measure_twice.Prelude.{
  ℕ, ◌+◌, ◌≡◌, refl, sym, ap, ◌∙◌, subst, inl, inr, Bool, true, false, ◌||◌, [], ◌∷◌, ◌++◌, map,
  append-nil, append_assoc, arith, if◌then◌else◌, Bool-cases, nat_eq, text_eq, option_eq, ◌==◌, All,
  All-append,
}
use measure_twice.Text.{Text, text, join}
use measure_twice.Ledger.Claim.{Claim}
use measure_twice.Ledger.Render.{
  escaped, markdown_cell, code_cell, cells_of, table_row, evidence_cell, source_cell,
}

-- The bars that end a cell, after a backslash or not: a backslash takes the next character.
unfoldable pub bars : Bool → Text → ℕ
bars after_backslash [] = 0
bars true (c ∷ s) = bars false s
bars false (c ∷ s) = let n = bars (c == b'\\') s in if c == b'|' then n + 1 else n

abbrev pub is_line_end : ℕ → Bool
is_line_end c = c == 13 || c == 10

-- So many bars that end a cell, whatever follows, and no line end.
abbrev HasBars : ℕ → Text → Type 0
HasBars n s =
    ((t : Text) → bars false (s ++ t) ≡ n + bars false t) × All (λ c. is_line_end c ≡ false) s

append-HasBars : (n m : ℕ) (s t : Text) → HasBars n s → HasBars m t → HasBars (n + m) (s ++ t)
append-HasBars n m s t a b = (λ u. count u, All-append (λ c. is_line_end c ≡ false) s t a.1 b.1)
  where
    count : (u : Text) → bars false ((s ++ t) ++ u) ≡ (n + m) + bars false u
    count u =
        ap (bars false) (append_assoc s t u)
        ∙ (a.0 (t ++ u) ∙ (ap (λ k. n + k) (b.0 u) ∙ (omega arith)))

escaped-HasBars : (c : ℕ) → HasBars 0 (escaped c)
unfolding escaped bars nat_eq
escaped-HasBars c = elim (Bool-cases (c == b'\\')) [
  | inl e ↦ rw e (λ t. omega arith, (refl, (refl, tt)))
  | inr e ↦ elim (Bool-cases (c == b'|')) [
    | inl f ↦ rw (e, f) (λ t. omega arith, (refl, (refl, tt)))
    | inr f ↦ elim (Bool-cases (c == 13)) [
      | inl g ↦ rw (e, f, g) (λ t. omega arith, (refl, tt))
      | inr g ↦ elim (Bool-cases (c == 10)) [
        | inl h ↦ rw (e, f, g, h) (λ t. omega arith, (refl, tt))
        | inr h ↦ rw (e, f, g, h) (λ t. rw (e, f) (omega arith), (rw (g, h) refl, tt))
      ]
    ]
  ]
]

markdown_cell-HasBars : (s : Text) → HasBars 0 (markdown_cell s)
unfolding markdown_cell
markdown_cell-HasBars [] = (λ t. omega arith, tt)
markdown_cell-HasBars (c ∷ s) =
    append-HasBars 0 0 (escaped c) (markdown_cell s) (escaped-HasBars c) (markdown_cell-HasBars s)

tick-HasBars : HasBars 0 (b'`' ∷ [])
unfolding bars nat_eq
tick-HasBars = (λ t. omega arith, (refl, tt))

code_cell-HasBars : (s : Text) → HasBars 0 (code_cell s)
unfolding code_cell
code_cell-HasBars s =
    append-HasBars 0 0 (b'`' ∷ []) (markdown_cell s ++ b'`' ∷ []) tick-HasBars
      (append-HasBars 0 0 (markdown_cell s) (b'`' ∷ []) (markdown_cell-HasBars s) tick-HasBars)

-- a cell, and the bar after it
then_bar :
    (n : ℕ) (s t : Text) → HasBars 0 s → HasBars n t → HasBars (n + 1) (s ++ (text " | " ++ t))
unfolding bars nat_eq
then_bar n s t a b =
    subst (λ k. HasBars k (s ++ (text " | " ++ t))) (omega arith)
      (append-HasBars 0 (1 + n) s (text " | " ++ t) a
        (append-HasBars 1 n (text " | ") t (λ u. omega arith, (refl, (refl, (refl, tt)))) b))

cells-HasBars : (c : Claim) → HasBars 4 (join (text " | ") (cells_of c))
unfolding cells_of join
cells-HasBars c =
    let sources = join (text "<br>") (map source_cell c.sources) in
    then_bar 3 (code_cell c.claim_id) _ (code_cell-HasBars c.claim_id) (
      then_bar 2 (code_cell c.decision_surface) _ (code_cell-HasBars c.decision_surface) (
        then_bar 1 (markdown_cell c.statement) _ (markdown_cell-HasBars c.statement) (
          then_bar 0 (markdown_cell (evidence_cell c.evidence)) _
            (markdown_cell-HasBars (evidence_cell c.evidence)) (code_cell-HasBars sources))))

-- However the texts of a claim are written, its row is one line, and the bars of it that no
-- backslash takes are the six of a row of five cells: none is of a text.
pub table_row-bars :
    (c : Claim) → (bars false (table_row c) ≡ 6) × All (λ d. is_line_end d ≡ false) (table_row c)
unfolding table_row bars nat_eq
table_row-bars c =
    let cells = join (text " | ") (cells_of c) in
    let closed =
      append-HasBars 4 1 cells (text " |") (cells-HasBars c)
        (λ u. omega arith, (refl, (refl, tt))) in
    let row =
      append-HasBars 1 5 (text "| ") (cells ++ text " |") (λ u. omega arith, (refl, (refl, tt)))
        closed in
    (ap (bars false) (sym (append-nil (table_row c))) ∙ row.0 [], row.1)
