-- ===== src/Ledger/Render.antt =====
-- measure_twice/ledger.py: `render_claim_list` and `render_ledger`.
pub mod Cells
use measure_twice.Prelude.{
  ℕ, ◌+◌, Bool, List, [], ◌∷◌, ◌++◌, map, if◌then◌else◌, nat_eq, text_eq, option_eq, ◌==◌, keep,
}
use measure_twice.Text.{Text, text, strip_right, join}
use measure_twice.Agent.Canonical.{less}
use measure_twice.Ledger.Source.{ClaimSource}
use measure_twice.Ledger.Claim.{
  ClaimStatus, measured, partial, asserted, stale, status_value, Claim,
}

-- the four replacements of one character
unfoldable pub escaped : ℕ → Text
escaped c =
    if c == b'\\'
    then b'\\' ∷ b'\\' ∷ []
    else if c == b'|'
    then b'\\' ∷ b'|' ∷ []
    else if c == 13
    then b' ' ∷ []
    else if c == 10
    then b' ' ∷ []
    else c ∷ []

-- `_markdown_cell`; no replacement makes a character that a later one replaces
unfoldable pub markdown_cell : Text → Text
markdown_cell [] = []
markdown_cell (c ∷ s) = escaped c ++ markdown_cell s

-- a claim put in front of the first one whose id is not smaller
unfoldable pub insert_claim : Claim → List Claim → List Claim
insert_claim c [] = c ∷ []
insert_claim c (d ∷ rest) =
    let later = insert_claim c rest in
    if less d.claim_id c.claim_id then d ∷ later else c ∷ d ∷ rest

-- `sorted(claims, key=lambda claim: claim.claim_id)`, which is stable
unfoldable pub sorted_claims : List Claim → List Claim
sorted_claims [] = []
sorted_claims (c ∷ claims) = insert_claim c (sorted_claims claims)

-- a line of the list
unfoldable pub list_line : Claim → Text
list_line c = status_value c.status ++ 9 ∷ c.claim_id ++ 9 ∷ c.statement

-- `render_claim_list`
unfoldable pub render_claim_list : List Claim → Text
render_claim_list [] = text "No claims recorded."
render_claim_list (c ∷ claims) = join (10 ∷ []) (map list_line (sorted_claims (c ∷ claims)))

-- the next number, from the lowest decimal digit on
unfoldable pub next_number : Text → Text
next_number [] = b'1' ∷ []
next_number (d ∷ digits) =
    let rest = next_number digits in if d == b'9' then b'0' ∷ rest else (d + 1) ∷ digits

unfoldable pub count_of : List Claim → Text
count_of [] = b'0' ∷ []
count_of (c ∷ claims) = next_number (count_of claims)

unfoldable pub reversed : Text → Text
reversed [] = []
reversed (c ∷ s) = reversed s ++ c ∷ []

unfoldable pub is_status : ClaimStatus → Claim → Bool
is_status status c = status_value c.status == status_value status

unfoldable pub evidence_cell : List Text → Text
evidence_cell [] = b'-' ∷ []
evidence_cell (run_id ∷ evidence) = join (text ", ") (run_id ∷ evidence)

unfoldable pub source_cell : ClaimSource → Text
source_cell s = s.file ++ b':' ∷ s.lines

unfoldable pub code_cell : Text → Text
code_cell s = b'`' ∷ markdown_cell s ++ b'`' ∷ []

-- the cells of one claim
unfoldable pub cells_of : Claim → List Text
cells_of c =
    code_cell c.claim_id
    ∷ code_cell c.decision_surface
    ∷ markdown_cell c.statement
    ∷ markdown_cell (evidence_cell c.evidence)
    ∷ code_cell (join (text "<br>") (map source_cell c.sources))
    ∷ []

unfoldable pub table_row : Claim → Text
table_row c = text "| " ++ join (text " | ") (cells_of c) ++ text " |"

unfoldable pub table_of : List Claim → List Text
table_of [] = text "No claims." ∷ [] ∷ []
table_of (c ∷ group) =
    text "| Claim | Decision surface | Statement | Evidence | Sources |"
      ∷ text "| --- | --- | --- | --- | --- |"
      ∷ map table_row (c ∷ group)
    ++ [] ∷ []

-- the lines of one status
unfoldable pub section_of : List Claim → ClaimStatus → List Text
section_of claims status =
    let group = sorted_claims (keep (is_status status) claims) in
    (text "## " ++ status_value status ++ text " (" ++ reversed (count_of group) ++ text ")")
    ∷ []
    ∷ table_of group

-- `render_ledger`
unfoldable pub render_ledger : List Claim → Text
render_ledger claims =
    let sections =
      section_of claims measured
      ++ section_of claims partial
      ++ section_of claims asserted
      ++ section_of claims stale in
    strip_right (join (10 ∷ []) (text "# Evidence ledger" ∷ [] ∷ sections)) ++ 10 ∷ []
