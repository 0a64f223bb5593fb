-- ===== src/Runner/Store/Corruption.antt =====
-- A rows file with a complete line that is no row.
use measure_twice.Prelude.{
  ◌≡◌, refl, ap, inl, inr, Bool, true, false, ◌&&◌, List, [], ◌∷◌, ◌++◌, map, append_assoc,
  Bool-cases, nat_eq, text_eq, option_eq, ◌==◌, All, err,
}
use measure_twice.Text.{Text, cons_line, split, unlines}
use measure_twice.Json.{Codec}
use measure_twice.Runner.Row.{RunRow, RunError, corrupt_row}
use measure_twice.Runner.Store.{
  is_empty, contents, ends_with_newline, without_last, row_line, parse_row, read_lines, read_rows,
  rows_text,
}
use measure_twice.Runner.Store.Recovery.{
  is_one_line, split-line, IsStored, read_lines-rows, read_rows-contents, one_lines,
}

split-unlines_line :
    (ls : List Text) (s : Text)
    → All (λ l. is_one_line l ≡ true) ls
    → split 10 (unlines ls ++ s) ≡ ls ++ split 10 s
unfolding unlines
split-unlines_line [] s h = refl
split-unlines_line (l ∷ ls) s h =
    rw (append_assoc l (10 ∷ unlines ls) s, split-line l (unlines ls ++ s) h.0)
      (ap (◌∷◌ l) (split-unlines_line ls s h.1))

split-cons : (s : Text) → (l : Text) × (ls : List Text) × (split 10 s ≡ l ∷ ls)
unfolding split cons_line
split-cons [] = ([], [], refl)
split-cons (c ∷ s) =
    let (l, ls, parts) = split-cons s in
    elim (Bool-cases (c == 10)) [
      | inl h ↦ ([], split 10 s, rw h refl)
      | inr h ↦ (c ∷ l, ls, rw (h, parts) refl)
    ]

and_false : (b : Bool) → (b && false) ≡ false
and_false true = refl
and_false false = refl

without_last-line :
    (ls : List Text) (l m : Text) (ms : List Text)
    → without_last (ls ++ l ∷ m ∷ ms) ≡ ls ++ l ∷ without_last (m ∷ ms)
unfolding without_last
without_last-line [] l m ms = refl
without_last-line (k ∷ []) l m ms = refl
without_last-line (k ∷ j ∷ ls) l m ms = ap (◌∷◌ k) (without_last-line (j ∷ ls) l m ms)

module _ (codec : Codec) where
  read_lines-bad :
      (bad : Text) (e : RunError) (rest : List Text) (torn : Bool)
      → parse_row codec bad ≡ err e
      → (is_empty rest && torn) ≡ false
      → read_lines codec torn (bad ∷ rest) ≡ err corrupt_row
  unfolding read_lines
  read_lines-bad bad e rest torn h k = rw (h, read_lines, k) refl

  -- A complete line that is no row makes the whole file unreadable wherever it stands: no row is
  -- skipped in silence, and only a line without its newline is taken for a torn one.
  pub read_rows-corrupt :
      (rows : List RunRow) (bad rest : Text) (e : RunError)
      → All (IsStored codec) rows
      → is_one_line bad ≡ true
      → parse_row codec bad ≡ err e
      → read_rows codec (contents (rows_text codec rows ++ (bad ++ (10 ∷ rest)))) ≡ err corrupt_row
  unfolding rows_text
  read_rows-corrupt rows bad rest e h k p =
      let lines = map (row_line codec) rows in
      let (m, ms, parts) = split-cons rest in
      rw
        (
          read_rows-contents codec (unlines lines ++ (bad ++ (10 ∷ rest))),
          split-unlines_line lines (bad ++ (10 ∷ rest)) (one_lines codec rows h),
          split-line bad rest k,
          parts,
        )
        (elim (Bool-cases (ends_with_newline (lines ++ bad ∷ m ∷ ms))) [
          | inl t ↦
              rw
                (
                  t,
                  without_last-line lines bad m ms,
                  read_lines-rows codec rows false (bad ∷ without_last (m ∷ ms)) h,
                  read_lines-bad bad e (without_last (m ∷ ms)) false p (and_false _),
                )
                refl
          | inr f ↦
              rw
                (
                  f,
                  read_lines-rows codec rows true (bad ∷ m ∷ ms) h,
                  read_lines-bad bad e (m ∷ ms) true p refl,
                )
                refl
        ])
