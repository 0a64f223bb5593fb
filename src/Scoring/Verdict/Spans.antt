-- ===== src/Scoring/Verdict/Spans.antt =====
-- The spans of `_json_object_spans`: in order, disjoint, and inside the text.
use measure_twice.Prelude.{
  ℕ, suc, ◌+◌, ◌≤◌, ◌<◌, ◌≡◌, refl, subst, Bool, Option, none, some, List, [], ◌∷◌, ◌++◌, arith,
  nat_eq, text_eq, option_eq, length,
}
use measure_twice.Text.{Text}
use measure_twice.Scoring.Verdict.{
  Scan, unscanned, close_span, scan_char, scan_from, json_object_spans,
}

-- The spans lie between `lo` and `hi`, each after the one before it, and none is empty.
abbrev pub InOrder : ℕ → ℕ → List (ℕ × ℕ) → Type 0
InOrder lo hi [] = lo ≤ hi
InOrder lo hi ((a, b) ∷ rest) = (lo ≤ a) × (a < b) × InOrder b hi rest

InOrder-widen : (lo m n : ℕ) (l : List (ℕ × ℕ)) → InOrder lo m l → m ≤ n → InOrder lo n l
InOrder-widen lo m n [] h le = omega arith
InOrder-widen lo m n ((a, b) ∷ rest) h le = (h.0, h.1, InOrder-widen b m n rest h.2 le)

InOrder-snoc :
    (lo m a b hi : ℕ) (l : List (ℕ × ℕ))
    → InOrder lo m l
    → m ≤ a
    → a < b
    → b ≤ hi
    → InOrder lo hi (l ++ (a, b) ∷ [])
InOrder-snoc lo m a b hi [] h le lt top = (omega arith, lt, top)
InOrder-snoc lo m a b hi ((c, d) ∷ rest) h le lt top =
    (h.0, h.1, InOrder-snoc d m a b hi rest h.2 le lt top)

-- Where the next span may begin: at the open object, or at the next character.
abbrev frontier : ℕ → Option ℕ → ℕ
frontier i none = i
frontier i (some a) = a

-- An object is open exactly when a brace is.
abbrev IsBalanced : Option ℕ → ℕ → Type 0
IsBalanced none depth = depth ≡ 0
IsBalanced (some a) depth = 0 < depth

-- Before the character at `i` is read.
record IsScanning (i : ℕ) (s : Scan) : Type 0 where
  ordered : InOrder 0 (frontier i s.start) s.spans
  opened : frontier i s.start ≤ i
  balanced : IsBalanced s.start s.depth

scan_char_fields :
    (i ch depth : ℕ) (spans : List (ℕ × ℕ)) (start : Option ℕ) (in_str escape : Bool)
    → let s : Scan = record {
      spans = spans;
      depth = depth;
      start = start;
      in_str = in_str;
      escape = escape;
    } in
      IsScanning i s → IsScanning (suc i) (scan_char i ch s)
unfolding scan_char close_span
scan_char_fields i ch depth spans none in_str escape h =
    let wide = InOrder-widen 0 i (suc i) spans h.ordered (omega arith) in ground arith
scan_char_fields i ch depth spans (some a) in_str escape h =
    let more =
      InOrder-snoc 0 a a (i + 1) (suc i) spans h.ordered (omega arith) (omega arith)
        (omega arith) in
    ground arith

scan_char-IsScanning :
    (i ch : ℕ) (s : Scan) → IsScanning i s → IsScanning (suc i) (scan_char i ch s)
scan_char-IsScanning i ch s h = scan_char_fields i ch s.depth s.spans s.start s.in_str s.escape h

scan_from-IsScanning :
    (i : ℕ) (t : Text) (s : Scan) → IsScanning i s → IsScanning (i + length t) (scan_from i t s)
unfolding scan_from
scan_from-IsScanning i [] s h = subst (λ n. IsScanning n s) (omega arith) h
scan_from-IsScanning i (ch ∷ t) s h =
    subst (λ n. IsScanning n (scan_from (suc i) t (scan_char i ch s))) (omega arith)
      (scan_from-IsScanning (suc i) t (scan_char i ch s) (scan_char-IsScanning i ch s h))

-- The objects that the scan finds in a response lie inside it, in order, do not overlap and are not
-- empty, however its braces and quotes are placed.
pub json_object_spans-InOrder : (t : Text) → InOrder 0 (length t) (json_object_spans t)
unfolding json_object_spans
json_object_spans-InOrder t =
    let done =
      scan_from-IsScanning 0 t unscanned
        (record { ordered = omega arith; opened = omega arith; balanced = refl }) in
    InOrder-widen 0 _ (length t) _ done.ordered (omega (arith, done.opened))
