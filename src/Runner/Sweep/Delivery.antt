-- ===== src/Runner/Sweep/Delivery.antt =====
-- What a run relies on of a sweep, and that the sequential sweeps give it.
pub mod Steps
use measure_twice.Prelude.{
  ℕ, zero, suc, ◌+◌, ◌-◌, ◌≤◌, ◌≡◌, refl, ap, ◌∙◌, Bool, true, false, List, [], ◌∷◌, ◌++◌, map,
  arith, ltb, nat_eq, text_eq, option_eq, length, take, drop, Result, ok,
}
use measure_twice.Text.{Text}
use measure_twice.Json.{Json, Codec}
use measure_twice.Runner.Row.{RunRow, RunError, Scorer, Cell}
use measure_twice.Runner.Store.{contents, rows_text}
use measure_twice.Runner.Sweep.{Sweeper, Sweep, ModelCall, sweep_sequential}
use measure_twice.Runner.Sweep.Budgeted.{row_key, key_of_cell, Answers, sweep_cells-Swept}
use measure_twice.Runner.Pending.Left.{Split, taken, Split-nothing, Split-length}

-- The state of a sweep whose file holds the rows, with `u` of `m` calls spent.
abbrev pub standing : {W : Type 0} → Codec → List RunRow → ℕ → ℕ → W → Sweep W
standing codec rows m u world = record {
  budget = record { max_calls = m; used = u };
  file = contents (rows_text codec rows);
  world = world;
}

-- What a sweep returns and leaves, from what it counted and wrote.
abbrev pub delivered :
    {W : Type 0} → Codec → ℕ → Bool → List RunRow → ℕ → ℕ → W → Result RunError (ℕ × Bool) × Sweep W
delivered codec n aborted rows m u world = (ok (n, aborted), standing codec rows m u world)

pub delivered_same :
    {W : Type 0} (codec : Codec) (aborted : Bool) (m : ℕ) (world : W) {n n' u u' : ℕ}
    {rows rows' : List RunRow}
    → n ≡ n'
    → rows ≡ rows'
    → u ≡ u'
    → delivered codec n aborted rows m u world ≡ delivered codec n' aborted rows' m u' world
delivered_same codec aborted m world p q r = λ i. delivered codec (p i) aborted (q i) m (r i) world

-- The outcome says that rows have been appended for some of the cells, one call spent on each, within
-- the budget, and counts them with the `before` ones; without an abort no cell is left, and with one
-- there is no call left.
pub record Delivered {W : Type 0} (codec : Codec) (outcome : Result RunError (ℕ × Bool) × Sweep W)
    (cells : List Cell) (before : ℕ) (rows : List RunRow) (m u : ℕ) : Type 0 where
  pub news : List RunRow
  pub left : List Cell
  pub aborted : Bool
  pub later : W
  pub apart : Split news cells left
  pub returned :
      outcome
      ≡ delivered codec (before + length news) aborted (rows ++ news) m (u + length news) later
  pub bounded : u + length news ≤ m
  pub complete : aborted ≡ false → left ≡ []
  pub spent : aborted ≡ true → m ≤ u + length news

abbrev pub Delivers : {W : Type 0} → Codec → Sweeper W → Type 0
Delivers {W} codec sweep =
    (cells : List Cell) (rows : List RunRow) (m u : ℕ) (world : W)
    → u ≤ m
    → Delivered codec (sweep cells (standing codec rows m u world)) cells 0 rows m u

head_key : Json × Json × Json → List (Json × Json × Json) → Json × Json × Json
head_key k [] = k
head_key k (x ∷ xs) = x

tail_keys : List (Json × Json × Json) → List (Json × Json × Json)
tail_keys [] = []
tail_keys (x ∷ xs) = xs

Split-take :
    (n : ℕ) (cells : List Cell) (news : List RunRow)
    → map row_key news ≡ map key_of_cell (take n cells)
    → Split news cells (drop n cells)
unfolding head_key tail_keys
Split-take zero cells [] h = Split-nothing cells
Split-take zero cells (r ∷ news) h = ground (arith, ap length h)
Split-take (suc n) [] [] h = Split-nothing []
Split-take (suc n) [] (r ∷ news) h = ground (arith, ap length h)
Split-take (suc n) (c ∷ cells) [] h = ground (arith, ap length h)
Split-take (suc n) (c ∷ cells) (r ∷ news) h =
    taken r c (ap (head_key (row_key r)) h) (Split-take n cells news (ap tail_keys h))

drop_all : (n : ℕ) (cells : List Cell) → length cells ≤ n → drop n cells ≡ []
drop_all zero [] le = refl
drop_all zero (c ∷ cells) le = ground (arith, le)
drop_all (suc n) [] le = refl
drop_all (suc n) (c ∷ cells) le = drop_all n cells (omega arith)

length-drop : (n : ℕ) (cells : List Cell) → length (drop n cells) ≡ length cells - n
length-drop zero cells = omega arith
length-drop (suc n) [] = omega arith
length-drop (suc n) (c ∷ cells) = rw (length-drop n cells) (omega arith)

length-take :
    (n : ℕ) (cells : List Cell) → length (take n cells) + length (drop n cells) ≡ length cells
length-take zero cells = omega arith
length-take (suc n) [] = omega arith
length-take (suc n) (c ∷ cells) = omega (arith, length-take n cells)

not_ltb : (a b : ℕ) → ltb a b ≡ false → b ≤ a
not_ltb a b h = grind (arith, h)

is_ltb : (a b : ℕ) → ltb a b ≡ true → a + 1 ≤ b
is_ltb a b h = grind (arith, h)

pair_of : {A B : Type 0} {a a' : A} {b b' : B} → a ≡ a' → b ≡ b' → ◌≡◌ {A = A × B} (a, b) (a', b')
pair_of p q = rw (p, q) refl

module _ {W : Type 0} (codec : Codec) (call : ModelCall W) (run_id : Text) (scorer : Scorer) where
  -- The sequential sweeps deliver, with a scorer that answers every response.
  pub sweep_sequential-Delivers :
      Answers scorer → Delivers codec (sweep_sequential codec call run_id scorer)
  unfolding sweep_sequential
  sweep_sequential-Delivers total cells rows m u world le =
      let swept = sweep_cells-Swept codec call run_id scorer total cells rows 0 m u world in
      let apart = Split-take (m - u) cells swept.news swept.one_each in
      record {
        news = swept.news;
        left = drop (m - u) cells;
        aborted = ltb (m - u) (length cells);
        later = swept.after.world;
        apart = apart;
        returned =
            swept.returned
            ∙ ap
                (λ a. (
                  ok (0 + length swept.news, ltb (m - u) (length cells)),
                  record { budget = a.0; file = a.1; world = swept.after.world },
                ))
                (pair_of swept.spent swept.appended);
        bounded = omega (arith, Split-length apart, length-drop (m - u) cells, le);
        complete = λ e. drop_all (m - u) cells (not_ltb (m - u) (length cells) e);
        spent = λ e.
            omega (
              arith,
              Split-length apart,
              length-drop (m - u) cells,
              is_ltb (m - u) (length cells) e,
            );
      }
