-- ===== src/Runner/Pending/After.antt =====
-- The cells that a resumed run finds pending, for several bindings and after rows have been added.
use measure_twice.Prelude.{
  ℕ, zero, suc, ◌+◌, ◌≤◌, ◌≡◌, refl, sym, ap, ◌∙◌, subst, ◌≢◌, Bool, true, false, not, ◌&&◌, ◌||◌,
  List, [], ◌∷◌, ◌++◌, arith, nat_eq, text_eq, option_eq, All, All-append, All-map, keep, keep-keep,
  keep-append, keep-ext, Distinct, Distinct-keep, Distinct-append,
}
use measure_twice.Text.{Text}
use measure_twice.Json.{Json, str, int}
use measure_twice.Suite.{Float, Item}
use measure_twice.Runner.Row.{RunRow, Cell}
use measure_twice.Runner.Sweep.Budgeted.{key_of_cell}
use measure_twice.Runner.Pending.{ModelBinding, is_done, cells_of_item, all_cells, pending_cells}
use measure_twice.Runner.Pending.Left.{Split, keep-Split, is_done-append}

-- The cells of every binding, in the order of the sweep.
unfoldable pub cells_of_bindings : List ModelBinding → List Item → ℕ → List Cell
cells_of_bindings [] items samples = []
cells_of_bindings (b ∷ bindings) items samples =
    all_cells b items samples ++ cells_of_bindings bindings items samples

abbrev cell_at : ModelBinding → Item → ℕ → Cell
cell_at binding item n = record {
  model = binding.alias;
  requested_model = binding.requested_model;
  item = item;
  sample_k = n;
}

cells_of_item-All :
    (P : Cell → Type 0) (binding : ModelBinding) (item : Item) (k samples : ℕ)
    → ((n : ℕ) → k ≤ n → P (cell_at binding item n))
    → All P (cells_of_item binding item k samples)
unfolding cells_of_item
cells_of_item-All P binding item k zero f = tt
cells_of_item-All P binding item k (suc samples) f = (
  f k (omega arith),
  cells_of_item-All P binding item (k + 1) samples (λ n le. f n (omega (arith, le))),
)

all_cells-All :
    (P : Cell → Type 0) (binding : ModelBinding) (items : List Item) (samples : ℕ)
    → All (λ item. (n : ℕ) → P (cell_at binding item n)) items
    → All P (all_cells binding items samples)
unfolding all_cells
all_cells-All P binding [] samples h = tt
all_cells-All P binding (item ∷ items) samples h =
    All-append P (cells_of_item binding item 0 samples) (all_cells binding items samples)
      (cells_of_item-All P binding item 0 samples (λ n le. h.0 n))
      (all_cells-All P binding items samples h.1)

-- No other cell has the key of the cell.
abbrev Apart : Cell → List Cell → Type 0
Apart cell cells = All (λ o. key_of_cell cell ≢ key_of_cell o) cells

json_text_of : Json → Text
json_text_of (str s) = s
json_text_of v = []

json_int_of : Json → ℕ
json_int_of (int n) = n
json_int_of v = 0

differs_by_sample :
    (cell other : Cell) → cell.sample_k + 1 ≤ other.sample_k → key_of_cell cell ≢ key_of_cell other
differs_by_sample cell other lt e = grind (arith, lt, ap (λ p. json_int_of p.2) e)

differs_by_item :
    (cell other : Cell) → cell.item.id ≢ other.item.id → key_of_cell cell ≢ key_of_cell other
unfolding json_text_of
differs_by_item cell other ne e = ne (ap (λ p. json_text_of p.1) e)

differs_by_model :
    (cell other : Cell) → cell.model ≢ other.model → key_of_cell cell ≢ key_of_cell other
unfolding json_text_of
differs_by_model cell other ne e = ne (ap (λ p. json_text_of p.0) e)

cells_of_item-Distinct :
    (binding : ModelBinding) (item : Item) (k samples : ℕ)
    → Distinct key_of_cell (cells_of_item binding item k samples)
unfolding cells_of_item
cells_of_item-Distinct binding item k zero = tt
cells_of_item-Distinct binding item k (suc samples) = (
  cells_of_item-All (λ c. key_of_cell (cell_at binding item k) ≢ key_of_cell c) binding item (k + 1)
      samples (λ n le. differs_by_sample (cell_at binding item k) (cell_at binding item n) le),
  cells_of_item-Distinct binding item (k + 1) samples,
)

pub all_cells-Distinct :
    (binding : ModelBinding) (items : List Item) (samples : ℕ)
    → Distinct (λ i. i.id) items
    → Distinct key_of_cell (all_cells binding items samples)
unfolding all_cells
all_cells-Distinct binding [] samples d = tt
all_cells-Distinct binding (item ∷ items) samples d =
    let others = all_cells binding items samples in
    Distinct-append key_of_cell (cells_of_item binding item 0 samples) others
      (cells_of_item-Distinct binding item 0 samples) (all_cells-Distinct binding items samples d.1)
      (cells_of_item-All (λ c. Apart c others) binding item 0 samples
        (λ n le.
          all_cells-All (λ o. key_of_cell (cell_at binding item n) ≢ key_of_cell o) binding items
            samples
            (All-map
              (λ other ne k. differs_by_item (cell_at binding item n) (cell_at binding other k) ne)
              items d.0)))

cells_of_bindings-All :
    (P : Cell → Type 0) (bindings : List ModelBinding) (items : List Item) (samples : ℕ)
    → All (λ b. All P (all_cells b items samples)) bindings
    → All P (cells_of_bindings bindings items samples)
unfolding cells_of_bindings
cells_of_bindings-All P [] items samples h = tt
cells_of_bindings-All P (b ∷ bindings) items samples h =
    All-append P (all_cells b items samples) (cells_of_bindings bindings items samples) h.0
      (cells_of_bindings-All P bindings items samples h.1)

every : {P : Item → Type 0} → ((item : Item) → P item) → (items : List Item) → All P items
every f [] = tt
every f (item ∷ items) = (f item, every f items)

all_cells-Apart :
    (b other : ModelBinding) (item : Item) (n : ℕ) (items : List Item) (samples : ℕ)
    → b.alias ≢ other.alias
    → Apart (cell_at b item n) (all_cells other items samples)
all_cells-Apart b other item n items samples ne =
    all_cells-All (λ o. key_of_cell (cell_at b item n) ≢ key_of_cell o) other items samples
      (every (λ i k. differs_by_model (cell_at b item n) (cell_at other i k) ne) items)

pub cells_of_bindings-Distinct :
    (bindings : List ModelBinding) (items : List Item) (samples : ℕ)
    → Distinct (λ b. b.alias) bindings
    → Distinct (λ i. i.id) items
    → Distinct key_of_cell (cells_of_bindings bindings items samples)
unfolding cells_of_bindings
cells_of_bindings-Distinct [] items samples d e = tt
cells_of_bindings-Distinct (b ∷ bindings) items samples d e =
    let others = cells_of_bindings bindings items samples in
    Distinct-append key_of_cell (all_cells b items samples) others
      (all_cells-Distinct b items samples e)
      (cells_of_bindings-Distinct bindings items samples d.1 e)
      (all_cells-All (λ c. Apart c others) b items samples
        (every
          (λ item n.
            cells_of_bindings-All (λ o. key_of_cell (cell_at b item n) ≢ key_of_cell o) bindings
              items samples
              (All-map (λ other ne. all_cells-Apart b other item n items samples ne) bindings d.0))
          items))

module _ (float_is : Float → ℕ → Bool) where
  -- The cells of every binding that have no row.
  unfoldable pub pending_of_bindings : List RunRow → List ModelBinding → List Item → ℕ → List Cell
  pending_of_bindings done [] items samples = []
  pending_of_bindings done (b ∷ bindings) items samples =
      pending_cells float_is done b items samples ++ pending_of_bindings done bindings items samples

  pending_of_bindings-keep :
      (done : List RunRow) (bindings : List ModelBinding) (items : List Item) (samples : ℕ)
      → pending_of_bindings done bindings items samples
        ≡ keep (λ c. not (is_done float_is done c)) (cells_of_bindings bindings items samples)
  unfolding pending_of_bindings pending_cells cells_of_bindings
  pending_of_bindings-keep done [] items samples = refl
  pending_of_bindings-keep done (b ∷ bindings) items samples =
      ap (λ cs. keep (λ c. not (is_done float_is done c)) (all_cells b items samples) ++ cs)
        (pending_of_bindings-keep done bindings items samples)
      ∙ sym (
          keep-append (λ c. not (is_done float_is done c)) (all_cells b items samples)
            (cells_of_bindings bindings items samples))

  not_either : (a b : Bool) → not (a || b) ≡ (not a && not b)
  not_either true b = refl
  not_either false b = refl

  every_cell : {P : Cell → Type 0} → ((c : Cell) → P c) → (cells : List Cell) → All P cells
  every_cell f [] = tt
  every_cell f (c ∷ cells) = (f c, every_cell f cells)

  -- When rows have been added for some of the pending cells, those that are left are pending.
  pub pending_of_bindings-Split :
      (done news : List RunRow) (left : List Cell) (bindings : List ModelBinding)
      (items : List Item) (samples : ℕ)
      → Distinct (λ b. b.alias) bindings
      → Distinct (λ i. i.id) items
      → Split news (pending_of_bindings done bindings items samples) left
      → pending_of_bindings (done ++ news) bindings items samples ≡ left
  pending_of_bindings-Split done news left bindings items samples d e s =
      let cells = cells_of_bindings bindings items samples in
      pending_of_bindings-keep (done ++ news) bindings items samples
      ∙ keep-ext (λ c. not (is_done float_is (done ++ news) c))
          (λ c. not (is_done float_is done c) && not (is_done float_is news c)) cells
          (every_cell
            (λ c.
              ap not (is_done-append float_is done news c)
              ∙ not_either (is_done float_is done c) (is_done float_is news c))
            cells)
      ∙ sym (
          keep-keep (λ c. not (is_done float_is news c)) (λ c. not (is_done float_is done c)) cells)
      ∙ ap (keep (λ c. not (is_done float_is news c)))
          (sym (pending_of_bindings-keep done bindings items samples))
      ∙ keep-Split float_is s (
          subst (Distinct key_of_cell) (sym (pending_of_bindings-keep done bindings items samples))
            (Distinct-keep key_of_cell (λ c. not (is_done float_is done c)) cells
              (cells_of_bindings-Distinct bindings items samples d e)))
