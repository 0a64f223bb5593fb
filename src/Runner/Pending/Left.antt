-- ===== src/Runner/Pending/Left.antt =====
-- Which cells are left when rows have been written for some of them.
use measure_twice.Prelude.{
  ℕ, ◌+◌, ◌≡◌, refl, sym, ap, ◌∙◌, ◌≢◌, inl, inr, Bool, true, false, not, ◌&&◌, ◌||◌, List, [], ◌∷◌,
  ◌++◌, arith, Bool-cases, nat_eq, text_eq, option_eq, ◌==◌, ==_refl, eq_of_==, length, All,
  All-map, keep, keep-ext, Distinct,
}
use measure_twice.Json.{Json}
use measure_twice.Suite.{Float}
use measure_twice.Runner.Row.{RunRow, Cell}
use measure_twice.Runner.Rescore.{is_text}
use measure_twice.Runner.Sweep.Budgeted.{row_key, key_of_cell}
use measure_twice.Runner.Pending.{is_sample, has_key, is_done}

-- The rows are about some of the cells, in the order of the cells, and `left` are the others.
pub data Split : List RunRow → List Cell → List Cell → Type 0 where
  none_left : Split [] [] []
  taken :
      {rows : List RunRow} {cells left : List Cell} (row : RunRow) (cell : Cell)
      → row_key row ≡ key_of_cell cell
      → Split rows cells left
      → Split (row ∷ rows) (cell ∷ cells) left
  passed :
      {rows : List RunRow} {cells left : List Cell} (cell : Cell)
      → Split rows cells left
      → Split rows (cell ∷ cells) (cell ∷ left)

pub Split-nothing : (cells : List Cell) → Split [] cells cells
Split-nothing [] = none_left
Split-nothing (c ∷ cells) = passed c (Split-nothing cells)

pub Split-append :
    {rows rows' : List RunRow} {cells cells' left left' : List Cell}
    → Split rows cells left
    → Split rows' cells' left'
    → Split (rows ++ rows') (cells ++ cells') (left ++ left')
Split-append none_left t = t
Split-append (taken row cell k s) t = taken row cell k (Split-append s t)
Split-append (passed cell s) t = passed cell (Split-append s t)

pub Split-length :
    {rows : List RunRow} {cells left : List Cell}
    → Split rows cells left
    → length rows + length left ≡ length cells
Split-length none_left = omega arith
Split-length (taken row cell k s) = omega (arith, Split-length s)
Split-length (passed cell s) = omega (arith, Split-length s)

-- The test of a key that is given by its parts.
has_parts :
    (float_is : Float → ℕ → Bool) (cell other : Cell) (m i n : Json)
    → (m, i, n) ≡ key_of_cell cell
    → (is_text other.model m && is_text other.item.id i && is_sample float_is other.sample_k n) ≡ (
        cell.model == other.model
        && cell.item.id == other.item.id
        && cell.sample_k == other.sample_k)
unfolding is_sample is_text
has_parts float_is cell other m i n k = rw (ap (λ p. p.0) k, ap (λ p. p.1) k, ap (λ p. p.2) k) refl

key_of_parts :
    (cell other : Cell)
    → cell.model ≡ other.model
    → cell.item.id ≡ other.item.id
    → cell.sample_k ≡ other.sample_k
    → key_of_cell cell ≡ key_of_cell other
unfolding key_of_cell
key_of_parts cell other m i k = rw (m, i, k) refl

same_parts :
    (cell other : Cell)
    → (cell.model == other.model
        && cell.item.id == other.item.id
        && cell.sample_k == other.sample_k)
      ≡ true
    → key_of_cell cell ≡ key_of_cell other
same_parts cell other h = elim (Bool-cases (cell.model == other.model)) [
  | inr e ↦ ground (arith, e, h)
  | inl e ↦ elim (Bool-cases (cell.item.id == other.item.id)) [
    | inr f ↦ ground (arith, e, f, h)
    | inl f ↦ elim (Bool-cases (cell.sample_k == other.sample_k)) [
      | inr g ↦ ground (arith, e, f, g, h)
      | inl g ↦
          key_of_parts cell other (eq_of_== cell.model other.model e)
            (eq_of_== cell.item.id other.item.id f) (eq_of_== cell.sample_k other.sample_k g)
    ]
  ]
]

module _ (float_is : Float → ℕ → Bool) where
  has_key-own :
      (cell : Cell) (row : RunRow)
      → row_key row ≡ key_of_cell cell
      → has_key float_is cell row ≡ true
  unfolding has_key
  has_key-own cell row k =
      has_parts float_is cell cell row.model row.item_id row.sample_k k
      ∙ rw (==_refl cell.model, ==_refl cell.item.id, ==_refl cell.sample_k) refl

  has_key-other :
      (cell other : Cell) (row : RunRow)
      → row_key row ≡ key_of_cell cell
      → key_of_cell cell ≢ key_of_cell other
      → has_key float_is other row ≡ false
  unfolding has_key
  has_key-other cell other row k ne =
      elim (Bool-cases (
        cell.model == other.model
        && cell.item.id == other.item.id
        && cell.sample_k == other.sample_k)) [
          | inl e ↦ absurd (ne (same_parts cell other e))
          | inr e ↦ has_parts float_is cell other row.model row.item_id row.sample_k k ∙ e
        ]

  -- A cell with a key of its own has no row among those about other cells.
  is_done-apart :
      {rows : List RunRow} {cells left : List Cell} (cell : Cell)
      → Split rows cells left
      → All (λ c. key_of_cell cell ≢ key_of_cell c) cells
      → is_done float_is rows cell ≡ false
  unfolding is_done
  is_done-apart cell none_left h = refl
  is_done-apart cell (taken row c k s) h =
      rw (has_key-other c cell row k (λ e. h.0 (sym e))) (is_done-apart cell s h.1)
  is_done-apart cell (passed c s) h = is_done-apart cell s h.1

  -- Of cells with different keys, those that have no row are the ones that are left.
  pub keep-Split :
      {rows : List RunRow} {cells left : List Cell}
      → Split rows cells left
      → Distinct key_of_cell cells
      → keep (λ c. not (is_done float_is rows c)) cells ≡ left
  unfolding is_done
  keep-Split none_left d = refl
  keep-Split (taken {rows} {cells} row cell k s) d = rw (has_key-own cell row k) (
      keep-ext (λ c. not (has_key float_is c row || is_done float_is rows c))
        (λ c. not (is_done float_is rows c)) cells
        (All-map
          (λ c ne. ap (λ b. not (b || is_done float_is rows c)) (has_key-other cell c row k ne))
          cells d.0)
      ∙ keep-Split s d.1)
  keep-Split (passed cell s) d = rw (is_done-apart cell s d.0) (ap (◌∷◌ cell) (keep-Split s d.1))

  pub is_done-append :
      (rows rows' : List RunRow) (cell : Cell)
      → is_done float_is (rows ++ rows') cell
        ≡ (is_done float_is rows cell || is_done float_is rows' cell)
  unfolding is_done
  is_done-append [] rows' cell = refl
  is_done-append (r ∷ rows) rows' cell = elim (Bool-cases (has_key float_is cell r)) [
    | inl e ↦ rw e refl
    | inr e ↦ rw e (is_done-append rows rows' cell)
  ]
