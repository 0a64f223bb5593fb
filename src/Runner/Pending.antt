-- ===== src/Runner/Pending.antt =====
-- measure_twice/runner.py: `_pending_cells` and the done keys that a run starts from.
pub mod Left
pub mod After
use measure_twice.Prelude.{
  ℕ, zero, suc, ◌+◌, ◌-◌, ◌*◌, ◌≤◌, ◌<◌, String, ◌≡◌, refl, sym, ap, ◌∙◌, subst, ◌≢◌, ◌↔◌, ◌⊎◌, inl,
  inr, Bool, true, false, not, ◌&&◌, ◌||◌, Option, none, some, List, [], ◌∷◌, ◌++◌, map, append-nil,
  append_assoc, arith, ltb, leb, if◌then◌else◌, Bool-cases, Option-cases, Eq, nat_eq, text_eq,
  option_eq, ◌==◌, contains, ==_refl, eq_of_==, length, take, drop, all, All, length-append,
  All-append, All-map, Result, ok, err, ◌>>=◌, ◌>>◌, raise_if, or_raise, traverse, bind-eq-ok,
  Result-cases, ok-injective, traverse-All, traverse-map, List-cases, not_raised, not_raised_unless,
  keep, keep-keep, keep-append, keep-ext, All-keep, Distinct, Distinct-keep, Distinct-append,
}
use measure_twice.Text.{
  Text, text, is_space, strip_left, strip_right, strip, is_blank, is_digit, decimal, is_break,
  cons_line, splitlines, split, join, unlines,
}
use measure_twice.Json.{Json, null, bool, int, neg, flt, str, arr, obj}
use measure_twice.Suite.{Float, Item}
use measure_twice.Runner.Row.{RunRow, RunError, Cell, unhashable}
use measure_twice.Runner.Rescore.{is_text}

-- measure_twice/model_sweep_execution.py: the providers and bindings that a run dispatches on.
pub data Provider : Type 0 where
  local claude gemini : Provider

pub record ModelBinding : Type 0 where
  pub alias : Text
  pub provider : Provider
  pub requested_model : Text

-- whether a value can be an element of a set
unfoldable pub is_hashable : Json → Bool
is_hashable (arr v) = false
is_hashable (obj v) = false
is_hashable v = true

-- `{row.cell_key for row in rows}`, by the rows that its keys come from
unfoldable pub done_keys : List RunRow → Result RunError (List RunRow)
done_keys rows =
    raise_if
      (not (all (λ r. is_hashable r.model && is_hashable r.item_id && is_hashable r.sample_k) rows))
      unhashable
    >> ok rows

-- the cells of one item, of the samples from `k` on
unfoldable pub cells_of_item : ModelBinding → Item → ℕ → ℕ → List Cell
cells_of_item binding item k zero = []
cells_of_item binding item k (suc samples) =
    record {
      model = binding.alias;
      requested_model = binding.requested_model;
      item = item;
      sample_k = k;
    }
    ∷ cells_of_item binding item (k + 1) samples

-- `for item in suite.items for k in range(samples)`
unfoldable pub all_cells : ModelBinding → List Item → ℕ → List Cell
all_cells binding [] samples = []
all_cells binding (item ∷ rest) samples =
    cells_of_item binding item 0 samples ++ all_cells binding rest samples

-- `float_is` is Python's `==` of a float and an integer.
module _ (float_is : Float → ℕ → Bool) where
  -- `sample_k == k`
  unfoldable pub is_sample : ℕ → Json → Bool
  is_sample k (int n) = n == k
  is_sample k (bool true) = k == 1
  is_sample k (bool false) = k == 0
  is_sample k (flt x) = float_is x k
  is_sample k v = false

  -- whether the key of the row is `(cell.model, cell.item.id, cell.sample_k)`
  unfoldable pub has_key : Cell → RunRow → Bool
  has_key cell row =
      is_text cell.model row.model
      && is_text cell.item.id row.item_id
      && is_sample cell.sample_k row.sample_k

  -- `(binding.alias, item.id, k) in done_keys`
  unfoldable pub is_done : List RunRow → Cell → Bool
  is_done [] cell = false
  is_done (row ∷ rows) cell = has_key cell row || is_done rows cell

  unfoldable pub pending_cells : List RunRow → ModelBinding → List Item → ℕ → List Cell
  pending_cells done binding items samples =
      keep (λ c. not (is_done done c)) (all_cells binding items samples)
