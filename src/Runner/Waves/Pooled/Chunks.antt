-- ===== src/Runner/Waves/Pooled/Chunks.antt =====
-- The chunks of a sweep are its cells, in order, and no chunk is larger than asked.
use measure_twice.Prelude.{
  ℕ, zero, suc, ◌-◌, ◌≤◌, ◌≡◌, refl, ap, ◌∙◌, List, [], ◌∷◌, ◌++◌, arith, nat_eq, text_eq,
  option_eq, length, take, drop, All,
}
use measure_twice.Runner.Row.{Cell}
use measure_twice.Runner.Waves.{chunks_within, chunks}

abbrev pub concat : List (List Cell) → List Cell
concat [] = []
concat (chunk ∷ rest) = chunk ++ concat rest

take-drop : (n : ℕ) (cells : List Cell) → take n cells ++ drop n cells ≡ cells
take-drop zero cells = refl
take-drop (suc n) [] = refl
take-drop (suc n) (c ∷ cells) = ap (◌∷◌ c) (take-drop n cells)

length-take : (n : ℕ) (cells : List Cell) → length (take n cells) ≤ n
length-take zero cells = omega arith
length-take (suc n) [] = omega arith
length-take (suc n) (c ∷ cells) = omega (arith, length-take n cells)

length-drop : (n : ℕ) (cells : List Cell) → length (drop n cells) ≡ length cells - n
length-drop zero cells = omega arith
length-drop (suc n) [] = omega arith
length-drop (suc n) (c ∷ cells) = rw (length-drop n cells) (omega arith)

-- Fuel for the number of cells is enough.
concat-chunks_within :
    (fuel size : ℕ) (cells : List Cell)
    → length cells ≤ fuel
    → concat (chunks_within fuel (suc size) cells) ≡ cells
unfolding chunks_within
concat-chunks_within zero size [] le = refl
concat-chunks_within zero size (c ∷ cells) le = absurd (ground (arith, le))
concat-chunks_within (suc fuel) size [] le = refl
concat-chunks_within (suc fuel) size (c ∷ cells) le =
    ap (λ rest. c ∷ (take size cells ++ rest))
      (concat-chunks_within fuel size (drop size cells) (omega (arith, le, length-drop size cells)))
    ∙ ap (◌∷◌ c) (take-drop size cells)

chunks_within-All :
    (fuel size : ℕ) (cells : List Cell)
    → All (λ chunk. length chunk ≤ size) (chunks_within fuel size cells)
unfolding chunks_within
chunks_within-All zero size cells = tt
chunks_within-All (suc fuel) size [] = tt
chunks_within-All (suc fuel) size (c ∷ cells) =
    (length-take size (c ∷ cells), chunks_within-All fuel size (drop size (c ∷ cells)))

-- The chunks of a list, of a size of at least one, are the whole list in order: the loop ends after
-- the last cell, drops and repeats none, and makes no chunk longer than the size.
pub chunks_complete :
    (size : ℕ) (cells : List Cell)
    → (concat (chunks (suc size) cells) ≡ cells)
      × All (λ chunk. length chunk ≤ suc size) (chunks (suc size) cells)
unfolding chunks
chunks_complete size cells = (
  concat-chunks_within (length cells) size cells (omega arith),
  chunks_within-All (length cells) (suc size) cells,
)
