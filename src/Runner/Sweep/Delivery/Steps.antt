-- ===== src/Runner/Sweep/Delivery/Steps.antt =====
-- How the deliveries of the steps of a sweep make up that of the whole sweep.
use measure_twice.Prelude.{
  ℕ, ◌+◌, ◌≤◌, ◌≡◌, refl, sym, ◌∙◌, subst, inl, inr, Bool, true, false, List, [], ◌++◌, append-nil,
  append_assoc, arith, Bool-cases, nat_eq, text_eq, option_eq, length, length-append, Result,
}
use measure_twice.Json.{Codec}
use measure_twice.Runner.Row.{RunRow, RunError, Cell}
use measure_twice.Runner.Sweep.{Sweep, unless_aborted}
use measure_twice.Runner.Sweep.Delivery.{standing, delivered, delivered_same, Delivered}
use measure_twice.Runner.Pending.Left.{Split, none_left, Split-nothing, Split-append}

plus_nothing : (n : ℕ) → n ≡ n + 0
plus_nothing n = omega arith

plus_lengths : (n : ℕ) (xs ys : List RunRow) → n + length xs + length ys ≡ n + length (xs ++ ys)
plus_lengths n xs ys = omega (arith, length-append xs ys)

module _ {W : Type 0} (codec : Codec) where
  pub Delivered-nothing :
      (before : ℕ) (rows : List RunRow) (m u : ℕ) (world : W)
      → u ≤ m
      → Delivered codec (delivered codec before false rows m u world) [] before rows m u
  Delivered-nothing before rows m u world le = record {
    news = [];
    left = [];
    aborted = false;
    later = world;
    apart = none_left;
    returned =
        delivered_same codec false m world (plus_nothing before) (sym (append-nil rows))
          (plus_nothing u);
    bounded = omega (arith, le);
    complete = λ e. refl;
    spent = λ e. absurd (ground (arith, e));
  }

  pub Delivered-refused :
      (cells : List Cell) (before : ℕ) (rows : List RunRow) (m u : ℕ) (world : W)
      → u ≤ m
      → m ≤ u
      → Delivered codec (delivered codec before true rows m u world) cells before rows m u
  Delivered-refused cells before rows m u world le full = record {
    news = [];
    left = cells;
    aborted = true;
    later = world;
    apart = Split-nothing cells;
    returned =
        delivered_same codec true m world (plus_nothing before) (sym (append-nil rows))
          (plus_nothing u);
    bounded = omega (arith, le);
    complete = λ e. absurd (ground (arith, e));
    spent = λ e. omega (arith, full);
  }

  stopped :
      (outcome : Result RunError (ℕ × Bool) × Sweep W)
      (rest : ℕ → Sweep W → Result RunError (ℕ × Bool) × Sweep W) (cells others : List Cell)
      (before : ℕ) (rows : List RunRow) (m u : ℕ)
      → (first : Delivered codec outcome cells before rows m u) → first.aborted ≡ true
      → Delivered codec (unless_aborted rest outcome) (cells ++ others) before rows m u
  unfolding unless_aborted
  stopped outcome rest cells others before rows m u first e = record {
    news = first.news;
    left = first.left ++ others;
    aborted = true;
    later = first.later;
    apart =
        subst (λ news. Split news (cells ++ others) (first.left ++ others)) (append-nil first.news)
          (Split-append first.apart (Split-nothing others));
    returned = rw (first.returned, e) refl;
    bounded = first.bounded;
    complete = λ f. absurd (ground (arith, f));
    spent = λ f. first.spent e;
  }

  went_on :
      (outcome : Result RunError (ℕ × Bool) × Sweep W)
      (rest : ℕ → Sweep W → Result RunError (ℕ × Bool) × Sweep W) (cells others : List Cell)
      (before : ℕ) (rows : List RunRow) (m u : ℕ)
      → (first : Delivered codec outcome cells before rows m u) → first.aborted ≡ false
      → Delivered codec
          (rest
            (before + length first.news)
            (standing codec (rows ++ first.news) m (u + length first.news) first.later))
          others
          (before + length first.news)
          (rows ++ first.news)
          m
          (u + length first.news)
      → Delivered codec (unless_aborted rest outcome) (cells ++ others) before rows m u
  unfolding unless_aborted
  went_on outcome rest cells others before rows m u first e next = record {
    news = first.news ++ next.news;
    left = next.left;
    aborted = next.aborted;
    later = next.later;
    apart =
        subst (λ left. Split (first.news ++ next.news) (cells ++ others) (left ++ next.left))
          (first.complete e) (Split-append first.apart next.apart);
    returned =
        rw (first.returned, e) next.returned
        ∙ delivered_same codec next.aborted m next.later (plus_lengths before first.news next.news)
            (append_assoc rows first.news next.news) (plus_lengths u first.news next.news);
    bounded = subst (λ n. n ≤ m) (plus_lengths u first.news next.news) next.bounded;
    complete = next.complete;
    spent = λ f. subst (λ n. m ≤ n) (plus_lengths u first.news next.news) (next.spent f);
  }

  -- A step and, unless it was aborted, what follows it.
  pub Delivered-then :
      (outcome : Result RunError (ℕ × Bool) × Sweep W)
      (rest : ℕ → Sweep W → Result RunError (ℕ × Bool) × Sweep W) (cells others : List Cell)
      (before : ℕ) (rows : List RunRow) (m u : ℕ)
      → Delivered codec outcome cells before rows m u
      → ((written : ℕ) (rows' : List RunRow) (u' : ℕ) (world : W)
          → u' ≤ m
          → Delivered codec
              (rest written (standing codec rows' m u' world))
              others
              written
              rows'
              m
              u')
      → Delivered codec (unless_aborted rest outcome) (cells ++ others) before rows m u
  Delivered-then outcome rest cells others before rows m u first next =
      elim (Bool-cases first.aborted) [
        | inl e ↦ stopped outcome rest cells others before rows m u first e
        | inr e ↦ went_on outcome rest cells others before rows m u first e (
            next (before + length first.news) (rows ++ first.news) (u + length first.news)
              first.later first.bounded)
      ]
