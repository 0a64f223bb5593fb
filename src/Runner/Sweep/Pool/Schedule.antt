-- ===== src/Runner/Sweep/Pool/Schedule.antt =====
-- What holds of the pool of `claude_call_batch` in every order in which its threads take turns.
use measure_twice.Prelude.{
  ℕ, zero, suc, ◌+◌, ◌≤◌, ◌≡◌, refl, sym, ap, ◌∙◌, ◌≢◌, inl, inr, true, false, Option, none, some,
  List, [], ◌∷◌, ◌++◌, arith, leb, Bool-cases, nat_eq, text_eq, option_eq, length,
}
use measure_twice.Runner.Sweep.{CallBudget, consume}
use measure_twice.Runner.Sweep.Pool.{
  Slot, waiting, calling, refused, answered, Pool, Step, spend, refuse, answer, Reach, here, next,
  submitted, spent_by, refused_to, total,
}

total-middle :
    (weight : Slot → ℕ) (before : List Slot) (slot : Slot) (after : List Slot)
    → total weight (before ++ (slot ∷ after)) ≡ weight slot + total weight (before ++ after)
total-middle weight [] slot after = refl
total-middle weight (b ∷ before) slot after = omega (arith, total-middle weight before slot after)

length-middle :
    (before : List Slot) (slot : Slot) (after : List Slot)
    → length (before ++ (slot ∷ after)) ≡ suc (length (before ++ after))
length-middle [] slot after = refl
length-middle (b ∷ before) slot after = omega (arith, length-middle before slot after)

total-submitted : (weight : Slot → ℕ) (n : ℕ) → weight waiting ≡ 0 → total weight (submitted n) ≡ 0
total-submitted weight zero h = refl
total-submitted weight (suc n) h = omega (arith, h, total-submitted weight n h)

length-submitted : (n : ℕ) → length (submitted n) ≡ n
length-submitted zero = refl
length-submitted (suc n) = omega (arith, length-submitted n)

or_else : CallBudget → Option CallBudget → CallBudget
or_else b none = b
or_else b (some c) = c

is_none : Option CallBudget → ℕ
is_none none = 1
is_none (some b) = 0

not_none : {b : CallBudget} → none ≢ some b
not_none e = ground (arith, ap is_none e)

below : (m u : ℕ) → leb m u ≡ false → u + 1 ≤ m
below m u h = grind (arith, h)

reached : (m u : ℕ) → leb m u ≡ true → m ≤ u
reached m u h = grind (arith, h)

-- What `consume` says of a budget.
consume-some :
    (b b' : CallBudget)
    → consume b ≡ some b'
    → (b'.max_calls ≡ b.max_calls) × (b'.used ≡ b.used + 1) × (b.used + 1 ≤ b.max_calls)
unfolding consume or_else
consume-some b b' h = elim (Bool-cases (leb b.max_calls b.used)) [
  | inl e ↦ absurd (not_none {b = b'} (rw e at h))
  | inr e ↦
      let same = ap (λ o. (or_else b o).used) (rw e at h) in
      let cap = ap (λ o. (or_else b o).max_calls) (rw e at h) in
      (sym cap, sym same, below b.max_calls b.used e)
]

consume-none : (b : CallBudget) → consume b ≡ none → b.max_calls ≤ b.used
unfolding consume
consume-none b h = elim (Bool-cases (leb b.max_calls b.used)) [
  | inl e ↦ reached b.max_calls b.used e
  | inr e ↦ absurd (not_none {b = record b { used = b.used + 1 }} (sym (rw e at h)))
]

-- What holds of a pool at any time, that began with `n` requests and `u` of `m` units spent.
pub record IsSound (n m u : ℕ) (p : Pool) : Type 0 where
  pub same_slots : length p.slots ≡ n
  pub same_cap : p.budget.max_calls ≡ m
  pub accounted : p.budget.used ≡ u + total spent_by p.slots
  pub within : p.budget.used ≤ m
  pub refused_full : 1 ≤ total refused_to p.slots → m ≤ p.budget.used

submitted-IsSound :
    (n m u : ℕ)
    → u ≤ m
    → IsSound n m u (record { budget = record { max_calls = m; used = u }; slots = submitted n })
submitted-IsSound n m u le = record {
  same_slots = length-submitted n;
  same_cap = refl;
  accounted = omega (arith, total-submitted spent_by n refl);
  within = le;
  refused_full = λ some. grind (arith, total-submitted refused_to n refl, some);
}

module _ (from to before after : List Slot) (x y : Slot) where
  moved-length : from ≡ before ++ (x ∷ after) → to ≡ before ++ (y ∷ after) → length to ≡ length from
  moved-length f t =
      rw (f, t) (omega (arith, length-middle before x after, length-middle before y after))

  moved-total :
      (weight : Slot → ℕ)
      → from ≡ before ++ (x ∷ after)
      → to ≡ before ++ (y ∷ after)
      → total weight to + weight x ≡ total weight from + weight y
  moved-total weight f t =
      rw (f, t)
        (omega (arith, total-middle weight before x after, total-middle weight before y after))

Step-IsSound : (n m u : ℕ) (p q : Pool) → IsSound n m u p → Step p q → IsSound n m u q
Step-IsSound n m u p q s (spend before after from c to) =
    let (cap, one, room) = consume-some p.budget q.budget c in
    let lengths = moved-length p.slots q.slots before after waiting calling from to in
    let spent = moved-total p.slots q.slots before after waiting calling spent_by from to in
    let kept = moved-total p.slots q.slots before after waiting calling refused_to from to in
    record {
      same_slots = lengths ∙ s.same_slots;
      same_cap = cap ∙ s.same_cap;
      accounted = omega (arith, one, spent, s.accounted);
      within = omega (arith, one, room, s.same_cap);
      refused_full = λ some. grind (arith, s.refused_full, kept, one, some);
    }
Step-IsSound n m u p q s (refuse before after from c same to) =
    let full = consume-none p.budget c in
    let lengths = moved-length p.slots q.slots before after waiting refused from to in
    let spent = moved-total p.slots q.slots before after waiting refused spent_by from to in
    record {
      same_slots = lengths ∙ s.same_slots;
      same_cap = ap (λ b. b.max_calls) same ∙ s.same_cap;
      accounted = ap (λ b. b.used) same ∙ omega (arith, spent, s.accounted);
      within = rw same s.within;
      refused_full = λ some. rw same (omega (arith, full, s.same_cap));
    }
Step-IsSound n m u p q s (answer before after result from same to) =
    let lengths = moved-length p.slots q.slots before after calling (answered result) from to in
    let spent =
      moved-total p.slots q.slots before after calling (answered result) spent_by from to in
    let kept =
      moved-total p.slots q.slots before after calling (answered result) refused_to from to in
    record {
      same_slots = lengths ∙ s.same_slots;
      same_cap = ap (λ b. b.max_calls) same ∙ s.same_cap;
      accounted = ap (λ b. b.used) same ∙ omega (arith, spent, s.accounted);
      within = rw same s.within;
      refused_full = λ some. rw same (s.refused_full (omega (arith, kept, some)));
    }

-- However the threads take turns, no call is lost or counted twice: the pool keeps its slots, the
-- budget has been charged once for each slot that got through to a call and never above its cap, and
-- a slot has been refused only when the cap was reached.
pub Reach-IsSound :
    (n m u : ℕ) (p : Pool)
    → u ≤ m
    → Reach (record { budget = record { max_calls = m; used = u }; slots = submitted n }) p
    → IsSound n m u p
Reach-IsSound n m u p le here = submitted-IsSound n m u le
Reach-IsSound n m u p le (next {q} reach step) =
    Step-IsSound n m u q p (Reach-IsSound n m u q le reach) step
