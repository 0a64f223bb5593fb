-- ===== src/Agent/Canonical/Order.antt =====
-- The order of texts, by which the keys of an object are sorted.
use measure_twice.Prelude.{
  ℕ, ◌+◌, ◌≤◌, ◌≡◌, refl, ◌∙◌, subst, ◌≢◌, ◌⊎◌, inl, inr, Bool, true, false, ◌&&◌, ◌||◌, [], ◌∷◌,
  arith, ltb, Bool-cases, nat_eq, text_eq, option_eq, ◌==◌, ==_refl, eq_of_==,
}
use measure_twice.Text.{Text}
use measure_twice.Agent.Canonical.{less}

less_step :
    (c d : ℕ) (b : Bool) → (ltb c d || (c == d && b)) ≡ true → (c + 1 ≤ d) ⊎ ((c ≡ d) × (b ≡ true))
less_step c d b h = elim (Bool-cases (ltb c d)) [
  | inl e ↦ inl (grind (arith, e))
  | inr e ↦ elim (Bool-cases (c == d)) [
    | inl f ↦ inr (eq_of_== c d f, rw (e, f) at h)
    | inr f ↦ absurd (ground (arith, e, f, h))
  ]
]

less_first : (c d : ℕ) (b : Bool) → c + 1 ≤ d → (ltb c d || (c == d && b)) ≡ true
less_first c d b h = rw (below c d h) refl
  where
    below : (c d : ℕ) → c + 1 ≤ d → ltb c d ≡ true
    below c d h = grind (arith, h)

less_later : (c : ℕ) (b : Bool) → (ltb c c || (c == c && b)) ≡ b
less_later c b = rw (irreflexive c, ==_refl c) refl
  where
    irreflexive : (c : ℕ) → ltb c c ≡ false
    irreflexive c = grind arith

pub less_trans : (s t u : Text) → less s t ≡ true → less t u ≡ true → less s u ≡ true
unfolding less
less_trans [] [] u h k = cc
less_trans [] (d ∷ t) [] h k = cc
less_trans [] (d ∷ t) (e ∷ u) h k = refl
less_trans (c ∷ s) [] u h k = cc
less_trans (c ∷ s) (d ∷ t) [] h k = cc
less_trans (c ∷ s) (d ∷ t) (e ∷ u) h k = elim (less_step c d (less s t) h) [
  | inl a ↦ elim (less_step d e (less t u) k) [
    | inl b ↦ less_first c e (less s u) (omega (arith, a, b))
    | inr (b, _) ↦ less_first c e (less s u) (omega (arith, a, b))
  ]
  | inr (a, p) ↦ elim (less_step d e (less t u) k) [
    | inl b ↦ less_first c e (less s u) (omega (arith, a, b))
    | inr (b, q) ↦
        subst (λ n. (ltb c n || (c == n && less s u)) ≡ true) (a ∙ b)
          (less_later c (less s u) ∙ less_trans s t u p q)
  ]
]

pub less_irreflexive : (s : Text) → less s s ≡ false
unfolding less
less_irreflexive [] = refl
less_irreflexive (c ∷ s) = less_later c (less s s) ∙ less_irreflexive s

-- Of two different texts one is less.
pub less_total : (s t : Text) → s ≢ t → less s t ≡ false → less t s ≡ true
unfolding less
less_total [] [] ne h = absurd (ne refl)
less_total [] (d ∷ t) ne h = cc
less_total (c ∷ s) [] ne h = refl
less_total (c ∷ s) (d ∷ t) ne h = elim (Bool-cases (ltb c d)) [
  | inl e ↦ absurd (ground (arith, e, h))
  | inr e ↦ elim (Bool-cases (c == d)) [
    | inl f ↦
        let p = eq_of_== c d f in
        subst (λ n. (ltb n c || (n == c && less t s)) ≡ true) p
          (less_later c (less t s) ∙ less_total s t (λ q. ne (λ i. p i ∷ q i)) (rw (e, f) at h))
    | inr f ↦ less_first d c (less t s) (grind (arith, e, f))
  ]
]

pub less_asym : (s t : Text) → less s t ≡ true → less t s ≡ false
less_asym s t h = elim (Bool-cases (less t s)) [
  | inl k ↦ absurd (ground (arith, less_irreflexive s, less_trans s t s h k))
  | inr k ↦ k
]
