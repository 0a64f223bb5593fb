-- ===== src/Prelude/Keys.antt =====
-- Comprehensions with a condition, and lists whose elements have different keys.
use mathlib.Core.Path.{◌≡◌, refl}
use mathlib.Core.Logic.{◌≢◌, inl, inr}
use mathlib.Core.Bool.{Bool, ◌&&◌}
use mathlib.Core.List.{List, [], ◌∷◌, ◌++◌}
use measure_twice.Prelude.Tests.{if◌then◌else◌, Bool-cases}
use measure_twice.Prelude.Lists.{All, All-append}

module _ {ℓ} {A : Type ℓ} where
  -- `[x for x in xs if test(x)]`
  abbrev pub keep : (A → Bool) → List A → List A
  keep test [] = []
  keep test (x ∷ xs) = if test x then x ∷ keep test xs else keep test xs

  pub keep-keep : (p q : A → Bool) (xs : List A) → keep p (keep q xs) ≡ keep (λ x. q x && p x) xs
  keep-keep p q [] = refl
  keep-keep p q (x ∷ xs) = elim (Bool-cases (q x)) [
    | inl e ↦ rw (e, keep-keep p q xs) refl
    | inr e ↦ rw (e, keep-keep p q xs) refl
  ]

  pub keep-append : (p : A → Bool) (xs ys : List A) → keep p (xs ++ ys) ≡ keep p xs ++ keep p ys
  keep-append p [] ys = refl
  keep-append p (x ∷ xs) ys = elim (Bool-cases (p x)) [
    | inl e ↦ rw (e, keep-append p xs ys) refl
    | inr e ↦ rw (e, keep-append p xs ys) refl
  ]

  -- A condition that changes on no element keeps the same elements.
  pub keep-ext : (p q : A → Bool) (xs : List A) → All (λ x. p x ≡ q x) xs → keep p xs ≡ keep q xs
  keep-ext p q [] h = refl
  keep-ext p q (x ∷ xs) h = rw (h.0, keep-ext p q xs h.1) refl

  pub All-keep {κ} : (P : A → Type κ) (p : A → Bool) (xs : List A) → All P xs → All P (keep p xs)
  All-keep P p [] h = tt
  All-keep P p (x ∷ xs) h = elim (Bool-cases (p x)) [
    | inl e ↦ rw e (h.0, All-keep P p xs h.1)
    | inr e ↦ rw e (All-keep P p xs h.1)
  ]

  module _ {κ} {K : Type κ} (key : A → K) where
    -- No two elements have the same key.
    abbrev pub Distinct : List A → Type (ℓ ⊔ κ)
    Distinct [] = Unit
    Distinct (x ∷ xs) = All (λ y. key x ≢ key y) xs × Distinct xs

    pub Distinct-keep : (p : A → Bool) (xs : List A) → Distinct xs → Distinct (keep p xs)
    Distinct-keep p [] h = tt
    Distinct-keep p (x ∷ xs) h = elim (Bool-cases (p x)) [
      | inl e ↦ rw e (All-keep (λ y. key x ≢ key y) p xs h.0, Distinct-keep p xs h.1)
      | inr e ↦ rw e (Distinct-keep p xs h.1)
    ]

    pub Distinct-append :
        (xs ys : List A)
        → Distinct xs
        → Distinct ys
        → All (λ x. All (λ y. key x ≢ key y) ys) xs
        → Distinct (xs ++ ys)
    Distinct-append [] ys h k apart = k
    Distinct-append (x ∷ xs) ys h k apart =
        (All-append (λ y. key x ≢ key y) xs ys h.0 apart.0, Distinct-append xs ys h.1 k apart.1)
