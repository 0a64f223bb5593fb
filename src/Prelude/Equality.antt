-- ===== src/Prelude/Equality.antt =====
-- Python's `==` and `in`, on every type whose equality is decided.
use Prim.Native.Nat.{ℕ}
use mathlib.Core.Path.{◌≡◌, refl, ap}
use mathlib.Core.Logic.{ite}
use mathlib.Core.Bool.{Bool, true, false, ◌||◌}
use mathlib.Core.Option.{Option, none, some}
use mathlib.Core.List.{List, [], ◌∷◌}
use native.Mathlib.Decide.{ℕ_discrete}
use native.Mathlib.Omega.{arith}

pub record Eq {ℓ} (A : Type ℓ) : Type ℓ where
  pub dec : Discrete A

-- one element of two lists after the other
list_dec {ℓ} : {A : Type ℓ} → Discrete A → Discrete (List A)
list_dec d [] [] = yes refl
list_dec d [] (y ∷ ys) = no (λ p. cc)
list_dec d (x ∷ xs) [] = no (λ p. cc)
list_dec d (x ∷ xs) (y ∷ ys) =
    let rest = list_dec d xs ys in
    elim (d x y) [
      | no n ↦ no (λ p. n (ground arith))
      | yes p ↦ elim rest [ no n ↦ no (λ q. n (ground arith)) | yes q ↦ yes (cc) ]
    ]

option_dec {ℓ} : {A : Type ℓ} → Discrete A → Discrete (Option A)
option_dec d none none = yes refl
option_dec d none (some b) = no (λ p. cc)
option_dec d (some a) none = no (λ p. cc)
option_dec d (some a) (some b) = elim (d a b) [
  | yes p ↦ yes (ap some p)
  | no n ↦ no (λ p. n (ground arith))
]

instance unfoldable pub nat_eq : Eq ℕ
unfolding ℕ_discrete
nat_eq = record { dec = ℕ_discrete }

instance unfoldable pub text_eq : Eq (List ℕ)
unfolding list_dec ℕ_discrete
text_eq = record { dec = list_dec ℕ_discrete }

instance unfoldable pub option_eq {ℓ} : {A : Type ℓ} ⦃e : Eq A⦄ → Eq (Option A)
unfolding option_dec
option_eq ⦃e⦄ = record { dec = option_dec e.dec }

module _ {ℓ} {A : Type ℓ} ⦃e : Eq A⦄ where
  infix 50 ◌==◌
  abbrev pub ◌==◌ : A → A → Bool
  a == b = ite (e.dec a b) true false

  -- `a in xs`
  abbrev pub contains : List A → A → Bool
  contains [] a = false
  contains (x ∷ xs) a = x == a || contains xs a

  pub ==_refl : (a : A) → (a == a) ≡ true
  ==_refl a = ground arith

  pub eq_of_== : (a b : A) → (a == b) ≡ true → a ≡ b
  eq_of_== a b h = ground arith
