-- ===== src/Prelude/Results.antt =====
-- Code that may raise: a result or an error, with the handler's notation.
use mathlib.Core.Path.{◌≡◌, refl, subst}
use mathlib.Core.Logic.{◌⊎◌, inl, inr}
use mathlib.Core.Bool.{Bool, true, false, not}
use mathlib.Core.Option.{Option, none, some}
use mathlib.Core.List.{List, [], ◌∷◌, map}
use measure_twice.Prelude.Lists.{All}

pub data Result (E A : Type 0) : Type 0 where
  err : E → Result E A
  ok : A → Result E A

module _ {E : Type 0} where
  infixl 5 ◌>>=◌ ◌>>◌
  -- an error ends the block
  abbrev pub ◌>>=◌ : {A B : Type 0} → Result E A → (A → Result E B) → Result E B
  err e >>= next = err e
  ok found >>= next = next found

  abbrev pub ◌>>◌ : {A B : Type 0} → Result E A → Result E B → Result E B
  check >> rest = check >>= λ _. rest

  -- `if bad: raise e`
  abbrev pub raise_if : Bool → E → Result E (Unit {0})
  raise_if true e = err e
  raise_if false e = ok tt

  abbrev pub or_raise : {A : Type 0} → Option A → E → Result E A
  or_raise none e = err e
  or_raise (some a) e = ok a

  -- a loop that collects one result for each element, and stops at the first error
  abbrev pub traverse : {A B : Type 0} → (A → Result E B) → List A → Result E (List B)
  traverse f [] = ok []
  traverse f (x ∷ xs) = let rest = traverse f xs in f x >>= λ y. rest >>= λ ys. ok (y ∷ ys)

  pub Result-cases :
      {A : Type 0} (m : Result E A) → ((a : A) × (m ≡ ok a)) ⊎ ((e : E) × (m ≡ err e))
  Result-cases (ok a) = inl (a, refl)
  Result-cases (err e) = inr (e, refl)

  -- A check that let the code go on.
  pub not_raised : (b : Bool) (e : E) (t : Unit {0}) → raise_if b e ≡ ok t → b ≡ false
  not_raised false e t h = refl
  not_raised true e t h = cc

  pub not_raised_unless : (b : Bool) (e : E) (t : Unit {0}) → raise_if (not b) e ≡ ok t → b ≡ true
  not_raised_unless true e t h = refl
  not_raised_unless false e t h = cc

  pub ok-injective : {A : Type 0} {a b : A} → ◌≡◌ {A = Result E A} (ok a) (ok b) → a ≡ b
  ok-injective h = cc

  -- What a bind that succeeded went through.
  pub bind-eq-ok :
      {A B : Type 0} (call : Result E A) (next : A → Result E B) {last : B}
      → (call >>= next) ≡ ok last
      → (found : A) × (call ≡ ok found) × (next found ≡ ok last)
  bind-eq-ok (err e) next done = cc
  bind-eq-ok (ok found) next done = (found, refl, done)

  -- Each result of the loop is the result of a call.
  pub traverse-All :
      {A B : Type 0} (P : B → Type 0) (f : A → Result E B)
      → ((x : A) (y : B) → f x ≡ ok y → P y)
      → (xs : List A) (ys : List B) → traverse f xs ≡ ok ys
      → All P ys
  traverse-All P f h [] ys e = subst (All P) (ok-injective e) tt
  traverse-All P f h (x ∷ xs) ys e =
      let (y, fy, e') = bind-eq-ok (f x) _ e in
      let (zs, rest, e'') = bind-eq-ok (traverse f xs) _ e' in
      subst (All P) (ok-injective e'') (h x y fy, traverse-All P f h xs zs rest)

  -- A loop over values that were built from the results gives the results back.
  pub traverse-map :
      {A B : Type 0} (P : B → Type 0) (f : A → Result E B) (g : B → A)
      → ((y : B) → P y → f (g y) ≡ ok y)
      → (ys : List B) → All P ys
      → traverse f (map g ys) ≡ ok ys
  traverse-map P f g h [] all = refl
  traverse-map P f g h (y ∷ ys) all = rw (h y all.0, traverse-map P f g h ys all.1)
