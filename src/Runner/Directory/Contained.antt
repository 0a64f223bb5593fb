-- ===== src/Runner/Directory/Contained.antt =====
-- A run id that is accepted names a directory inside the run store.
use measure_twice.Prelude.{
  ℕ, zero, suc, ◌≡◌, refl, sym, ap, ◌∙◌, subst, inl, inr, Bool, true, false, not, ◌&&◌, List, [],
  ◌∷◌, ◌++◌, arith, Bool-cases, nat_eq, text_eq, option_eq, ◌==◌, eq_of_==, length, all, Result, ok,
  err, raise_if, bind-eq-ok, ok-injective, not_raised_unless,
}
use measure_twice.Text.{is_digit, Text, text}
use measure_twice.Runner.Row.{RunError, bad_run_id, escapes_store}
use measure_twice.Runner.Store.{without_last}
use measure_twice.Runner.Directory.{
  eat, eat_literal, is_hex, same_path, match_run_id, resolve_run_dir,
}

-- no part of a path separator or of ".."
abbrev pub is_plain : ℕ → Bool
is_plain c = not (c == b'/') && not (c == b'\\') && not (c == b'.')

plain-cons :
    (c : ℕ) (s : Text) → is_plain c ≡ true → all is_plain s ≡ true → all is_plain (c ∷ s) ≡ true
plain-cons c s h k = rw (h, k) refl

false-not-true : false ≡ true → ⊥
false-not-true h = cc

refused : {A : Type 0} {e : RunError} {a : A} → ◌≡◌ {A = Result RunError A} (err e) (ok a) → ⊥
refused h = cc

eat_plain :
    (test : ℕ → Bool)
    → ((c : ℕ) → test c ≡ true → is_plain c ≡ true)
    → (n : ℕ) (s rest : Text) → eat test n s ≡ ok rest
    → all is_plain rest ≡ true
    → all is_plain s ≡ true
unfolding eat
eat_plain test plain zero s rest h k = subst (λ r. all is_plain r ≡ true) (sym (ok-injective h)) k
eat_plain test plain (suc n) [] rest h k = refl
eat_plain test plain (suc n) (c ∷ s) rest h k = elim (Bool-cases (test c)) [
  | inl t ↦ plain-cons c s (plain c t) (eat_plain test plain n s rest (rw t at h) k)
  | inr t ↦ absurd (refused (rw t at h))
]

head_plain : (c : ℕ) (s : Text) → all is_plain (c ∷ s) ≡ true → is_plain c ≡ true
head_plain c s h = elim (Bool-cases (is_plain c)) [
  | inl t ↦ t
  | inr t ↦ absurd (false-not-true (rw t at h))
]

tail_plain : (c : ℕ) (s : Text) → all is_plain (c ∷ s) ≡ true → all is_plain s ≡ true
tail_plain c s h = elim (Bool-cases (is_plain c)) [
  | inl t ↦ rw t at h
  | inr t ↦ absurd (false-not-true (rw t at h))
]

nothing_plain : (s : Text) → (length s == 0) ≡ true → all is_plain s ≡ true
nothing_plain [] h = refl
nothing_plain (c ∷ s) h = absurd (false-not-true (ground (arith, h)))

literal_plain :
    (l s rest : Text)
    → all is_plain l ≡ true
    → eat_literal l s ≡ ok rest
    → all is_plain rest ≡ true
    → all is_plain s ≡ true
unfolding eat_literal
literal_plain [] s rest p h k = subst (λ r. all is_plain r ≡ true) (sym (ok-injective h)) k
literal_plain (l ∷ ls) [] rest p h k = refl
literal_plain (l ∷ ls) (c ∷ s) rest p h k = elim (Bool-cases (c == l)) [
  | inl t ↦
      plain-cons c s (subst (λ d. is_plain d ≡ true) (sym (eq_of_== c l t)) (head_plain l ls p))
        (literal_plain ls s rest (tail_plain l ls p) (rw t at h) k)
  | inr t ↦ absurd (refused (rw t at h))
]

eq_of_same_path : (ps qs : List Text) → same_path ps qs ≡ true → ps ≡ qs
unfolding same_path
eq_of_same_path [] [] h = refl
eq_of_same_path [] (q ∷ qs) h = absurd (false-not-true h)
eq_of_same_path (p ∷ ps) [] h = absurd (false-not-true h)
eq_of_same_path (p ∷ ps) (q ∷ qs) h = elim (Bool-cases (p == q)) [
  | inl t ↦ rw (eq_of_== p q t, eq_of_same_path ps qs (rw t at h)) refl
  | inr t ↦ absurd (false-not-true (rw t at h))
]

-- the digits of ASCII are plain
pub digit_plain : (c : ℕ) → is_digit c ≡ true → is_plain c ≡ true
unfolding is_digit
digit_plain c h = ground (arith, h)

hex_plain : (c : ℕ) → is_hex c ≡ true → is_plain c ≡ true
unfolding is_digit
hex_plain c h = ground (arith, h)

module _ (is_unicode_digit : ℕ → Bool) where
  match_run_id_plain :
      ((c : ℕ) → is_unicode_digit c ≡ true → is_plain c ≡ true)
      → (run_id : Text) (t : Unit {0}) → match_run_id is_unicode_digit run_id ≡ ok t
      → all is_plain run_id ≡ true
  unfolding match_run_id nat_eq
  match_run_id_plain digits run_id t h =
      let (a, p, h) = bind-eq-ok (eat_literal (text "run_") run_id) _ h in
      let (b, q, h) = bind-eq-ok (eat is_unicode_digit 8 a) _ h in
      let (c, r, h) = bind-eq-ok (eat_literal (text "T") b) _ h in
      let (d, s, h) = bind-eq-ok (eat is_unicode_digit 6 c) _ h in
      let (e, u, h) = bind-eq-ok (eat_literal (text "Z_") d) _ h in
      let (rest, v, h) = bind-eq-ok (eat is_hex 6 e) _ h in
      literal_plain (text "run_") run_id a refl p (
        eat_plain is_unicode_digit digits 8 a b q (
          literal_plain (text "T") b c refl r (
            eat_plain is_unicode_digit digits 6 c d s (
              literal_plain (text "Z_") d e refl u (
                eat_plain is_hex hex_plain 6 e rest v
                  (nothing_plain rest (not_raised_unless (length rest == 0) bad_run_id t h)))))))

  -- A run id from outside that is accepted holds no path separator and no dot, and the directory that
  -- it resolves to lies directly under the directory of the runs.
  pub resolve_run_dir-IsInner :
      ((c : ℕ) → is_unicode_digit c ≡ true → is_plain c ≡ true)
      → (resolve : List Text → List Text) (out : List Text) (run_id : Text) (run_dir : List Text)
      → resolve_run_dir is_unicode_digit resolve out run_id ≡ ok run_dir
      → (all is_plain run_id ≡ true)
        × (without_last run_dir ≡ resolve (out ++ text "runs" ∷ []))
        × (run_dir ≡ resolve (out ++ text "runs" ∷ run_id ∷ []))
  unfolding resolve_run_dir
  resolve_run_dir-IsInner digits resolve out run_id run_dir h =
      let runs_dir = resolve (out ++ text "runs" ∷ []) in
      let dir = resolve (out ++ text "runs" ∷ run_id ∷ []) in
      let (t, m, h) = bind-eq-ok (match_run_id is_unicode_digit run_id) _ h in
      let (x, e, h) =
        bind-eq-ok (raise_if (not (same_path (without_last dir) runs_dir)) escapes_store) _ h in
      (
        match_run_id_plain digits run_id t m,
        ap without_last (sym (ok-injective h))
            ∙ eq_of_same_path (without_last dir) runs_dir
                (not_raised_unless (same_path (without_last dir) runs_dir) escapes_store x e),
        sym (ok-injective h),
      )
