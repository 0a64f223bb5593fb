-- ===== src/Agent/Models/Selected.antt =====
-- The roster that a selection gives.
use measure_twice.Prelude.{
  ℕ, ◌≡◌, refl, sym, ap, ◌∙◌, subst, inl, inr, false, not, ◌||◌, Option, none, some, List, [], ◌∷◌,
  map, arith, Bool-cases, Option-cases, nat_eq, text_eq, option_eq, ◌==◌, contains, eq_of_==,
  length, all, All, ok, raise_if, or_raise, bind-eq-ok, ok-injective, not_raised,
}
use measure_twice.Text.{Text, text}
use measure_twice.Json.{Json, str, arr, of_list}
use measure_twice.Agent.Wire.{
  AgentInputError, validate_safe_id, is_safe_id, duplicate_model, unknown_model, unsafe_id,
}
use measure_twice.Agent.Canonical.{canonical_sha256}
use measure_twice.Agent.Models.{
  model_to_mapping, ModelSpec, ModelRegistry, by_id, select_models, select, check_models,
  selected_profile_hash, selected_hash,
}

some_same : {a b : ModelSpec} → ◌≡◌ {A = Option ModelSpec} (some a) (some b) → a ≡ b
some_same h = cc

by_id-name :
    (models : List ModelSpec) (id : Text) (m : ModelSpec) → by_id models id ≡ some m → m.name ≡ id
unfolding by_id
by_id-name [] id m h = cc
by_id-name (x ∷ models) id m h = elim (Option-cases (by_id models id)) [
  | inr (later, e) ↦ by_id-name models id m (e ∙ (rw e at h))
  | inl e ↦ elim (Bool-cases (x.name == id)) [
    | inl f ↦ subst (λ y. y.name ≡ id) (some_same (rw (e, f) at h)) (eq_of_== x.name id f)
    | inr f ↦ absurd (not_some (rw (e, f) at h))
  ]
]
  where
    is_some : Option ModelSpec → ℕ
    is_some none = 0
    is_some (some y) = 1

    not_some : {y : ModelSpec} → ¬ (◌≡◌ {A = Option ModelSpec} none (some y))
    not_some g = ground (arith, ap is_some g)

or_raise-some :
    (o : Option ModelSpec) (e : AgentInputError) (m : ModelSpec) → or_raise o e ≡ ok m → o ≡ some m
or_raise-some none e m h = cc
or_raise-some (some x) e m h = ap some (ok-injective h)

validate_safe_id-own : (v : Json) (s : Text) → validate_safe_id v ≡ ok s → v ≡ str s
unfolding validate_safe_id
validate_safe_id-own (str t) s h =
    let (x, a, h) = bind-eq-ok (raise_if (not (is_safe_id t)) unsafe_id) _ h in
    let (y, b, h) = bind-eq-ok (raise_if (t == text "." || t == text "..") unsafe_id) _ h in
    ap str (ok-injective h)
validate_safe_id-own v s h = cc

-- The models are those of the ids, in the order of the ids, with no id twice or among `seen`.
abbrev pub Selected : List ModelSpec → List Text → List Json → List ModelSpec → Type 0
Selected models seen ids selected =
    (map (λ m. str m.name) selected ≡ ids)
    × (check_models seen selected ≡ ok tt)
    × All (λ m. by_id models m.name ≡ some m) selected

Selected-cons :
    (models : List ModelSpec) (seen : List Text) (v : Json) (ids : List Json) (id : Text)
    (m : ModelSpec) (others : List ModelSpec)
    → v ≡ str id
    → contains seen id ≡ false
    → by_id models id ≡ some m
    → Selected models (id ∷ seen) ids others
    → Selected models seen (v ∷ ids) (m ∷ others)
unfolding check_models
Selected-cons models seen v ids id m others own new found (names, checked, all) =
    let named = by_id-name models id m found in
    (
      rw (own, named, names) refl,
      rw (named, new) checked,
      (subst (λ n. by_id models n ≡ some m) (sym named) found, all),
    )

select_models-Selected :
    (models : List ModelSpec) (seen : List Text) (ids : List Json) (selected : List ModelSpec)
    → select_models models seen ids ≡ ok selected
    → Selected models seen ids selected
unfolding select_models check_models
select_models-Selected models seen [] selected h =
    subst (Selected models seen []) (ok-injective h) (refl, refl, tt)
select_models-Selected models seen (v ∷ ids) selected h =
    let (id, i, h) = bind-eq-ok (validate_safe_id v) _ h in
    let (x, a, h) = bind-eq-ok (raise_if (contains seen id) duplicate_model) _ h in
    let (m, f, h) = bind-eq-ok (or_raise (by_id models id) unknown_model) _ h in
    let (others, o, h) = bind-eq-ok (select_models models (id ∷ seen) ids) _ h in
    subst (Selected models seen (v ∷ ids)) (ok-injective h) (
      Selected-cons models seen v ids id m others (validate_safe_id-own v id i)
        (not_raised (contains seen id) duplicate_model x a)
        (or_raise-some (by_id models id) unknown_model m f)
        (select_models-Selected models (id ∷ seen) ids others o))

hash_of :
    (compact : Json → Option Text) (sha256 : Text → Text) (selected : List ModelSpec) (v : Json)
    (ids : List Json)
    → map (λ m. str m.name) selected ≡ v ∷ ids
    → check_models [] selected ≡ ok tt
    → selected_profile_hash compact sha256 selected
      ≡ canonical_sha256 compact sha256 (arr (of_list (map model_to_mapping selected)))
unfolding selected_profile_hash
hash_of compact sha256 [] v ids n c = absurd (ground (arith, ap length n))
hash_of compact sha256 (m ∷ selected) v ids n c = rw c refl

-- A selection that succeeds has for each id the registry's model of that name, in the order of the
-- ids and none of them twice, and the hash of the selection is the canonical one of the list of the
-- mappings of these models, errors of the encoding included: the rest of the registry does not
-- enter it, and no check of the hashed list refuses what was selected.
pub select-Selected :
    (compact : Json → Option Text) (sha256 : Text → Text) (registry : ModelRegistry)
    (ids : List Json) (selected : List ModelSpec)
    → select registry ids ≡ ok selected
    → Selected registry.models [] ids selected
      × (selected_hash compact sha256 registry ids
          ≡ canonical_sha256 compact sha256 (arr (of_list (map model_to_mapping selected))))
unfolding select selected_hash selected_profile_hash
select-Selected compact sha256 registry [] selected h = cc
select-Selected compact sha256 registry (v ∷ ids) selected h =
    let s = select_models-Selected registry.models [] (v ∷ ids) selected h in
    (s, rw h (hash_of compact sha256 selected v ids s.0 s.1))
