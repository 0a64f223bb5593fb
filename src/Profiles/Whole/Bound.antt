-- ===== src/Profiles/Whole/Bound.antt =====
-- The bindings that a profile gives for a roster.
use measure_twice.Suite.{Float}
use measure_twice.Prelude.{
  ℕ, ◌≡◌, refl, sym, subst, ◌≢◌, inl, inr, Bool, true, false, not, ◌&&◌, ◌||◌, Option, List, [],
  ◌∷◌, map, arith, Bool-cases, nat_eq, text_eq, option_eq, ◌==◌, eq_of_==, All, ok, raise_if,
  traverse, bind-eq-ok, ok-injective, not_raised, Distinct,
}
use measure_twice.Text.{Text, text}
use measure_twice.Json
use measure_twice.Json.{
  Json, Items, Fields, null, bool, int, neg, flt, str, arr, obj, nil, cons, field, end, to_list,
  of_list, to_list-of_list, lookup,
}
use measure_twice.Runner.Pending.{ModelBinding}
use measure_twice.Profiles.Context.{ClaudeContextProfile, GeminiContextProfile, claude_of_json}
use measure_twice.Profiles.Binding.{
  binding_of_json, context_without_gemini, duplicate_alias, gemini_without_context, is_profile_id,
  no_models, require_keys, text_that, unsafe_id, value_of,
}
use measure_twice.Profiles.Whole.{
  raw_models_of, optional_gemini, sweep_profile_of_json, bindings_for, ModelSweepExecutionProfile,
  repeats_alias, is_gemini_binding, has_gemini_binding, is_present, is_unbound, profile_version,
  checked_sweep_profile, binding_for,
}

binding_for-alias :
    (models : List ModelBinding) (alias : Text) (b : ModelBinding)
    → binding_for models alias ≡ ok b
    → (b.alias ≡ alias) × (has_gemini_binding models ≡ false → is_gemini_binding b ≡ false)
unfolding binding_for has_gemini_binding
binding_for-alias [] alias b h = cc
binding_for-alias (x ∷ models) alias b h = elim (Bool-cases (x.alias == alias)) [
  | inl e ↦
      let same : x ≡ b = ok-injective (rw e at h) in
      subst
        (λ y.
          (y.alias ≡ alias)
          × ((is_gemini_binding x || has_gemini_binding models) ≡ false
              → is_gemini_binding y ≡ false))
        same
        (
          eq_of_== x.alias alias e,
          λ none_of. first_false (is_gemini_binding x) (has_gemini_binding models) none_of,
        )
  | inr e ↦
      let (named, other) = binding_for-alias models alias b (rw e at h) in
      (
        named,
        λ none_of. other (rest_false (is_gemini_binding x) (has_gemini_binding models) none_of),
      )
]
  where
    first_false : (a c : Bool) → (a || c) ≡ false → a ≡ false
    first_false true c f = cc
    first_false false c f = refl

    rest_false : (a c : Bool) → (a || c) ≡ false → c ≡ false
    rest_false true c f = cc
    rest_false false c f = f

-- The bindings have the aliases, and none is of Gemini unless one of the profile is.
abbrev BoundTo : List ModelBinding → List Text → List ModelBinding → Type 0
BoundTo models aliases bindings =
    (map (λ b. b.alias) bindings ≡ aliases)
    × (has_gemini_binding models ≡ false → has_gemini_binding bindings ≡ false)

bindings-BoundTo :
    (models : List ModelBinding) (aliases : List Text) (bindings : List ModelBinding)
    → traverse (binding_for models) aliases ≡ ok bindings
    → BoundTo models aliases bindings
unfolding has_gemini_binding
bindings-BoundTo models [] bindings h = subst (BoundTo models []) (ok-injective h) (refl, λ f. refl)
bindings-BoundTo models (alias ∷ aliases) bindings h =
    let (b, f, h) = bind-eq-ok (binding_for models alias) _ h in
    let (rest, t, h) = bind-eq-ok (traverse (binding_for models) aliases) _ h in
    let (named, local_one) = binding_for-alias models alias b f in
    let (names, local_rest) = bindings-BoundTo models aliases rest t in
    subst (BoundTo models (alias ∷ aliases)) (ok-injective h)
      ((λ i. named i ∷ names i), λ n. rw (local_one n, local_rest n) refl)

checked_gemini :
    (schema_version id : Json) (models : List ModelBinding) (claude : ClaudeContextProfile)
    (gemini : Option GeminiContextProfile) (p : ModelSweepExecutionProfile)
    → checked_sweep_profile schema_version id models claude gemini ≡ ok p
    → (repeats_alias p.models ≡ false) × (has_gemini_binding p.models ≡ is_present p.gemini)
unfolding checked_sweep_profile
checked_gemini schema_version id models claude gemini p h =
    let (version, _, h) = bind-eq-ok (profile_version schema_version) _ h in
    let (name, _, h) = bind-eq-ok (text_that is_profile_id unsafe_id id) _ h in
    let (x, _, h) = bind-eq-ok (raise_if (is_unbound models) no_models) _ h in
    let (y, a, h) = bind-eq-ok (raise_if (repeats_alias models) duplicate_alias) _ h in
    let (z, b, h) =
      bind-eq-ok
        (raise_if (has_gemini_binding models && not (is_present gemini)) gemini_without_context) _
        h in
    let (w, c, h) =
      bind-eq-ok
        (raise_if (is_present gemini && not (has_gemini_binding models)) context_without_gemini) _
        h in
    subst
      (λ q. (repeats_alias q.models ≡ false) × (has_gemini_binding q.models ≡ is_present q.gemini))
      (ok-injective h)
      (
        not_raised (repeats_alias models) duplicate_alias y a,
        agree (has_gemini_binding models) (is_present gemini)
            (not_raised (has_gemini_binding models && not (is_present gemini))
              gemini_without_context z b)
            (not_raised (is_present gemini && not (has_gemini_binding models))
              context_without_gemini w c),
      )
  where
    agree : (s t : Bool) → (s && not t) ≡ false → (t && not s) ≡ false → s ≡ t
    agree true true f g = refl
    agree true false f g = cc
    agree false true f g = cc
    agree false false f g = refl

All-of_map :
    (a : Text) (bindings : List ModelBinding)
    → All (λ t. a ≢ t) (map (λ b. b.alias) bindings)
    → All (λ (b : ModelBinding). a ≢ b.alias) bindings
All-of_map a [] h = tt
All-of_map a (b ∷ bindings) h = (h.0, All-of_map a bindings h.1)

Distinct-of_map :
    (bindings : List ModelBinding)
    → Distinct (λ (t : Text). t) (map (λ b. b.alias) bindings)
    → Distinct (λ (b : ModelBinding). b.alias) bindings
Distinct-of_map [] d = tt
Distinct-of_map (b ∷ bindings) d = (All-of_map b.alias bindings d.0, Distinct-of_map bindings d.1)

sweep_profile-gemini :
    (float_of_int : ℕ → Option Float) (v : Json) (p : ModelSweepExecutionProfile)
    → sweep_profile_of_json float_of_int v ≡ ok p
    → (repeats_alias p.models ≡ false) × (has_gemini_binding p.models ≡ is_present p.gemini)
unfolding sweep_profile_of_json
sweep_profile-gemini float_of_int v p h =
    let (clean, _, h) =
      bind-eq-ok
        (require_keys v (text "schema_version" ∷ text "id" ∷ text "models" ∷ text "claude" ∷ [])
          (text "gemini" ∷ []))
        _ h in
    let (given_models, _, h) = bind-eq-ok (value_of clean (text "models")) _ h in
    let (raw_models, _, h) = bind-eq-ok (raw_models_of given_models) _ h in
    let (context, _, h) =
      bind-eq-ok (optional_gemini float_of_int (Json.lookup (text "gemini") clean)) _ h in
    let (version, _, h) = bind-eq-ok (value_of clean (text "schema_version")) _ h in
    let (id, _, h) = bind-eq-ok (value_of clean (text "id")) _ h in
    let (models, _, h) = bind-eq-ok (traverse binding_of_json raw_models) _ h in
    let (given_sealing, _, h) = bind-eq-ok (value_of clean (text "claude")) _ h in
    let (sealing, _, h) = bind-eq-ok (claude_of_json given_sealing) _ h in
    checked_gemini version id models sealing context p h

present : (s t : Bool) → s ≡ t → (u : Bool) → (s ≡ false → u ≡ false) → u ≡ true → t ≡ true
present true t e u f h = sym e
present false t e u f h = absurd (ground (arith, f refl, h))

-- For a roster that names no alias twice, a profile that loads gives the bindings of exactly these
-- aliases, in their order, so that no two of them have the same alias; and if one of them is of
-- Gemini, the profile has the request contract that a call of Gemini needs.
pub bindings_for-BoundTo :
    (float_of_int : ℕ → Option Float) (v : Json) (p : ModelSweepExecutionProfile)
    (aliases : List Text) (bindings : List ModelBinding)
    → sweep_profile_of_json float_of_int v ≡ ok p
    → Distinct (λ (a : Text). a) aliases
    → bindings_for p aliases ≡ ok bindings
    → (map (λ b. b.alias) bindings ≡ aliases)
      × Distinct (λ (b : ModelBinding). b.alias) bindings
      × (has_gemini_binding bindings ≡ true → is_present p.gemini ≡ true)
unfolding bindings_for
bindings_for-BoundTo float_of_int v p aliases bindings loaded distinct h =
    let (names, without_gemini) = bindings-BoundTo p.models aliases bindings h in
    (
      names,
      Distinct-of_map bindings (subst (Distinct (λ (a : Text). a)) (sym names) distinct),
      present (has_gemini_binding p.models) (is_present p.gemini)
          (sweep_profile-gemini float_of_int v p loaded).1 (has_gemini_binding bindings)
          without_gemini,
    )
