-- ===== src/Agent/Canonical.antt =====
-- measure_twice/agent_bench/_wire.py: `canonical_json_bytes` and `canonical_sha256`.
pub mod Order
pub mod Reordered
use measure_twice.Prelude.{
  ℕ, zero, suc, ◌+◌, ◌-◌, ◌*◌, ◌≤◌, ◌<◌, String, ◌≡◌, refl, sym, ap, ◌∙◌, subst, ◌≢◌, ◌↔◌, ◌⊎◌, inl,
  inr, Bool, true, false, not, ◌&&◌, ◌||◌, Option, none, some, List, [], ◌∷◌, ◌++◌, map, append-nil,
  append_assoc, arith, ltb, leb, if◌then◌else◌, Bool-cases, Option-cases, Eq, nat_eq, text_eq,
  option_eq, ◌==◌, contains, ==_refl, eq_of_==, length, take, drop, all, All, length-append,
  All-append, All-map, Result, ok, err, ◌>>=◌, ◌>>◌, raise_if, or_raise, traverse, bind-eq-ok,
  Result-cases, ok-injective, traverse-All, traverse-map, List-cases, not_raised, not_raised_unless,
  keep, keep-keep, keep-append, keep-ext, All-keep, Distinct, Distinct-keep, Distinct-append,
}
use measure_twice.Text.{
  Text, text, is_space, strip_left, strip_right, strip, is_blank, is_digit, decimal, is_break,
  cons_line, splitlines, split, join, unlines,
}
use measure_twice.Json.{
  Json, Items, Fields, null, bool, int, neg, flt, str, arr, obj, nil, cons, field, end,
}
use measure_twice.Suite.Spec.{is_encodable}
use measure_twice.Agent.Wire.{AgentInputError, not_encodable}

-- `<` of texts, by code points
unfoldable pub less : Text → Text → Bool
less [] [] = false
less [] (d ∷ t) = true
less (c ∷ s) [] = false
less (c ∷ s) (d ∷ t) = ltb c d || (c == d && less s t)

-- a field put in front of the first one whose key is larger
unfoldable pub insert_field : Text → Json → Fields → Fields
insert_field k v end = field k v end
insert_field k v (field l w rest) =
    let later = insert_field k v rest in
    if less k l then field k v (field l w rest) else field l w later

-- `sort_keys=True`, which sorts the keys of every object
unfoldable mutual
  pub sorted : Json → Json
  sorted (arr v) = arr (sorted_items v)
  sorted (obj v) = obj (sorted_fields v)
  sorted v = v

  pub sorted_items : Items → Items
  sorted_items nil = nil
  sorted_items (cons v rest) = cons (sorted v) (sorted_items rest)

  pub sorted_fields : Fields → Fields
  sorted_fields end = end
  sorted_fields (field k v rest) = insert_field k (sorted v) (sorted_fields rest)

-- `compact` is `json.dumps` with the separators of the source, of a value in the order of its keys,
-- and `none` where it raises.
module _ (compact : Json → Option Text) where
  -- `canonical_json_bytes`, as the text whose UTF-8 bytes it returns
  unfoldable pub canonical_json_bytes : Json → Result AgentInputError Text
  canonical_json_bytes value = do
    rendered ← or_raise (compact (sorted value)) not_encodable
    raise_if (not (is_encodable rendered)) not_encodable
    ok rendered

  -- `canonical_sha256`, of a digest of texts
  unfoldable pub canonical_sha256 : (Text → Text) → Json → Result AgentInputError Text
  canonical_sha256 sha256 value = do rendered ← canonical_json_bytes value; ok (sha256 rendered)
