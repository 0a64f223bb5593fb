-- ===== src/Agent/Canonical/Reordered.antt =====
-- Canonical JSON forgets the order of the keys.
use measure_twice.Prelude.{
  ◌≡◌, refl, sym, ap, ◌∙◌, ◌≢◌, ◌⊎◌, inl, inr, true, false, Option, arith, Bool-cases, nat_eq,
  text_eq, option_eq,
}
use measure_twice.Text.{Text}
use measure_twice.Json.{Json, Items, Fields, arr, obj, nil, cons, field, end}
use measure_twice.Agent.Canonical.{
  less, insert_field, sorted, sorted_items, sorted_fields, canonical_json_bytes, canonical_sha256,
}
use measure_twice.Agent.Canonical.Order.{less_trans, less_total, less_asym}

-- The same value but for the order of the keys of its objects, at any depth.
mutual
  pub data Reordered : Json → Json → Type 0 where
    same : {v : Json} → Reordered v v
    in_list : {v w : Items} → ReorderedItems v w → Reordered (arr v) (arr w)
    in_object : {v w : Fields} → ReorderedFields v w → Reordered (obj v) (obj w)

  pub data ReorderedItems : Items → Items → Type 0 where
    no_items : ReorderedItems nil nil
    each :
        {v w : Json} {vs ws : Items}
        → Reordered v w
        → ReorderedItems vs ws
        → ReorderedItems (cons v vs) (cons w ws)

  pub data ReorderedFields : Fields → Fields → Type 0 where
    no_fields : ReorderedFields end end
    keep_first :
        {v w : Json} {vs ws : Fields} (k : Text)
        → Reordered v w
        → ReorderedFields vs ws
        → ReorderedFields (field k v vs) (field k w ws)
    swap :
        {v w : Json} {rest : Fields} (k l : Text)
        → k ≢ l
        → ReorderedFields (field k v (field l w rest)) (field l w (field k v rest))
    chain : {u v w : Fields} → ReorderedFields u v → ReorderedFields v w → ReorderedFields u w

-- What a test of two keys comes to, with its converse.
apart :
    (k l : Text)
    → k ≢ l
    → ((less k l ≡ true) × (less l k ≡ false)) ⊎ ((less k l ≡ false) × (less l k ≡ true))
apart k l ne = elim (Bool-cases (less k l)) [
  | inl e ↦ inl (e, less_asym k l e)
  | inr e ↦ inr (e, less_total k l ne e)
]

insert_first :
    (k m : Text) (v x : Json) (r : Fields)
    → less k m ≡ true
    → insert_field k v (field m x r) ≡ field k v (field m x r)
unfolding insert_field
insert_first k m v x r h = rw h refl

insert_later :
    (k m : Text) (v x : Json) (r : Fields)
    → less k m ≡ false
    → insert_field k v (field m x r) ≡ field m x (insert_field k v r)
unfolding insert_field
insert_later k m v x r h = rw h refl

module _ (k l : Text) (v w : Json) (m : Text) (x : Json) (r : Fields) where
  -- Both keys stand before the first one there is.
  both_first :
      less k l ≡ true
      → less l k ≡ false
      → less k m ≡ true
      → less l m ≡ true
      → insert_field k v (insert_field l w (field m x r))
        ≡ insert_field l w (insert_field k v (field m x r))
  both_first e g a b =
      ap (insert_field k v) (insert_first l m w x r b)
      ∙ insert_first k l v w (field m x r) e
      ∙ ap (field k v) (sym (insert_first l m w x r b))
      ∙ sym (insert_later l k w v (field m x r) g)
      ∙ ap (insert_field l w) (sym (insert_first k m v x r a))

  -- The first one there is stands between the two keys.
  between :
      less k m ≡ true
      → less l m ≡ false
      → insert_field k v (insert_field l w (field m x r))
        ≡ insert_field l w (insert_field k v (field m x r))
  between a b =
      ap (insert_field k v) (insert_later l m w x r b)
      ∙ insert_first k m v x (insert_field l w r) a
      ∙ ap (field k v) (sym (insert_later l m w x r b))
      ∙ sym (insert_later l k w v (field m x r) not_less)
      ∙ ap (insert_field l w) (sym (insert_first k m v x r a))
    where
      not_less : less l k ≡ false
      not_less = elim (Bool-cases (less l k)) [
        | inl h ↦ absurd (ground (arith, b, less_trans l k m h a))
        | inr h ↦ h
      ]

-- Two fields of different keys may be inserted in either order.
insert_comm :
    (k l : Text) (v w : Json) (f : Fields)
    → k ≢ l
    → insert_field k v (insert_field l w f) ≡ insert_field l w (insert_field k v f)
unfolding insert_field
insert_comm k l v w end ne = elim (apart k l ne) [
  | inl (e, g) ↦ rw (e, g) refl
  | inr (e, g) ↦ rw (e, g) refl
]
insert_comm k l v w (field m x r) ne = elim (Bool-cases (less k m)) [
  | inl a ↦ elim (Bool-cases (less l m)) [
    | inl b ↦ elim (apart k l ne) [
      | inl (e, g) ↦ both_first k l v w m x r e g a b
      | inr (e, g) ↦ sym (both_first l k w v m x r g e b a)
    ]
    | inr b ↦ between k l v w m x r a b
  ]
  | inr a ↦ elim (Bool-cases (less l m)) [
    | inl b ↦ sym (between l k w v m x r b a)
    | inr b ↦
        ap (insert_field k v) (insert_later l m w x r b)
        ∙ insert_later k m v x (insert_field l w r) a
        ∙ ap (field m x) (insert_comm k l v w r ne)
        ∙ sym (insert_later l m w x (insert_field k v r) b)
        ∙ ap (insert_field l w) (sym (insert_later k m v x r a))
  ]
]

mutual
  unfolding sorted sorted_items sorted_fields

  sorted-Reordered : {v w : Json} → Reordered v w → sorted v ≡ sorted w
  sorted-Reordered same = refl
  sorted-Reordered (in_list h) = ap arr (sorted_items-Reordered h)
  sorted-Reordered (in_object h) = ap obj (sorted_fields-Reordered h)

  sorted_items-Reordered : {v w : Items} → ReorderedItems v w → sorted_items v ≡ sorted_items w
  sorted_items-Reordered no_items = refl
  sorted_items-Reordered (each h t) = λ i. cons (sorted-Reordered h i) (sorted_items-Reordered t i)

  sorted_fields-Reordered : {v w : Fields} → ReorderedFields v w → sorted_fields v ≡ sorted_fields w
  sorted_fields-Reordered no_fields = refl
  sorted_fields-Reordered (keep_first k h t) =
      λ i. insert_field k (sorted-Reordered h i) (sorted_fields-Reordered t i)
  sorted_fields-Reordered (swap {v} {w} {rest} k l ne) =
      insert_comm k l (sorted v) (sorted w) (sorted_fields rest) ne
  sorted_fields-Reordered (chain h t) = sorted_fields-Reordered h ∙ sorted_fields-Reordered t

-- Values that differ only in the order of the keys of their objects, at any depth, have the same
-- canonical bytes or are refused alike, and so the same hash.
pub canonical_sha256-Reordered :
    (compact : Json → Option Text) (sha256 : Text → Text) (v w : Json)
    → Reordered v w
    → (canonical_json_bytes compact v ≡ canonical_json_bytes compact w)
      × (canonical_sha256 compact sha256 v ≡ canonical_sha256 compact sha256 w)
unfolding canonical_json_bytes canonical_sha256
canonical_sha256-Reordered compact sha256 v w h =
    let e = sorted-Reordered h in (rw e refl, rw e refl)
