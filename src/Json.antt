-- ===== src/Json.antt =====
-- The values that `json.loads` builds and `json.dumps` takes. A dict keeps its insertion order.
use measure_twice.Prelude.{
  ℕ, Bool, Option, none, some, List, [], ◌∷◌, ◌≡◌, refl, ap, ◌==◌, text_eq, if◌then◌else◌,
}
use measure_twice.Text.{Text}

mutual
  -- `flt` holds the 64 bits of the float, `neg n` is -(n + 1).
  pub data Json : Type 0 where
    null : Json
    bool : Bool → Json
    int neg flt : ℕ → Json
    str : Text → Json
    arr : Items → Json
    obj : Fields → Json

  pub data Items : Type 0 where
    nil : Items
    cons : Json → Items → Items

  pub data Fields : Type 0 where
    end : Fields
    field : Text → Json → Fields → Fields

unfoldable pub to_list : Items → List Json
to_list nil = []
to_list (cons v rest) = v ∷ to_list rest

unfoldable pub of_list : List Json → Items
of_list [] = nil
of_list (v ∷ rest) = cons v (of_list rest)

-- `list(d)`, the keys of a dict
unfoldable pub keys : Fields → List Text
keys end = []
keys (field k v rest) = k ∷ keys rest

-- `d.get(key)`, with `none` for a key that is not there
unfoldable pub lookup : Text → Fields → Option Json
lookup key end = none
lookup key (field k v rest) = if k == key then some v else lookup key rest

pub to_list-of_list : (l : List Json) → to_list (of_list l) ≡ l
unfolding to_list of_list
to_list-of_list [] = refl
to_list-of_list (v ∷ rest) = ap (◌∷◌ v) (to_list-of_list rest)

-- What the package relies on of `json.dumps` and `json.loads`.
pub record Codec : Type 0 where
  pub dumps : Json → Text
  -- `none` for a `JSONDecodeError`
  pub loads : Text → Option Json
