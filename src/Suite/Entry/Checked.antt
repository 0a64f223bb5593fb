-- ===== src/Suite/Entry/Checked.antt =====
-- What an item that loads is known to satisfy.
use measure_twice.Prelude.{ℕ, ◌≡◌, Bool, true, nat_eq, text_eq, option_eq}
use measure_twice.Text.{Text}
use measure_twice.Json.{Json}
use measure_twice.Externals.{Externals}
use measure_twice.Suite.{Item}
use measure_twice.Suite.Spec.{is_encodable}
use measure_twice.Suite.Entry.{has_alnum}

module _ (x : Externals) (is_alnum : ℕ → Bool) where
  -- What the checks of an item establish.
  abbrev pub IsChecked : Item → Type 0
  IsChecked item =
      (x.safe_start item.id ≡ true)
      × (has_alnum x is_alnum item.id ≡ true)
      × (is_encodable item.prompt ≡ true)
      × (is_encodable item.expected ≡ true)
      × (is_encodable item.provenance ≡ true)
