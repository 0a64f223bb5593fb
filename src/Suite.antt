-- ===== src/Suite.antt =====
-- measure_twice/suite.py: the records of a benchmark suite.
pub mod Spec
pub mod Entry
pub mod Whole
use measure_twice.Prelude.{ℕ, Bool, Option, List, nat_eq, text_eq, option_eq}
use measure_twice.Text.{Text}

-- A float, by its 64 bits.
abbrev pub Float : Type 0
Float = ℕ

abbrev pub zero_float : Float
zero_float = 0

abbrev pub one_float : Float
one_float = 0x3ff0000000000000

pub record ScoringSpec : Type 0 where
  pub kind : Text
  pub labels : Option (List Text)
  pub regex : Bool

pub record Item : Type 0 where
  pub id : Text
  pub tags : List Text
  pub prompt : Text
  pub expected : Text
  pub difficulty_prior : Float
  pub provenance : Text
