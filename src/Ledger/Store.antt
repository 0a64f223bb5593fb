-- ===== src/Ledger/Store.antt =====
-- measure_twice/ledger.py: `load_ledger`, `_validated_claims` and `write_ledger`.
pub mod Loading
pub mod Persistence
use measure_twice.Prelude.{
  ℕ, zero, suc, ◌+◌, ◌-◌, ◌*◌, ◌≤◌, ◌<◌, String, ◌≡◌, refl, sym, ap, ◌∙◌, subst, ◌≢◌, ◌↔◌, ◌⊎◌, inl,
  inr, Bool, true, false, not, ◌&&◌, ◌||◌, Option, none, some, List, [], ◌∷◌, ◌++◌, map, append-nil,
  append_assoc, arith, ltb, leb, if◌then◌else◌, Bool-cases, Option-cases, Eq, nat_eq, text_eq,
  option_eq, ◌==◌, contains, ==_refl, eq_of_==, length, take, drop, all, All, length-append,
  All-append, All-map, Result, ok, err, ◌>>=◌, ◌>>◌, raise_if, or_raise, traverse, bind-eq-ok,
  Result-cases, ok-injective, traverse-All, traverse-map, List-cases, not_raised, not_raised_unless,
  keep, keep-keep, keep-append, keep-ext, All-keep, Distinct, Distinct-keep, Distinct-append,
}
use measure_twice.Text.{
  Text, text, is_space, strip_left, strip_right, strip, is_blank, is_digit, decimal, is_break,
  cons_line, splitlines, split, join, unlines,
}
use measure_twice.Externals.{Externals}
use measure_twice.Json.{
  Codec, Json, Items, Fields, null, bool, int, neg, flt, str, arr, obj, nil, cons, field, end,
  to_list, of_list, to_list-of_list, lookup,
}
use measure_twice.Ledger.Source.{
  LedgerError, unreadable, blank_line, bad_json, duplicate_claim, not_written,
}
use measure_twice.Ledger.Claim.{Claim, claim_of_json, to_mapping}

-- The ledger file and the temporary file beside it: `none` for one that is missing, cannot be read
-- or is no UTF-8.
pub record Disk : Type 0 where
  pub ledger : Option Text
  pub temp : Option Text

-- Where a write meets an `OSError`: before the temporary file, in it (which leaves `partial`), or
-- at `os.replace`.
pub data Fault : Type 0 where
  no_fault mkdir_fault replace_fault : Fault
  temp_fault : Option Text → Fault

-- The three calls by which `write_ledger` changes the disk: `mkdir`, `temp_path.write_text` and
-- `os.replace(temp_path, path)`.
pub data WriteStep : Type 0 where
  make_parent move_temp : WriteStep
  write_temp : Text → WriteStep

-- One of the calls, which raises the `OSError` that it meets. `os.replace` takes the temporary file
-- as it stands, and raises too if there is none.
unfoldable pub attempt : Fault → WriteStep → Disk → Result LedgerError (Unit {0}) × Disk
attempt mkdir_fault make_parent disk = (err not_written, disk)
attempt fault make_parent disk = (ok tt, disk)
attempt (temp_fault partial) (write_temp contents) disk =
    (err not_written, record disk { temp = partial })
attempt fault (write_temp contents) disk = (ok tt, record disk { temp = some contents })
attempt replace_fault move_temp disk = (err not_written, disk)
attempt fault move_temp disk = elim disk.temp [
  | none ↦ (err not_written, disk)
  | some contents ↦ (ok tt, record { ledger = some contents; temp = none })
]

-- the body of the `try`: the first call that raises ends it
unfoldable pub run_steps : Fault → List WriteStep → Disk → Result LedgerError (Unit {0}) × Disk
run_steps fault [] disk = (ok tt, disk)
run_steps fault (step ∷ steps) disk =
    let (done, after) = attempt fault step disk in
    let rest = run_steps fault steps after in elim done [ err e ↦ (err e, after) | ok _ ↦ rest ]

unfoldable pub write_steps : Text → List WriteStep
write_steps contents = make_parent ∷ write_temp contents ∷ move_temp ∷ []

-- the text that `write_ledger` builds, a row for each claim
unfoldable pub rendered : Codec → List Claim → Text
rendered codec claims = unlines (map (λ c. codec.dumps (to_mapping c)) claims)

module _ (x : Externals) where
  -- the loop of `_validated_claims`, after the claim ids `seen`
  unfoldable pub validate_claims : List Text → List Claim → Result LedgerError (List Claim)
  validate_claims seen [] = ok []
  validate_claims seen (claim ∷ rest) = do
    checked ← claim_of_json x (to_mapping claim)
    let more = validate_claims (checked.claim_id ∷ seen) rest
    raise_if (contains seen checked.claim_id) duplicate_claim
    claims ← more
    ok (checked ∷ claims)

module _ (x : Externals) (codec : Codec) where
  -- the loop of `load_ledger`, after the claim ids `seen`
  unfoldable pub load_lines : List Text → List Text → Result LedgerError (List Claim)
  load_lines seen [] = ok []
  load_lines seen (line ∷ rest) = do
    raise_if (is_blank line) blank_line
    raw ← or_raise (codec.loads line) bad_json
    claim ← claim_of_json x raw
    let more = load_lines (claim.claim_id ∷ seen) rest
    raise_if (contains seen claim.claim_id) duplicate_claim
    claims ← more
    ok (claim ∷ claims)

  unfoldable pub load_ledger : Disk → Result LedgerError (List Claim)
  load_ledger disk = do
    contents ← or_raise disk.ledger unreadable
    if is_blank contents then ok [] else load_lines [] (splitlines contents)

  unfoldable pub write_ledger : Fault → List Claim → Disk → Result LedgerError (Unit {0}) × Disk
  write_ledger fault claims disk = elim (validate_claims x [] claims) [
    | err e ↦ (err e, disk)
    | ok checked ↦ run_steps fault (write_steps (rendered codec checked)) disk
  ]
