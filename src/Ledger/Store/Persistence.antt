-- ===== src/Ledger/Store/Persistence.antt =====
-- What a write leaves on the disk, and what is read back from it.
use measure_twice.Prelude.{
  ℕ, zero, suc, ◌≡◌, refl, ◌⊎◌, inl, inr, false, none, some, List, [], ◌∷◌, map, nat_eq, text_eq,
  option_eq, take, All, ok, err, Result-cases,
}
use measure_twice.Text.{Text, is_blank, splitlines, unlines}
use measure_twice.Text.Lines.{IsLine, splitlines-unlines, is_blank-append}
use measure_twice.Externals.{Externals}
use measure_twice.Json.{Codec}
use measure_twice.Ledger.Source.{LedgerError, not_written}
use measure_twice.Ledger.Claim.{Claim, to_mapping}
use measure_twice.Ledger.Claim.Schema.{IsValid}
use measure_twice.Ledger.Claim.Roundtrip.{claim_of_json-to_mapping}
use measure_twice.Ledger.Store.{
  Disk, Fault, no_fault, mkdir_fault, temp_fault, replace_fault, attempt, run_steps, write_steps,
  validate_claims, load_lines, load_ledger, rendered, write_ledger,
}
use measure_twice.Ledger.Store.Loading.{DistinctClaims, validate_claims-eq-ok}

-- `json.dumps` of the claim is one line that is not blank, and `json.loads` reads it back.
pub record IsStored (codec : Codec) (c : Claim) : Type 0 where
  pub one_line : IsLine (codec.dumps (to_mapping c))
  pub not_blank : is_blank (codec.dumps (to_mapping c)) ≡ false
  pub read_back : codec.loads (codec.dumps (to_mapping c)) ≡ some (to_mapping c)

rendered-not-blank :
    (codec : Codec) (c : Claim) (rest : List Claim)
    → IsStored codec c
    → is_blank (rendered codec (c ∷ rest)) ≡ false
unfolding rendered unlines
rendered-not-blank codec c rest s = is_blank-append (codec.dumps (to_mapping c)) _ s.not_blank

rows-IsLine :
    (codec : Codec) (claims : List Claim)
    → All (IsStored codec) claims
    → All IsLine (map (λ c. codec.dumps (to_mapping c)) claims)
rows-IsLine codec [] s = tt
rows-IsLine codec (c ∷ rest) s = (s.0.one_line, rows-IsLine codec rest s.1)

splitlines-rendered :
    (codec : Codec) (claims : List Claim)
    → All (IsStored codec) claims
    → splitlines (rendered codec claims) ≡ map (λ c. codec.dumps (to_mapping c)) claims
unfolding rendered
splitlines-rendered codec claims s = splitlines-unlines _ (rows-IsLine codec claims s)

run_steps-atomic :
    (fault : Fault) (contents : Text) (disk : Disk)
    → let (r, after) = run_steps fault (write_steps contents) disk in
      ((e : LedgerError) × (r ≡ err e) × (after.ledger ≡ disk.ledger))
      ⊎ ((r ≡ ok tt) × (after.ledger ≡ some contents) × (after.temp ≡ none))
unfolding run_steps attempt write_steps
run_steps-atomic no_fault contents disk = inr (refl, refl, refl)
run_steps-atomic mkdir_fault contents disk = inl (not_written, refl, refl)
run_steps-atomic (temp_fault partial) contents disk = inl (not_written, refl, refl)
run_steps-atomic replace_fault contents disk = inl (not_written, refl, refl)

-- However many of the calls are made, the ledger is the old one or the new one.
stopped_steps :
    (fault : Fault) (contents : Text) (disk : Disk) (n : ℕ)
    → let cut = (run_steps fault (take n (write_steps contents)) disk).1 in
      (cut.ledger ≡ disk.ledger) ⊎ (cut.ledger ≡ some contents)
unfolding run_steps attempt write_steps
stopped_steps fault contents disk zero = inl refl
stopped_steps mkdir_fault contents disk (suc n) = inl refl
stopped_steps no_fault contents disk (suc zero) = inl refl
stopped_steps replace_fault contents disk (suc zero) = inl refl
stopped_steps (temp_fault partial) contents disk (suc zero) = inl refl
stopped_steps (temp_fault partial) contents disk (suc (suc n)) = inl refl
stopped_steps no_fault contents disk (suc (suc zero)) = inl refl
stopped_steps replace_fault contents disk (suc (suc zero)) = inl refl
stopped_steps no_fault contents disk (suc (suc (suc zero))) = inr refl
stopped_steps no_fault contents disk (suc (suc (suc (suc n)))) = inr refl
stopped_steps replace_fault contents disk (suc (suc (suc n))) = inl refl

module _ (x : Externals) (codec : Codec) where
  load_lines-rows :
      (seen : List Text) (claims : List Claim)
      → DistinctClaims seen claims
      → All (IsValid x) claims
      → All (IsStored codec) claims
      → load_lines x codec seen (map (λ c. codec.dumps (to_mapping c)) claims) ≡ ok claims
  unfolding load_lines
  load_lines-rows seen [] d v s = refl
  load_lines-rows seen (c ∷ rest) d v s = rw (
    s.0.not_blank,
    s.0.read_back,
    claim_of_json-to_mapping x c v.0,
    d.0,
    load_lines-rows (c.claim_id ∷ seen) rest d.1 v.1 s.1,
  )

  -- A file that holds the rows of valid claims with distinct ids loads as those claims.
  pub load-rendered :
      (disk : Disk) (claims : List Claim)
      → disk.ledger ≡ some (rendered codec claims)
      → DistinctClaims [] claims
      → All (IsValid x) claims
      → All (IsStored codec) claims
      → load_ledger x codec disk ≡ ok claims
  unfolding load_ledger
  load-rendered disk [] e d v s = rw e (unfold rendered unlines is_blank in refl)
  load-rendered disk (c ∷ rest) e d v s = rw (
    e,
    rendered-not-blank codec c rest s.0,
    splitlines-rendered codec (c ∷ rest) s,
    load_lines-rows [] (c ∷ rest) d v s,
  )

  -- The disk if the process ends after so many calls of the write, with or without a fault.
  abbrev pub stopped_write : ℕ → Fault → List Claim → Disk → Disk
  stopped_write n fault claims disk = elim (validate_claims x [] claims) [
    | err e ↦ disk
    | ok checked ↦ (run_steps fault (take n (write_steps (rendered codec checked))) disk).1
  ]

  -- A write is atomic. If it raises, in whichever of its calls, the ledger is as it was; if it does
  -- not, the claims are valid, the ledger is their rows, and the temporary file is gone. If the
  -- process ends after any number of the calls, the ledger is as it was or all the rows of valid
  -- claims.
  pub write_ledger_atomic :
      (fault : Fault) (claims : List Claim) (disk : Disk) (n : ℕ)
      → let (r, after) = write_ledger x codec fault claims disk in
        (((e : LedgerError) × (r ≡ err e) × (after.ledger ≡ disk.ledger))
          ⊎ ((checked : List Claim) × (validate_claims x [] claims ≡ ok checked)
              × (r ≡ ok tt)
              × (after.ledger ≡ some (rendered codec checked))
              × (after.temp ≡ none)))
        × (((stopped_write n fault claims disk).ledger ≡ disk.ledger)
            ⊎ ((checked : List Claim) × (validate_claims x [] claims ≡ ok checked)
                × ((stopped_write n fault claims disk).ledger ≡ some (rendered codec checked))))
  unfolding write_ledger
  write_ledger_atomic fault claims disk n = elim (Result-cases (validate_claims x [] claims)) [
    | inr (e, bad) ↦ rw (bad, write_ledger, stopped_write) (inl (e, refl, refl), inl refl)
    | inl (checked, h) ↦
        rw (h, write_ledger, stopped_write)
          (
            elim (run_steps-atomic fault (rendered codec checked) disk) [
              | inl (e, raised, same) ↦ inl (e, raised, same)
              | inr (done, written, gone) ↦ inr (checked, refl, done, written, gone)
            ],
            elim (stopped_steps fault (rendered codec checked) disk n) [
              | inl same ↦ inl same
              | inr written ↦ inr (checked, refl, written)
            ],
          )
  ]

  -- Valid claims with distinct ids that are written without a fault are loaded back, and the
  -- temporary file is gone.
  pub load-write :
      (claims : List Claim) (disk : Disk)
      → DistinctClaims [] claims
      → All (IsValid x) claims
      → All (IsStored codec) claims
      → let (r, after) = write_ledger x codec no_fault claims disk in
        (r ≡ ok tt) × (after.temp ≡ none) × (load_ledger x codec after ≡ ok claims)
  unfolding write_ledger run_steps write_steps attempt
  load-write claims disk d v s =
      rw (validate_claims-eq-ok x [] claims d v, write_ledger)
        (refl, refl, load-rendered _ claims refl d v s)
