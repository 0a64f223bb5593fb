-- ===== src/Tests/Ledger/Audit.antt =====
-- Tests of `load_ledger`, `write_ledger` and `audit_ledger`, on a ledger of two claims.
use measure_twice.Ledger.Audit.Stability.{audit_ledger_persists, audit_ledger_idempotent}
use measure_twice.Ledger.Source.{LedgerError, not_written}
use measure_twice.Ledger.Store.Loading.{validate_claims-eq-ok, load_ledger-IsValid, DistinctClaims}
use measure_twice.Ledger.Claim.Schema.{IsValid}
use measure_twice.Prelude.{
  ◌≡◌, refl, sym, subst, ◌⊎◌, true, not, Option, none, some, List, [], ◌∷◌, ◌++◌, map,
  if◌then◌else◌, nat_eq, text_eq, option_eq, ◌==◌, contains, length, all, All, ok, err,
}
use measure_twice.Text.Lines.{IsLine-of_all}
use measure_twice.Text.{Text, text, is_blank, is_break, splitlines, join}
use measure_twice.Json.{Codec, Json, str, obj, lookup}
use measure_twice.Ledger.Claim.{Claim, stale, to_mapping}
use measure_twice.Ledger.Store.{
  run_steps, attempt, write_steps, validate_claims, temp_fault, no_fault, load_ledger, write_ledger,
  Disk, rendered,
}
use measure_twice.Ledger.Store.Persistence.{
  stopped_write, load-write, write_ledger_atomic, load-rendered, IsStored,
}
use measure_twice.Ledger.Audit.{
  AuditResult, audit_ledger, resolve_workspace_root, Workspace, FilePath,
}
use measure_twice.Ledger.Audit.Totality.{AreAccepted}
use measure_twice.Ledger.Audit.Marking.{audit_ledger_marks, turned, marked}
use measure_twice.Tests.Ledger.{drifted-IsValid, claim-IsValid, externals, claim, drifted}

abbrev workspace : Workspace
workspace = record {
  resolve = λ path. some path;
  accepts = λ path. all (λ part. not (contains part 0)) path;
  is_dir = λ path. true;
  is_file = λ path. true;
  read_text = λ path. some (text "alpha" ++ (10 ∷ text "beta"));
}

abbrev root : FilePath
root = text "w" ∷ []

abbrev text_of : Option Json → Text
text_of (some (str s)) = s
text_of v = []

abbrev stale_claim : Claim
stale_claim = record drifted { status = stale }

-- Names a mapping by its status and its id.
abbrev name_of : Json → Text
name_of (obj f) =
    text_of (lookup (text "status") f) ++ (b':' ∷ text_of (lookup (text "claim_id") f))
name_of v = []

-- A codec for the claims of this file: a mapping is written as its name.
abbrev codec : Codec
codec = record {
  dumps = name_of;
  loads = λ s.
      if s == text "MEASURED:c1"
      then some (to_mapping claim)
      else if s == text "MEASURED:c2"
      then some (to_mapping drifted)
      else if s == text "STALE:c2"
      then some (to_mapping stale_claim)
      else none;
}

abbrev claims : List Claim
claims = claim ∷ drifted ∷ []

abbrev disk : Disk
disk = record { ledger = some (rendered codec claims); temp = none }

claim-IsStored : IsStored codec claim
unfolding to_mapping lookup nat_eq text_eq is_break is_blank
claim-IsStored = record {
  one_line = IsLine-of_all (codec.dumps (to_mapping claim)) refl;
  not_blank = refl;
  read_back = refl;
}

drifted-IsStored : IsStored codec drifted
unfolding to_mapping lookup nat_eq text_eq is_break is_blank
drifted-IsStored = record {
  one_line = IsLine-of_all (codec.dumps (to_mapping drifted)) refl;
  not_blank = refl;
  read_back = refl;
}

stale-IsStored : IsStored codec stale_claim
unfolding to_mapping lookup nat_eq text_eq is_break is_blank
stale-IsStored = record {
  one_line = IsLine-of_all (codec.dumps (to_mapping stale_claim)) refl;
  not_blank = refl;
  read_back = refl;
}

marked_claims : map (marked externals workspace root) claims ≡ claim ∷ stale_claim ∷ []
unfolding marked measure_twice.Ledger.Audit.Marking.is_fresh
    measure_twice.Ledger.Audit.Marking.is_current measure_twice.Ledger.Audit.source_quote_sha256
    resolve_workspace_root measure_twice.Ledger.Audit.resolve_source_path
    measure_twice.Ledger.Source.validate_source_file nat_eq text_eq
    measure_twice.Ledger.Audit.is_under measure_twice.Ledger.Source.parse_line_range splitlines join
marked_claims = refl

claims-distinct : DistinctClaims [] claims
unfolding nat_eq text_eq
claims-distinct = (refl, (refl, tt))

claims-IsValid : All (IsValid externals) claims
claims-IsValid = (claim-IsValid, (drifted-IsValid, tt))

claims-IsStored : All (IsStored codec) claims
claims-IsStored = (claim-IsStored, (drifted-IsStored, tt))

disk-loads : load_ledger externals codec disk ≡ ok claims
disk-loads =
    load-rendered externals codec disk claims refl claims-distinct claims-IsValid claims-IsStored

marked-IsStored : All (IsStored codec) (map (marked externals workspace root) claims)
marked-IsStored =
    subst (All (IsStored codec)) (sym marked_claims) (claim-IsStored, (stale-IsStored, tt))

root-resolves : resolve_workspace_root workspace root ≡ ok root
unfolding resolve_workspace_root nat_eq
root-resolves = refl

root-accepted : AreAccepted workspace root claims
unfolding nat_eq text_eq measure_twice.Ledger.Source.validate_source_file
root-accepted = (refl, ((refl, tt), ((refl, (refl, tt)), tt)))

load-write_example :
    let (r, after) = write_ledger externals codec no_fault claims disk in
    (r ≡ ok tt) × (after.temp ≡ none) × (load_ledger externals codec after ≡ ok claims)
load-write_example =
    load-write externals codec claims disk claims-distinct claims-IsValid claims-IsStored

torn-write : (write_ledger externals codec (temp_fault none) claims disk).0 ≡ err not_written
unfolding write_ledger
torn-write =
    rw (write_ledger, validate_claims-eq-ok externals [] claims claims-distinct claims-IsValid)
      (unfold run_steps attempt write_steps in refl)

write_ledger_atomic_example :
    let (r, after) = write_ledger externals codec (temp_fault none) claims disk in
    let cut = stopped_write externals codec 2 (temp_fault none) claims disk in
    (((e : LedgerError) × (r ≡ err e) × (after.ledger ≡ disk.ledger))
      ⊎ ((checked : List Claim) × (validate_claims externals [] claims ≡ ok checked)
          × (r ≡ ok tt)
          × (after.ledger ≡ some (rendered codec checked))
          × (after.temp ≡ none)))
    × ((cut.ledger ≡ disk.ledger)
        ⊎ ((checked : List Claim) × (validate_claims externals [] claims ≡ ok checked)
            × (cut.ledger ≡ some (rendered codec checked))))
write_ledger_atomic_example = write_ledger_atomic externals codec (temp_fault none) claims disk 2

load_ledger-IsValid_example :
    DistinctClaims [] claims
    × All (IsValid externals) claims
    × (2 ≡ (
        if is_blank (rendered codec claims)
        then 0
        else length (splitlines (rendered codec claims))))
load_ledger-IsValid_example =
    load_ledger-IsValid externals codec disk (rendered codec claims) claims refl disk-loads

audited :
    let (result, after) = audit_ledger externals workspace codec no_fault root disk in
    (r : AuditResult) × (result ≡ ok r)
    × (load_ledger externals codec after ≡ ok r.claims)
    × (r.newly_stale ≡ [] → after ≡ disk)
audited =
    audit_ledger_persists externals workspace codec root root disk claims disk-loads root-resolves
      root-accepted marked-IsStored

audit_ledger_persists_example :
    let (result, after) = audit_ledger externals workspace codec no_fault root disk in
    (r : AuditResult) × (result ≡ ok r)
    × (load_ledger externals codec after ≡ ok r.claims)
    × (r.newly_stale ≡ [] → after ≡ disk)
audit_ledger_persists_example =
    audit_ledger_persists externals workspace codec root root disk claims disk-loads root-resolves
      root-accepted marked-IsStored

audit_ledger_marks_example :
    (audited.0.claims ≡ map (marked externals workspace root) claims)
    × (audited.0.newly_stale ≡ turned externals workspace root claims)
audit_ledger_marks_example =
    audit_ledger_marks externals workspace codec no_fault root root disk claims audited.0 disk-loads
      root-resolves audited.1

audit_ledger_idempotent_example :
    let after = (audit_ledger externals workspace codec no_fault root disk).1 in
    let (result, later) = audit_ledger externals workspace codec no_fault root after in
    (r : AuditResult) × (result ≡ ok r)
    × (r.newly_stale ≡ [])
    × (r.claims ≡ map (marked externals workspace root) claims)
    × (later ≡ after)
audit_ledger_idempotent_example =
    audit_ledger_idempotent externals workspace codec root root disk claims disk-loads root-resolves
      root-accepted marked-IsStored
