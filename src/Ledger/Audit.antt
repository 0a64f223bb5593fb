-- ===== src/Ledger/Audit.antt =====
-- measure_twice/ledger.py: `source_quote_sha256` and `audit_ledger`.
pub mod Totality
pub mod Marking
pub mod Stability
use measure_twice.Prelude.{
  ℕ, ◌-◌, Bool, true, false, not, ◌&&◌, Option, none, some, List, [], ◌∷◌, ◌++◌, ltb, if◌then◌else◌,
  nat_eq, text_eq, option_eq, ◌==◌, length, take, drop, Result, ok, err, ◌>>=◌, ◌>>◌, raise_if,
  or_raise,
}
use measure_twice.Text.{Text, splitlines, join}
use measure_twice.Externals.{Externals}
use measure_twice.Json.{Codec}
use measure_twice.Ledger.Source.{
  LedgerError, int_too_long, key_error, bad_path, no_root, root_not_directory, no_source,
  outside_root, not_file, not_utf8, cites_past_end, ClaimSource, path_parts, validate_source_file,
  parse_line_range,
}
use measure_twice.Ledger.Claim.{Claim, stale, is_stale}
use measure_twice.Ledger.Store.{Disk, Fault, load_ledger, write_ledger}

-- An absolute path, by its parts.
abbrev pub FilePath : Type 0
FilePath = List Text

-- What an audit reads of the file system.
pub record Workspace : Type 0 where
  -- `path.resolve(strict=True)`: `none` for an `OSError` or a `RuntimeError`
  pub resolve : FilePath → Option FilePath
  -- whether `path.resolve` takes the path at all: no NUL in it and no lone surrogate, for which it
  -- raises a `ValueError` of its own or a `UnicodeEncodeError`
  pub accepts : FilePath → Bool
  pub is_dir : FilePath → Bool
  pub is_file : FilePath → Bool
  -- `path.read_text(encoding="utf-8")`: `none` for an `OSError` or a `UnicodeDecodeError`
  pub read_text : FilePath → Option Text

-- `resolved.relative_to(root)` raises no `ValueError`
unfoldable pub is_under : FilePath → FilePath → Bool
is_under [] path = true
is_under (r ∷ root) [] = false
is_under (r ∷ root) (p ∷ path) = r == p && is_under root path

pub data Reason : Type 0 where
  -- `str(exc)`
  failed : LedgerError → Reason
  -- "quoted source text changed (SHA-256 no longer matches)"
  changed : Reason

pub record AuditIssue : Type 0 where
  pub claim_id : Text
  pub source : ClaimSource
  pub reason : Reason

pub record AuditResult : Type 0 where
  pub claims : List Claim
  pub newly_stale : List Text
  pub issues : List AuditIssue

-- `except LedgerError`: the three that are other classes pass through
unfoldable pub is_ledger_error : LedgerError → Bool
is_ledger_error int_too_long = false
is_ledger_error key_error = false
is_ledger_error bad_path = false
is_ledger_error e = true

-- `AuditResult.stale_claim_ids`
unfoldable pub stale_claim_ids : List Claim → List Text
unfolding is_stale
stale_claim_ids [] = []
stale_claim_ids (c ∷ rest) =
    let ids = stale_claim_ids rest in if is_stale c.status then c.claim_id ∷ ids else ids

-- `AuditResult.fresh_count`
unfoldable pub fresh_count : List Claim → ℕ
fresh_count claims = length claims - length (stale_claim_ids claims)

-- the lines that `source` cites, joined again
abbrev quoted : List Text → ℕ × ℕ → Text
quoted all_lines (start, stop) = join (10 ∷ []) (drop (start - 1) (take stop all_lines))

abbrev add_claim : Claim → Bool → List AuditIssue → AuditResult → AuditResult
add_claim claim claim_is_stale issues r =
    if claim_is_stale && not (is_stale claim.status)
    then record {
      claims = r.claims ++ (record claim { status = stale }) ∷ [];
      newly_stale = r.newly_stale ++ claim.claim_id ∷ [];
      issues = issues;
    }
    else record r { claims = r.claims ++ claim ∷ []; issues = issues }

abbrev unstarted : AuditResult
unstarted = record { claims = []; newly_stale = []; issues = [] }

module _ (w : Workspace) where
  unfoldable pub resolve_workspace_root : FilePath → Result LedgerError FilePath
  resolve_workspace_root candidate = do
    raise_if (not (w.accepts candidate)) bad_path
    resolved ← or_raise (w.resolve candidate) no_root
    raise_if (not (w.is_dir resolved)) root_not_directory
    ok resolved

  unfoldable pub resolve_source_path : ClaimSource → FilePath → Result LedgerError FilePath
  resolve_source_path source root = do
    validate_source_file source.file
    raise_if (not (w.accepts (root ++ path_parts source.file))) bad_path
    resolved ← or_raise (w.resolve (root ++ path_parts source.file)) no_source
    raise_if (not (is_under root resolved)) outside_root
    raise_if (not (w.is_file resolved)) not_file
    ok resolved

module _ (x : Externals) (w : Workspace) where
  unfoldable pub source_quote_sha256 : ClaimSource → FilePath → Result LedgerError Text
  source_quote_sha256 source candidate = do
    root ← resolve_workspace_root w candidate
    path ← resolve_source_path w source root
    range ← parse_line_range source.lines
    contents ← or_raise (w.read_text path) not_utf8
    let all_lines = splitlines contents
    raise_if (ltb (length all_lines) range.1) cites_past_end
    ok (x.sha256 (quoted all_lines range))

  -- one turn of `for source in claim.sources`: the issue that it appends
  unfoldable pub audit_source :
      FilePath → Claim → ClaimSource → Result LedgerError (Option AuditIssue)
  audit_source root claim source = elim (source_quote_sha256 source root) [
    | ok actual_hash ↦
        if actual_hash == source.quote_sha256
        then ok none
        else ok (some (record { claim_id = claim.claim_id; source = source; reason = changed }))
    | err e ↦
        if is_ledger_error e
        then ok (some (record { claim_id = claim.claim_id; source = source; reason = failed e }))
        else err e
  ]

  -- `for source in claim.sources`, with `claim_is_stale` and `issues`
  unfoldable pub audit_sources :
      FilePath
      → Claim
      → List ClaimSource
      → Bool
      → List AuditIssue
      → Result LedgerError (Bool × List AuditIssue)
  audit_sources root claim [] claim_is_stale issues = ok (claim_is_stale, issues)
  audit_sources root claim (source ∷ rest) claim_is_stale issues =
      audit_source root claim source >>= λ found.
      let same = audit_sources root claim rest claim_is_stale issues in
      elim found [
        | none ↦ same
        | some issue ↦ audit_sources root claim rest true (issues ++ issue ∷ [])
      ]

  -- `for claim in claims`
  unfoldable pub audit_claims : FilePath → List Claim → AuditResult → Result LedgerError AuditResult
  audit_claims root [] r = ok r
  audit_claims root (claim ∷ rest) r =
      audit_sources root claim claim.sources false r.issues >>= λ found.
      audit_claims root rest (add_claim claim found.0 found.1 r)

  -- `if result.newly_stale: write_ledger(path, result.claims)`
  unfoldable pub persist :
      Codec → Fault → AuditResult → Disk → Result LedgerError AuditResult × Disk
  persist codec fault r disk = elim r.newly_stale [
    | [] ↦ (ok r, disk)
    | _ ∷ _ ↦
        let (written, after) = write_ledger x codec fault r.claims disk in (written >> ok r, after)
  ]

  unfoldable pub audit_ledger :
      Codec → Fault → FilePath → Disk → Result LedgerError AuditResult × Disk
  audit_ledger codec fault workspace_root disk =
      elim (do
        claims ← load_ledger x codec disk
        root ← resolve_workspace_root w workspace_root
        audit_claims root claims unstarted) [
          | err e ↦ (err e, disk)
          | ok r ↦ persist codec fault r disk
        ]
