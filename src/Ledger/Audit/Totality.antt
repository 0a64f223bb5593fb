-- ===== src/Ledger/Audit/Totality.antt =====
-- An audit of paths that the file system takes ends without an error.
use measure_twice.Prelude.{
  ◌≡◌, refl, inl, inr, Bool, true, false, Option, none, some, List, [], ◌∷◌, ◌++◌, arith,
  Option-cases, nat_eq, text_eq, option_eq, All, ok, err, Result-cases,
}
use measure_twice.Ledger.Store.Loading.{loaded-IsValid}
use measure_twice.Externals.{Externals}
use measure_twice.Json.{Codec}
use measure_twice.Ledger.Source.{LedgerError, ClaimSource, path_parts}
use measure_twice.Ledger.Source.Schema.{IsValidSource}
use measure_twice.Ledger.Claim.{Claim}
use measure_twice.Ledger.Claim.Schema.{IsValid}
use measure_twice.Ledger.Store.{Disk, Fault, load_ledger}
use measure_twice.Ledger.Audit.{
  Workspace, FilePath, AuditIssue, AuditResult, is_ledger_error, resolve_workspace_root,
  resolve_source_path, source_quote_sha256, audit_source, audit_sources, add_claim, audit_claims,
  unstarted, persist, audit_ledger,
}

-- `path.resolve` takes the path of the citation under the root, if that still resolves.
abbrev pub is_accepted : Workspace → FilePath → ClaimSource → Bool
is_accepted w root s = elim (w.resolve root) [
  | none ↦ true
  | some resolved ↦ w.accepts (resolved ++ path_parts s.file)
]

module _ (x : Externals) (w : Workspace) (root : FilePath) where
  -- For a valid citation whose path is taken no error passes through.
  source_quote_sha256-err :
      (s : ClaimSource) (e : LedgerError)
      → IsValidSource s
      → w.accepts root ≡ true
      → is_accepted w root s ≡ true
      → source_quote_sha256 x w s root ≡ err e
      → is_ledger_error e ≡ true
  unfolding source_quote_sha256 resolve_workspace_root resolve_source_path is_ledger_error
  source_quote_sha256-err s e v a b h = elim (Option-cases (w.resolve root)) [
    | inl p ↦ ground (arith, rw (a, p) at h)
    | inr (r, p) ↦ ground (arith, h, rw (p, is_accepted) at b)
  ]

  audit_source-ok :
      (c : Claim) (s : ClaimSource)
      → IsValidSource s
      → w.accepts root ≡ true
      → is_accepted w root s ≡ true
      → (o : Option AuditIssue) × (audit_source x w root c s ≡ ok o)
  audit_source-ok c s v a b = elim (Result-cases (audit_source x w root c s)) [
    | inl found ↦ found
    | inr (e, bad) ↦
        absurd (unfold audit_source in ground (arith, source_quote_sha256-err s e v a b))
  ]

  audit_sources-ok :
      (c : Claim) (l : List ClaimSource) (b : Bool) (issues : List AuditIssue)
      → All IsValidSource l
      → w.accepts root ≡ true
      → All (λ s. is_accepted w root s ≡ true) l
      → (r : Bool × List AuditIssue) × (audit_sources x w root c l b issues ≡ ok r)
  unfolding audit_sources
  audit_sources-ok c [] b issues v a t = ((b, issues), refl)
  audit_sources-ok c (s ∷ l) b issues v a t =
      let (o, e) = audit_source-ok c s v.0 a t.0 in
      elim (Option-cases o) [
        | inl p ↦ let (r, q) = audit_sources-ok c l b issues v.1 a t.1 in (r, rw (e, p) q)
        | inr (i, p) ↦
            let (r, q) = audit_sources-ok c l true (issues ++ i ∷ []) v.1 a t.1 in (r, rw (e, p) q)
      ]

  -- The loop over valid claims ends without an error, whatever the file system answers for the
  -- paths, if it takes them.
  pub audit_claims-ok :
      (claims : List Claim) (r : AuditResult)
      → All (IsValid x) claims
      → w.accepts root ≡ true
      → All (λ c. All (λ s. is_accepted w root s ≡ true) c.sources) claims
      → (r' : AuditResult) × (audit_claims x w root claims r ≡ ok r')
  unfolding audit_claims
  audit_claims-ok [] r v a t = (r, refl)
  audit_claims-ok (c ∷ rest) r v a t =
      let (found, e) = audit_sources-ok c c.sources false r.issues v.0.sources_valid a t.0 in
      let (r', e') = audit_claims-ok rest (add_claim c found.0 found.1 r) v.1 a t.1 in (r', rw e e')

-- `path.resolve` takes the root and the paths of all citations.
abbrev pub AreAccepted : Workspace → FilePath → List Claim → Type 0
AreAccepted w root claims =
    (w.accepts root ≡ true) × All (λ c. All (λ s. is_accepted w root s ≡ true) c.sources) claims

-- Once the ledger is loaded and the root resolved, an audit of paths that are taken gets to the
-- point where it persists.
pub audit_ledger-eq-persist :
    (x : Externals) (w : Workspace) (codec : Codec) (fault : Fault) (candidate root : FilePath)
    (disk : Disk) (claims : List Claim)
    → load_ledger x codec disk ≡ ok claims
    → resolve_workspace_root w candidate ≡ ok root
    → AreAccepted w root claims
    → (r : AuditResult) × (audit_claims x w root claims unstarted ≡ ok r)
      × (audit_ledger x w codec fault candidate disk ≡ persist x w codec fault r disk)
unfolding audit_ledger
audit_ledger-eq-persist x w codec fault candidate root disk claims loaded resolved taken =
    let (r, e) =
      audit_claims-ok x w root claims unstarted (loaded-IsValid x codec disk claims loaded).1
        taken.0 taken.1 in
    (r, e, rw (audit_ledger, loaded, resolved, e))
