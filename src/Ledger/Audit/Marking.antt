-- ===== src/Ledger/Audit/Marking.antt =====
-- Which claims an audit marks stale: exactly those with a citation whose hash no longer matches.
use measure_twice.Prelude.{
  ◌≡◌, sym, ap, ◌∙◌, inl, inr, Bool, true, false, not, ◌&&◌, ◌||◌, Option, none, some, List, [],
  ◌∷◌, ◌++◌, map, append-nil, append_assoc, arith, if◌then◌else◌, Option-cases, nat_eq, text_eq,
  option_eq, ◌==◌, all, Result, ok, err, bind-eq-ok, Result-cases, ok-injective,
}
use measure_twice.Text.{Text}
use measure_twice.Externals.{Externals}
use measure_twice.Json.{Codec}
use measure_twice.Ledger.Source.{LedgerError, ClaimSource}
use measure_twice.Ledger.Claim.{Claim, stale, is_stale}
use measure_twice.Ledger.Store.{Disk, Fault, load_ledger}
use measure_twice.Ledger.Audit.{
  Workspace, FilePath, AuditIssue, AuditResult, resolve_workspace_root, source_quote_sha256,
  audit_source, audit_sources, add_claim, audit_claims, unstarted, persist, audit_ledger,
}

module _ (x : Externals) (w : Workspace) (root : FilePath) where
  -- The cited lines can be read, and have the hash that the citation records.
  unfoldable pub is_current : ClaimSource → Bool
  is_current source = elim (source_quote_sha256 x w source root) [
    | ok actual ↦ actual == source.quote_sha256
    | err e ↦ false
  ]

  unfoldable pub is_fresh : Claim → Bool
  is_fresh claim = all is_current claim.sources

  unfoldable pub marked : Claim → Claim
  marked claim = if is_fresh claim then claim else record claim { status = stale }

  -- the ids of the claims that turn stale
  unfoldable pub turned : List Claim → List Text
  turned [] = []
  turned (c ∷ rest) =
      let ids = turned rest in
      if not (is_fresh c) && not (is_stale c.status) then c.claim_id ∷ ids else ids

  abbrev has_issue : Option AuditIssue → Bool
  has_issue none = false
  has_issue (some i) = true

  audit_source-is_current :
      (c : Claim) (s : ClaimSource) (o : Option AuditIssue)
      → audit_source x w root c s ≡ ok o
      → has_issue o ≡ not (is_current s)
  unfolding audit_source is_current
  audit_source-is_current c s o h = ground arith

  audit_sources-is_current :
      (c : Claim) (l : List ClaimSource) (b : Bool) (issues : List AuditIssue)
      (r : Bool × List AuditIssue)
      → audit_sources x w root c l b issues ≡ ok r
      → r.0 ≡ (b || not (all is_current l))
  unfolding audit_sources
  audit_sources-is_current c [] b issues r h = ground arith
  audit_sources-is_current c (s ∷ l) b issues r h =
      let (o, e, h') = bind-eq-ok (audit_source x w root c s) _ h in
      elim (Option-cases o) [
        | inl p ↦
            ground (arith, audit_source-is_current c s o e, audit_sources-is_current c l b issues r)
        | inr (i, p) ↦ ground (
          arith,
          audit_source-is_current c s o e,
          audit_sources-is_current c l true (issues ++ i ∷ []) r,
        )
      ]

  mark_stale : (c : Claim) → is_stale c.status ≡ true → record c { status = stale } ≡ c
  unfolding is_stale
  mark_stale c h = ground arith

  turned-cons : (c : Claim) (rest : List Claim) → turned (c ∷ rest) ≡ turned (c ∷ []) ++ turned rest
  unfolding turned
  turned-cons c rest = ground arith

  add_claim-marked :
      (c : Claim) (b : Bool) (issues : List AuditIssue) (r : AuditResult)
      → b ≡ not (is_fresh c)
      → ((add_claim c b issues r).claims ≡ r.claims ++ marked c ∷ [])
        × ((add_claim c b issues r).newly_stale ≡ r.newly_stale ++ turned (c ∷ []))
  unfolding marked turned
  add_claim-marked c b issues r h =
      (ground (arith, mark_stale c), ground (arith, append-nil r.newly_stale))

  pub audit_claims-marked :
      (claims : List Claim) (r r' : AuditResult)
      → audit_claims x w root claims r ≡ ok r'
      → (r'.claims ≡ r.claims ++ map marked claims)
        × (r'.newly_stale ≡ r.newly_stale ++ turned claims)
  unfolding audit_claims
  audit_claims-marked [] r r' h =
      rw (sym (ok-injective h))
        (sym (append-nil r.claims), unfold turned in sym (append-nil r.newly_stale))
  audit_claims-marked (c ∷ rest) r r' h =
      let (found, e, h') = bind-eq-ok (audit_sources x w root c c.sources false r.issues) _ h in
      let flag = audit_sources-is_current c c.sources false r.issues found e in
      let (p, q) = add_claim-marked c found.0 found.1 r (unfold is_fresh in flag) in
      let (p', q') = audit_claims-marked rest (add_claim c found.0 found.1 r) r' h' in
      (
        p'
            ∙ ap (λ l. l ++ map marked rest) p
            ∙ append_assoc r.claims (marked c ∷ []) (map marked rest),
        rw turned-cons (
            q'
            ∙ ap (λ l. l ++ turned rest) q
            ∙ append_assoc r.newly_stale (turned (c ∷ [])) (turned rest)),
      )

persist-result :
    (x : Externals) (w : Workspace) (codec : Codec) (fault : Fault) (disk : Disk)
    (r r' : AuditResult)
    → (persist x w codec fault r disk).0 ≡ ok r'
    → r ≡ r'
unfolding persist
persist-result x w codec fault disk r r' h = ground arith

-- An audit that reports got to the point where it persists.
reported-eq-persist :
    (x : Externals) (w : Workspace) (codec : Codec) (fault : Fault) (candidate root : FilePath)
    (disk : Disk) (claims : List Claim) (r : AuditResult)
    → load_ledger x codec disk ≡ ok claims
    → resolve_workspace_root w candidate ≡ ok root
    → (audit_ledger x w codec fault candidate disk).0 ≡ ok r
    → (r' : AuditResult) × (audit_claims x w root claims unstarted ≡ ok r')
      × (audit_ledger x w codec fault candidate disk ≡ persist x w codec fault r' disk)
unfolding audit_ledger
reported-eq-persist x w codec fault candidate root disk claims r loaded resolved h =
    elim (Result-cases (audit_claims x w root claims unstarted)) [
      | inl (r', e) ↦ (r', e, rw (audit_ledger, loaded, resolved, e))
      | inr (e, bad) ↦ absurd (raised-not-ok (rw (audit_ledger, loaded, resolved, bad) at h))
    ]
  where
    raised-not-ok :
        {e : LedgerError} {a : AuditResult}
        → ◌≡◌ {A = Result LedgerError AuditResult} (err e) (ok a)
        → ⊥
    raised-not-ok h = cc

-- Whatever an audit reports, its claims are the loaded ones, each with its status changed to STALE
-- if one of its citations no longer has its recorded hash and with no change at all if not; and
-- the ids that it calls newly stale are those that were not stale and have such a citation.
pub audit_ledger_marks :
    (x : Externals) (w : Workspace) (codec : Codec) (fault : Fault) (candidate root : FilePath)
    (disk : Disk) (claims : List Claim) (r : AuditResult)
    → load_ledger x codec disk ≡ ok claims
    → resolve_workspace_root w candidate ≡ ok root
    → (audit_ledger x w codec fault candidate disk).0 ≡ ok r
    → (r.claims ≡ map (marked x w root) claims) × (r.newly_stale ≡ turned x w root claims)
audit_ledger_marks x w codec fault candidate root disk claims r loaded resolved h =
    let (r', e, p) =
      reported-eq-persist x w codec fault candidate root disk claims r loaded resolved h in
    let same = persist-result x w codec fault disk r' r (rw p at h) in
    audit_claims-marked x w root claims unstarted r (rw same at e)
