-- ===== src/Ledger/Audit/Stability.antt =====
-- What an audit leaves on the disk, and what a second audit finds.
use measure_twice.Prelude.{
  ◌≡◌, refl, sym, ◌∙◌, inl, inr, true, false, not, ◌&&◌, List, [], ◌∷◌, map, arith, Bool-cases,
  nat_eq, text_eq, option_eq, All, ok,
}
use measure_twice.Text.{Text}
use measure_twice.Externals.{Externals}
use measure_twice.Json.{Codec}
use measure_twice.Ledger.Claim.{Claim, is_stale}
use measure_twice.Ledger.Claim.Schema.{IsValid}
use measure_twice.Ledger.Store.{Disk, no_fault, load_ledger}
use measure_twice.Ledger.Store.Loading.{loaded-IsValid, DistinctClaims}
use measure_twice.Ledger.Store.Persistence.{IsStored, load-write}
use measure_twice.Ledger.Audit.{
  Workspace, FilePath, AuditResult, AuditIssue, resolve_workspace_root, unstarted, persist,
  audit_ledger,
}
use measure_twice.Ledger.Audit.Totality.{AreAccepted, is_accepted, audit_ledger-eq-persist}
use measure_twice.Ledger.Audit.Marking.{
  audit_ledger_marks, is_fresh, marked, turned, audit_claims-marked,
}

module _ (x : Externals) (w : Workspace) (root : FilePath) where
  marked-IsValid : (c : Claim) → IsValid x c → IsValid x (marked x w root c)
  unfolding marked
  marked-IsValid c v = elim (Bool-cases (is_fresh x w root c)) [
    | inl e ↦ rw e v
    | inr e ↦ rw e (record {
      id_present = v.id_present;
      id_safe = v.id_safe;
      statement_present = v.statement_present;
      surface_present = v.surface_present;
      sources_present = v.sources_present;
      sources_valid = v.sources_valid;
      evidence_distinct = v.evidence_distinct;
      preregistration_present = v.preregistration_present;
      time_present = v.time_present;
      time_valid = v.time_valid;
      measured_backed = λ p. cc;
    })
  ]

  id-marked : (c : Claim) → (marked x w root c).claim_id ≡ c.claim_id
  unfolding marked
  id-marked c = ground arith

  map-marked-IsValid :
      (claims : List Claim)
      → All (IsValid x) claims
      → All (IsValid x) (map (marked x w root) claims)
  map-marked-IsValid [] v = tt
  map-marked-IsValid (c ∷ rest) v = (marked-IsValid c v.0, map-marked-IsValid rest v.1)

  map-marked-DistinctClaims :
      (seen : List Text) (claims : List Claim)
      → DistinctClaims seen claims
      → DistinctClaims seen (map (marked x w root) claims)
  map-marked-DistinctClaims seen [] d = tt
  map-marked-DistinctClaims seen (c ∷ rest) d =
      rw (id-marked c) (d.0, map-marked-DistinctClaims (c.claim_id ∷ seen) rest d.1)

  sources-marked : (c : Claim) → (marked x w root c).sources ≡ c.sources
  unfolding marked
  sources-marked c = ground arith

  map-marked-accepted :
      (claims : List Claim)
      → All (λ c. All (λ s. is_accepted w root s ≡ true) c.sources) claims
      → All (λ c. All (λ s. is_accepted w root s ≡ true) c.sources) (map (marked x w root) claims)
  map-marked-accepted [] t = tt
  map-marked-accepted (c ∷ rest) t = (rw (sources-marked c) t.0, map-marked-accepted rest t.1)

  -- A claim that was marked is fresh or stale, and a second look changes nothing.
  is_fresh-marked : (c : Claim) → is_fresh x w root (marked x w root c) ≡ is_fresh x w root c
  unfolding marked is_fresh
  is_fresh-marked c = ground arith

  marked-marked : (c : Claim) → marked x w root (marked x w root c) ≡ marked x w root c
  unfolding marked is_fresh
  marked-marked c = ground arith

  turns-marked :
      (c : Claim)
      → (not (is_fresh x w root (marked x w root c)) && not (is_stale (marked x w root c).status))
        ≡ false
  unfolding marked is_fresh is_stale
  turns-marked c = ground arith

  turned-marked : (claims : List Claim) → turned x w root (map (marked x w root) claims) ≡ []
  unfolding turned
  turned-marked [] = refl
  turned-marked (c ∷ rest) = rw (turns-marked c) (turned-marked rest)

  map-marked-marked :
      (claims : List Claim)
      → map (marked x w root) (map (marked x w root) claims) ≡ map (marked x w root) claims
  map-marked-marked [] = refl
  map-marked-marked (c ∷ rest) = rw (marked-marked c, map-marked-marked rest)

  unturned-marked :
      (c : Claim)
      → (not (is_fresh x w root c) && not (is_stale c.status)) ≡ false
      → marked x w root c ≡ c
  unfolding marked is_stale
  unturned-marked c h = ground arith

  turned-nil :
      (claims : List Claim) → turned x w root claims ≡ [] → map (marked x w root) claims ≡ claims
  unfolding turned
  turned-nil [] h = refl
  turned-nil (c ∷ rest) h =
      elim (Bool-cases (not (is_fresh x w root c) && not (is_stale c.status))) [
        | inl e ↦ absurd (cc (rw e at h))
        | inr e ↦ rw (unturned-marked c e, turned-nil rest (rw e at h))
      ]

persist-load :
    (x : Externals) (w : Workspace) (codec : Codec) (disk : Disk) (claims : List Claim)
    (newly : List Text) (issues : List AuditIssue)
    → DistinctClaims [] claims
    → All (IsValid x) claims
    → All (IsStored codec) claims
    → (newly ≡ [] → load_ledger x codec disk ≡ ok claims)
    → let r : AuditResult = record { claims = claims; newly_stale = newly; issues = issues } in
      let (result, after) = persist x w codec no_fault r disk in
      (result ≡ ok r) × (load_ledger x codec after ≡ ok claims) × (newly ≡ [] → after ≡ disk)
unfolding persist
persist-load x w codec disk claims [] issues d v s same = (refl, same refl, λ _. refl)
persist-load x w codec disk claims (_ ∷ _) issues d v s same =
    let (written, _, back) = load-write x codec claims disk d v s in (rw written, back, λ p. cc)

-- Let the ledger load and the root resolve, `path.resolve` take the root and the path of every
-- citation, the claims that result survive the codec, and the write meet no fault. Then an audit
-- reports, and what it leaves on the disk loads as the claims that it reports; if no claim turned
-- stale the disk is untouched.
pub audit_ledger_persists :
    (x : Externals) (w : Workspace) (codec : Codec) (candidate root : FilePath) (disk : Disk)
    (claims : List Claim)
    → load_ledger x codec disk ≡ ok claims
    → resolve_workspace_root w candidate ≡ ok root
    → AreAccepted w root claims
    → All (IsStored codec) (map (marked x w root) claims)
    → let (result, after) = audit_ledger x w codec no_fault candidate disk in
      (r : AuditResult) × (result ≡ ok r)
      × (load_ledger x codec after ≡ ok r.claims)
      × (r.newly_stale ≡ [] → after ≡ disk)
audit_ledger_persists x w codec candidate root disk claims loaded resolved taken stored =
    let (r, e, p) =
      audit_ledger-eq-persist x w codec no_fault candidate root disk claims loaded resolved taken in
    let (same, turns) = audit_claims-marked x w root claims unstarted r e in
    let (d, v) = loaded-IsValid x codec disk claims loaded in
    let (done, back, still) =
      persist-load x w codec disk r.claims r.newly_stale r.issues
        (rw same (map-marked-DistinctClaims x w root [] claims d))
        (rw same (map-marked-IsValid x w root claims v)) (rw same stored)
        (λ none_turned. rw (same, turned-nil x w root claims (sym turns ∙ none_turned)) loaded) in
    rw p (r, done, back, still)

-- Let the ledger load and the root resolve, `path.resolve` take the root and the path of every
-- citation, the claims that result survive the codec, and the writes meet no fault. Then a second
-- audit of the same workspace finds nothing newly stale, reports the same claims and leaves the
-- disk as the first one left it.
pub audit_ledger_idempotent :
    (x : Externals) (w : Workspace) (codec : Codec) (candidate root : FilePath) (disk : Disk)
    (claims : List Claim)
    → load_ledger x codec disk ≡ ok claims
    → resolve_workspace_root w candidate ≡ ok root
    → AreAccepted w root claims
    → All (IsStored codec) (map (marked x w root) claims)
    → let after = (audit_ledger x w codec no_fault candidate disk).1 in
      let (result, later) = audit_ledger x w codec no_fault candidate after in
      (r : AuditResult) × (result ≡ ok r)
      × (r.newly_stale ≡ [])
      × (r.claims ≡ map (marked x w root) claims)
      × (later ≡ after)
audit_ledger_idempotent x w codec candidate root disk claims loaded resolved taken stored =
    let after = (audit_ledger x w codec no_fault candidate disk).1 in
    let (r, e, back, _) =
      audit_ledger_persists x w codec candidate root disk claims loaded resolved taken stored in
    let (same, _) =
      audit_ledger_marks x w codec no_fault candidate root disk claims r loaded resolved e in
    let loaded' = rw same at back in
    let again = map-marked-marked x w root claims in
    let (r', e', _, still) =
      audit_ledger_persists x w codec candidate root after (map (marked x w root) claims) loaded'
        resolved (taken.0, map-marked-accepted x w root claims taken.1) (rw again stored) in
    let (same', turns') =
      audit_ledger_marks x w codec no_fault candidate root after (map (marked x w root) claims) r'
        loaded' resolved e' in
    let quiet = turns' ∙ turned-marked x w root claims in
    (r', e', quiet, same' ∙ again, still quiet)
