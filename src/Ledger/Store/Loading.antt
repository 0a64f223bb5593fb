-- ===== src/Ledger/Store/Loading.antt =====
-- What a list of claims satisfies that was loaded, or that was accepted for writing.
use measure_twice.Prelude.{
  Option-cases, suc, ◌≡◌, refl, sym, ap, inl, inr, false, some, List, [], ◌∷◌, arith, if◌then◌else◌,
  Bool-cases, nat_eq, text_eq, option_eq, contains, length, All, ok, raise_if, or_raise, bind-eq-ok,
  ok-injective,
}
use measure_twice.Text.{Text, is_blank, splitlines}
use measure_twice.Externals.{Externals}
use measure_twice.Json.{Json, Codec}
use measure_twice.Ledger.Claim.{Claim, claim_of_json}
use measure_twice.Ledger.Claim.Schema.{IsValid, from_mapping-IsValid}
use measure_twice.Ledger.Claim.Roundtrip.{claim_of_json-to_mapping}
use measure_twice.Ledger.Store.{Disk, load_lines, load_ledger, validate_claims}

-- No two claims have one id, and none has an id of `seen`.
abbrev pub DistinctClaims : List Text → List Claim → Type 0
DistinctClaims seen [] = Unit
DistinctClaims seen (c ∷ rest) =
    (contains seen c.claim_id ≡ false) × DistinctClaims (c.claim_id ∷ seen) rest

module _ (x : Externals) where
  pub claim_of_json-IsValid : (v : Json) (c : Claim) → claim_of_json x v ≡ ok c → IsValid x c
  unfolding claim_of_json
  claim_of_json-IsValid (Json.obj value) c h = from_mapping-IsValid x value c h
  claim_of_json-IsValid _ c h = cc

  module _ (codec : Codec) where
    -- The claims that the loop collects are valid and distinct, one for each line.
    pub load_lines-IsValid :
        (seen : List Text) (lines : List Text) (claims : List Claim)
        → load_lines x codec seen lines ≡ ok claims
        → DistinctClaims seen claims × All (IsValid x) claims × (length claims ≡ length lines)
    unfolding load_lines
    load_lines-IsValid seen [] claims h = rw (sym (ok-injective h)) (tt, tt, refl)
    load_lines-IsValid seen (line ∷ rest) claims h =
        let (_, _, h₁) = bind-eq-ok (raise_if (is_blank line) _) _ h in
        let (raw, _, h₂) = bind-eq-ok (or_raise (codec.loads line) _) _ h₁ in
        let (c, p, h₃) = bind-eq-ok (claim_of_json x raw) _ h₂ in
        elim (Bool-cases (contains seen c.claim_id)) [
          | inl old ↦ absurd (ground arith)
          | inr new ↦
              let (cs, q, h₄) =
                bind-eq-ok (load_lines x codec (c.claim_id ∷ seen) rest) _ (rw new at h₃) in
              let (d, v, n) = load_lines-IsValid (c.claim_id ∷ seen) rest cs q in
              rw (sym (ok-injective h₄)) ((new, d), (claim_of_json-IsValid raw c p, v), ap suc n)
        ]

    -- A ledger that loads holds valid claims with distinct ids, one for each line of the file; a
    -- file of nothing but white space holds none.
    pub load_ledger-IsValid :
        (disk : Disk) (contents : Text) (claims : List Claim)
        → disk.ledger ≡ some contents
        → load_ledger x codec disk ≡ ok claims
        → DistinctClaims [] claims
          × All (IsValid x) claims
          × (length claims ≡ (if is_blank contents then 0 else length (splitlines contents)))
    unfolding load_ledger
    load_ledger-IsValid disk contents claims e h = elim (Bool-cases (is_blank contents)) [
      | inl empty ↦ rw (empty, sym (ok-injective (rw (e, empty) at h))) (tt, tt, refl)
      | inr full ↦ rw full (load_lines-IsValid [] (splitlines contents) claims (rw (e, full) at h))
    ]

  pub loaded-IsValid :
      (codec : Codec) (disk : Disk) (claims : List Claim)
      → load_ledger x codec disk ≡ ok claims
      → DistinctClaims [] claims × All (IsValid x) claims
  loaded-IsValid codec disk claims h = elim (Option-cases disk.ledger) [
    | inl e ↦ absurd (unfold load_ledger in ground arith)
    | inr (contents, e) ↦
        let (d, v, _) = load_ledger-IsValid codec disk contents claims e h in (d, v)
  ]

  -- Valid claims with distinct ids pass the check before a write, unchanged.
  pub validate_claims-eq-ok :
      (seen : List Text) (claims : List Claim)
      → DistinctClaims seen claims
      → All (IsValid x) claims
      → validate_claims x seen claims ≡ ok claims
  unfolding validate_claims
  validate_claims-eq-ok seen [] d v = refl
  validate_claims-eq-ok seen (c ∷ rest) d v = rw (
    claim_of_json-to_mapping x c v.0,
    d.0,
    validate_claims-eq-ok (c.claim_id ∷ seen) rest d.1 v.1,
  )
