-- ===== src/Ledger/Claim.antt =====
-- measure_twice/ledger.py: `ClaimStatus`, and `Claim` with its two mappings.
pub mod Schema
pub mod Roundtrip
use measure_twice.Prelude.{
  Bool, true, false, not, Option, none, some, List, [], ◌∷◌, ◌++◌, map, if◌then◌else◌, nat_eq,
  text_eq, option_eq, ◌==◌, contains, Result, ok, err, ◌>>=◌, ◌>>◌, raise_if, or_raise, traverse,
}
use measure_twice.Text.{Text, text, is_blank}
use measure_twice.Json.{Json, Items, Fields, field, end, null, str, arr, obj, to_list, of_list}
use measure_twice.Externals.{Externals}
use measure_twice.Ledger.Source.{
  LedgerError, not_utc, not_iso, no_offset, unsafe_claim_id, no_sources, source_not_object,
  bad_status, evidence_not_list, duplicate_run, bad_verdict, bad_preregistration,
  blank_preregistration, measured_without_evidence, measured_without_preregistration,
  require_exact_keys, index, text_field, not_object, require_nonempty_string, ClaimSource,
  source_from_mapping, source_to_mapping,
}

pub data ClaimStatus : Type 0 where
  measured partial asserted stale : ClaimStatus

-- `status.value`
unfoldable pub status_value : ClaimStatus → Text
status_value measured = text "MEASURED"
status_value partial = text "PARTIAL"
status_value asserted = text "ASSERTED"
status_value stale = text "STALE"

-- `ClaimStatus(value)`, which raises a `ValueError` for any other text
unfoldable pub status_of_value : Text → Option ClaimStatus
status_of_value s =
    if s == text "MEASURED"
    then some measured
    else if s == text "PARTIAL"
    then some partial
    else if s == text "ASSERTED"
    then some asserted
    else if s == text "STALE"
    then some stale
    else none

unfoldable pub is_stale : ClaimStatus → Bool
is_stale stale = true
is_stale status = false

pub record Claim : Type 0 where
  pub claim_id : Text
  pub statement : Text
  pub decision_surface : Text
  pub sources : List ClaimSource
  pub status : ClaimStatus
  pub evidence : List Text
  pub verdict : Option Text
  pub preregistration : Option Text
  pub last_verified_utc : Text

abbrev claim_keys : List Text
claim_keys =
    text "claim_id"
    ∷ text "statement"
    ∷ text "decision_surface"
    ∷ text "sources"
    ∷ text "status"
    ∷ text "evidence"
    ∷ text "verdict"
    ∷ text "preregistration"
    ∷ text "last_verified_utc"
    ∷ []

-- `for index, raw_source in enumerate(raw_sources, start=1)`
unfoldable pub source_of_json : Json → Result LedgerError ClaimSource
unfolding source_from_mapping
source_of_json (obj value) = source_from_mapping value
source_of_json v = err source_not_object

-- `raw_sources`: a list that is not empty
unfoldable pub sources_of_json : Json → Result LedgerError (List ClaimSource)
unfolding to_list source_of_json
sources_of_json (arr (Items.cons v rest)) = traverse source_of_json (v ∷ to_list rest)
sources_of_json v = err no_sources

-- the loop over `raw_evidence`, after the run ids `seen`
unfoldable pub collect_evidence : List Text → List Json → Result LedgerError (List Text)
unfolding require_nonempty_string
collect_evidence seen [] = ok seen
collect_evidence seen (v ∷ rest) = require_nonempty_string v >>= λ run_id.
    let more = collect_evidence (seen ++ run_id ∷ []) rest in
    if contains seen run_id then err duplicate_run else more

unfoldable pub evidence_of_json : Json → Result LedgerError (List Text)
unfolding to_list collect_evidence
evidence_of_json (arr items) = collect_evidence [] (to_list items)
evidence_of_json v = err evidence_not_list

-- `value is not None and not isinstance(value, str)`
unfoldable pub optional_text : Json → LedgerError → Result LedgerError (Option Text)
optional_text null e = ok none
optional_text (str s) e = ok (some s)
optional_text v e = err e

unfoldable pub require_not_blank : Option Text → Result LedgerError (Unit {0})
unfolding is_blank
require_not_blank none = ok tt
require_not_blank (some s) = raise_if (is_blank s) blank_preregistration

-- the last check of `Claim.from_mapping`
unfoldable pub require_measured :
    ClaimStatus → List Text → Option Text → Result LedgerError (Unit {0})
require_measured measured [] preregistration = err measured_without_evidence
require_measured measured (x ∷ xs) none = err measured_without_preregistration
require_measured status evidence preregistration = ok tt

-- `value.endswith("Z")`, and `value[:-1]` if it does
unfoldable pub before_z : Text → Option Text
before_z [] = none
before_z (c ∷ []) = if c == b'Z' then some [] else none
before_z (c ∷ d ∷ s) = elim (before_z (d ∷ s)) [ none ↦ none | some r ↦ some (c ∷ r) ]

abbrev offset_of : Option Bool → Result LedgerError (Unit {0})
offset_of none = err not_iso
offset_of (some has_offset) = raise_if (not has_offset) no_offset

unfoldable pub optional_json : Option Text → Json
optional_json none = null
optional_json (some s) = str s

-- `Claim.to_mapping`
unfoldable pub to_mapping : Claim → Json
unfolding source_to_mapping status_value optional_json of_list
to_mapping c =
    let sources = arr (of_list (map (λ s. obj (source_to_mapping s)) c.sources)) in
    obj (
      field (text "claim_id") (str c.claim_id) (
        field (text "statement") (str c.statement) (
          field (text "decision_surface") (str c.decision_surface) (
            field (text "sources") sources (
              field (text "status") (str (status_value c.status)) (
                field (text "evidence") (arr (of_list (map str c.evidence))) (
                  field (text "verdict") (optional_json c.verdict) (
                    field (text "preregistration") (optional_json c.preregistration)
                      (field (text "last_verified_utc") (str c.last_verified_utc) end)))))))))

unfoldable pub sources_field : Fields → Result LedgerError (List ClaimSource)
sources_field value = do v ← index value (text "sources"); sources_of_json v

unfoldable pub status_field : Fields → Result LedgerError ClaimStatus
status_field value = do
  raw ← text_field value (text "status")
  or_raise (status_of_value raw) bad_status

unfoldable pub evidence_field : Fields → Result LedgerError (List Text)
evidence_field value = do v ← index value (text "evidence"); evidence_of_json v

unfoldable pub optional_field : Fields → Text → LedgerError → Result LedgerError (Option Text)
optional_field value key e = do v ← index value key; optional_text v e

module _ (x : Externals) where
  unfoldable pub validate_timestamp : Text → Result LedgerError (Unit {0})
  unfolding before_z
  validate_timestamp value = do
    naive ← or_raise (before_z value) not_utc
    offset_of (x.fromisoformat (naive ++ text "+00:00"))

  -- `Claim.from_mapping`
  unfoldable pub from_mapping : Fields → Result LedgerError Claim
  from_mapping value = do
    require_exact_keys value claim_keys
    claim_id ← text_field value (text "claim_id")
    raise_if (not (x.safe_name claim_id)) unsafe_claim_id
    statement ← text_field value (text "statement")
    decision_surface ← text_field value (text "decision_surface")
    sources ← sources_field value
    status ← status_field value
    evidence ← evidence_field value
    verdict ← optional_field value (text "verdict") bad_verdict
    preregistration ← optional_field value (text "preregistration") bad_preregistration
    require_not_blank preregistration
    last_verified_utc ← text_field value (text "last_verified_utc")
    validate_timestamp last_verified_utc
    require_measured status evidence preregistration
    ok (record {
      claim_id = claim_id;
      statement = statement;
      decision_surface = decision_surface;
      sources = sources;
      status = status;
      evidence = evidence;
      verdict = verdict;
      preregistration = preregistration;
      last_verified_utc = last_verified_utc;
    })

  -- `_claim_from_mapping`
  unfoldable pub claim_of_json : Json → Result LedgerError Claim
  claim_of_json (obj value) = from_mapping value
  claim_of_json v = err not_object
