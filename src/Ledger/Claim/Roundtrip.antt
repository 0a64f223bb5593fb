-- ===== src/Ledger/Claim/Roundtrip.antt =====
-- A claim that satisfies the schema is read back from its mapping.
use measure_twice.Prelude.{
  ◌≡◌, refl, ◌≢◌, false, Option, none, some, List, [], ◌∷◌, ◌++◌, map, append-nil, append_assoc,
  arith, nat_eq, text_eq, option_eq, All, ok, traverse-map,
}
use measure_twice.Text.{Text, is_blank}
use measure_twice.Externals.{Externals}
use measure_twice.Json
use measure_twice.Json.{Json, str, obj, to_list, of_list, to_list-of_list}
use measure_twice.Ledger.Source.{
  ClaimSource, require_exact_keys, require_nonempty_string, text_field, index, source_to_mapping,
}
use measure_twice.Ledger.Source.Schema.{IsValidSource, source_roundtrip}
use measure_twice.Ledger.Claim.{
  Claim, ClaimStatus, measured, partial, asserted, stale, status_value, status_of_value,
  source_of_json, sources_of_json, collect_evidence, evidence_of_json, sources_field, status_field,
  evidence_field, optional_field, optional_json, optional_text, require_measured, from_mapping,
  claim_of_json, to_mapping,
}
use measure_twice.Ledger.Claim.Schema.{DistinctIds, IsValid, from_mapping-IsValid}

status_roundtrip : (s : ClaimStatus) → status_of_value (status_value s) ≡ some s
unfolding status_of_value status_value text_eq
status_roundtrip measured = refl
status_roundtrip partial = refl
status_roundtrip asserted = refl
status_roundtrip stale = refl

status_value-present : (s : ClaimStatus) → is_blank (status_value s) ≡ false
unfolding is_blank status_value nat_eq
status_value-present measured = refl
status_value-present partial = refl
status_value-present asserted = refl
status_value-present stale = refl

collect_evidence-str :
    (seen found : List Text)
    → DistinctIds seen found
    → collect_evidence seen (map str found) ≡ ok (seen ++ found)
unfolding collect_evidence require_nonempty_string
collect_evidence-str seen [] d = rw append-nil
collect_evidence-str seen (r ∷ found) d =
    rw (d.0, d.1, collect_evidence-str (seen ++ r ∷ []) found d.2, append_assoc)

evidence_roundtrip :
    (l : List Text) → DistinctIds [] l → evidence_of_json (Json.arr (of_list (map str l))) ≡ ok l
unfolding evidence_of_json
evidence_roundtrip l d = rw (to_list-of_list, collect_evidence-str [] l d)

sources_roundtrip :
    (l : List ClaimSource)
    → l ≢ []
    → All IsValidSource l
    → sources_of_json (Json.arr (of_list (map (λ s. obj (source_to_mapping s)) l))) ≡ ok l
unfolding sources_of_json source_of_json of_list
sources_roundtrip [] ne v = absurd (ne refl)
sources_roundtrip (s ∷ l) ne v = rw (
  source_roundtrip s v.0,
  to_list-of_list,
  traverse-map IsValidSource source_of_json (λ (s : ClaimSource). obj (source_to_mapping s))
      source_roundtrip l v.1,
)

optional_roundtrip : (o : Option Text) (e : _) → optional_text (optional_json o) e ≡ ok o
unfolding optional_text optional_json
optional_roundtrip none e = refl
optional_roundtrip (some s) e = refl

require_measured_of_backed :
    (s : ClaimStatus) (evidence : List Text) (preregistration : Option Text)
    → (s ≡ measured → (evidence ≢ []) × (preregistration ≢ none))
    → require_measured s evidence preregistration ≡ ok tt
unfolding require_measured
require_measured_of_backed s evidence preregistration h = ground (arith, h)

-- A valid claim is read back from its mapping, with every field as it was.
pub claim_of_json-to_mapping :
    (x : Externals) (c : Claim) → IsValid x c → claim_of_json x (to_mapping c) ≡ ok c
unfolding claim_of_json from_mapping to_mapping require_exact_keys text_field index
    require_nonempty_string text_eq sources_field status_field evidence_field optional_field
claim_of_json-to_mapping x c v =
    rw
      (
        v.id_present,
        v.id_safe,
        v.statement_present,
        v.surface_present,
        sources_roundtrip c.sources v.sources_present v.sources_valid,
        status_value-present c.status,
        status_roundtrip c.status,
        evidence_roundtrip c.evidence v.evidence_distinct,
        optional_roundtrip c.verdict,
        optional_roundtrip c.preregistration,
        v.preregistration_present,
        v.time_present,
        v.time_valid,
        require_measured_of_backed c.status c.evidence c.preregistration v.measured_backed,
      )
      refl

-- What one reading accepts, a second reading of what would be written accepts with the same result.
pub from_mapping_stable :
    (x : Externals) (value : Json.Fields) (c : Claim)
    → from_mapping x value ≡ ok c
    → claim_of_json x (to_mapping c) ≡ ok c
from_mapping_stable x value c h = claim_of_json-to_mapping x c (from_mapping-IsValid x value c h)
