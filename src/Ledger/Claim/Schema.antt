-- ===== src/Ledger/Claim/Schema.antt =====
-- What a `Claim` that was accepted satisfies.
use measure_twice.Prelude.{
  ◌≡◌, sym, ◌∙◌, ◌≢◌, inl, inr, true, false, none, List, [], ◌∷◌, ◌++◌, append-nil, append_assoc,
  arith, Bool-cases, nat_eq, text_eq, option_eq, contains, All, ok, traverse, bind-eq-ok,
  ok-injective, traverse-All,
}
use measure_twice.Text.{Text, text, is_blank}
use measure_twice.Externals.{Externals}
use measure_twice.Json.{Json, Items, Fields, to_list, arr, obj}
use measure_twice.Ledger.Source.{ClaimSource, require_nonempty_string, text_field, index}
use measure_twice.Ledger.Source.Schema.{
  IsValidSource, source_from_mapping-IsValidSource, text_field-present,
  require_nonempty_string-present,
}
use measure_twice.Ledger.Claim.{
  Claim, measured, source_of_json, sources_of_json, collect_evidence, evidence_of_json,
  sources_field, evidence_field, require_not_blank, require_measured, validate_timestamp,
  from_mapping,
}

-- No run id is listed twice, and none is blank.
abbrev pub DistinctIds : List Text → List Text → Type 0
DistinctIds seen [] = Unit
DistinctIds seen (r ∷ rest) =
    (is_blank r ≡ false) × (contains seen r ≡ false) × DistinctIds (seen ++ r ∷ []) rest

pub record IsValid (x : Externals) (c : Claim) : Type 0 where
  pub id_present : is_blank c.claim_id ≡ false
  pub id_safe : x.safe_name c.claim_id ≡ true
  pub statement_present : is_blank c.statement ≡ false
  pub surface_present : is_blank c.decision_surface ≡ false
  pub sources_present : c.sources ≢ []
  pub sources_valid : All IsValidSource c.sources
  pub evidence_distinct : DistinctIds [] c.evidence
  pub preregistration_present : require_not_blank c.preregistration ≡ ok tt
  pub time_present : is_blank c.last_verified_utc ≡ false
  pub time_valid : validate_timestamp x c.last_verified_utc ≡ ok tt
  pub measured_backed : c.status ≡ measured → (c.evidence ≢ []) × (c.preregistration ≢ none)

source_of_json-IsValidSource :
    (v : Json) (s : ClaimSource) → source_of_json v ≡ ok s → IsValidSource s
unfolding source_of_json
source_of_json-IsValidSource (obj value) s h = source_from_mapping-IsValidSource value s h
source_of_json-IsValidSource _ s h = cc

sources_of_json-IsValid :
    (v : Json) (l : List ClaimSource) → sources_of_json v ≡ ok l → (l ≢ []) × All IsValidSource l
unfolding sources_of_json to_list
sources_of_json-IsValid (arr (Items.cons v rest)) [] h =
    let (s, _, e) = bind-eq-ok (source_of_json v) _ h in
    let (ss, _, e') = bind-eq-ok (traverse source_of_json (to_list rest)) _ e in
    cc (ok-injective e')
sources_of_json-IsValid (arr (Items.cons v rest)) (s ∷ l) h = (
  λ p. cc,
  traverse-All IsValidSource source_of_json source_of_json-IsValidSource (v ∷ to_list rest) _ h,
)
sources_of_json-IsValid _ l h = cc

collect_evidence-append :
    (seen : List Text) (l : List Json) (r : List Text)
    → collect_evidence seen l ≡ ok r
    → (found : List Text) × (r ≡ seen ++ found) × DistinctIds seen found
unfolding collect_evidence
collect_evidence-append seen [] r h = ([], ok-injective (sym h) ∙ sym (append-nil seen), tt)
collect_evidence-append seen (v ∷ rest) r h =
    let (run_id, p, h') = bind-eq-ok (require_nonempty_string v) _ h in
    elim (Bool-cases (contains seen run_id)) [
      | inl dup ↦ absurd (ground arith)
      | inr fresh ↦
          let (found, q, d) =
            collect_evidence-append (seen ++ run_id ∷ []) rest r (rw fresh at h') in
          (
            run_id ∷ found,
            q ∙ append_assoc seen (run_id ∷ []) found,
            (require_nonempty_string-present v run_id p, fresh, d),
          )
    ]

require_measured-backed :
    (c : Claim)
    → require_measured c.status c.evidence c.preregistration ≡ ok tt
    → c.status ≡ measured
    → (c.evidence ≢ []) × (c.preregistration ≢ none)
unfolding require_measured
require_measured-backed c h e = ground arith

-- The checks that a mapping passes on its way to a claim.
checks :
    (x : Externals) (value : Fields) (c : Claim)
    → from_mapping x value ≡ ok c
    → (text_field value (text "claim_id") ≡ ok c.claim_id)
      × (x.safe_name c.claim_id ≡ true)
      × (text_field value (text "statement") ≡ ok c.statement)
      × (text_field value (text "decision_surface") ≡ ok c.decision_surface)
      × (sources_field value ≡ ok c.sources)
      × (evidence_field value ≡ ok c.evidence)
      × (require_not_blank c.preregistration ≡ ok tt)
      × (text_field value (text "last_verified_utc") ≡ ok c.last_verified_utc)
      × (validate_timestamp x c.last_verified_utc ≡ ok tt)
      × (require_measured c.status c.evidence c.preregistration ≡ ok tt)
unfolding from_mapping
checks x value c h = ground arith

evidence_of_json-DistinctIds :
    (v : Json) (l : List Text) → evidence_of_json v ≡ ok l → DistinctIds [] l
unfolding evidence_of_json
evidence_of_json-DistinctIds (arr items) l h =
    let (found, e, d) = collect_evidence-append [] (to_list items) l h in rw e d
evidence_of_json-DistinctIds _ l h = cc

-- A mapping that is accepted gives a claim with every property that the schema asks for.
pub from_mapping-IsValid :
    (x : Externals) (value : Fields) (c : Claim) → from_mapping x value ≡ ok c → IsValid x c
unfolding sources_field evidence_field
from_mapping-IsValid x value c h =
    let (id, safe, stmt, surface, srcs, ev, pre, time, stamp, meas) = checks x value c h in
    let (_, _, se) = bind-eq-ok (index value (text "sources")) sources_of_json srcs in
    let (_, _, ee) = bind-eq-ok (index value (text "evidence")) evidence_of_json ev in
    let valid = sources_of_json-IsValid _ _ se in
    record {
      id_present = text_field-present value _ _ id;
      id_safe = safe;
      statement_present = text_field-present value _ _ stmt;
      surface_present = text_field-present value _ _ surface;
      sources_present = valid.0;
      sources_valid = valid.1;
      evidence_distinct = evidence_of_json-DistinctIds _ _ ee;
      preregistration_present = pre;
      time_present = text_field-present value _ _ time;
      time_valid = stamp;
      measured_backed = require_measured-backed c meas;
    }
