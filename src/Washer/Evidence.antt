-- ===== src/Washer/Evidence.antt =====
-- backend/library/washer_resolution_evidence.py and washer_resolution_evidence_store.py: the evidence
-- records, their validators and factory, and the ledger that they are appended to.
use torq_pro_ai.Prelude.{
  String, Bool, true, false, not, ◌&&◌, Option, none, some, List, [], ◌∷◌, ◌++◌, Eq, enum_eq,
  string_eq, ◌==◌, if◌then◌else◌, keep, find_first, any,
}
use torq_pro_ai.Prelude.Exec.{Result, ok, raised, and_then, Exec}
use torq_pro_ai.Governance.Timestamps.{is_valid_utc_iso8601, optional_timestamp_ok}
use torq_pro_ai.Washer.Records.{WasherError, validation_error, duplicate_evidence_id}
use torq_pro_ai.Washer.Digests.{
  string, Payload, string_or_null, Hashing, compute_checksum, is_valid_sha256_hex,
  normalize_required, normalize_optional, normalize_url,
}

pub data EvidenceType : Type 0 where
  authoritative_standard manufacturer_document approved_engineering_source : EvidenceType
  internal_measurement comparison_analysis legacy_provenance_reference other : EvidenceType

pub data EvidenceVerificationStatus : Type 0 where
  unverified verified rejected : EvidenceVerificationStatus

unfoldable pub EvidenceType-discrete : Discrete EvidenceType
EvidenceType-discrete = hlevel

unfoldable pub EvidenceVerificationStatus-discrete : Discrete EvidenceVerificationStatus
EvidenceVerificationStatus-discrete = hlevel

instance abbrev pub evidence_type_eq : Eq EvidenceType
evidence_type_eq = enum_eq EvidenceType-discrete

instance abbrev pub verification_eq : Eq EvidenceVerificationStatus
verification_eq = enum_eq EvidenceVerificationStatus-discrete

pub record WasherResolutionEvidence : Type 0 where
  pub evidence_id : String
  pub resolution_id : String
  pub evidence_type : EvidenceType
  pub title : String
  pub description : String
  pub source_reference : String
  pub source_locator : Option String
  pub source_url : Option String
  pub source_standard : Option String
  pub verification_status : EvidenceVerificationStatus
  pub verified_by : Option String
  pub verified_at : Option String
  pub created_by : String
  pub created_at : String
  pub integrity_checksum : String

-- `x is None`
abbrev is_none : Option String → Bool
is_none none = true
is_none (some s) = false

-- the field validators, each a normalized field
unfoldable pub normalize_fields :
    WasherResolutionEvidence → Result WasherError WasherResolutionEvidence
unfolding normalize_required normalize_optional normalize_url
normalize_fields e = and_then (normalize_required e.evidence_id) λ evidence_id.
    and_then (normalize_required e.resolution_id) λ resolution_id.
      and_then (normalize_required e.title) λ title.
        and_then (normalize_required e.description) λ description.
          and_then (normalize_required e.source_reference) λ source_reference.
            and_then (normalize_required e.created_by) λ created_by.
              and_then (normalize_optional e.source_locator) λ source_locator.
                and_then (normalize_optional e.source_standard) λ source_standard.
                  and_then (normalize_optional e.verified_by) λ verified_by.
                    and_then (normalize_url e.source_url) λ source_url. ok (record e {
                      evidence_id = evidence_id;
                      resolution_id = resolution_id;
                      title = title;
                      description = description;
                      source_reference = source_reference;
                      created_by = created_by;
                      source_locator = source_locator;
                      source_standard = source_standard;
                      verified_by = verified_by;
                      source_url = source_url;
                    })

-- `_verification_fields_match_status`
unfoldable pub verification_fields_match : WasherResolutionEvidence → Bool
verification_fields_match e = elim e.verification_status [
  | verified ↦ not (is_none e.verified_by) && not (is_none e.verified_at)
  | rejected ↦ not (is_none e.verified_by) && not (is_none e.verified_at)
  | unverified ↦ is_none e.verified_by && is_none e.verified_at
]

-- The constructor: it normalizes the fields, then tests their forms and how they fit together.
unfoldable pub make_evidence :
    WasherResolutionEvidence → Result WasherError WasherResolutionEvidence
unfolding normalize_fields verification_fields_match
make_evidence given = and_then (normalize_fields given) λ e.
    if is_valid_utc_iso8601 e.created_at
      && optional_timestamp_ok e.verified_at
      && is_valid_sha256_hex e.integrity_checksum
      && verification_fields_match e
      && not (e.evidence_type == authoritative_standard && is_none e.source_standard)
    then ok e
    else raised validation_error

abbrev pub type_value : EvidenceType → String
type_value authoritative_standard = "authoritative_standard"
type_value manufacturer_document = "manufacturer_document"
type_value approved_engineering_source = "approved_engineering_source"
type_value internal_measurement = "internal_measurement"
type_value comparison_analysis = "comparison_analysis"
type_value legacy_provenance_reference = "legacy_provenance_reference"
type_value other = "other"

abbrev pub verification_value : EvidenceVerificationStatus → String
verification_value unverified = "unverified"
verification_value verified = "verified"
verification_value rejected = "rejected"

-- `to_dict`
unfoldable pub evidence_to_dict : WasherResolutionEvidence → Payload
evidence_to_dict e =
    ("evidence_id", string e.evidence_id)
    ∷ ("resolution_id", string e.resolution_id)
    ∷ ("evidence_type", string (type_value e.evidence_type))
    ∷ ("title", string e.title)
    ∷ ("description", string e.description)
    ∷ ("source_reference", string e.source_reference)
    ∷ ("source_locator", string_or_null e.source_locator)
    ∷ ("source_url", string_or_null e.source_url)
    ∷ ("source_standard", string_or_null e.source_standard)
    ∷ ("verification_status", string (verification_value e.verification_status))
    ∷ ("verified_by", string_or_null e.verified_by)
    ∷ ("verified_at", string_or_null e.verified_at)
    ∷ ("created_by", string e.created_by)
    ∷ ("created_at", string e.created_at)
    ∷ ("integrity_checksum", string e.integrity_checksum)
    ∷ []

-- The arguments of the factory, and the identifier and the time that one call generates.
pub record EvidenceRequest : Type 0 where
  pub resolution_id : String
  pub evidence_type : EvidenceType
  pub title : String
  pub description : String
  pub source_reference : String
  pub created_by : String
  pub source_locator : Option String
  pub source_url : Option String
  pub source_standard : Option String
  pub evidence_id : String
  pub created_at : String

-- the record that the factory fills, its checksum aside
unfoldable pub unverified_evidence : EvidenceRequest → WasherResolutionEvidence
unverified_evidence r = record {
  evidence_id = r.evidence_id;
  resolution_id = r.resolution_id;
  evidence_type = r.evidence_type;
  title = r.title;
  description = r.description;
  source_reference = r.source_reference;
  source_locator = r.source_locator;
  source_url = r.source_url;
  source_standard = r.source_standard;
  verification_status = unverified;
  verified_by = none;
  verified_at = none;
  created_by = r.created_by;
  created_at = r.created_at;
  integrity_checksum = "";
}

module _ ⦃h : Hashing⦄ where
  unfoldable pub verify_evidence_integrity : WasherResolutionEvidence → Bool
  unfolding evidence_to_dict
  verify_evidence_integrity e = e.integrity_checksum == compute_checksum (evidence_to_dict e)

  unfoldable pub create_washer_resolution_evidence :
      EvidenceRequest → Result WasherError WasherResolutionEvidence
  unfolding unverified_evidence
  create_washer_resolution_evidence r =
      let e = unverified_evidence r in
      make_evidence (record e { integrity_checksum = compute_checksum (evidence_to_dict e) })

unfoldable pub get_evidence :
    List WasherResolutionEvidence → String → Option WasherResolutionEvidence
get_evidence ledger evidence_id = find_first (λ e. e.evidence_id == evidence_id) ledger

unfoldable pub evidence_for_resolution :
    List WasherResolutionEvidence → String → List WasherResolutionEvidence
evidence_for_resolution ledger resolution_id = keep (λ e. e.resolution_id == resolution_id) ledger

unfoldable pub append_evidence :
    WasherResolutionEvidence
    → Exec (List WasherResolutionEvidence) WasherError WasherResolutionEvidence
append_evidence e ledger =
    if any (λ x. x.evidence_id == e.evidence_id) ledger
    then (raised (duplicate_evidence_id e.evidence_id), ledger)
    else (ok e, ledger ++ e ∷ [])
