-- ===== src/Washer/Decisions.antt =====
-- backend/library/washer_resolution_decisions.py and washer_resolution_decisions_store.py: the state
-- machine of a review, the audit records, and the ledger that they are appended to.
use torq_pro_ai.Prelude.{
  String, Bool, true, false, not, ◌&&◌, ◌||◌, Option, none, some, List, [], ◌∷◌, ◌++◌, string_eq,
  option_eq, ◌==◌, if◌then◌else◌, keep, find_first, any, is_empty, contains, get_default,
}
use torq_pro_ai.Prelude.Texts.{is_blank, is_empty_str}
use torq_pro_ai.Prelude.Exec.{Result, ok, raised, Exec}
use torq_pro_ai.Governance.Timestamps.{is_valid_utc_iso8601}
use torq_pro_ai.Washer.Records.{
  WasherResolutionStatus, open_, under_review, resolved, accepted_as_is,
  blocked_authoritative_source, rejected, status_eq, ConfidenceLevel, g1, g2, g3, g4, Field,
  WasherError, validation_error, blocked_record_decision, invalid_transition, missing_evidence,
  duplicate_decision_id,
}
use torq_pro_ai.Washer.Digests.{
  Json, null, string, number, Payload, string_or_null, Hashing, compute_checksum,
}

abbrev pub allowed_transitions : List (WasherResolutionStatus × List WasherResolutionStatus)
allowed_transitions =
    (open_, under_review ∷ resolved ∷ accepted_as_is ∷ rejected ∷ [])
    ∷ (under_review, open_ ∷ resolved ∷ accepted_as_is ∷ rejected ∷ [])
    ∷ []

unfoldable pub is_blocked_source_status : WasherResolutionStatus → Bool
is_blocked_source_status status = status == blocked_authoritative_source

unfoldable pub is_transition_allowed : WasherResolutionStatus → WasherResolutionStatus → Bool
is_transition_allowed previous new = contains new (get_default allowed_transitions previous [])

unfoldable pub validate_transition :
    WasherResolutionStatus → WasherResolutionStatus → String → Result WasherError Unit
unfolding is_blocked_source_status
validate_transition previous new resolution_id =
    if is_blocked_source_status previous
    then raised (blocked_record_decision resolution_id)
    else if is_transition_allowed previous new
    then ok tt
    else raised (invalid_transition previous new)

-- the set `missing`
unfoldable pub missing_fields : String → String → Option String → List Field
missing_fields note evidence resolver =
    (if is_empty_str note || is_blank note then Field.resolution_note ∷ [] else [])
    ++ (if is_empty_str evidence || is_blank evidence then Field.evidence_reference ∷ [] else [])
    ++ elim resolver [ none ↦ [] | some by ↦ if is_blank by then Field.resolved_by ∷ [] else [] ]

unfoldable pub validate_decision_fields : String → String → Option String → Result WasherError Unit
unfolding missing_fields
validate_decision_fields note evidence resolver =
    let missing = missing_fields note evidence resolver in
    if is_empty missing then ok tt else raised (missing_evidence missing)

pub record WasherResolutionDecision : Type 0 where
  pub decision_id : String
  pub resolution_id : String
  pub previous_status : WasherResolutionStatus
  pub new_status : WasherResolutionStatus
  pub resolution_note : String
  pub evidence_reference : String
  pub resolved_by : String
  pub decided_at : String
  pub confidence_level : Option ConfidenceLevel
  pub integrity_checksum : String
  pub idempotency_key : Option String

-- The constructor: its field validators.
unfoldable pub make_decision :
    WasherResolutionDecision → Result WasherError WasherResolutionDecision
make_decision d =
    if not (is_blank d.resolution_note)
      && not (is_blank d.evidence_reference)
      && is_valid_utc_iso8601 d.decided_at
      && not (is_blank d.integrity_checksum)
    then ok d
    else raised validation_error

abbrev pub status_value : WasherResolutionStatus → String
status_value open_ = "open"
status_value under_review = "under_review"
status_value resolved = "resolved"
status_value accepted_as_is = "accepted_as_is"
status_value blocked_authoritative_source = "blocked_authoritative_source"
status_value rejected = "rejected"

abbrev pub confidence_value : Option ConfidenceLevel → Json
confidence_value none = null
confidence_value (some g1) = number 1
confidence_value (some g2) = number 2
confidence_value (some g3) = number 3
confidence_value (some g4) = number 4

-- `to_dict`
unfoldable pub decision_to_dict : WasherResolutionDecision → Payload
decision_to_dict d =
    ("decision_id", string d.decision_id)
    ∷ ("resolution_id", string d.resolution_id)
    ∷ ("previous_status", string (status_value d.previous_status))
    ∷ ("new_status", string (status_value d.new_status))
    ∷ ("resolution_note", string d.resolution_note)
    ∷ ("evidence_reference", string d.evidence_reference)
    ∷ ("resolved_by", string d.resolved_by)
    ∷ ("decided_at", string d.decided_at)
    ∷ ("confidence_level", confidence_value d.confidence_level)
    ∷ ("integrity_checksum", string d.integrity_checksum)
    ∷ ("idempotency_key", string_or_null d.idempotency_key)
    ∷ []

module _ ⦃h : Hashing⦄ where
  -- of a decision whose checksum is still to come
  unfoldable pub build_decision :
      WasherResolutionDecision → Result WasherError WasherResolutionDecision
  unfolding decision_to_dict
  build_decision d =
      make_decision (record d { integrity_checksum = compute_checksum (decision_to_dict d) })

  unfoldable pub verify_integrity : WasherResolutionDecision → Bool
  verify_integrity d = d.integrity_checksum == compute_checksum (decision_to_dict d)

unfoldable pub get_decision :
    List WasherResolutionDecision → String → Option WasherResolutionDecision
get_decision ledger decision_id = find_first (λ d. d.decision_id == decision_id) ledger

unfoldable pub decisions_for_resolution :
    List WasherResolutionDecision → String → List WasherResolutionDecision
decisions_for_resolution ledger resolution_id = keep (λ d. d.resolution_id == resolution_id) ledger

unfoldable pub find_by_idempotency_key :
    List WasherResolutionDecision → String → Option WasherResolutionDecision
find_by_idempotency_key ledger key =
    if is_empty_str key then none else find_first (λ d. d.idempotency_key == some key) ledger

unfoldable pub append_decision :
    WasherResolutionDecision
    → Exec (List WasherResolutionDecision) WasherError WasherResolutionDecision
append_decision d ledger =
    if any (λ e. e.decision_id == d.decision_id) ledger
    then (raised (duplicate_decision_id d.decision_id), ledger)
    else (ok d, ledger ++ d ∷ [])

-- `if decision.idempotency_key: for raw in …`
unfoldable pub recorded_under_key :
    List WasherResolutionDecision → Option String → Option WasherResolutionDecision
recorded_under_key ledger none = none
recorded_under_key ledger (some key) =
    if is_empty_str key then none else find_first (λ d. d.idempotency_key == some key) ledger

-- the decision of the same key with `false`, or this one, appended, with `true`
unfoldable pub record_decision :
    WasherResolutionDecision
    → Exec (List WasherResolutionDecision) WasherError (WasherResolutionDecision × Bool)
unfolding recorded_under_key append_decision
record_decision d ledger = elim (recorded_under_key ledger d.idempotency_key) [
  | some existing ↦ (ok (existing, false), ledger)
  | none ↦
      (if any (λ e. e.decision_id == d.decision_id) ledger
        then (raised (duplicate_decision_id d.decision_id), ledger)
        else (ok (d, true), ledger ++ d ∷ []))
]
