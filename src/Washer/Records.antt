-- ===== src/Washer/Records.antt =====
-- backend/library/washer_resolution.py: the records of the source ledger and their accessors, and
-- the errors of all modules of the workflow. A ledger's file is the list of its records: what the
-- accessors read is what was written last.
use torq_pro_ai.Prelude.{
  ℕ, String, Bool, Option, List, [], ◌∷◌, Eq, enum_eq, string_eq, ◌==◌, contains, keep, find_first,
}

pub data WasherIssueType : Type 0 where
  source_missing source_ambiguous standard_identity_ambiguous dimensional_conflict : WasherIssueType
  duplicate_or_alias verification_pending other : WasherIssueType

pub data WasherResolutionStatus : Type 0 where
  open_ under_review resolved accepted_as_is blocked_authoritative_source : WasherResolutionStatus
  rejected : WasherResolutionStatus

pub data ConfidenceLevel : Type 0 where
  g1 g2 g3 g4 : ConfidenceLevel

unfoldable pub WasherIssueType-discrete : Discrete WasherIssueType
WasherIssueType-discrete = hlevel

unfoldable pub WasherResolutionStatus-discrete : Discrete WasherResolutionStatus
WasherResolutionStatus-discrete = hlevel

unfoldable pub ConfidenceLevel-discrete : Discrete ConfidenceLevel
ConfidenceLevel-discrete = hlevel

instance abbrev pub issue_eq : Eq WasherIssueType
issue_eq = enum_eq WasherIssueType-discrete

instance abbrev pub status_eq : Eq WasherResolutionStatus
status_eq = enum_eq WasherResolutionStatus-discrete

instance abbrev pub confidence_eq : Eq ConfidenceLevel
confidence_eq = enum_eq ConfidenceLevel-discrete

abbrev pub active_statuses : List WasherResolutionStatus
active_statuses = open_ ∷ under_review ∷ blocked_authoritative_source ∷ []

abbrev pub terminal_statuses : List WasherResolutionStatus
terminal_statuses = resolved ∷ accepted_as_is ∷ rejected ∷ []

pub record WasherResolutionRecord : Type 0 where
  pub resolution_id : String
  pub washer_record_id : String
  pub issue_type : WasherIssueType
  pub reason_code : Option String
  pub resolution_status : WasherResolutionStatus
  pub resolution_note : String
  pub evidence_reference : String
  pub resolved_standard : Option String
  pub resolved_by : String
  pub resolved_at : String
  pub confidence_level : Option ConfidenceLevel
  pub requires_authoritative_source : Bool

unfoldable pub get_washer_resolution :
    List WasherResolutionRecord → String → Option WasherResolutionRecord
get_washer_resolution ledger resolution_id =
    find_first (λ r. r.resolution_id == resolution_id) ledger

unfoldable pub resolutions_for_washer_record :
    List WasherResolutionRecord → String → List WasherResolutionRecord
resolutions_for_washer_record ledger washer_record_id =
    keep (λ r. r.washer_record_id == washer_record_id) ledger

unfoldable pub unresolved_washer_resolutions :
    List WasherResolutionRecord → List WasherResolutionRecord
unresolved_washer_resolutions ledger =
    keep (λ r. contains r.resolution_status active_statuses) ledger

pub data Field : Type 0 where
  resolution_note evidence_reference resolved_by : Field

-- why a resolution is not ready to be closed
pub data Reason : Type 0 where
  blocked_source no_decision_record no_verified_evidence no_decision_id : Reason
  not_terminal : WasherResolutionStatus → Reason
  corrupted_evidence : ℕ → Reason
  has_closure : String → Reason

pub data WasherError : Type 0 where
  missing_idempotency_key validation_error stop_iteration : WasherError
  idempotency_conflict : String → WasherError
  resolution_not_found : String → WasherError
  blocked_record_decision : String → WasherError
  invalid_transition : WasherResolutionStatus → WasherResolutionStatus → WasherError
  missing_evidence : List Field → WasherError
  duplicate_decision_id : String → WasherError
  duplicate_evidence_id : String → WasherError
  evidence_integrity : String → WasherError
  duplicate_closure : String → WasherError
  closure_integrity : String → WasherError
  closure_not_ready : String → List Reason → WasherError
