-- ===== src/Governance/Service/Commands/Calls.antt =====
-- What the nine commands share: `Call` holds the keyword arguments that all of them take, and
-- `validate_…` are the closures named `_validate`.
use torq_pro_ai.Prelude.{String, Option, none, some}
use torq_pro_ai.Prelude.Exec.{Result, raised, and_then}
use torq_pro_ai.Governance.Enums.{
  ReviewStatus, PublicationStatus, ResolutionStatus, review_of_value, publication_of_value,
  resolution_of_value,
}
use torq_pro_ai.Governance.Errors.{GovernanceError, value_error}
use torq_pro_ai.Governance.Decisions.{
  ReviewDecision, PublicationDecision, ResolutionDecision, make_review, make_publication,
  make_resolution, validate_review_decision, validate_publication_decision,
  validate_resolution_decision,
}

pub record Call (M : Type 0) : Type 0 where
  pub aggregate_id : String
  pub aggregate_type : String
  pub decision_id : String
  pub idempotency_key : String
  pub occurred_at : String
  pub metadata : Option M
  pub event_id : Option String
  pub fresh_id : String

-- `XStatus(previous)`, then the decision of that status, then its validator.
unfoldable pub validate_review :
    (ReviewStatus → ReviewDecision) → String → Result GovernanceError Unit
validate_review decide previous = elim (review_of_value previous) [
  | none ↦ raised (value_error previous)
  | some s ↦ and_then (make_review (decide s)) validate_review_decision
]

unfoldable pub validate_publication :
    (PublicationStatus → PublicationDecision) → String → Result GovernanceError Unit
validate_publication decide previous = elim (publication_of_value previous) [
  | none ↦ raised (value_error previous)
  | some s ↦ and_then (make_publication (decide s)) validate_publication_decision
]

unfoldable pub validate_resolution :
    (ResolutionStatus → ResolutionDecision) → String → Result GovernanceError Unit
validate_resolution decide previous = elim (resolution_of_value previous) [
  | none ↦ raised (value_error previous)
  | some s ↦ and_then (make_resolution (decide s)) validate_resolution_decision
]
