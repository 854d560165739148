-- ===== src/Governance/Errors.antt =====
-- backend/governance/exceptions.py, with the errors of Python and pydantic that reach a caller:
-- `ValueError` of an enum's constructor, `ValidationError` of a model's, and `UnicodeDecodeError` of a
-- file that is not UTF-8.
use torq_pro_ai.Prelude.{String, List}

-- The names of decision fields that the tables of required fields hold.
pub data Field : Type 0 where
  submitted_by submitted_at approved_by approved_at rejected_by rejected_at : Field
  superseded_by_id reviewed_by reviewed_at created_at : Field

pub data GovernanceError : Type 0 where
  invalid_transition : String → String → String → GovernanceError
  missing_required_field : String → List Field → GovernanceError
  store_failure : GovernanceError
  corruption : GovernanceError
  idempotency_conflict : String → GovernanceError
  duplicate_decision : String → GovernanceError
  aggregate_not_found : String → String → GovernanceError
  value_error : String → GovernanceError
  validation_error : GovernanceError
  decode_error : GovernanceError
