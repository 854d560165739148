-- ===== src/Governance/Service/Commands/Resolutions.antt =====
-- `_resolution_command`, `resolve_resolution`, `reject_resolution` and `waive_resolution`.
use torq_pro_ai.Prelude.{String, Bool, Option, none, some}
use torq_pro_ai.Prelude.Exec.{Exec}
use torq_pro_ai.Governance.Enums.{ResolutionStatus, resolution, resolution_value}
use torq_pro_ai.Governance.Errors.{GovernanceError}
use torq_pro_ai.Governance.Decisions.{ResolutionDecision}
use torq_pro_ai.Governance.Events.{Backing}
use torq_pro_ai.Governance.Store.{Event, Store}
use torq_pro_ai.Governance.Service.{Transition, execute_transition}
use torq_pro_ai.Governance.Service.Commands.Calls.{Call, validate_resolution}

module _ ⦃b : Backing⦄ where
  unfoldable pub resolution_command_decision :
      Call b.Metadata
      → String
      → ResolutionStatus
      → Option String
      → ResolutionStatus
      → ResolutionDecision
  resolution_command_decision c actor new_status review_comment s = record {
    decision_id = c.decision_id;
    idempotency_key = c.idempotency_key;
    previous_status = s;
    new_status = new_status;
    reviewed_by = some actor;
    reviewed_at = some c.occurred_at;
    rejected_by = none;
    rejected_at = none;
    review_comment = review_comment;
    created_at = c.occurred_at;
  }

  abbrev pub resolution_command_transition :
      Call b.Metadata → String → ResolutionStatus → Option String → Transition b.Metadata
  resolution_command_transition c actor new_status review_comment = record {
    aggregate_id = c.aggregate_id;
    aggregate_type = c.aggregate_type;
    lifecycle_group = resolution;
    decision_id = c.decision_id;
    idempotency_key = c.idempotency_key;
    new_status = resolution_value new_status;
    occurred_at = c.occurred_at;
    actor = some actor;
    review_comment = review_comment;
    change_reason = none;
    revision_no = none;
    supersedes_id = none;
    superseded_by_id = none;
    metadata = c.metadata;
    event_id = c.event_id;
    fresh_id = c.fresh_id;
  }

  -- `_resolution_command`: open to a terminal status
  unfoldable pub resolution_command :
      Call b.Metadata
      → String
      → ResolutionStatus
      → Option String
      → Exec Store GovernanceError (Event × Bool)
  unfolding resolution_command_decision
  resolution_command c actor new_status review_comment =
      execute_transition (resolution_command_transition c actor new_status review_comment)
        (validate_resolution (resolution_command_decision c actor new_status review_comment))

  unfoldable pub resolve_resolution :
      Call b.Metadata → String → Option String → Exec Store GovernanceError (Event × Bool)
  unfolding resolution_command
  resolve_resolution c actor review_comment =
      resolution_command c actor ResolutionStatus.resolved review_comment

  unfoldable pub reject_resolution :
      Call b.Metadata → String → Option String → Exec Store GovernanceError (Event × Bool)
  unfolding resolution_command
  reject_resolution c actor review_comment =
      resolution_command c actor ResolutionStatus.rejected review_comment

  unfoldable pub waive_resolution :
      Call b.Metadata → String → Option String → Exec Store GovernanceError (Event × Bool)
  unfolding resolution_command
  waive_resolution c actor review_comment =
      resolution_command c actor ResolutionStatus.waived review_comment
