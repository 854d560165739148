-- ===== src/Governance/Service/Commands/Reviews.antt =====
-- `submit_review`, `approve_review` and `reject_review`.
use torq_pro_ai.Prelude.{String, Bool, Option, none, some}
use torq_pro_ai.Prelude.Exec.{Exec}
use torq_pro_ai.Governance.Enums.{ReviewStatus, review, review_value}
use torq_pro_ai.Governance.Errors.{GovernanceError}
use torq_pro_ai.Governance.Decisions.{ReviewDecision}
use torq_pro_ai.Governance.Events.{Backing}
use torq_pro_ai.Governance.Store.{Event, Store}
use torq_pro_ai.Governance.Service.{Transition, execute_transition}
use torq_pro_ai.Governance.Service.Commands.Calls.{Call, validate_review}

module _ ⦃b : Backing⦄ where
  unfoldable pub submit_review_decision :
      Call b.Metadata → String → Option String → ReviewStatus → ReviewDecision
  submit_review_decision c actor change_reason s = record {
    decision_id = c.decision_id;
    idempotency_key = c.idempotency_key;
    previous_status = s;
    new_status = ReviewStatus.under_review;
    submitted_by = some actor;
    submitted_at = some c.occurred_at;
    approved_by = none;
    approved_at = none;
    rejected_by = none;
    rejected_at = none;
    review_comment = none;
    change_reason = change_reason;
    created_at = c.occurred_at;
  }

  abbrev pub submit_review_transition :
      Call b.Metadata → String → Option String → Transition b.Metadata
  submit_review_transition c actor change_reason = record {
    aggregate_id = c.aggregate_id;
    aggregate_type = c.aggregate_type;
    lifecycle_group = review;
    decision_id = c.decision_id;
    idempotency_key = c.idempotency_key;
    new_status = review_value ReviewStatus.under_review;
    occurred_at = c.occurred_at;
    actor = some actor;
    review_comment = none;
    change_reason = change_reason;
    revision_no = none;
    supersedes_id = none;
    superseded_by_id = none;
    metadata = c.metadata;
    event_id = c.event_id;
    fresh_id = c.fresh_id;
  }

  -- draft to under_review
  unfoldable pub submit_review :
      Call b.Metadata → String → Option String → Exec Store GovernanceError (Event × Bool)
  unfolding submit_review_decision
  submit_review c actor change_reason =
      execute_transition (submit_review_transition c actor change_reason)
        (validate_review (submit_review_decision c actor change_reason))

  unfoldable pub approve_review_decision :
      Call b.Metadata → String → Option String → ReviewStatus → ReviewDecision
  approve_review_decision c actor review_comment s = record {
    decision_id = c.decision_id;
    idempotency_key = c.idempotency_key;
    previous_status = s;
    new_status = ReviewStatus.approved;
    submitted_by = none;
    submitted_at = none;
    approved_by = some actor;
    approved_at = some c.occurred_at;
    rejected_by = none;
    rejected_at = none;
    review_comment = review_comment;
    change_reason = none;
    created_at = c.occurred_at;
  }

  abbrev pub approve_review_transition :
      Call b.Metadata → String → Option String → Transition b.Metadata
  approve_review_transition c actor review_comment = record {
    aggregate_id = c.aggregate_id;
    aggregate_type = c.aggregate_type;
    lifecycle_group = review;
    decision_id = c.decision_id;
    idempotency_key = c.idempotency_key;
    new_status = review_value ReviewStatus.approved;
    occurred_at = c.occurred_at;
    actor = some actor;
    review_comment = review_comment;
    change_reason = none;
    revision_no = none;
    supersedes_id = none;
    superseded_by_id = none;
    metadata = c.metadata;
    event_id = c.event_id;
    fresh_id = c.fresh_id;
  }

  -- under_review to approved
  unfoldable pub approve_review :
      Call b.Metadata → String → Option String → Exec Store GovernanceError (Event × Bool)
  unfolding approve_review_decision
  approve_review c actor review_comment =
      execute_transition (approve_review_transition c actor review_comment)
        (validate_review (approve_review_decision c actor review_comment))

  unfoldable pub reject_review_decision :
      Call b.Metadata → String → Option String → ReviewStatus → ReviewDecision
  reject_review_decision c actor review_comment s = record {
    decision_id = c.decision_id;
    idempotency_key = c.idempotency_key;
    previous_status = s;
    new_status = ReviewStatus.rejected;
    submitted_by = none;
    submitted_at = none;
    approved_by = none;
    approved_at = none;
    rejected_by = some actor;
    rejected_at = some c.occurred_at;
    review_comment = review_comment;
    change_reason = none;
    created_at = c.occurred_at;
  }

  abbrev pub reject_review_transition :
      Call b.Metadata → String → Option String → Transition b.Metadata
  reject_review_transition c actor review_comment = record {
    aggregate_id = c.aggregate_id;
    aggregate_type = c.aggregate_type;
    lifecycle_group = review;
    decision_id = c.decision_id;
    idempotency_key = c.idempotency_key;
    new_status = review_value ReviewStatus.rejected;
    occurred_at = c.occurred_at;
    actor = some actor;
    review_comment = review_comment;
    change_reason = none;
    revision_no = none;
    supersedes_id = none;
    superseded_by_id = none;
    metadata = c.metadata;
    event_id = c.event_id;
    fresh_id = c.fresh_id;
  }

  -- under_review to rejected
  unfoldable pub reject_review :
      Call b.Metadata → String → Option String → Exec Store GovernanceError (Event × Bool)
  unfolding reject_review_decision
  reject_review c actor review_comment =
      execute_transition (reject_review_transition c actor review_comment)
        (validate_review (reject_review_decision c actor review_comment))
