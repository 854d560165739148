-- ===== src/Governance/Service/Commands/Publications.antt =====
-- `activate_publication`, `supersede_publication` and `archive_publication`.
use torq_pro_ai.Prelude.{String, Bool, Option, none, some}
use torq_pro_ai.Prelude.Int.{ℤ}
use torq_pro_ai.Prelude.Exec.{Exec}
use torq_pro_ai.Governance.Enums.{PublicationStatus, publication, publication_value}
use torq_pro_ai.Governance.Errors.{GovernanceError}
use torq_pro_ai.Governance.Decisions.{PublicationDecision}
use torq_pro_ai.Governance.Events.{Backing}
use torq_pro_ai.Governance.Store.{Event, Store}
use torq_pro_ai.Governance.Service.{Transition, execute_transition}
use torq_pro_ai.Governance.Service.Commands.Calls.{Call, validate_publication}

module _ ⦃b : Backing⦄ where
  unfoldable pub activate_publication_decision :
      Call b.Metadata
      → String
      → Option ℤ
      → Option String
      → Option String
      → PublicationStatus
      → PublicationDecision
  activate_publication_decision c actor revision_no supersedes_id change_reason s = record {
    decision_id = c.decision_id;
    idempotency_key = c.idempotency_key;
    previous_status = s;
    new_status = PublicationStatus.active;
    submitted_by = some actor;
    revision_no = revision_no;
    supersedes_id = supersedes_id;
    superseded_by_id = none;
    change_reason = change_reason;
    created_at = c.occurred_at;
  }

  abbrev pub activate_publication_transition :
      Call b.Metadata → String → Option ℤ → Option String → Option String → Transition b.Metadata
  activate_publication_transition c actor revision_no supersedes_id change_reason = record {
    aggregate_id = c.aggregate_id;
    aggregate_type = c.aggregate_type;
    lifecycle_group = publication;
    decision_id = c.decision_id;
    idempotency_key = c.idempotency_key;
    new_status = publication_value PublicationStatus.active;
    occurred_at = c.occurred_at;
    actor = some actor;
    review_comment = none;
    change_reason = change_reason;
    revision_no = revision_no;
    supersedes_id = supersedes_id;
    superseded_by_id = none;
    metadata = c.metadata;
    event_id = c.event_id;
    fresh_id = c.fresh_id;
  }

  -- draft to active
  unfoldable pub activate_publication :
      Call b.Metadata
      → String
      → Option ℤ
      → Option String
      → Option String
      → Exec Store GovernanceError (Event × Bool)
  unfolding activate_publication_decision
  activate_publication c actor revision_no supersedes_id change_reason =
      execute_transition
        (activate_publication_transition c actor revision_no supersedes_id change_reason)
        (validate_publication
          (activate_publication_decision c actor revision_no supersedes_id change_reason))

  unfoldable pub supersede_publication_decision :
      Call b.Metadata
      → String
      → Option String
      → Option String
      → PublicationStatus
      → PublicationDecision
  supersede_publication_decision c superseded_by_id actor change_reason s = record {
    decision_id = c.decision_id;
    idempotency_key = c.idempotency_key;
    previous_status = s;
    new_status = PublicationStatus.superseded;
    submitted_by = none;
    revision_no = none;
    supersedes_id = none;
    superseded_by_id = some superseded_by_id;
    change_reason = change_reason;
    created_at = c.occurred_at;
  }

  abbrev pub supersede_publication_transition :
      Call b.Metadata → String → Option String → Option String → Transition b.Metadata
  supersede_publication_transition c superseded_by_id actor change_reason = record {
    aggregate_id = c.aggregate_id;
    aggregate_type = c.aggregate_type;
    lifecycle_group = publication;
    decision_id = c.decision_id;
    idempotency_key = c.idempotency_key;
    new_status = publication_value PublicationStatus.superseded;
    occurred_at = c.occurred_at;
    actor = actor;
    review_comment = none;
    change_reason = change_reason;
    revision_no = none;
    supersedes_id = none;
    superseded_by_id = some superseded_by_id;
    metadata = c.metadata;
    event_id = c.event_id;
    fresh_id = c.fresh_id;
  }

  -- active to superseded
  unfoldable pub supersede_publication :
      Call b.Metadata
      → String
      → Option String
      → Option String
      → Exec Store GovernanceError (Event × Bool)
  unfolding supersede_publication_decision
  supersede_publication c superseded_by_id actor change_reason =
      execute_transition (supersede_publication_transition c superseded_by_id actor change_reason) (
        validate_publication
          (supersede_publication_decision c superseded_by_id actor change_reason))

  unfoldable pub archive_publication_decision :
      Call b.Metadata → String → Option String → PublicationStatus → PublicationDecision
  archive_publication_decision c actor change_reason s = record {
    decision_id = c.decision_id;
    idempotency_key = c.idempotency_key;
    previous_status = s;
    new_status = PublicationStatus.archived;
    submitted_by = some actor;
    revision_no = none;
    supersedes_id = none;
    superseded_by_id = none;
    change_reason = change_reason;
    created_at = c.occurred_at;
  }

  abbrev pub archive_publication_transition :
      Call b.Metadata → String → Option String → Transition b.Metadata
  archive_publication_transition c actor change_reason = record {
    aggregate_id = c.aggregate_id;
    aggregate_type = c.aggregate_type;
    lifecycle_group = publication;
    decision_id = c.decision_id;
    idempotency_key = c.idempotency_key;
    new_status = publication_value PublicationStatus.archived;
    occurred_at = c.occurred_at;
    actor = some actor;
    review_comment = none;
    change_reason = change_reason;
    revision_no = none;
    supersedes_id = none;
    superseded_by_id = none;
    metadata = c.metadata;
    event_id = c.event_id;
    fresh_id = c.fresh_id;
  }

  -- active to archived
  unfoldable pub archive_publication :
      Call b.Metadata → String → Option String → Exec Store GovernanceError (Event × Bool)
  unfolding archive_publication_decision
  archive_publication c actor change_reason =
      execute_transition (archive_publication_transition c actor change_reason)
        (validate_publication (archive_publication_decision c actor change_reason))
