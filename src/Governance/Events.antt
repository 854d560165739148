-- ===== src/Governance/Events.antt =====
-- backend/governance/events.py: the event, and what the program takes from pydantic and JSON.
use torq_pro_ai.Prelude.{String, Option, some, true, Eq, ◌≡◌, if◌then◌else◌}
use torq_pro_ai.Prelude.Int.{ℤ}
use torq_pro_ai.Prelude.Exec.{Result, ok, raised}
use torq_pro_ai.Governance.Enums.{LifecycleGroup}
use torq_pro_ai.Governance.Errors.{GovernanceError, validation_error}
use torq_pro_ai.Governance.Timestamps.{is_valid_utc_iso8601}

pub record GovernanceEvent (M : Type 0) : Type 0 where
  pub event_id : String
  pub aggregate_id : String
  pub aggregate_type : String
  pub lifecycle_group : LifecycleGroup
  pub previous_status : String
  pub new_status : String
  pub decision_id : String
  pub idempotency_key : String
  pub actor : Option String
  pub occurred_at : String
  pub review_comment : Option String
  pub change_reason : Option String
  pub revision_no : Option ℤ
  pub supersedes_id : Option String
  pub superseded_by_id : Option String
  pub metadata : M

-- The constructor: `ValidationError` where `occurred_at` has another form.
unfoldable pub make_event :
    {M : Type 0} → GovernanceEvent M → Result GovernanceError (GovernanceEvent M)
make_event e = if is_valid_utc_iso8601 e.occurred_at then ok e else raised validation_error

-- The bags of type `Dict[str, Any]`, up to Python's `==`, and the JSON records that pydantic makes
-- of events. A valid event that is dumped validates to itself.
pub record Backing : Type 1 where
  pub Metadata : Type 0
  pub metadata_eq : Eq Metadata
  pub no_metadata : Metadata
  pub Json : Type 0
  pub model_dump : GovernanceEvent Metadata → Json
  pub model_validate : Json → Option (GovernanceEvent Metadata)
  pub validate-dump :
      (e : GovernanceEvent Metadata)
      → is_valid_utc_iso8601 e.occurred_at ≡ true
      → model_validate (model_dump e) ≡ some e
