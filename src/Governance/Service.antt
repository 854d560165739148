-- ===== src/Governance/Service.antt =====
-- backend/governance/service.py: the read accessors, the request engine and the nine commands.
-- Its proofs are in the modules below.
pub mod Commands
pub mod Engine
pub mod Legality
pub mod Invariant
pub mod Found
pub mod Retry
pub mod Acceptance
pub mod Outcomes
pub mod Traces
use torq_pro_ai.Prelude.{
  String, Bool, true, false, Option, none, some, get_or, List, string_eq, option_eq, ◌==◌, ◌&&◌,
  if◌then◌else◌, keep, last?,
}
use torq_pro_ai.Prelude.Int.{ℤ, int_eq}
use torq_pro_ai.Prelude.Texts.{is_empty_str}
use torq_pro_ai.Prelude.Exec.{Result, ok, raised, and_then, Exec, pure, lift, reads, ◌>>=◌, ◌>>◌}
use torq_pro_ai.Governance.Enums.{
  ReviewStatus, PublicationStatus, ResolutionStatus, LifecycleGroup, review, publication,
  resolution, group_eq, review_value, publication_value, resolution_value, group_value,
}
use torq_pro_ai.Governance.Errors.{
  GovernanceError, aggregate_not_found, idempotency_conflict, duplicate_decision,
}
use torq_pro_ai.Governance.Events.{make_event, Backing}
use torq_pro_ai.Governance.Store.{
  Event, Store, events_for_aggregate, find_by_decision_id, find_by_idempotency_key, append,
}

-- `_INITIAL_STATUS`
abbrev pub initial_status : LifecycleGroup → String
initial_status review = review_value ReviewStatus.draft
initial_status publication = publication_value PublicationStatus.draft
initial_status resolution = resolution_value ResolutionStatus.open_

-- The keyword arguments of `_execute_transition`; `fresh_id` is what `uuid4().hex` gives this call.
pub record Transition (M : Type 0) : Type 0 where
  pub aggregate_id : String
  pub aggregate_type : String
  pub lifecycle_group : LifecycleGroup
  pub decision_id : String
  pub idempotency_key : String
  pub new_status : String
  pub occurred_at : String
  pub actor : Option String
  pub review_comment : Option String
  pub change_reason : Option String
  pub revision_no : Option ℤ
  pub supersedes_id : Option String
  pub superseded_by_id : Option String
  pub metadata : Option M
  pub event_id : Option String
  pub fresh_id : String

-- The dict that `_normalize_request` builds.
pub record Normalized (M : Type 0) : Type 0 where
  pub aggregate_id : String
  pub aggregate_type : String
  pub lifecycle_group : String
  pub decision_id : String
  pub new_status : String
  pub actor : Option String
  pub review_comment : Option String
  pub change_reason : Option String
  pub revision_no : Option ℤ
  pub supersedes_id : Option String
  pub superseded_by_id : Option String
  pub metadata : M

-- `event_id or _default_event_id_factory()`
abbrev pub id_or : Option String → String → String
id_or none fresh = fresh
id_or (some i) fresh = if is_empty_str i then fresh else i

module _ ⦃b : Backing⦄ where
  abbrev in_group : Option LifecycleGroup → Event → Bool
  in_group none e = true
  in_group (some g) e = e.lifecycle_group == g

  unfoldable pub event_history :
      Store → String → Option LifecycleGroup → Result GovernanceError (List Event)
  unfolding events_for_aggregate
  event_history d aggregate_id group =
      and_then (events_for_aggregate d aggregate_id) λ es. ok (keep (in_group group) es)

  unfoldable pub latest_event :
      Store → String → Option LifecycleGroup → Bool → Result GovernanceError (Option Event)
  unfolding event_history
  latest_event d aggregate_id group strict = and_then (event_history d aggregate_id group) λ es.
      elim (last? es) [
        | some e ↦ ok (some e)
        | none ↦
            if strict
            then raised (
                aggregate_not_found aggregate_id
                  (elim group [ none ↦ "any" | some g ↦ group_value g ]))
            else ok none
      ]

  unfoldable pub effective_status : Store → String → LifecycleGroup → Result GovernanceError String
  unfolding latest_event
  effective_status d aggregate_id group =
      and_then (latest_event d aggregate_id (some group) false)
        λ event. elim event [ none ↦ ok (initial_status group) | some e ↦ ok e.new_status ]

  -- `metadata or {}`
  abbrev pub metadata_or : Option b.Metadata → b.Metadata
  metadata_or m = get_or m b.no_metadata

  unfoldable pub normalize_request : Transition b.Metadata → Normalized b.Metadata
  normalize_request t = record {
    aggregate_id = t.aggregate_id;
    aggregate_type = t.aggregate_type;
    lifecycle_group = group_value t.lifecycle_group;
    decision_id = t.decision_id;
    new_status = t.new_status;
    actor = t.actor;
    review_comment = t.review_comment;
    change_reason = t.change_reason;
    revision_no = t.revision_no;
    supersedes_id = t.supersedes_id;
    superseded_by_id = t.superseded_by_id;
    metadata = metadata_or t.metadata;
  }

  unfoldable pub event_matches_request : Event → Normalized b.Metadata → Bool
  event_matches_request e n =
      e.aggregate_id == n.aggregate_id
      && e.aggregate_type == n.aggregate_type
      && group_value e.lifecycle_group == n.lifecycle_group
      && e.decision_id == n.decision_id
      && e.new_status == n.new_status
      && e.actor == n.actor
      && e.review_comment == n.review_comment
      && e.change_reason == n.change_reason
      && e.revision_no == n.revision_no
      && e.supersedes_id == n.supersedes_id
      && e.superseded_by_id == n.superseded_by_id
      && b.metadata_eq.beq e.metadata n.metadata

  unfoldable pub resolve_idempotency :
      Store → String → String → Normalized b.Metadata → Result GovernanceError (Option Event)
  unfolding event_matches_request
  resolve_idempotency d key decision_id n = and_then (find_by_idempotency_key d key) λ by_key.
      elim by_key [
        | some e ↦
            if event_matches_request e n then ok (some e) else raised (idempotency_conflict key)
        | none ↦
            (and_then (find_by_decision_id d decision_id) λ by_decision. elim by_decision [
              | some _ ↦ raised (duplicate_decision decision_id)
              | none ↦ ok none
            ])
      ]

  unfoldable pub event_of : Transition b.Metadata → String → Event
  event_of t previous = record {
    event_id = id_or t.event_id t.fresh_id;
    aggregate_id = t.aggregate_id;
    aggregate_type = t.aggregate_type;
    lifecycle_group = t.lifecycle_group;
    previous_status = previous;
    new_status = t.new_status;
    decision_id = t.decision_id;
    idempotency_key = t.idempotency_key;
    actor = t.actor;
    occurred_at = t.occurred_at;
    review_comment = t.review_comment;
    change_reason = t.change_reason;
    revision_no = t.revision_no;
    supersedes_id = t.supersedes_id;
    superseded_by_id = t.superseded_by_id;
    metadata = metadata_or t.metadata;
  }

  -- steps 2 and 3 of `_execute_transition`
  unfoldable pub persist_new :
      Transition b.Metadata
      → (String → Result GovernanceError Unit)
      → Exec Store GovernanceError (Event × Bool)
  persist_new t validate_against_previous = do
    previous ← reads (λ d. effective_status d t.aggregate_id t.lifecycle_group)
    lift (validate_against_previous previous)
    event ← lift (make_event (event_of t previous))
    append event
    pure (event, true)

  -- the new event with `true`, or the event of the same request with `false`
  unfoldable pub execute_transition :
      Transition b.Metadata
      → (String → Result GovernanceError Unit)
      → Exec Store GovernanceError (Event × Bool)
  execute_transition t validate_against_previous = do
    existing ←
        reads (λ d. resolve_idempotency d t.idempotency_key t.decision_id (normalize_request t))
    elim existing [ some e ↦ pure (e, false) | none ↦ persist_new t validate_against_previous ]
