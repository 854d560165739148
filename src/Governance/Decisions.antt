-- ===== src/Governance/Decisions.antt =====
-- backend/governance/models.py: one record for the decisions of each lifecycle, the tables of the
-- fields that a transition requires, and the three validators. A decision's constructor is
-- `make_…`: it applies the field validators, and pydantic's types are those of the fields.
use torq_pro_ai.Prelude.{
  String, not, ◌&&◌, Option, none, some, List, [], ◌∷◌, Eq, if◌then◌else◌, keep, is_empty,
}
use torq_pro_ai.Prelude.Int.{ℤ}
use torq_pro_ai.Prelude.Texts.{is_present}
use torq_pro_ai.Prelude.Exec.{Result, ok, raised, and_then}
use torq_pro_ai.Governance.Enums.{
  ReviewStatus, PublicationStatus, ResolutionStatus, review_eq, publication_eq, resolution_eq,
  review_transitions, publication_transitions, resolution_transitions, review_value,
  publication_value, resolution_value,
}
use torq_pro_ai.Governance.Errors.{
  Field, GovernanceError, invalid_transition, missing_required_field, validation_error,
}
use torq_pro_ai.Governance.Timestamps.{is_valid_utc_iso8601, optional_timestamp_ok}
use torq_pro_ai.Governance.Transitions.{Table, is_transition_allowed}

pub record ReviewDecision : Type 0 where
  pub decision_id : String
  pub idempotency_key : String
  pub previous_status : ReviewStatus
  pub new_status : ReviewStatus
  pub submitted_by : Option String
  pub submitted_at : Option String
  pub approved_by : Option String
  pub approved_at : Option String
  pub rejected_by : Option String
  pub rejected_at : Option String
  pub review_comment : Option String
  pub change_reason : Option String
  pub created_at : String

pub record PublicationDecision : Type 0 where
  pub decision_id : String
  pub idempotency_key : String
  pub previous_status : PublicationStatus
  pub new_status : PublicationStatus
  pub submitted_by : Option String
  pub revision_no : Option ℤ
  pub supersedes_id : Option String
  pub superseded_by_id : Option String
  pub change_reason : Option String
  pub created_at : String

pub record ResolutionDecision : Type 0 where
  pub decision_id : String
  pub idempotency_key : String
  pub previous_status : ResolutionStatus
  pub new_status : ResolutionStatus
  pub reviewed_by : Option String
  pub reviewed_at : Option String
  pub rejected_by : Option String
  pub rejected_at : Option String
  pub review_comment : Option String
  pub created_at : String

-- The constructors: `ValidationError` where a timestamp has another form.
unfoldable pub make_review : ReviewDecision → Result GovernanceError ReviewDecision
unfolding optional_timestamp_ok
make_review d =
    if optional_timestamp_ok d.submitted_at
      && optional_timestamp_ok d.approved_at
      && optional_timestamp_ok d.rejected_at
      && is_valid_utc_iso8601 d.created_at
    then ok d
    else raised validation_error

unfoldable pub make_publication : PublicationDecision → Result GovernanceError PublicationDecision
make_publication d = if is_valid_utc_iso8601 d.created_at then ok d else raised validation_error

unfoldable pub make_resolution : ResolutionDecision → Result GovernanceError ResolutionDecision
unfolding optional_timestamp_ok
make_resolution d =
    if optional_timestamp_ok d.reviewed_at
      && optional_timestamp_ok d.rejected_at
      && is_valid_utc_iso8601 d.created_at
    then ok d
    else raised validation_error

-- `decision.model_dump().get(field)`
abbrev pub review_field : ReviewDecision → Field → Option String
review_field d Field.submitted_by = d.submitted_by
review_field d Field.submitted_at = d.submitted_at
review_field d Field.approved_by = d.approved_by
review_field d Field.approved_at = d.approved_at
review_field d Field.rejected_by = d.rejected_by
review_field d Field.rejected_at = d.rejected_at
review_field d Field.created_at = some d.created_at
review_field d _ = none

abbrev pub publication_field : PublicationDecision → Field → Option String
publication_field d Field.submitted_by = d.submitted_by
publication_field d Field.superseded_by_id = d.superseded_by_id
publication_field d Field.created_at = some d.created_at
publication_field d _ = none

abbrev pub resolution_field : ResolutionDecision → Field → Option String
resolution_field d Field.reviewed_by = d.reviewed_by
resolution_field d Field.reviewed_at = d.reviewed_at
resolution_field d Field.rejected_by = d.rejected_by
resolution_field d Field.rejected_at = d.rejected_at
resolution_field d Field.created_at = some d.created_at
resolution_field d _ = none

-- `REQUIRED_FIELDS.get((previous, new), frozenset())`, a row for each transition of the table.
abbrev pub review_required : ReviewStatus → ReviewStatus → List Field
review_required ReviewStatus.draft ReviewStatus.under_review =
    Field.submitted_by ∷ Field.submitted_at ∷ []
review_required ReviewStatus.under_review ReviewStatus.approved =
    Field.approved_by ∷ Field.approved_at ∷ []
review_required ReviewStatus.under_review ReviewStatus.rejected =
    Field.rejected_by ∷ Field.rejected_at ∷ []
review_required _ _ = []

abbrev pub publication_required : PublicationStatus → PublicationStatus → List Field
publication_required PublicationStatus.draft PublicationStatus.active =
    Field.submitted_by ∷ Field.created_at ∷ []
publication_required PublicationStatus.active PublicationStatus.superseded =
    Field.superseded_by_id ∷ Field.created_at ∷ []
publication_required PublicationStatus.active PublicationStatus.archived =
    Field.submitted_by ∷ Field.created_at ∷ []
publication_required _ _ = []

abbrev pub resolution_required : ResolutionStatus → ResolutionStatus → List Field
resolution_required ResolutionStatus.open_ ResolutionStatus.resolved =
    Field.reviewed_by ∷ Field.reviewed_at ∷ []
resolution_required ResolutionStatus.open_ ResolutionStatus.rejected =
    Field.reviewed_by ∷ Field.reviewed_at ∷ []
resolution_required ResolutionStatus.open_ ResolutionStatus.waived =
    Field.reviewed_by ∷ Field.reviewed_at ∷ []
resolution_required _ _ = []

unfoldable pub validate_required_fields :
    String → List Field → (Field → Option String) → Result GovernanceError Unit
unfolding keep
validate_required_fields lifecycle_name required provided =
    let missing = keep (λ field. not (is_present (provided field))) required in
    if is_empty missing then ok tt else raised (missing_required_field lifecycle_name missing)

unfoldable pub validate_transition :
    {S : Type 0} ⦃e : Eq S⦄ → (S → String) → Table S → S → S → String → Result GovernanceError Unit
validate_transition value transitions previous new lifecycle_name =
    if is_transition_allowed transitions previous new
    then ok tt
    else raised (invalid_transition lifecycle_name (value previous) (value new))

unfoldable pub validate_review_decision : ReviewDecision → Result GovernanceError Unit
validate_review_decision d =
    and_then
      (validate_transition review_value review_transitions d.previous_status d.new_status "review")
      λ _.
        validate_required_fields "review" (review_required d.previous_status d.new_status)
          (review_field d)

unfoldable pub validate_publication_decision : PublicationDecision → Result GovernanceError Unit
validate_publication_decision d =
    and_then
      (validate_transition publication_value publication_transitions d.previous_status d.new_status
        "publication")
      λ _.
        validate_required_fields "publication" (publication_required d.previous_status d.new_status)
          (publication_field d)

unfoldable pub validate_resolution_decision : ResolutionDecision → Result GovernanceError Unit
validate_resolution_decision d =
    and_then
      (validate_transition resolution_value resolution_transitions d.previous_status d.new_status
        "resolution")
      λ _.
        validate_required_fields "resolution" (resolution_required d.previous_status d.new_status)
          (resolution_field d)
