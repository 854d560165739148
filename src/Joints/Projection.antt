-- ===== src/Joints/Projection.antt =====
-- backend/governance/adapters/joint_revision.py: a joint revision as a review status. A read of the
-- source may fail each time; the module of the joints is there.
use torq_pro_ai.Prelude.{
  ℕ, String, Bool, Option, none, some, List, [], map, if◌then◌else◌, string_eq, ◌==◌,
}
use torq_pro_ai.Prelude.Texts.{is_empty_str, append_str}
use torq_pro_ai.Prelude.Exec.{ok, raised}
use torq_pro_ai.Governance.Enums.{
  LifecycleGroup, review, ReviewStatus, draft, under_review, approved, rejected, review_value,
}
use torq_pro_ai.Joints.Service.{Joints, Revision, get_joint_revision, list_joint_revisions}

pub data ProjectionOutcome : Type 0 where
  supported not_found unsupported_status invalid_source_record source_unavailable :
      ProjectionOutcome

abbrev pub outcome_value : ProjectionOutcome → String
outcome_value supported = "supported"
outcome_value not_found = "not_found"
outcome_value unsupported_status = "unsupported_status"
outcome_value invalid_source_record = "invalid_source_record"
outcome_value source_unavailable = "source_unavailable"

pub record JointRevisionProjection : Type 0 where
  pub source_system : String
  pub joint_revision_id : ℕ
  pub source_status : Option String
  pub lifecycle_group : Option LifecycleGroup
  pub canonical_status : Option String
  pub outcome : String
  pub safe_reason : Option String

-- `_STATUS_MAP.get`
abbrev pub status_map : String → Option ReviewStatus
status_map status =
    if status == "draft"
    then some draft
    else if status == "review"
    then some under_review
    else if status == "approved"
    then some approved
    else if status == "rejected"
    then some rejected
    else none

-- a projection without a canonical status
abbrev failed : ℕ → Option String → ProjectionOutcome → String → JointRevisionProjection
failed id status outcome reason = record {
  source_system = "joint_revision";
  joint_revision_id = id;
  source_status = status;
  lifecycle_group = none;
  canonical_status = none;
  outcome = outcome_value outcome;
  safe_reason = some reason;
}

-- `_unsupported_or_invalid`
abbrev unsupported_or_invalid : String → ℕ → JointRevisionProjection
unsupported_or_invalid status id =
    if is_empty_str status
    then failed id none invalid_source_record "Source record is missing a valid status value."
    else failed id (some status) unsupported_status
        (append_str "Source status '" (append_str status "' is not in the supported vocabulary."))

abbrev project_record : ℕ → Revision → JointRevisionProjection
project_record id r = elim (status_map (r.status)) [
  | none ↦ unsupported_or_invalid (r.status) id
  | some status ↦ record {
    source_system = "joint_revision";
    joint_revision_id = id;
    source_status = some (r.status);
    lifecycle_group = some review;
    canonical_status = some (review_value status);
    outcome = outcome_value supported;
    safe_reason = none;
  }
]

-- Which reads of a query come through: the list, and each revision.
pub record Reads : Type 0 where
  pub lists : Bool
  pub reads : ℕ → Bool

unfoldable pub project_joint_revision : Reads → Joints → ℕ → JointRevisionProjection
unfolding get_joint_revision append_str
project_joint_revision io s id =
    if io.reads id
    then elim (get_joint_revision id s) [
      | ok r ↦ project_record id r
      | raised e ↦ failed id none not_found "No joint revision exists with this id."
    ]
    else failed id none source_unavailable "Joint revision source data could not be read."

unfoldable pub project_joint_revisions_bulk :
    Reads → Joints → Option ℕ → List JointRevisionProjection
project_joint_revisions_bulk io s joint_id =
    if io.lists
    then map (λ r. project_joint_revision io s (r.id)) (list_joint_revisions joint_id s)
    else []
