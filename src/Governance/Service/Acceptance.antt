-- ===== src/Governance/Service/Acceptance.antt =====
-- Exactly what the validators of the nine commands accept.
use torq_pro_ai.Prelude.{String, true, false, ◌≡◌, ◌↔◌, arith}
use torq_pro_ai.Prelude.Texts.{is_blank, is_present}
use torq_pro_ai.Prelude.Exec.{ok}
use torq_pro_ai.Governance.Enums.{
  ReviewStatus, PublicationStatus, ResolutionStatus, ReviewStatus-discrete,
  PublicationStatus-discrete, ResolutionStatus-discrete,
}
use torq_pro_ai.Governance.Members.{
  review_of_value-value, publication_of_value-value, resolution_of_value-value,
}
use torq_pro_ai.Governance.Decisions.{
  make_review, make_publication, make_resolution, validate_review_decision,
  validate_publication_decision, validate_resolution_decision, validate_transition,
  validate_required_fields,
}
use torq_pro_ai.Governance.Timestamps.{is_valid_utc_iso8601, optional_timestamp_ok}
use torq_pro_ai.Governance.Timestamps.Matching.{is_valid_utc_iso8601-not-blank}
use torq_pro_ai.Governance.Transitions.{is_transition_allowed}
use torq_pro_ai.Governance.Events.{Backing}
use torq_pro_ai.Governance.Log.{permits, moves}
use torq_pro_ai.Governance.Service.Commands.{
  validate_review, validate_publication, validate_resolution, submit_review_decision,
  approve_review_decision, reject_review_decision, activate_publication_decision,
  supersede_publication_decision, archive_publication_decision, resolution_command_decision,
}
use torq_pro_ai.Governance.Service.Legality.{
  Command, submit, approve, reject, activate, supersede, archive, resolve, refuse, waive,
  transition_of, validator_of, validator_of-permits,
}

module _ ⦃b : Backing⦄ where
  -- who a command must name: the actor, or for a supersession the successor
  abbrev pub responsible : Command b.Metadata → String
  responsible (submit c actor reason) = actor
  responsible (approve c actor comment) = actor
  responsible (reject c actor comment) = actor
  responsible (activate c actor revision supersedes reason) = actor
  responsible (supersede c by actor reason) = by
  responsible (archive c actor reason) = actor
  responsible (resolve c actor comment) = actor
  responsible (refuse c actor comment) = actor
  responsible (waive c actor comment) = actor

  -- What a command must carry to pass, once its move is permitted.
  pub validator_of-passes :
      (c : Command b.Metadata) (p : String)
      → permits (transition_of c).lifecycle_group p (transition_of c).new_status ≡ true
      → is_blank (responsible c) ≡ false
      → is_blank (transition_of c).occurred_at ≡ false
      → is_valid_utc_iso8601 (transition_of c).occurred_at ≡ true
      → validator_of c p ≡ ok tt
  unfolding validator_of permits moves validate_review validate_publication validate_resolution
      submit_review_decision approve_review_decision reject_review_decision
      activate_publication_decision supersede_publication_decision archive_publication_decision
      resolution_command_decision make_review make_publication make_resolution optional_timestamp_ok
      validate_review_decision validate_publication_decision validate_resolution_decision
      validate_transition validate_required_fields is_present is_transition_allowed
      ReviewStatus-discrete PublicationStatus-discrete ResolutionStatus-discrete
  validator_of-passes (submit c actor reason) p h k l m =
      ground (arith, review_of_value-value ReviewStatus.under_review)
  validator_of-passes (approve c actor comment) p h k l m =
      ground (arith, review_of_value-value ReviewStatus.approved)
  validator_of-passes (reject c actor comment) p h k l m =
      ground (arith, review_of_value-value ReviewStatus.rejected)
  validator_of-passes (activate c actor revision supersedes reason) p h k l m =
      ground (arith, publication_of_value-value PublicationStatus.active)
  validator_of-passes (supersede c by actor reason) p h k l m =
      ground (arith, publication_of_value-value PublicationStatus.superseded)
  validator_of-passes (archive c actor reason) p h k l m =
      ground (arith, publication_of_value-value PublicationStatus.archived)
  validator_of-passes (resolve c actor comment) p h k l m =
      ground (arith, resolution_of_value-value ResolutionStatus.resolved)
  validator_of-passes (refuse c actor comment) p h k l m =
      ground (arith, resolution_of_value-value ResolutionStatus.rejected)
  validator_of-passes (waive c actor comment) p h k l m =
      ground (arith, resolution_of_value-value ResolutionStatus.waived)

  -- What it carries if it passes.
  pub validator_of-carries :
      (c : Command b.Metadata) (p : String)
      → validator_of c p ≡ ok tt
      → (is_blank (responsible c) ≡ false)
        × (is_valid_utc_iso8601 (transition_of c).occurred_at ≡ true)
  unfolding validator_of validate_review validate_publication validate_resolution
      submit_review_decision approve_review_decision reject_review_decision
      activate_publication_decision supersede_publication_decision archive_publication_decision
      resolution_command_decision make_review make_publication make_resolution optional_timestamp_ok
      validate_review_decision validate_publication_decision validate_resolution_decision
      validate_transition validate_required_fields is_present is_transition_allowed
      ReviewStatus-discrete PublicationStatus-discrete ResolutionStatus-discrete
  validator_of-carries (submit c actor reason) p h = ground arith
  validator_of-carries (approve c actor comment) p h = ground arith
  validator_of-carries (reject c actor comment) p h = ground arith
  validator_of-carries (activate c actor revision supersedes reason) p h = ground arith
  validator_of-carries (supersede c by actor reason) p h = ground arith
  validator_of-carries (archive c actor reason) p h = ground arith
  validator_of-carries (resolve c actor comment) p h = ground arith
  validator_of-carries (refuse c actor comment) p h = ground arith
  validator_of-carries (waive c actor comment) p h = ground arith

  -- A validator passes exactly the commands whose move the table permits, that name whoever is
  -- responsible, and whose timestamp is valid.
  pub validator_of_iff :
      (c : Command b.Metadata) (p : String)
      → (validator_of c p ≡ ok tt) ↔ (
          (permits (transition_of c).lifecycle_group p (transition_of c).new_status ≡ true)
          × (is_blank (responsible c) ≡ false)
          × (is_valid_utc_iso8601 (transition_of c).occurred_at ≡ true))
  validator_of_iff c p = (
    λ h. let (k, m) = validator_of-carries c p h in (validator_of-permits c p h, k, m),
    λ (h, k, m). validator_of-passes c p h k (is_valid_utc_iso8601-not-blank _ m) m,
  )
