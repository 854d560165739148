-- ===== src/Governance/Service/Legality.antt =====
-- Commands as values, and what the validators of the nine commands guarantee.
use torq_pro_ai.Prelude.{String, Bool, true, Option, some, ◌≡◌, refl, arith, inl, inr, Option-cases}
use torq_pro_ai.Prelude.Int.{ℤ}
use torq_pro_ai.Prelude.Exec.{Result, ok, Exec}
use torq_pro_ai.Governance.Enums.{
  ReviewStatus, PublicationStatus, ResolutionStatus, review, publication, resolution, review_value,
  publication_value, resolution_value, review_of_value, publication_of_value, resolution_of_value,
  review_transitions, publication_transitions, resolution_transitions, review_eq, publication_eq,
  resolution_eq,
}
use torq_pro_ai.Governance.Members.{
  review_of_value-value, publication_of_value-value, resolution_of_value-value,
}
use torq_pro_ai.Governance.Errors.{GovernanceError}
use torq_pro_ai.Governance.Decisions.{
  ReviewDecision, PublicationDecision, ResolutionDecision, make_review, make_publication,
  make_resolution, validate_review_decision, validate_publication_decision,
  validate_resolution_decision, validate_transition,
}
use torq_pro_ai.Governance.Events.{Backing}
use torq_pro_ai.Governance.Store.{Event, Store}
use torq_pro_ai.Governance.Transitions.{is_transition_allowed}
use torq_pro_ai.Governance.Log.{permits, moves_lem}
use torq_pro_ai.Governance.Service.{Transition, execute_transition}
use torq_pro_ai.Governance.Service.Commands.{
  Call, validate_review, validate_publication, validate_resolution, submit_review, approve_review,
  reject_review, activate_publication, supersede_publication, archive_publication,
  resolution_command, resolve_resolution, reject_resolution, waive_resolution,
  submit_review_decision, approve_review_decision, reject_review_decision,
  activate_publication_decision, supersede_publication_decision, archive_publication_decision,
  resolution_command_decision, submit_review_transition, approve_review_transition,
  reject_review_transition, activate_publication_transition, supersede_publication_transition,
  archive_publication_transition, resolution_command_transition,
}

-- The member that the validator builds its decision of, and what it requires of the decision.
module _ (p : String) where
  validate_review-eq_ok :
      (decide : ReviewStatus → ReviewDecision)
      → validate_review decide p ≡ ok tt
      → (s : ReviewStatus) × (review_of_value p ≡ some s)
        × (validate_review_decision (decide s) ≡ ok tt)
  unfolding validate_review make_review
  validate_review-eq_ok decide h = elim (Option-cases (review_of_value p)) [
    | inl e ↦ absurd (ground arith)
    | inr (s, e) ↦ (s, e, ground arith)
  ]

  validate_publication-eq_ok :
      (decide : PublicationStatus → PublicationDecision)
      → validate_publication decide p ≡ ok tt
      → (s : PublicationStatus) × (publication_of_value p ≡ some s)
        × (validate_publication_decision (decide s) ≡ ok tt)
  unfolding validate_publication make_publication
  validate_publication-eq_ok decide h = elim (Option-cases (publication_of_value p)) [
    | inl e ↦ absurd (ground arith)
    | inr (s, e) ↦ (s, e, ground arith)
  ]

  validate_resolution-eq_ok :
      (decide : ResolutionStatus → ResolutionDecision)
      → validate_resolution decide p ≡ ok tt
      → (s : ResolutionStatus) × (resolution_of_value p ≡ some s)
        × (validate_resolution_decision (decide s) ≡ ok tt)
  unfolding validate_resolution make_resolution
  validate_resolution-eq_ok decide h = elim (Option-cases (resolution_of_value p)) [
    | inl e ↦ absurd (ground arith)
    | inr (s, e) ↦ (s, e, ground arith)
  ]

review_allowed :
    (d : ReviewDecision)
    → validate_review_decision d ≡ ok tt
    → is_transition_allowed review_transitions d.previous_status d.new_status ≡ true
unfolding validate_review_decision validate_transition
review_allowed d h = ground arith

publication_allowed :
    (d : PublicationDecision)
    → validate_publication_decision d ≡ ok tt
    → is_transition_allowed publication_transitions d.previous_status d.new_status ≡ true
unfolding validate_publication_decision validate_transition
publication_allowed d h = ground arith

resolution_allowed :
    (d : ResolutionDecision)
    → validate_resolution_decision d ≡ ok tt
    → is_transition_allowed resolution_transitions d.previous_status d.new_status ≡ true
unfolding validate_resolution_decision validate_transition
resolution_allowed d h = ground arith

-- A decision of the previous status `s` and a fixed new one.
module _ (p : String) where
  review_permits :
      (decide : ReviewStatus → ReviewDecision) (n : ReviewStatus)
      → ((s : ReviewStatus) → ((decide s).previous_status ≡ s) × ((decide s).new_status ≡ n))
      → validate_review decide p ≡ ok tt
      → permits review p (review_value n) ≡ true
  unfolding permits
  review_permits decide n shape h =
      let (s, e, v) = validate_review-eq_ok p decide h in
      let allowed = review_allowed (decide s) v in
      rw
        (moves_lem review_of_value review_transitions p (review_value n) s n e
          (review_of_value-value n))
        (rw ((shape s).0, (shape s).1) at allowed)

  publication_permits :
      (decide : PublicationStatus → PublicationDecision) (n : PublicationStatus)
      → ((s : PublicationStatus) → ((decide s).previous_status ≡ s) × ((decide s).new_status ≡ n))
      → validate_publication decide p ≡ ok tt
      → permits publication p (publication_value n) ≡ true
  unfolding permits
  publication_permits decide n shape h =
      let (s, e, v) = validate_publication-eq_ok p decide h in
      let allowed = publication_allowed (decide s) v in
      rw
        (moves_lem publication_of_value publication_transitions p (publication_value n) s n e
          (publication_of_value-value n))
        (rw ((shape s).0, (shape s).1) at allowed)

  resolution_permits :
      (decide : ResolutionStatus → ResolutionDecision) (n : ResolutionStatus)
      → ((s : ResolutionStatus) → ((decide s).previous_status ≡ s) × ((decide s).new_status ≡ n))
      → validate_resolution decide p ≡ ok tt
      → permits resolution p (resolution_value n) ≡ true
  unfolding permits
  resolution_permits decide n shape h =
      let (s, e, v) = validate_resolution-eq_ok p decide h in
      let allowed = resolution_allowed (decide s) v in
      rw
        (moves_lem resolution_of_value resolution_transitions p (resolution_value n) s n e
          (resolution_of_value-value n))
        (rw ((shape s).0, (shape s).1) at allowed)

-- A request to the service: one constructor for each of the nine functions.
pub data Command (M : Type 0) : Type 0 where
  submit : Call M → String → Option String → Command M
  approve : Call M → String → Option String → Command M
  reject : Call M → String → Option String → Command M
  activate : Call M → String → Option ℤ → Option String → Option String → Command M
  supersede : Call M → String → Option String → Option String → Command M
  archive : Call M → String → Option String → Command M
  resolve : Call M → String → Option String → Command M
  refuse : Call M → String → Option String → Command M
  waive : Call M → String → Option String → Command M

module _ ⦃b : Backing⦄ where
  unfoldable pub run : Command b.Metadata → Exec Store GovernanceError (Event × Bool)
  run (submit c actor reason) = submit_review c actor reason
  run (approve c actor comment) = approve_review c actor comment
  run (reject c actor comment) = reject_review c actor comment
  run (activate c actor revision supersedes reason) =
      activate_publication c actor revision supersedes reason
  run (supersede c by actor reason) = supersede_publication c by actor reason
  run (archive c actor reason) = archive_publication c actor reason
  run (resolve c actor comment) = resolve_resolution c actor comment
  run (refuse c actor comment) = reject_resolution c actor comment
  run (waive c actor comment) = waive_resolution c actor comment

  -- what the command hands to the engine
  abbrev pub transition_of : Command b.Metadata → Transition b.Metadata
  transition_of (submit c actor reason) = submit_review_transition c actor reason
  transition_of (approve c actor comment) = approve_review_transition c actor comment
  transition_of (reject c actor comment) = reject_review_transition c actor comment
  transition_of (activate c actor revision supersedes reason) =
      activate_publication_transition c actor revision supersedes reason
  transition_of (supersede c by actor reason) = supersede_publication_transition c by actor reason
  transition_of (archive c actor reason) = archive_publication_transition c actor reason
  transition_of (resolve c actor comment) =
      resolution_command_transition c actor ResolutionStatus.resolved comment
  transition_of (refuse c actor comment) =
      resolution_command_transition c actor ResolutionStatus.rejected comment
  transition_of (waive c actor comment) =
      resolution_command_transition c actor ResolutionStatus.waived comment

  unfoldable pub validator_of : Command b.Metadata → String → Result GovernanceError Unit
  validator_of (submit c actor reason) = validate_review (submit_review_decision c actor reason)
  validator_of (approve c actor comment) = validate_review (approve_review_decision c actor comment)
  validator_of (reject c actor comment) = validate_review (reject_review_decision c actor comment)
  validator_of (activate c actor revision supersedes reason) =
      validate_publication (activate_publication_decision c actor revision supersedes reason)
  validator_of (supersede c by actor reason) =
      validate_publication (supersede_publication_decision c by actor reason)
  validator_of (archive c actor reason) =
      validate_publication (archive_publication_decision c actor reason)
  validator_of (resolve c actor comment) =
      validate_resolution (resolution_command_decision c actor ResolutionStatus.resolved comment)
  validator_of (refuse c actor comment) =
      validate_resolution (resolution_command_decision c actor ResolutionStatus.rejected comment)
  validator_of (waive c actor comment) =
      validate_resolution (resolution_command_decision c actor ResolutionStatus.waived comment)

  pub run_lem :
      (c : Command b.Metadata) → run c ≡ execute_transition (transition_of c) (validator_of c)
  unfolding run validator_of submit_review approve_review reject_review activate_publication
      supersede_publication archive_publication resolution_command resolve_resolution
      reject_resolution waive_resolution
  run_lem (submit c actor reason) = refl
  run_lem c = refl

  -- A validator passes only what the table of its lifecycle permits.
  pub validator_of-permits :
      (c : Command b.Metadata) (p : String)
      → validator_of c p ≡ ok tt
      → permits (transition_of c).lifecycle_group p (transition_of c).new_status ≡ true
  unfolding validator_of submit_review_decision approve_review_decision reject_review_decision
      activate_publication_decision supersede_publication_decision archive_publication_decision
      resolution_command_decision
  validator_of-permits (submit c actor reason) p h =
      review_permits p (submit_review_decision c actor reason) ReviewStatus.under_review
        (λ s. (refl, refl)) h
  validator_of-permits (approve c actor comment) p h =
      review_permits p (approve_review_decision c actor comment) ReviewStatus.approved
        (λ s. (refl, refl)) h
  validator_of-permits (reject c actor comment) p h =
      review_permits p (reject_review_decision c actor comment) ReviewStatus.rejected
        (λ s. (refl, refl)) h
  validator_of-permits (activate c actor revision supersedes reason) p h =
      publication_permits p (activate_publication_decision c actor revision supersedes reason)
        PublicationStatus.active (λ s. (refl, refl)) h
  validator_of-permits (supersede c by actor reason) p h =
      publication_permits p (supersede_publication_decision c by actor reason)
        PublicationStatus.superseded (λ s. (refl, refl)) h
  validator_of-permits (archive c actor reason) p h =
      publication_permits p (archive_publication_decision c actor reason) PublicationStatus.archived
        (λ s. (refl, refl)) h
  validator_of-permits (resolve c actor comment) p h =
      resolution_permits p (resolution_command_decision c actor ResolutionStatus.resolved comment)
        ResolutionStatus.resolved (λ s. (refl, refl)) h
  validator_of-permits (refuse c actor comment) p h =
      resolution_permits p (resolution_command_decision c actor ResolutionStatus.rejected comment)
        ResolutionStatus.rejected (λ s. (refl, refl)) h
  validator_of-permits (waive c actor comment) p h =
      resolution_permits p (resolution_command_decision c actor ResolutionStatus.waived comment)
        ResolutionStatus.waived (λ s. (refl, refl)) h
