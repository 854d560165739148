-- ===== src/Governance/Log/Terminal.antt =====
-- The terminal sets of backend/governance/enums.py against its tables.
use torq_pro_ai.Prelude.{
  String, true, false, Option, some, ◌≡◌, ◌↔◌, refl, arith, inl, inr, Option-cases, Eq, contains,
}
use torq_pro_ai.Governance.Enums.{
  review, publication, resolution, ReviewStatus, PublicationStatus, ResolutionStatus,
  ReviewStatus-discrete, PublicationStatus-discrete, ResolutionStatus-discrete, review_eq,
  publication_eq, resolution_eq, review_value, publication_value, resolution_value, review_of_value,
  publication_of_value, resolution_of_value, review_transitions, publication_transitions,
  resolution_transitions, review_terminal, publication_terminal, resolution_terminal,
}
use torq_pro_ai.Governance.Transitions.{Table, is_transition_allowed}
use torq_pro_ai.Governance.Log.{moves, permits, IsTerminal}

module _ {S : Type 0} ⦃e : Eq S⦄ (of_value : String → Option S) (table : Table S) where
  moves-from_last :
      (v : String) (s : S)
      → of_value v ≡ some s
      → ((s' : S) → is_transition_allowed table s s' ≡ false)
      → (n : String) → moves of_value table v n ≡ false
  unfolding moves
  moves-from_last v s h last n = elim (Option-cases (of_value n)) [
    | inl k ↦ ground arith
    | inr (s', k) ↦ ground (arith, last s')
  ]

-- The terminal statuses of a review are those that no move leads out of.
pub review_terminal_iff :
    (s : ReviewStatus) → (contains s review_terminal ≡ true) ↔ IsTerminal review (review_value s)
unfolding permits moves review_of_value is_transition_allowed ReviewStatus-discrete
review_terminal_iff ReviewStatus.draft = (λ h. cc, λ t. cc (t "under_review"))
review_terminal_iff ReviewStatus.under_review = (λ h. cc, λ t. cc (t "approved"))
review_terminal_iff ReviewStatus.approved = (
  λ _.
      moves-from_last review_of_value review_transitions "approved" ReviewStatus.approved refl
        (λ s. refl),
  λ _. refl,
)
review_terminal_iff ReviewStatus.rejected = (
  λ _.
      moves-from_last review_of_value review_transitions "rejected" ReviewStatus.rejected refl
        (λ s. refl),
  λ _. refl,
)

-- So too for a publication.
pub publication_terminal_iff :
    (s : PublicationStatus)
    → (contains s publication_terminal ≡ true) ↔ IsTerminal publication (publication_value s)
unfolding permits moves publication_of_value is_transition_allowed PublicationStatus-discrete
publication_terminal_iff PublicationStatus.draft = (λ h. cc, λ t. cc (t "active"))
publication_terminal_iff PublicationStatus.active = (λ h. cc, λ t. cc (t "archived"))
publication_terminal_iff PublicationStatus.superseded = (
  λ _.
      moves-from_last publication_of_value publication_transitions "superseded"
        PublicationStatus.superseded refl (λ s. refl),
  λ _. refl,
)
publication_terminal_iff PublicationStatus.archived = (
  λ _.
      moves-from_last publication_of_value publication_transitions "archived"
        PublicationStatus.archived refl (λ s. refl),
  λ _. refl,
)

-- So too for a resolution.
pub resolution_terminal_iff :
    (s : ResolutionStatus)
    → (contains s resolution_terminal ≡ true) ↔ IsTerminal resolution (resolution_value s)
unfolding permits moves resolution_of_value is_transition_allowed ResolutionStatus-discrete
resolution_terminal_iff ResolutionStatus.open_ = (λ h. cc, λ t. cc (t "waived"))
resolution_terminal_iff ResolutionStatus.resolved = (
  λ _.
      moves-from_last resolution_of_value resolution_transitions "resolved"
        ResolutionStatus.resolved refl (λ s. refl),
  λ _. refl,
)
resolution_terminal_iff ResolutionStatus.rejected = (
  λ _.
      moves-from_last resolution_of_value resolution_transitions "rejected"
        ResolutionStatus.rejected refl (λ s. refl),
  λ _. refl,
)
resolution_terminal_iff ResolutionStatus.waived = (
  λ _.
      moves-from_last resolution_of_value resolution_transitions "waived" ResolutionStatus.waived
        refl (λ s. refl),
  λ _. refl,
)
