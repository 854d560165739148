-- ===== src/Governance/Log/Bounds.antt =====
-- The tables have no cycle, so a lifecycle has few events: at most two for a review and for a
-- publication, one for a resolution.
use torq_pro_ai.Prelude.{
  ℕ, suc, ◌≤◌, String, true, Option, some, List, [], ◌∷◌, ◌≡◌, arith, inl, inr, Option-cases, Eq,
  length, keep, string_eq,
}
use torq_pro_ai.Governance.Enums.{
  LifecycleGroup, review, publication, resolution, ReviewStatus, PublicationStatus,
  ResolutionStatus, review_eq, publication_eq, resolution_eq, review_value, publication_value,
  resolution_value, review_of_value, publication_of_value, resolution_of_value,
  ReviewStatus-discrete, PublicationStatus-discrete, ResolutionStatus-discrete, review_transitions,
  publication_transitions, resolution_transitions,
}
use torq_pro_ai.Governance.Members.{
  review_of_value-value, publication_of_value-value, resolution_of_value-value,
  value-review_of_value, value-publication_of_value, value-resolution_of_value,
}
use torq_pro_ai.Governance.Events.{GovernanceEvent}
use torq_pro_ai.Governance.Service.{initial_status}
use torq_pro_ai.Governance.Transitions.{Table, is_transition_allowed}
use torq_pro_ai.Governance.Log.{moves, permits, concerns, IsLegal}
use torq_pro_ai.Governance.Log.Chains.{Linked, Chain, IsLegal-Chain}

module _ {S : Type 0} ⦃e : Eq S⦄ (of_value : String → Option S) (value : S → String)
    (table : Table S) (rank : S → ℕ) (of_value-value : (s : S) → of_value (value s) ≡ some s)
    (value-of_value : (v : String) (s : S) → of_value v ≡ some s → v ≡ value s)
    (descends : (s s' : S) → is_transition_allowed table s s' ≡ true → suc (rank s') ≤ rank s) where
  moves-member :
      (s : S) (n : String)
      → moves of_value table (value s) n ≡ true
      → (s' : S) × (n ≡ value s') × (is_transition_allowed table s s' ≡ true)
  unfolding moves
  moves-member s n h = elim (Option-cases (of_value n)) [
    | inl k ↦ absurd (ground (arith, of_value-value s))
    | inr (s', k) ↦ (s', value-of_value n s' k, ground (arith, of_value-value s))
  ]

  Linked-length :
      {M : Type 0} (s : S) (es : List (GovernanceEvent M))
      → Linked (moves of_value table) (value s) es
      → length es ≤ rank s
  Linked-length s [] c = omega arith
  Linked-length s (x ∷ es) c =
      let (s', k, a) = moves-member s x.new_status c.1 in
      omega (arith, descends s s' a, Linked-length s' es (rw k at c.2))

-- how many moves are left
abbrev review_rank : ReviewStatus → ℕ
review_rank ReviewStatus.draft = 2
review_rank ReviewStatus.under_review = 1
review_rank _ = 0

abbrev publication_rank : PublicationStatus → ℕ
publication_rank PublicationStatus.draft = 2
publication_rank PublicationStatus.active = 1
publication_rank _ = 0

abbrev resolution_rank : ResolutionStatus → ℕ
resolution_rank ResolutionStatus.open_ = 1
resolution_rank _ = 0

review_descends :
    (s s' : ReviewStatus)
    → is_transition_allowed review_transitions s s' ≡ true
    → suc (review_rank s') ≤ review_rank s
unfolding is_transition_allowed ReviewStatus-discrete
review_descends s s' h = ground arith

publication_descends :
    (s s' : PublicationStatus)
    → is_transition_allowed publication_transitions s s' ≡ true
    → suc (publication_rank s') ≤ publication_rank s
unfolding is_transition_allowed PublicationStatus-discrete
publication_descends s s' h = ground arith

resolution_descends :
    (s s' : ResolutionStatus)
    → is_transition_allowed resolution_transitions s s' ≡ true
    → suc (resolution_rank s') ≤ resolution_rank s
unfolding is_transition_allowed ResolutionStatus-discrete
resolution_descends s s' h = ground arith

abbrev pub max_events : LifecycleGroup → ℕ
max_events review = 2
max_events publication = 2
max_events resolution = 1

module _ {M : Type 0} where
  Chain-length :
      (g : LifecycleGroup) (es : List (GovernanceEvent M))
      → Chain g (initial_status g) es
      → length es ≤ max_events g
  unfolding permits
  Chain-length review es c =
      Linked-length review_of_value review_value review_transitions review_rank
        review_of_value-value value-review_of_value review_descends ReviewStatus.draft es c
  Chain-length publication es c =
      Linked-length publication_of_value publication_value publication_transitions publication_rank
        publication_of_value-value value-publication_of_value publication_descends
        PublicationStatus.draft es c
  Chain-length resolution es c =
      Linked-length resolution_of_value resolution_value resolution_transitions resolution_rank
        resolution_of_value-value value-resolution_of_value resolution_descends
        ResolutionStatus.open_ es c

  -- A legal log holds at most two events of the review of an aggregate, at most two of its
  -- publication, and at most one of its resolution.
  pub IsLegal-length :
      (es : List (GovernanceEvent M)) (a : String) (g : LifecycleGroup)
      → IsLegal es
      → length (keep (concerns a g) es) ≤ max_events g
  IsLegal-length es a g l = Chain-length g (keep (concerns a g) es) (IsLegal-Chain a g l)
