-- ===== src/Governance/Log.antt =====
-- The specification of the governance log: what a list of events says of a lifecycle of an
-- aggregate, and which lists are legal. It names no store and no request.
pub mod Chains
pub mod Bounds
pub mod Terminal
use torq_pro_ai.Prelude.{
  Eq, arith, String, Bool, true, false, Option, none, some, List, [], ◌∷◌, ◌++◌, ◌≡◌, ◌==◌, ◌&&◌,
  keep, last?, find_first, string_eq,
}
use torq_pro_ai.Governance.Enums.{
  LifecycleGroup, review, publication, resolution, group_eq, review_eq, publication_eq,
  resolution_eq, review_of_value, publication_of_value, resolution_of_value, review_transitions,
  publication_transitions, resolution_transitions,
}
use torq_pro_ai.Governance.Events.{GovernanceEvent}
use torq_pro_ai.Governance.Service.{initial_status}
use torq_pro_ai.Governance.Transitions.{Table, is_transition_allowed}

module _ {S : Type 0} ⦃e : Eq S⦄ (of_value : String → Option S) (table : Table S) where
  -- Whether a table has the move between two members, given by their values.
  unfoldable pub moves : String → String → Bool
  moves p n = elim (of_value p) [
    | none ↦ false
    | some s ↦ elim (of_value n) [ none ↦ false | some s' ↦ is_transition_allowed table s s' ]
  ]

  pub moves_lem :
      (p n : String) (s s' : S)
      → of_value p ≡ some s
      → of_value n ≡ some s'
      → moves p n ≡ is_transition_allowed table s s'
  unfolding moves
  moves_lem p n s s' h k = ground arith

-- Whether the table of a lifecycle has the move.
unfoldable pub permits : LifecycleGroup → String → String → Bool
permits review p n = moves review_of_value review_transitions p n
permits publication p n = moves publication_of_value publication_transitions p n
permits resolution p n = moves resolution_of_value resolution_transitions p n

-- No move leads out of the status.
abbrev pub IsTerminal : LifecycleGroup → String → Type 0
IsTerminal g p = (n : String) → permits g p n ≡ false

module _ {M : Type 0} where
  abbrev pub concerns : String → LifecycleGroup → GovernanceEvent M → Bool
  concerns a g e = e.aggregate_id == a && e.lifecycle_group == g

  abbrev pub status_or : LifecycleGroup → Option (GovernanceEvent M) → String
  status_or g none = initial_status g
  status_or g (some e) = e.new_status

  -- the status after a list of events: that of the last one that concerns the lifecycle
  unfoldable pub status_in : List (GovernanceEvent M) → String → LifecycleGroup → String
  status_in es a g = status_or g (last? (keep (concerns a g) es))

  -- An event that may come after `es`.
  pub record Follows (es : List (GovernanceEvent M)) (e : GovernanceEvent M) : Type 0 where
    pub previous : e.previous_status ≡ status_in es e.aggregate_id e.lifecycle_group
    pub permitted : permits e.lifecycle_group e.previous_status e.new_status ≡ true
    pub new_decision : find_first (λ e'. e'.decision_id == e.decision_id) es ≡ none

  pub data IsLegal : List (GovernanceEvent M) → Type 0 where
    start : IsLegal []
    grow :
        (es : List (GovernanceEvent M)) (e : GovernanceEvent M)
        → IsLegal es
        → Follows es e
        → IsLegal (es ++ e ∷ [])
