-- ===== src/Governance/Transitions.antt =====
-- backend/governance/transitions.py: membership in a closed transition table.
use torq_pro_ai.Prelude.{Bool, List, [], Eq, contains, get_default}

-- A dict from a status to the frozenset of the statuses that may follow it.
abbrev pub Table : Type 0 → Type 0
Table S = List (S × List S)

unfoldable pub is_transition_allowed : {S : Type 0} ⦃e : Eq S⦄ → Table S → S → S → Bool
is_transition_allowed transitions previous new = contains new (get_default transitions previous [])
