-- ===== src/QuestionBank/Statuses.antt =====
-- backend/question_bank/transitions.py: the statuses of a version, their closed table, and the
-- actions that need authorization.
use torq_pro_ai.Prelude.{
  String, Bool, List, [], ◌∷◌, Eq, enum_eq, ◌==◌, string_eq, Option, find_first,
}
use torq_pro_ai.Governance.Transitions.{Table, is_transition_allowed}

pub data ValidationStatus : Type 0 where
  draft technical_review validated rejected deprecated : ValidationStatus

unfoldable pub ValidationStatus-discrete : Discrete ValidationStatus
ValidationStatus-discrete = hlevel

instance abbrev pub validation_eq : Eq ValidationStatus
validation_eq = enum_eq ValidationStatus-discrete

abbrev pub status_value : ValidationStatus → String
status_value draft = "draft"
status_value technical_review = "technical_review"
status_value validated = "validated"
status_value rejected = "rejected"
status_value deprecated = "deprecated"

abbrev pub members : List ValidationStatus
members = draft ∷ technical_review ∷ validated ∷ rejected ∷ deprecated ∷ []

-- `ValidationStatus(value)`
unfoldable pub status_of_value : String → Option ValidationStatus
unfolding find_first
status_of_value value = find_first (λ s. status_value s == value) members

abbrev pub question_validation_transitions : Table ValidationStatus
question_validation_transitions =
    (draft, technical_review ∷ [])
    ∷ (technical_review, validated ∷ rejected ∷ draft ∷ [])
    ∷ (rejected, draft ∷ [])
    ∷ (validated, deprecated ∷ [])
    ∷ []

abbrev pub question_validation_terminal : List ValidationStatus
question_validation_terminal = deprecated ∷ []

unfoldable pub is_valid_transition : ValidationStatus → ValidationStatus → Bool
unfolding is_transition_allowed
is_valid_transition previous new =
    is_transition_allowed question_validation_transitions previous new

abbrev pub authorization_required_transitions : List String
authorization_required_transitions =
    "return_to_draft" ∷ "validate_question" ∷ "reject_question" ∷ "deprecate_question"
    ∷ "soft_delete" ∷ "restore" ∷ "archive" ∷ []
