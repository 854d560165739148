-- ===== src/Governance/Enums.antt =====
-- backend/governance/enums.py: three lifecycles, each with its statuses and its closed table.
use torq_pro_ai.Prelude.{
  String, Bool, Option, List, [], ◌∷◌, Eq, enum_eq, ◌==◌, string_eq, contains, ◌||◌, all, any,
  find_first,
}
use torq_pro_ai.Governance.Transitions.{Table}

pub data ReviewStatus : Type 0 where
  draft under_review approved rejected : ReviewStatus

pub data PublicationStatus : Type 0 where
  draft active superseded archived : PublicationStatus

pub data ResolutionStatus : Type 0 where
  open_ resolved rejected waived : ResolutionStatus

pub data LifecycleGroup : Type 0 where
  review publication resolution : LifecycleGroup

unfoldable pub ReviewStatus-discrete : Discrete ReviewStatus
ReviewStatus-discrete = hlevel

unfoldable pub PublicationStatus-discrete : Discrete PublicationStatus
PublicationStatus-discrete = hlevel

unfoldable pub ResolutionStatus-discrete : Discrete ResolutionStatus
ResolutionStatus-discrete = hlevel

unfoldable pub LifecycleGroup-discrete : Discrete LifecycleGroup
LifecycleGroup-discrete = hlevel

instance abbrev pub review_eq : Eq ReviewStatus
review_eq = enum_eq ReviewStatus-discrete

instance abbrev pub publication_eq : Eq PublicationStatus
publication_eq = enum_eq PublicationStatus-discrete

instance abbrev pub resolution_eq : Eq ResolutionStatus
resolution_eq = enum_eq ResolutionStatus-discrete

instance abbrev pub group_eq : Eq LifecycleGroup
group_eq = enum_eq LifecycleGroup-discrete

abbrev pub review_transitions : Table ReviewStatus
review_transitions =
    (ReviewStatus.draft, ReviewStatus.under_review ∷ [])
    ∷ (ReviewStatus.under_review, ReviewStatus.approved ∷ ReviewStatus.rejected ∷ [])
    ∷ []

abbrev pub review_terminal : List ReviewStatus
review_terminal = ReviewStatus.approved ∷ ReviewStatus.rejected ∷ []

abbrev pub publication_transitions : Table PublicationStatus
publication_transitions =
    (PublicationStatus.draft, PublicationStatus.active ∷ [])
    ∷ (PublicationStatus.active, PublicationStatus.superseded ∷ PublicationStatus.archived ∷ [])
    ∷ []

abbrev pub publication_terminal : List PublicationStatus
publication_terminal = PublicationStatus.superseded ∷ PublicationStatus.archived ∷ []

abbrev pub resolution_transitions : Table ResolutionStatus
resolution_transitions =
    (
      ResolutionStatus.open_,
      ResolutionStatus.resolved ∷ ResolutionStatus.rejected ∷ ResolutionStatus.waived ∷ [],
    )
    ∷ []

abbrev pub resolution_terminal : List ResolutionStatus
resolution_terminal =
    ResolutionStatus.resolved ∷ ResolutionStatus.rejected ∷ ResolutionStatus.waived ∷ []

-- The `.value` of a member.
abbrev pub review_value : ReviewStatus → String
review_value ReviewStatus.draft = "draft"
review_value ReviewStatus.under_review = "under_review"
review_value ReviewStatus.approved = "approved"
review_value ReviewStatus.rejected = "rejected"

abbrev pub publication_value : PublicationStatus → String
publication_value PublicationStatus.draft = "draft"
publication_value PublicationStatus.active = "active"
publication_value PublicationStatus.superseded = "superseded"
publication_value PublicationStatus.archived = "archived"

abbrev pub resolution_value : ResolutionStatus → String
resolution_value ResolutionStatus.open_ = "open"
resolution_value ResolutionStatus.resolved = "resolved"
resolution_value ResolutionStatus.rejected = "rejected"
resolution_value ResolutionStatus.waived = "waived"

abbrev pub group_value : LifecycleGroup → String
group_value review = "review"
group_value publication = "publication"
group_value resolution = "resolution"

abbrev pub review_members : List ReviewStatus
review_members =
    ReviewStatus.draft ∷ ReviewStatus.under_review ∷ ReviewStatus.approved ∷ ReviewStatus.rejected
    ∷ []

abbrev pub publication_members : List PublicationStatus
publication_members =
    PublicationStatus.draft ∷ PublicationStatus.active ∷ PublicationStatus.superseded
    ∷ PublicationStatus.archived ∷ []

abbrev pub resolution_members : List ResolutionStatus
resolution_members =
    ResolutionStatus.open_ ∷ ResolutionStatus.resolved ∷ ResolutionStatus.rejected
    ∷ ResolutionStatus.waived ∷ []

-- `ReviewStatus(value)`: the member with that value, or `ValueError`.
unfoldable pub review_of_value : String → Option ReviewStatus
unfolding find_first
review_of_value v = find_first (λ s. review_value s == v) review_members

unfoldable pub publication_of_value : String → Option PublicationStatus
unfolding find_first
publication_of_value v = find_first (λ s. publication_value s == v) publication_members

unfoldable pub resolution_of_value : String → Option ResolutionStatus
unfolding find_first
resolution_of_value v = find_first (λ s. resolution_value s == v) resolution_members

-- `_assert_transition_table_is_exhaustive`: whether every member is a key of the table or terminal
unfoldable pub is_exhaustive : {S : Type 0} ⦃e : Eq S⦄ → List S → Table S → List S → Bool
is_exhaustive members transitions terminal =
    all (λ s. any (λ row. row.0 == s) transitions || contains s terminal) members
