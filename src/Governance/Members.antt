-- ===== src/Governance/Members.antt =====
-- The enums of backend/governance/enums.py: a member and its value determine one another.
use torq_pro_ai.Prelude.{String, some, ◌≡◌, refl, sym, ◌==◌, string_eq, find_first-holds, beq→eq}
use torq_pro_ai.Governance.Enums.{
  ReviewStatus, PublicationStatus, ResolutionStatus, review_value, publication_value,
  resolution_value, review_of_value, publication_of_value, resolution_of_value, review_members,
  publication_members, resolution_members,
}

pub review_of_value-value : (s : ReviewStatus) → review_of_value (review_value s) ≡ some s
unfolding review_of_value
review_of_value-value ReviewStatus.draft = refl
review_of_value-value s = refl

pub publication_of_value-value :
    (s : PublicationStatus) → publication_of_value (publication_value s) ≡ some s
unfolding publication_of_value
publication_of_value-value PublicationStatus.draft = refl
publication_of_value-value s = refl

pub resolution_of_value-value :
    (s : ResolutionStatus) → resolution_of_value (resolution_value s) ≡ some s
unfolding resolution_of_value
resolution_of_value-value ResolutionStatus.open_ = refl
resolution_of_value-value s = refl

pub value-review_of_value :
    (v : String) (s : ReviewStatus) → review_of_value v ≡ some s → v ≡ review_value s
unfolding review_of_value
value-review_of_value v s h =
    sym (beq→eq (review_value s) v (find_first-holds (λ t. review_value t == v) review_members s h))

pub value-publication_of_value :
    (v : String) (s : PublicationStatus) → publication_of_value v ≡ some s → v ≡ publication_value s
unfolding publication_of_value
value-publication_of_value v s h = sym (
    beq→eq (publication_value s) v
      (find_first-holds (λ t. publication_value t == v) publication_members s h))

pub value-resolution_of_value :
    (v : String) (s : ResolutionStatus) → resolution_of_value v ≡ some s → v ≡ resolution_value s
unfolding resolution_of_value
value-resolution_of_value v s h = sym (
    beq→eq (resolution_value s) v
      (find_first-holds (λ t. resolution_value t == v) resolution_members s h))
