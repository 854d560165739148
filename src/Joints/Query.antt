-- ===== src/Joints/Query.antt =====
-- backend/governance/joint_revision_query.py: search, sorting and pages over the projections of joint
-- revisions. `lower` stands for `str.lower`.
use torq_pro_ai.Prelude.{
  ℕ, String, Bool, true, false, not, Option, none, some, List, [], ◌∷◌, ◌++◌, ◌==◌, if◌then◌else◌,
  string_eq, contains, nat_beq, ltb, keep, length, ◌&&◌, ◌||◌, zero, suc, ◌+◌, ◌-◌, ◌*◌, ◌/◌,
}
use torq_pro_ai.Prelude.Int.{ℤ, pos, negsuc}
use torq_pro_ai.Prelude.Texts.{strip, is_empty_str, codes, is_within, decimal}
use torq_pro_ai.Prelude.Exec.{Result, ok, raised, and_then}
use torq_pro_ai.Prelude.Sorting.{stable_sort}
use torq_pro_ai.Joints.Service.{Joints}
use torq_pro_ai.Joints.Projection.{JointRevisionProjection, Reads, project_joint_revisions_bulk}

abbrev pub max_page_size : ℕ
max_page_size = 200

abbrev pub allowed_sort_fields : List String
allowed_sort_fields = "joint_revision_id" ∷ "source_status" ∷ "canonical_status" ∷ "outcome" ∷ []

abbrev pub allowed_sort_orders : List String
allowed_sort_orders = "asc" ∷ "desc" ∷ []

-- An object given for a number: an `int` that is no `bool`, or another.
pub data Given : Type 0 where
  int : ℤ → Given
  other : Given

-- `JointRevisionQueryValidationError`, with the name of the parameter
pub data QueryError : Type 0 where
  invalid_parameter : String → QueryError

abbrev pub validate_page : Given → Result QueryError ℕ
validate_page (int (pos n)) = if ltb n 1 then raised (invalid_parameter "page") else ok n
validate_page (int (negsuc n)) = raised (invalid_parameter "page")
validate_page other = raised (invalid_parameter "page")

abbrev pub validate_page_size : Given → Result QueryError ℕ
validate_page_size (int (pos n)) =
    if ltb n 1
    then raised (invalid_parameter "page_size")
    else if ltb max_page_size n
    then raised (invalid_parameter "page_size")
    else ok n
validate_page_size (int (negsuc n)) = raised (invalid_parameter "page_size")
validate_page_size other = raised (invalid_parameter "page_size")

abbrev pub validate_sort_by : String → Result QueryError String
validate_sort_by sort_by =
    if contains sort_by allowed_sort_fields
    then ok sort_by
    else raised (invalid_parameter "sort_by")

abbrev pub validate_sort_order : String → Result QueryError String
validate_sort_order sort_order =
    if contains sort_order allowed_sort_orders
    then ok sort_order
    else raised (invalid_parameter "sort_order")

-- `<` of two texts, by their code points
abbrev pub codes_less : List ℕ → List ℕ → Bool
codes_less cs [] = false
codes_less [] (d ∷ ds) = true
codes_less (c ∷ cs) (d ∷ ds) = ltb c d || (nat_beq c d && codes_less cs ds)

abbrev pub id_less : JointRevisionProjection → JointRevisionProjection → Bool
id_less p q = ltb (p.joint_revision_id) (q.joint_revision_id)

abbrev pub take {ℓ} : {A : Type ℓ} → ℕ → List A → List A
take zero xs = []
take (suc n) [] = []
take (suc n) (x ∷ xs) = x ∷ take n xs

abbrev pub drop {ℓ} : {A : Type ℓ} → ℕ → List A → List A
drop zero xs = xs
drop (suc n) [] = []
drop (suc n) (x ∷ xs) = drop n xs

pub record JointRevisionQueryResult : Type 0 where
  pub items : List JointRevisionProjection
  pub total : ℕ
  pub page : ℕ
  pub page_size : ℕ
  pub total_pages : ℕ

-- a field that holds a text, where it is not None
abbrev pub text_field : String → JointRevisionProjection → Option String
text_field sort_by p =
    if sort_by == "source_status"
    then p.source_status
    else if sort_by == "canonical_status"
    then p.canonical_status
    else some (p.outcome)

-- `_sort_value(p, sort_by) is not None`
abbrev pub has_value : String → JointRevisionProjection → Bool
has_value sort_by p = elim (text_field sort_by p) [ none ↦ false | some text ↦ true ]

-- `sorted(..., reverse=reverse)` compares the other way round and is stable too.
abbrev pub directed :
    Bool
    → (JointRevisionProjection → JointRevisionProjection → Bool)
    → JointRevisionProjection
    → JointRevisionProjection
    → Bool
directed reverse less p q = if reverse then less q p else less p q

-- `math.ceil(total / page_size) if total else 0`
abbrev pub total_pages_of : ℕ → ℕ → ℕ
total_pages_of total page_size = (total + (page_size - 1)) / page_size

abbrev pub page_of : ℕ → ℕ → List JointRevisionProjection → JointRevisionQueryResult
page_of page page_size items = record {
  items = take page_size (drop ((page - 1) * page_size) items);
  total = length items;
  page = page;
  page_size = page_size;
  total_pages = total_pages_of (length items) page_size;
}

module _ (lower : String → String) where
  abbrev normal_text : String → Option String
  normal_text trimmed = if is_empty_str trimmed then none else some (lower trimmed)

  unfoldable pub normalize_search : Option String → Option String
  unfolding strip
  normalize_search none = none
  normalize_search (some search) = normal_text (strip search)

  abbrev field_matches : String → Option String → Bool
  field_matches search none = false
  field_matches search (some text) = is_within (codes search) (codes (lower text))

  -- the fields of `_SEARCHABLE_FIELDS`, without those that are None
  unfoldable pub matches_search : JointRevisionProjection → String → Bool
  unfolding decimal
  matches_search p search =
      field_matches search (some (decimal (p.joint_revision_id)))
      || field_matches search (p.source_status)
      || field_matches search (p.canonical_status)
      || field_matches search (some (p.outcome))
      || field_matches search (p.safe_reason)

  abbrev pub value_codes : Option String → List ℕ
  value_codes none = []
  value_codes (some text) = codes (lower text)

  abbrev pub value_less : String → JointRevisionProjection → JointRevisionProjection → Bool
  value_less sort_by p q =
      codes_less (value_codes (text_field sort_by p)) (value_codes (text_field sort_by q))

  -- `_sorted_projections`
  unfoldable pub sorted_projections :
      List JointRevisionProjection → String → String → List JointRevisionProjection
  unfolding keep
  sorted_projections items sort_by sort_order =
      let reverse = sort_order == "desc" in
      if sort_by == "joint_revision_id"
      then stable_sort (λ p q. directed reverse (λ p q. id_less p q) p q) items
      else stable_sort (λ p q. directed reverse (λ p q. value_less sort_by p q) p q)
          (stable_sort (λ p q. id_less p q) (keep (λ p. has_value sort_by p) items))
        ++ stable_sort (λ p q. id_less p q) (keep (λ p. not (has_value sort_by p)) items)

  abbrev pub searched : Option String → List JointRevisionProjection → List JointRevisionProjection
  searched none items = items
  searched (some search) items = keep (λ p. matches_search p search) items

  unfoldable pub query_all_joint_revision_projections :
      Reads
      → Joints
      → Option ℕ
      → Option String
      → String
      → String
      → Result QueryError (List JointRevisionProjection)
  unfolding keep
  query_all_joint_revision_projections io s joint_id search sort_by sort_order =
      and_then (validate_sort_by sort_by) λ by. and_then (validate_sort_order sort_order) λ order.
        ok (
          sorted_projections
            (searched (normalize_search search) (project_joint_revisions_bulk io s joint_id)) by
            order)

  unfoldable pub query_joint_revision_projections :
      Reads
      → Joints
      → Option ℕ
      → Option String
      → String
      → String
      → Given
      → Given
      → Result QueryError JointRevisionQueryResult
  query_joint_revision_projections io s joint_id search sort_by sort_order page page_size =
      and_then (validate_page page) λ page. and_then (validate_page_size page_size) λ size.
        and_then (query_all_joint_revision_projections io s joint_id search sort_by sort_order)
          λ items. ok (page_of page size items)
