-- ===== src/QuestionBank/Validator.antt =====
-- backend/question_bank/validator.py: the rules on a content beyond its shape, and those on a request
-- to change a status. A reason is a constructor where the source has a sentence.
use torq_pro_ai.Prelude.{
  ℕ, String, Bool, true, false, not, Option, none, some, List, [], ◌∷◌, ◌++◌, Eq, ◌==◌, contains,
  if◌then◌else◌, string_eq, nat_eq, nat_beq, ltb, leb, any, length, ◌||◌, ◌&&◌, ◌+◌,
}
use torq_pro_ai.Prelude.Int.{ℤ, pos, negsuc, int_eq}
use torq_pro_ai.Prelude.Texts.{strip, is_blank, str_length, codes, is_empty_str, is_within}
use torq_pro_ai.QuestionBank.Statuses.{
  ValidationStatus, validated, status_value, status_of_value, is_valid_transition,
}
use torq_pro_ai.QuestionBank.Content.{
  Category, QuestionType, StandardReference, SourceReference, Floats, Answer, QuestionRecord,
  thread_stripping_and_shear_area, single_choice, multiple_choice, true_false, numerical,
  unit_conversion, formula_selection, oem_estimation, high, category_eq, question_type_eq,
  source_type_eq, risk_eq, index, indices, truth, value,
}

pub data Reason : Type 0 where
  blank_field : String → Reason
  options_presence_mismatch : Reason
  options_length_mismatch : Reason
  blank_option : Reason
  repeated_option_tr : Reason
  repeated_option_en : Reason
  answer_not_an_index : QuestionType → Reason
  answer_out_of_bounds : Reason
  answer_not_a_list : Reason
  answers_out_of_bounds : Reason
  repeated_answer : Reason
  answer_not_a_bool : Reason
  answer_not_a_number : QuestionType → Reason
  high_risk_without_source : Reason
  oem_estimation_with_standard : Reason
  iso_16047_misuse : Category → Reason
  missing_tolerance : Reason
  -- `revision_reason` under 20 characters
  short_revision_reason : Reason
  unknown_status : String → String → Reason
  forbidden_transition : String → String → Reason
  -- what Pydantic reports at a location
  invalid_field : String → Reason
  empty_patch : Reason

-- `if test: reasons.append(reason)`
abbrev pub when : Bool → Reason → List Reason
when true reason = reason ∷ []
when false reason = []

-- `len(set(xs)) != len(xs)`
abbrev pub has_repeats {ℓ} : {A : Type ℓ} ⦃e : Eq A⦄ → List A → Bool
has_repeats [] = false
has_repeats (x ∷ xs) = contains x xs || has_repeats xs

-- `0 <= i < n`
abbrev pub is_index : ℤ → ℕ → Bool
is_index (pos i) n = ltb i n
is_index (negsuc i) n = false

abbrev pub is_none {ℓ} : {A : Type ℓ} → Option A → Bool
is_none none = true
is_none (some a) = false

-- `str.lower`, as far as it makes ASCII letters: U+0130 becomes an i and a combining dot.
abbrev lower_codes : List ℕ → List ℕ
lower_codes [] = []
lower_codes (c ∷ cs) =
    let rest = lower_codes cs in
    if leb 65 c && leb c 90
    then (c + 32) ∷ rest
    else if nat_beq c 304
    then 105 ∷ 775 ∷ rest
    else c ∷ rest

abbrev pub iso_16047_misuse_categories : List Category
iso_16047_misuse_categories = thread_stripping_and_shear_area ∷ []

abbrev pub iso_16047_name_markers : List String
iso_16047_name_markers = "iso 16047" ∷ "iso16047" ∷ []

unfoldable pub is_iso_16047_reference : Option String → Bool
unfolding strip
is_iso_16047_reference none = false
is_iso_16047_reference (some name) =
    if is_empty_str name
    then false
    else any (λ marker. is_within (codes marker) (lower_codes (codes (strip name))))
        iso_16047_name_markers

abbrev pub reference_name : Option StandardReference → Option String
reference_name none = none
reference_name (some r) = some (r.name)

abbrev pub is_oem_estimation : Option SourceReference → Bool
is_oem_estimation none = false
is_oem_estimation (some r) = r.source_type == oem_estimation

abbrev pub option_reasons : Option (List String) → Option (List String) → List Reason
option_reasons (some tr) (some en) =
    when (not (nat_beq (length tr) (length en))) options_length_mismatch
    ++ when (any (λ o. is_blank o) (tr ++ en)) blank_option
    ++ when (has_repeats tr) repeated_option_tr
    ++ when (has_repeats en) repeated_option_en
option_reasons none none = []
option_reasons (some tr) none = options_presence_mismatch ∷ []
option_reasons none (some en) = options_presence_mismatch ∷ []

module _ ⦃f : Floats⦄ where
  abbrev pub index_reasons : QuestionType → Option (List String) → Answer → List Reason
  index_reasons t none (index i) = []
  index_reasons t (some options) (index i) =
      when (not (is_index i (length options))) answer_out_of_bounds
  index_reasons t options (indices is) = answer_not_an_index t ∷ []
  index_reasons t options (truth b) = answer_not_an_index t ∷ []
  index_reasons t options (value v) = answer_not_an_index t ∷ []

  abbrev pub indices_reasons : Option (List String) → Answer → List Reason
  indices_reasons none (indices is) = []
  indices_reasons (some options) (indices is) =
      when (any (λ i. not (is_index i (length options))) is) answers_out_of_bounds
      ++ when (has_repeats is) repeated_answer
  indices_reasons options (index i) = answer_not_a_list ∷ []
  indices_reasons options (truth b) = answer_not_a_list ∷ []
  indices_reasons options (value v) = answer_not_a_list ∷ []

  abbrev pub truth_reasons : Answer → List Reason
  truth_reasons (truth b) = []
  truth_reasons (index i) = answer_not_a_bool ∷ []
  truth_reasons (indices is) = answer_not_a_bool ∷ []
  truth_reasons (value v) = answer_not_a_bool ∷ []

  abbrev pub number_reasons : QuestionType → Answer → List Reason
  number_reasons t (index i) = []
  number_reasons t (value v) = []
  number_reasons t (truth b) = answer_not_a_number t ∷ []
  number_reasons t (indices is) = answer_not_a_number t ∷ []

  -- `_validate_correct_answer`
  abbrev pub validate_correct_answer : QuestionType → Option (List String) → Answer → List Reason
  validate_correct_answer single_choice options a = index_reasons single_choice options a
  validate_correct_answer formula_selection options a = index_reasons formula_selection options a
  validate_correct_answer multiple_choice options a = indices_reasons options a
  validate_correct_answer true_false options a = truth_reasons a
  validate_correct_answer numerical options a = number_reasons numerical a
  validate_correct_answer unit_conversion options a = number_reasons unit_conversion a

  -- `tolerance is None or tolerance <= 0`
  abbrev pub lacks_tolerance : Option (f.Float) → Bool
  lacks_tolerance none = true
  lacks_tolerance (some t) = f.is_le_zero t

  unfoldable pub validate_record_structure : QuestionRecord → List Reason
  unfolding is_blank is_iso_16047_reference
  validate_record_structure question =
      when (is_blank (question.question_tr)) (blank_field "question_tr")
      ++ when (is_blank (question.question_en)) (blank_field "question_en")
      ++ when (is_blank (question.technical_explanation_tr))
          (blank_field "technical_explanation_tr")
      ++ when (is_blank (question.technical_explanation_en))
          (blank_field "technical_explanation_en")
      ++ option_reasons (question.options_tr) (question.options_en)
      ++ validate_correct_answer (question.question_type) (question.options_tr)
          (question.correct_answer)
      ++ when
          ((question.engineering_risk_level == high)
            && (is_none (question.standard_reference) && is_none (question.source_reference)))
          high_risk_without_source
      ++ when
          (is_oem_estimation (question.source_reference)
            && not (is_none (question.standard_reference)))
          oem_estimation_with_standard
      ++ when
          (is_iso_16047_reference (reference_name (question.standard_reference))
            && contains (question.category) iso_16047_misuse_categories)
          (iso_16047_misuse (question.category))
      ++ when ((question.question_type == numerical) && lacks_tolerance (question.tolerance))
          missing_tolerance

  unfoldable pub validate_publishable : QuestionRecord → String → Bool
  validate_publishable question status = question.is_active && (status == status_value validated)

  -- The list of reasons of a `QuestionBankValidationError`, `[]` where `require_valid` returns.
  abbrev pub require_valid : QuestionRecord → List Reason
  require_valid question = validate_record_structure question

unfoldable pub validate_revision_reason : Option String → List Reason
unfolding strip
validate_revision_reason none = short_revision_reason ∷ []
validate_revision_reason (some reason) =
    when (ltb (str_length (strip reason)) 20) short_revision_reason

abbrev transition_reasons :
    String → String → Option ValidationStatus → Option ValidationStatus → List Reason
transition_reasons previous new (some p) (some n) =
    when (not (is_valid_transition p n)) (forbidden_transition previous new)
transition_reasons previous new none n = unknown_status previous new ∷ []
transition_reasons previous new (some p) none = unknown_status previous new ∷ []

unfoldable pub validate_transition_request : String → String → List Reason
unfolding status_of_value
validate_transition_request previous new =
    transition_reasons previous new (status_of_value previous) (status_of_value new)
