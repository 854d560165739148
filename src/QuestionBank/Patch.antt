-- ===== src/QuestionBank/Patch.antt =====
-- backend/question_bank/patch.py, and the part of service.update_question that applies a patch to a
-- content: `exclude_unset`, `QuestionRecord.model_validate` and the comparison of the dumps.
use torq_pro_ai.Prelude.{
  ℕ, String, Bool, true, false, Option, none, some, get_or, List, [], ◌∷◌, ◌++◌, ◌==◌, string_eq,
  nat_eq, option_eq, ltb, ◌&&◌,
}
use torq_pro_ai.Prelude.Int.{ℤ, pos, int_eq}
use torq_pro_ai.Prelude.Texts.{str_length}
use torq_pro_ai.QuestionBank.Content.{
  Category, Difficulty, QuestionType, EngineeringRiskLevel, TraceabilityLevel, StandardReference,
  SourceReference, Floats, Answer, QuestionRecord, category_eq, difficulty_eq, question_type_eq,
  source_type_eq, risk_eq, traceability_eq, bool_eq, index, indices, truth, value,
}
use torq_pro_ai.QuestionBank.Validator.{Reason, invalid_field, when}

-- A field of a request: left out, or given, perhaps as null.
pub data Field (A : Type 0) : Type 0 where
  unset : Field A
  set : Option A → Field A

abbrev pub is_unset : {A : Type 0} → Field A → Bool
is_unset unset = true
is_unset (set a) = false

-- `merged_fields.update(provided)`, at one key
abbrev pub patched : {A : Type 0} → Field A → Option A → Option A
patched unset current = current
patched (set a) current = a

-- A field of `QuestionRecord` that cannot be null keeps the current value where the merge is
-- refused anyway.
abbrev pub required : {A : Type 0} → Field A → A → A
required field current = get_or (patched field (some current)) current

module _ ⦃f : Floats⦄ where
  pub record QuestionPatch : Type 0 where
    pub category : Field Category
    pub subcategory : Field String
    pub difficulty : Field Difficulty
    pub question_type : Field QuestionType
    pub question_tr : Field String
    pub question_en : Field String
    pub options_tr : Field (List String)
    pub options_en : Field (List String)
    pub correct_answer : Field Answer
    pub tolerance : Field (f.Float)
    pub technical_explanation_tr : Field String
    pub technical_explanation_en : Field String
    pub standard_reference : Field StandardReference
    pub source_reference : Field SourceReference
    pub source_locator : Field String
    pub traceability_level : Field TraceabilityLevel
    pub tags : Field (List String)
    pub learning_objective : Field String
    pub engineering_risk_level : Field EngineeringRiskLevel
    pub is_active : Field Bool

  -- `not provided`
  unfoldable pub is_empty_patch : QuestionPatch → Bool
  is_empty_patch p =
      is_unset (p.category)
      && is_unset (p.subcategory)
      && is_unset (p.difficulty)
      && is_unset (p.question_type)
      && is_unset (p.question_tr)
      && is_unset (p.question_en)
      && is_unset (p.options_tr)
      && is_unset (p.options_en)
      && is_unset (p.correct_answer)
      && is_unset (p.tolerance)
      && is_unset (p.technical_explanation_tr)
      && is_unset (p.technical_explanation_en)
      && is_unset (p.standard_reference)
      && is_unset (p.source_reference)
      && is_unset (p.source_locator)
      && is_unset (p.traceability_level)
      && is_unset (p.tags)
      && is_unset (p.learning_objective)
      && is_unset (p.engineering_risk_level)
      && is_unset (p.is_active)

  -- a field that must not be null
  abbrev not_null : {A : Type 0} → String → Field A → List Reason
  not_null location (set none) = invalid_field location ∷ []
  not_null location (set (some a)) = []
  not_null location unset = []

  -- a text that must not be null and has a least length
  abbrev text_field : ℕ → String → Field String → String → List Reason
  text_field least location (set none) current = invalid_field location ∷ []
  text_field least location (set (some t)) current =
      when (ltb (str_length t) least) (invalid_field location)
  text_field least location unset current =
      when (ltb (str_length current) least) (invalid_field location)

  -- An error for each type of the union.
  abbrev answer_field : Field Answer → List Reason
  answer_field (set none) =
      invalid_field "correct_answer.int"
      ∷ invalid_field "correct_answer.list[int]"
      ∷ invalid_field "correct_answer.bool"
      ∷ invalid_field "correct_answer.float"
      ∷ []
  answer_field (set (some a)) = []
  answer_field unset = []

  -- The errors of `QuestionRecord.model_validate(merged_fields)`.
  unfoldable pub merge_reasons : QuestionPatch → QuestionRecord → List Reason
  merge_reasons p current =
      not_null "category" (p.category)
      ++ not_null "difficulty" (p.difficulty)
      ++ not_null "question_type" (p.question_type)
      ++ text_field 10 "question_tr" (p.question_tr) (current.question_tr)
      ++ text_field 10 "question_en" (p.question_en) (current.question_en)
      ++ answer_field (p.correct_answer)
      ++ text_field 20 "technical_explanation_tr" (p.technical_explanation_tr)
          (current.technical_explanation_tr)
      ++ text_field 20 "technical_explanation_en" (p.technical_explanation_en)
          (current.technical_explanation_en)
      ++ not_null "traceability_level" (p.traceability_level)
      ++ not_null "tags" (p.tags)
      ++ text_field 10 "learning_objective" (p.learning_objective) (current.learning_objective)
      ++ not_null "engineering_risk_level" (p.engineering_risk_level)
      ++ not_null "is_active" (p.is_active)

  unfoldable pub apply_patch : QuestionPatch → QuestionRecord → QuestionRecord
  apply_patch p current = record current {
    category = required (p.category) (current.category);
    subcategory = patched (p.subcategory) (current.subcategory);
    difficulty = required (p.difficulty) (current.difficulty);
    question_type = required (p.question_type) (current.question_type);
    question_tr = required (p.question_tr) (current.question_tr);
    question_en = required (p.question_en) (current.question_en);
    options_tr = patched (p.options_tr) (current.options_tr);
    options_en = patched (p.options_en) (current.options_en);
    correct_answer = required (p.correct_answer) (current.correct_answer);
    tolerance = patched (p.tolerance) (current.tolerance);
    technical_explanation_tr =
        required (p.technical_explanation_tr) (current.technical_explanation_tr);
    technical_explanation_en =
        required (p.technical_explanation_en) (current.technical_explanation_en);
    standard_reference = patched (p.standard_reference) (current.standard_reference);
    source_reference = patched (p.source_reference) (current.source_reference);
    source_locator = patched (p.source_locator) (current.source_locator);
    traceability_level = required (p.traceability_level) (current.traceability_level);
    tags = required (p.tags) (current.tags);
    learning_objective = required (p.learning_objective) (current.learning_objective);
    engineering_risk_level = required (p.engineering_risk_level) (current.engineering_risk_level);
    is_active = required (p.is_active) (current.is_active);
  }

-- `==` of two lists, of two values that may be None
abbrev list_same : {A : Type 0} → (A → A → Bool) → List A → List A → Bool
list_same same [] [] = true
list_same same [] (y ∷ ys) = false
list_same same (x ∷ xs) [] = false
list_same same (x ∷ xs) (y ∷ ys) = same x y && list_same same xs ys

abbrev option_same : {A : Type 0} → (A → A → Bool) → Option A → Option A → Bool
option_same same none none = true
option_same same none (some b) = false
option_same same (some a) none = false
option_same same (some a) (some b) = same a b

-- `int(b)`
abbrev int_of_bool : Bool → ℤ
int_of_bool true = pos 1
int_of_bool false = pos 0

abbrev same_standard : StandardReference → StandardReference → Bool
same_standard a b =
    (a.name == b.name)
    && (a.edition_or_year == b.edition_or_year)
    && (a.clause_or_table == b.clause_or_table)

abbrev same_source : SourceReference → SourceReference → Bool
same_source a b = (a.source_type == b.source_type) && (a.description == b.description)

module _ ⦃f : Floats⦄ where
  -- `==` of two answers: Python compares numbers and truth values as numbers.
  abbrev same_answer : Answer → Answer → Bool
  same_answer (index i) (index j) = i == j
  same_answer (index i) (truth b) = i == int_of_bool b
  same_answer (index i) (value v) = f.equals_int v i
  same_answer (index i) (indices js) = false
  same_answer (truth a) (index j) = int_of_bool a == j
  same_answer (truth a) (truth b) = a == b
  same_answer (truth a) (value v) = f.equals_int v (int_of_bool a)
  same_answer (truth a) (indices js) = false
  same_answer (value v) (index j) = f.equals_int v j
  same_answer (value v) (truth b) = f.equals_int v (int_of_bool b)
  same_answer (value v) (value w) = f.float_beq v w
  same_answer (value v) (indices js) = false
  same_answer (indices is) (index j) = false
  same_answer (indices is) (truth b) = false
  same_answer (indices is) (value v) = false
  same_answer (indices is) (indices js) = list_same (λ i j. i == j) is js

  -- `model_dump(exclude={"content_version"}) == ...`
  unfoldable pub same_content : QuestionRecord → QuestionRecord → Bool
  same_content a b =
      (a.question_id == b.question_id)
      && (a.category == b.category)
      && (a.subcategory == b.subcategory)
      && (a.difficulty == b.difficulty)
      && (a.question_type == b.question_type)
      && (a.question_tr == b.question_tr)
      && (a.question_en == b.question_en)
      && option_same (list_same λ s t. s == t) (a.options_tr) (b.options_tr)
      && option_same (list_same λ s t. s == t) (a.options_en) (b.options_en)
      && same_answer (a.correct_answer) (b.correct_answer)
      && option_same (λ v w. f.float_beq v w) (a.tolerance) (b.tolerance)
      && (a.technical_explanation_tr == b.technical_explanation_tr)
      && (a.technical_explanation_en == b.technical_explanation_en)
      && option_same same_standard (a.standard_reference) (b.standard_reference)
      && option_same same_source (a.source_reference) (b.source_reference)
      && (a.source_locator == b.source_locator)
      && (a.traceability_level == b.traceability_level)
      && list_same (λ s t. s == t) (a.tags) (b.tags)
      && (a.learning_objective == b.learning_objective)
      && (a.engineering_risk_level == b.engineering_risk_level)
      && (a.is_active == b.is_active)
