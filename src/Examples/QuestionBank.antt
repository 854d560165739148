-- ===== src/Examples/QuestionBank.antt =====
-- The theorems on the question bank at concrete contents, tables and runs. A float is a natural number
-- of tenths here.
use torq_pro_ai.Prelude.{
  ℕ, Bool, true, false, none, some, List, [], ◌∷◌, ◌++◌, ◌≡◌, refl, ◌*◌, nat_beq, map, keep,
  find_first, string_eq, option_eq,
}
use torq_pro_ai.Prelude.Int.{ℤ, pos, negsuc}
use torq_pro_ai.Prelude.Texts.{is_blank, is_space}
use torq_pro_ai.Prelude.Exec.{ok}
use torq_pro_ai.Governance.Transitions.{is_transition_allowed}
use torq_pro_ai.QuestionBank.Statuses.{
  is_valid_transition, status_of_value, ValidationStatus-discrete,
}
use torq_pro_ai.QuestionBank.Content.{
  Floats, QuestionRecord, index, washers, beginner, single_choice, low, approved, Category-discrete,
  Difficulty-discrete, QuestionType-discrete, SourceType-discrete, EngineeringRiskLevel-discrete,
  TraceabilityLevel-discrete, Bool-discrete,
}
use torq_pro_ai.QuestionBank.Validator.{
  validate_publishable, validate_record_structure, is_iso_16047_reference,
  validate_transition_request,
}
use torq_pro_ai.QuestionBank.Patch.{
  unset, set, QuestionPatch, is_empty_patch, merge_reasons, apply_patch, same_content,
}
use torq_pro_ai.QuestionBank.Store.{
  fetch_publishable_candidates, Row, Tables, partial_update_failure, register_record, fetch_record,
  update_record_status, append_status_history, fetch_records_by_question_id, load_question_content,
  save_question_content, delete_question_content_version,
}
use torq_pro_ai.QuestionBank.Service.{
  Environment, default_role_authorization, transition, submit_for_technical_review,
  validate_question,
}
use torq_pro_ai.QuestionBank.Service.Contents.{
  Bank, register_question_content, register_question, update_question,
  load_question_content_validated, register_or_compensate, append_version, append_if_changed,
}
use torq_pro_ai.QuestionBank.Service.Removal.{
  delete_question, restore_question, archive_question, get_publishable_questions, versions,
}
use torq_pro_ai.QuestionBank.Calls.{
  Call, add_content, register, submit, validate, run_call, run_calls,
}
use torq_pro_ai.QuestionBank.Lifecycle.{Moves, status_at}
use torq_pro_ai.QuestionBank.Refinement.Runs.{run_call-Moves, run_calls-reviewed}
use torq_pro_ai.QuestionBank.Atomicity.{update_question-atomic}
use torq_pro_ai.QuestionBank.Visibility.{get_publishable_questions-removal}
use torq_pro_ai.QuestionBank.Restoring.{unmodified, delete_question-restore_question}

abbrev is_tenfold : ℕ → ℤ → Bool
is_tenfold v (pos i) = nat_beq v (10 * i)
is_tenfold v (negsuc i) = false

instance abbrev tenths : Floats
tenths = record {
  Float = ℕ;
  float_beq = λ v w. nat_beq v w;
  equals_int = λ v i. is_tenfold v i;
  is_le_zero = λ v. nat_beq v 0;
}

abbrev question : QuestionRecord
question = record {
  question_id = "QB-1";
  content_version = 1;
  category = washers;
  subcategory = none;
  difficulty = beginner;
  question_type = single_choice;
  question_tr = "Pul ne yapar?";
  question_en = "What does a washer do?";
  options_tr = some ("Yayar" ∷ "Tutar" ∷ []);
  options_en = some ("Spreads" ∷ "Holds" ∷ []);
  correct_answer = index (pos 0);
  tolerance = none;
  technical_explanation_tr = "Pul yuku daha genis alana yayar.";
  technical_explanation_en = "A washer spreads the load.";
  standard_reference = none;
  source_reference = none;
  source_locator = none;
  traceability_level = approved;
  tags = [];
  learning_objective = "Know what washers do";
  engineering_risk_level = low;
  is_active = true;
}

abbrev works : Environment
works = record { now = "2026-01-01"; writes = true; commits = true; rewrites = true }

-- the database fails
abbrev fails : Environment
fails = record { now = "2026-01-02"; writes = true; commits = false; rewrites = true }

abbrev no_tables : Tables
no_tables = record { records = []; history = []; audit = [] }

abbrev no_bank : Bank
no_bank = record { contents = []; tables = no_tables }

abbrev calls : List (Environment × Call)
calls =
    (works, add_content question)
    ∷ (works, register "QB-1" 1 "ada")
    ∷ (works, submit "QB-1" 1 "ada")
    ∷ (works, validate "QB-1" 1 "bob" "engineer" "7" "2026-01-03")
    ∷ []

abbrev row : Row
row = record {
  question_id = "QB-1";
  content_version = 1;
  validation_status = "draft";
  reviewed_by = none;
  review_date = none;
  created_at = "2026-01-01";
  updated_at = "2026-01-01";
  is_deleted = false;
  archived_at = none;
  archived_by = none;
  modified_at = none;
  modified_by = none;
}

abbrev new_text : QuestionPatch
new_text = record {
  category = unset;
  subcategory = set (some "plain");
  difficulty = unset;
  question_type = unset;
  question_tr = unset;
  question_en = unset;
  options_tr = unset;
  options_en = unset;
  correct_answer = unset;
  tolerance = unset;
  technical_explanation_tr = unset;
  technical_explanation_en = unset;
  standard_reference = unset;
  source_reference = unset;
  source_locator = unset;
  traceability_level = unset;
  tags = unset;
  learning_objective = unset;
  engineering_risk_level = unset;
  is_active = unset;
}

abbrev stored : Bank
stored = record { contents = question ∷ []; tables = no_tables }

abbrev registered : Tables
registered = record { records = row ∷ []; history = []; audit = [] }

update_question-atomic_example : (update_question fails "QB-1" new_text "ada" stored).1 ≡ stored
unfolding is_space update_question is_empty_patch load_question_content_validated
    load_question_content keep find_first validate_record_structure is_blank is_iso_16047_reference
    merge_reasons apply_patch same_content append_if_changed append_version save_question_content
    register_or_compensate register_record append_status_history delete_question_content_version
    Category-discrete Difficulty-discrete QuestionType-discrete SourceType-discrete
    EngineeringRiskLevel-discrete TraceabilityLevel-discrete Bool-discrete
update_question-atomic_example =
    update_question-atomic fails "QB-1" new_text "ada" stored
      ((update_question fails "QB-1" new_text "ada" stored).1) {e = partial_update_failure true}
      refl refl

run_call-Moves_example : Moves (status_at [] "QB-1" 1) (
    status_at
      ((run_call default_role_authorization works (register "QB-1" 1 "ada") stored).tables.records)
      "QB-1"
      1)
run_call-Moves_example =
    run_call-Moves default_role_authorization works (register "QB-1" 1 "ada") stored "QB-1" 1

run_calls-reviewed_example :
    (first rest : List (Environment × Call)) × (calls ≡ first ++ rest)
    × (status_at ((run_calls default_role_authorization first no_bank).tables.records) "QB-1" 1
        ≡ some "technical_review")
unfolding is_space register_question_content register_question load_question_content_validated
    load_question_content keep find_first validate_record_structure is_blank is_iso_16047_reference
    save_question_content register_record append_status_history submit_for_technical_review
    validate_question transition fetch_record update_record_status validate_transition_request
    status_of_value is_valid_transition is_transition_allowed default_role_authorization
    ValidationStatus-discrete Category-discrete Difficulty-discrete QuestionType-discrete
    SourceType-discrete EngineeringRiskLevel-discrete
run_calls-reviewed_example =
    run_calls-reviewed default_role_authorization "QB-1" 1 calls no_bank refl refl

abbrev published : Tables
published = record registered { records = record row { validation_status = "validated" } ∷ [] }

shown : get_publishable_questions (question ∷ []) published ≡ question ∷ []
unfolding get_publishable_questions fetch_publishable_candidates keep load_question_content
    find_first validate_publishable
shown = refl

get_publishable_questions-removal_example :
    (get_publishable_questions
        (question ∷ [])
        ((delete_question works default_role_authorization "QB-1" "bob" "admin" published).1)
      ≡ get_publishable_questions (question ∷ []) published)
    × (get_publishable_questions
          (question ∷ [])
          ((restore_question works default_role_authorization "QB-1" "bob" "admin" published).1)
        ≡ get_publishable_questions (question ∷ []) published)
    × (get_publishable_questions
          (question ∷ [])
          ((archive_question works default_role_authorization "QB-1" "bob" "admin" published).1)
        ≡ get_publishable_questions (question ∷ []) published)
get_publishable_questions-removal_example =
    get_publishable_questions-removal (question ∷ []) works default_role_authorization "QB-1" "bob"
      "admin" published

delete_question-restore_question_example :
    let rows = fetch_records_by_question_id "QB-1" registered in
    let (deleted, t1) =
      delete_question works default_role_authorization "QB-1" "bob" "admin" registered in
    let (restored, t2) =
      restore_question works default_role_authorization "QB-1" "eva" "admin" t1 in
    (deleted ≡ ok (versions rows))
    × (restored ≡ ok (versions rows))
    × (map (λ row. unmodified row) (t2.records) ≡ map (λ row. unmodified row) (registered.records))
    × (t2.history ≡ registered.history)
unfolding default_role_authorization fetch_records_by_question_id keep
delete_question-restore_question_example =
    delete_question-restore_question works works default_role_authorization "QB-1" "bob" "admin"
      "eva" "admin" registered refl refl refl refl refl refl
