-- ===== src/QuestionBank/Refinement.antt =====
-- Each call of backend/question_bank/service.py against the specification of
-- QuestionBank/Lifecycle: the calls on the tables.
pub mod Runs
use torq_pro_ai.Prelude.{
  ℕ, String, Bool, true, false, not, Option, none, some, List, [], ◌∷◌, ◌++◌, if◌then◌else◌, all,
  is_empty, ◌≡◌, refl, arith, Bool-cases, Option-cases, inl, inr, ◌∙◌,
}
use torq_pro_ai.Prelude.Texts.{strip}
use torq_pro_ai.Prelude.Exec.{Result, ok, raised, Result-cases}
use torq_pro_ai.QuestionBank.Statuses.{
  draft, status_value, technical_review, validated, rejected, deprecated,
}
use torq_pro_ai.QuestionBank.Content.{Floats, QuestionRecord}
use torq_pro_ai.QuestionBank.Validator.{Reason, validate_transition_request}
use torq_pro_ai.QuestionBank.Patch.{QuestionPatch, apply_patch, merge_reasons}
use torq_pro_ai.QuestionBank.Store.{
  BankError, Row, Tables, LifecycleAudit, is_row, is_of_question, update_where, register_record,
  fetch_record, update_record_status, append_status_history, append_lifecycle_audit,
  set_records_deleted_flag, set_records_archived, with_deleted, with_archived, StatusHistory,
}
use torq_pro_ai.QuestionBank.Service.{
  Environment, Extras, no_extras, transaction, transition, transition_body, draft_registration,
  submit_for_technical_review, status_of_row, return_to_draft, validate_question, reject_question,
  deprecate_question,
}
use torq_pro_ai.QuestionBank.Service.Contents.{
  Bank, register_question_content, register_question, update_question, register_or_compensate,
  append_version, append_if_changed, load_question_content_validated,
}
use torq_pro_ai.QuestionBank.Service.Removal.{
  audit_rows, lifecycle_entry, delete_question, restore_question, archive_question,
  lifecycle_rows_or_not_found,
}
use torq_pro_ai.QuestionBank.Calls.{
  Call, add_content, register, update, submit, send_back, validate, reject, deprecate, delete,
  restore, archive, run_call, run_calls,
}
use torq_pro_ai.QuestionBank.Lifecycle.{
  Follows, Follows-refl, Follows-same_records, Follows-update_where, Follows-update_record_status,
  Follows-register_record, Moves, status_at,
}

Follows-records : (t t1 t' : Tables) → Follows t t1 → t'.records ≡ t1.records → Follows t t'
unfolding Follows
Follows-records t t1 t' h e id version = rw e (h id version)

transition_body-Follows :
    (env : Environment) (id : String) (version : ℕ) (new actor : String) (extras : Extras)
    (t : Tables) (current : Row)
    → extras.content_version_after ≡ none
    → fetch_record id version t ≡ some current
    → validate_transition_request (current.validation_status) new ≡ []
    → Follows t (transition_body env id version (current.validation_status) new actor extras t)
unfolding append_status_history
transition_body-Follows env id version new actor extras t current h e k =
    Follows-records t
      (update_record_status id version new (env.now) (extras.reviewed_by) (extras.review_date) t)
      (transition_body env id version (current.validation_status) new actor extras t)
      (Follows-update_record_status id version new (env.now) (extras.reviewed_by)
        (extras.review_date) t current e k)
      (ground arith)

-- A changed status, with its history.
transition-Follows :
    (env : Environment) (id : String) (version : ℕ) (new actor : String) (extras : Extras)
    (t : Tables)
    → extras.previous_status_override ≡ none
    → extras.content_version_after ≡ none
    → Follows t ((transition env id version new actor extras t).1)
unfolding transition
transition-Follows env id version new actor extras t h k =
    elim (Option-cases (fetch_record id version t)) [
      | inl e ↦ ground (arith, Follows-refl t)
      | inr (current, e) ↦
          elim (Bool-cases
            (is_empty (validate_transition_request (current.validation_status) new))) [
              | inl empty ↦ ground (
                arith,
                Follows-refl t,
                transition_body-Follows env id version new actor extras t current k e,
              )
              | inr refused ↦ ground (arith, Follows-refl t)
            ]
    ]

-- A return to draft changes no row.
transition-records :
    (env : Environment) (id : String) (version : ℕ) (new actor : String) (extras : Extras)
    (t : Tables) {after : ℕ}
    → extras.content_version_after ≡ some after
    → (transition env id version new actor extras t).1.records ≡ t.records
unfolding transition append_status_history
transition-records env id version new actor extras t h = ground arith

pub audit_rows-records :
    (entry : Row → LifecycleAudit) (rows : List Row) (t : Tables)
    → (audit_rows entry rows t).records ≡ t.records
unfolding append_lifecycle_audit
audit_rows-records entry [] t = refl
audit_rows-records entry (row ∷ rows) t =
    audit_rows-records entry rows (append_lifecycle_audit (entry row) t)

pub draft_registration-Follows :
    (env : Environment) (id : String) (version : ℕ) (reason : Option String) (before : Option ℕ)
    (actor : String) (t t' : Tables)
    → draft_registration env id version reason before actor t ≡ ok t'
    → Follows t t'
unfolding append_status_history
draft_registration-Follows env id version reason before actor t t' h =
    elim (Result-cases (register_record id version (env.now) (status_value draft) t)) [
      | inl (t1, e) ↦
          Follows-records t t1 t' (Follows-register_record id version (env.now) t t1 e)
            (ground arith)
      | inr (error, e) ↦ absurd (ground arith)
    ]

pub submit_for_technical_review-Follows :
    (env : Environment) (id : String) (version : ℕ) (actor : String) (t : Tables)
    → Follows t ((submit_for_technical_review env id version actor t).1)
unfolding submit_for_technical_review
submit_for_technical_review-Follows env id version actor t =
    transition-Follows env id version (status_value technical_review) actor no_extras t refl refl

module _ (env : Environment) (authorize : String → String → Bool) (id : String) (t : Tables) where
  pub return_to_draft-Follows :
      (before after : ℕ) (actor role reason : String)
      → Follows t ((return_to_draft env authorize id before after actor role reason t).1)
  unfolding return_to_draft
  return_to_draft-Follows before after actor role reason =
      Follows-same_records t ((return_to_draft env authorize id before after actor role reason t).1)
        (ground (
          arith,
          transition-records env id before (status_value draft) actor
              (record no_extras {
                revision_reason = some (strip reason);
                content_version_after = some after;
                previous_status_override = status_of_row (fetch_record id before t);
              })
              t {after = after} refl,
        ))

  pub validate_question-Follows :
      (version : ℕ) (actor role by date : String)
      → Follows t ((validate_question env authorize id version actor role by date t).1)
  unfolding validate_question
  validate_question-Follows version actor role by date = ground (
    arith,
    Follows-refl t,
    transition-Follows env id version (status_value validated) actor
        (record no_extras { reviewed_by = some by; review_date = some date }) t refl refl,
  )

  pub reject_question-Follows :
      (version : ℕ) (actor role reason : String)
      → Follows t ((reject_question env authorize id version actor role reason t).1)
  unfolding reject_question
  reject_question-Follows version actor role reason = ground (
    arith,
    Follows-refl t,
    transition-Follows env id version (status_value rejected) actor
        (record no_extras { revision_reason = some reason }) t refl refl,
  )

  pub deprecate_question-Follows :
      (version : ℕ) (actor role : String)
      → Follows t ((deprecate_question env authorize id version actor role t).1)
  unfolding deprecate_question
  deprecate_question-Follows version actor role = ground (
    arith,
    Follows-refl t,
    transition-Follows env id version (status_value deprecated) actor no_extras t refl refl,
  )

  -- all rows of a question change alike, in what is neither key nor status
  removal-Follows :
      (g : Row → Row) (entry : Row → LifecycleAudit) (rows : List Row) (t' : Tables)
      → ((id : String) (version : ℕ) (row : Row)
          → is_row id version (g row) ≡ is_row id version row)
      → ((row : Row) → (g row).validation_status ≡ row.validation_status)
      → t'.records ≡ update_where (λ row. is_of_question id row) g (t.records)
      → Follows t (audit_rows entry rows t')
  removal-Follows g entry rows t' hk hs e =
      Follows-update_where (λ row. is_of_question id row) g t (audit_rows entry rows t') hk hs
        (audit_rows-records entry rows t' ∙ e)

  pub delete_question-Follows :
      (actor role : String) → Follows t ((delete_question env authorize id actor role t).1)
  unfolding delete_question set_records_deleted_flag
  delete_question-Follows actor role = elim (Result-cases (lifecycle_rows_or_not_found id t)) [
    | inr (error, e) ↦ ground (arith, Follows-refl t)
    | inl (rows, e) ↦ ground (
      arith,
      Follows-refl t,
      removal-Follows (λ row. with_deleted true (env.now) actor row)
          (λ row. lifecycle_entry env id "soft_delete" actor role true (row.archived_at) row) rows
          (set_records_deleted_flag id true (env.now) actor t) (λ id version row. refl)
          (λ row. refl) refl,
    )
  ]

  pub restore_question-Follows :
      (actor role : String) → Follows t ((restore_question env authorize id actor role t).1)
  unfolding restore_question set_records_deleted_flag
  restore_question-Follows actor role = elim (Result-cases (lifecycle_rows_or_not_found id t)) [
    | inr (error, e) ↦ ground (arith, Follows-refl t)
    | inl (rows, e) ↦ ground (
      arith,
      Follows-refl t,
      removal-Follows (λ row. with_deleted false (env.now) actor row)
          (λ row. lifecycle_entry env id "restore" actor role false (row.archived_at) row) rows
          (set_records_deleted_flag id false (env.now) actor t) (λ id version row. refl)
          (λ row. refl) refl,
    )
  ]

  pub archive_question-Follows :
      (actor role : String) → Follows t ((archive_question env authorize id actor role t).1)
  unfolding archive_question set_records_archived
  archive_question-Follows actor role = elim (Result-cases (lifecycle_rows_or_not_found id t)) [
    | inr (error, e) ↦ ground (arith, Follows-refl t)
    | inl (rows, e) ↦ ground (
      arith,
      Follows-refl t,
      removal-Follows (λ row. with_archived (env.now) actor row)
          (λ row. lifecycle_entry env id "archive" actor role (row.is_deleted) (some (env.now)) row)
          rows (set_records_archived id (env.now) actor t) (λ id version row. refl) (λ row. refl)
          refl,
    )
  ]
