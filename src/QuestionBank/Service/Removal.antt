-- ===== src/QuestionBank/Service/Removal.antt =====
-- backend/question_bank/service.py: delete_question, restore_question, archive_question, and the
-- questions that may be shown.
use torq_pro_ai.Prelude.{
  ℕ, String, Bool, true, false, not, Option, some, List, [], ◌∷◌, map, if◌then◌else◌, all,
}
use torq_pro_ai.Prelude.Exec.{Result, ok, raised, Exec, lift, reads, ◌>>=◌, ◌>>◌}
use torq_pro_ai.QuestionBank.Content.{Floats, QuestionRecord}
use torq_pro_ai.QuestionBank.Validator.{validate_publishable, is_none}
use torq_pro_ai.QuestionBank.Store.{
  BankError, content_not_found, question_already_deleted, question_not_deleted,
  question_already_archived, Row, LifecycleAudit, Tables, fetch_publishable_candidates,
  fetch_records_by_question_id, set_records_deleted_flag, set_records_archived,
  append_lifecycle_audit, load_question_content,
}
use torq_pro_ai.QuestionBank.Service.{Environment, transaction, require_authorized}

-- `_lifecycle_rows_or_not_found`
abbrev rows_or_not_found : String → List Row → Result BankError (List Row)
rows_or_not_found id [] = raised (content_not_found id)
rows_or_not_found id (row ∷ rows) = ok (row ∷ rows)

unfoldable pub lifecycle_rows_or_not_found : String → Tables → Result BankError (List Row)
unfolding fetch_records_by_question_id
lifecycle_rows_or_not_found id t = rows_or_not_found id (fetch_records_by_question_id id t)

-- `for row in rows: append_lifecycle_audit(...)`
abbrev pub audit_rows : (Row → LifecycleAudit) → List Row → Tables → Tables
audit_rows entry [] t = t
audit_rows entry (row ∷ rows) t = audit_rows entry rows (append_lifecycle_audit (entry row) t)

abbrev pub lifecycle_entry :
    Environment → String → String → String → String → Bool → Option String → Row → LifecycleAudit
lifecycle_entry env id action actor role deleted archived row = record {
  question_id = id;
  content_version = row.content_version;
  action = action;
  actor = actor;
  actor_role = role;
  previous_is_deleted = row.is_deleted;
  new_is_deleted = deleted;
  previous_archived_at = row.archived_at;
  new_archived_at = archived;
  created_at = env.now;
}

abbrev pub versions : List Row → List ℕ
versions rows = map (λ row. row.content_version) rows

unfoldable pub delete_question :
    Environment
    → (String → String → Bool)
    → String
    → String
    → String
    → Exec Tables BankError (List ℕ)
delete_question env authorize id actor role = do
  lift (require_authorized authorize role "soft_delete")
  rows ← reads (λ t. lifecycle_rows_or_not_found id t)
  lift (if all (λ row. row.is_deleted) rows then raised (question_already_deleted id) else ok tt)
  transaction (env.commits)
      (λ t. ok (
        audit_rows
          (λ row. lifecycle_entry env id "soft_delete" actor role true (row.archived_at) row) rows
          (set_records_deleted_flag id true (env.now) actor t)))
      (versions rows)

unfoldable pub restore_question :
    Environment
    → (String → String → Bool)
    → String
    → String
    → String
    → Exec Tables BankError (List ℕ)
restore_question env authorize id actor role = do
  lift (require_authorized authorize role "restore")
  rows ← reads (λ t. lifecycle_rows_or_not_found id t)
  lift (if all (λ row. not (row.is_deleted)) rows then raised (question_not_deleted id) else ok tt)
  transaction (env.commits)
      (λ t. ok (
        audit_rows (λ row. lifecycle_entry env id "restore" actor role false (row.archived_at) row)
          rows (set_records_deleted_flag id false (env.now) actor t)))
      (versions rows)

unfoldable pub archive_question :
    Environment
    → (String → String → Bool)
    → String
    → String
    → String
    → Exec Tables BankError (List ℕ)
archive_question env authorize id actor role = do
  lift (require_authorized authorize role "archive")
  rows ← reads (λ t. lifecycle_rows_or_not_found id t)
  lift (
      if all (λ row. not (is_none (row.archived_at))) rows
      then raised (question_already_archived id)
      else ok tt)
  transaction (env.commits)
      (λ t. ok (
        audit_rows
          (λ row. lifecycle_entry env id "archive" actor role (row.is_deleted) (some (env.now)) row)
          rows (set_records_archived id (env.now) actor t)))
      (versions rows)

module _ ⦃f : Floats⦄ where
  -- a row's content, where it can be loaded and shown
  abbrev publishable_content :
      Row → Result BankError QuestionRecord → List QuestionRecord → List QuestionRecord
  publishable_content row (raised e) rest = rest
  publishable_content row (ok r) rest =
      if validate_publishable r (row.validation_status) then r ∷ rest else rest

  abbrev pub publishable_of : List QuestionRecord → List Row → List QuestionRecord
  publishable_of contents [] = []
  publishable_of contents (row ∷ rows) =
      publishable_content row
        (load_question_content contents (row.question_id) (some (row.content_version)))
        (publishable_of contents rows)

  unfoldable pub get_publishable_questions : List QuestionRecord → Tables → List QuestionRecord
  unfolding fetch_publishable_candidates
  get_publishable_questions contents t = publishable_of contents (fetch_publishable_candidates t)
