-- ===== src/QuestionBank/Visibility.antt =====
-- The questions that get_publishable_questions of backend/question_bank/service.py lists, beside the
-- calls that delete, restore and archive.
use torq_pro_ai.Prelude.{
  String, Bool, true, false, some, List, [], ◌∷◌, keep, ◌==◌, string_eq, ◌≡◌, refl, arith, inl, inr,
}
use torq_pro_ai.Prelude.Exec.{Result-cases}
use torq_pro_ai.QuestionBank.Content.{Floats, QuestionRecord}
use torq_pro_ai.QuestionBank.Store.{
  Row, Tables, LifecycleAudit, is_of_question, update_where, with_deleted, with_archived,
  set_records_deleted_flag, set_records_archived, fetch_publishable_candidates,
}
use torq_pro_ai.QuestionBank.Service.{Environment}
use torq_pro_ai.QuestionBank.Service.Removal.{
  audit_rows, lifecycle_entry, lifecycle_rows_or_not_found, delete_question, restore_question,
  archive_question, publishable_of, get_publishable_questions,
}
use torq_pro_ai.QuestionBank.Refinement.{audit_rows-records}

module _ ⦃f : Floats⦄ (contents : List QuestionRecord) where
  publishable_of-update_where :
      (q : Row → Bool) (g : Row → Row) (rows : List Row)
      → ((row : Row) → (g row).question_id ≡ row.question_id)
      → ((row : Row) → (g row).content_version ≡ row.content_version)
      → ((row : Row) → (g row).validation_status ≡ row.validation_status)
      → publishable_of contents
          (keep (λ row. row.validation_status == "validated") (update_where q g rows))
        ≡ publishable_of contents (keep (λ row. row.validation_status == "validated") rows)
  unfolding keep
  publishable_of-update_where q g [] hi hv hs = refl
  publishable_of-update_where q g (row ∷ rows) hi hv hs =
      ground (arith, hi row, hv row, hs row, publishable_of-update_where q g rows hi hv hs)

  removal-publishable :
      (id : String) (g : Row → Row) (entry : Row → LifecycleAudit) (rows : List Row) (t t' : Tables)
      → ((row : Row) → (g row).question_id ≡ row.question_id)
      → ((row : Row) → (g row).content_version ≡ row.content_version)
      → ((row : Row) → (g row).validation_status ≡ row.validation_status)
      → t'.records ≡ update_where (λ row. is_of_question id row) g (t.records)
      → get_publishable_questions contents (audit_rows entry rows t')
        ≡ get_publishable_questions contents t
  unfolding get_publishable_questions fetch_publishable_candidates
  removal-publishable id g entry rows t t' hi hv hs e =
      rw (audit_rows-records entry rows t', e)
        (publishable_of-update_where (λ row. is_of_question id row) g (t.records) hi hv hs)

module _ ⦃f : Floats⦄ (contents : List QuestionRecord) (env : Environment)
    (authorize : String → String → Bool) (id actor role : String) (t : Tables) where
  delete_question-publishable :
      get_publishable_questions contents ((delete_question env authorize id actor role t).1)
      ≡ get_publishable_questions contents t
  unfolding delete_question set_records_deleted_flag
  delete_question-publishable = elim (Result-cases (lifecycle_rows_or_not_found id t)) [
    | inr (error, e) ↦ ground arith
    | inl (rows, e) ↦ ground (
      arith,
      removal-publishable contents id (λ row. with_deleted true (env.now) actor row)
          (λ row. lifecycle_entry env id "soft_delete" actor role true (row.archived_at) row) rows t
          (set_records_deleted_flag id true (env.now) actor t) (λ row. refl) (λ row. refl)
          (λ row. refl) refl,
    )
  ]

  restore_question-publishable :
      get_publishable_questions contents ((restore_question env authorize id actor role t).1)
      ≡ get_publishable_questions contents t
  unfolding restore_question set_records_deleted_flag
  restore_question-publishable = elim (Result-cases (lifecycle_rows_or_not_found id t)) [
    | inr (error, e) ↦ ground arith
    | inl (rows, e) ↦ ground (
      arith,
      removal-publishable contents id (λ row. with_deleted false (env.now) actor row)
          (λ row. lifecycle_entry env id "restore" actor role false (row.archived_at) row) rows t
          (set_records_deleted_flag id false (env.now) actor t) (λ row. refl) (λ row. refl)
          (λ row. refl) refl,
    )
  ]

  archive_question-publishable :
      get_publishable_questions contents ((archive_question env authorize id actor role t).1)
      ≡ get_publishable_questions contents t
  unfolding archive_question set_records_archived
  archive_question-publishable = elim (Result-cases (lifecycle_rows_or_not_found id t)) [
    | inr (error, e) ↦ ground arith
    | inl (rows, e) ↦ ground (
      arith,
      removal-publishable contents id (λ row. with_archived (env.now) actor row)
          (λ row. lifecycle_entry env id "archive" actor role (row.is_deleted) (some (env.now)) row)
          rows t (set_records_archived id (env.now) actor t) (λ row. refl) (λ row. refl)
          (λ row. refl) refl,
    )
  ]

  -- Deleting, restoring and archiving a question, whether they return or raise, leave the list of the
  -- questions that may be shown as it was: a question that is deleted or archived stays in it.
  pub get_publishable_questions-removal :
      (get_publishable_questions contents ((delete_question env authorize id actor role t).1)
        ≡ get_publishable_questions contents t)
      × (get_publishable_questions contents ((restore_question env authorize id actor role t).1)
          ≡ get_publishable_questions contents t)
      × (get_publishable_questions contents ((archive_question env authorize id actor role t).1)
          ≡ get_publishable_questions contents t)
  get_publishable_questions-removal =
      (delete_question-publishable, restore_question-publishable, archive_question-publishable)
