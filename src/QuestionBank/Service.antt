-- ===== src/QuestionBank/Service.antt =====
-- backend/question_bank/service.py: a content and its row are made in two steps, a patch makes a new
-- version of both, a status changes along the table, and a question is deleted, restored and
-- archived in all its versions. Here are the transactions and the changes of a status.
pub mod Contents
pub mod Removal
use torq_pro_ai.Prelude.{
  ℕ, String, Bool, true, false, not, Option, none, some, List, [], ◌∷◌, ◌++◌, map, Eq, ◌==◌,
  contains, if◌then◌else◌, string_eq, nat_beq, all, is_empty, ◌||◌, ◌&&◌, ◌+◌,
}
use torq_pro_ai.Prelude.Texts.{strip, is_empty_str}
use torq_pro_ai.Prelude.Exec.{
  Result, ok, raised, Exec, and_then, lift, reads, raise, pure, continue, ◌>>=◌, ◌>>◌,
}
use torq_pro_ai.QuestionBank.Statuses.{
  ValidationStatus, draft, technical_review, validated, rejected, deprecated, status_value,
  authorization_required_transitions,
}
use torq_pro_ai.QuestionBank.Content.{Floats, QuestionRecord}
use torq_pro_ai.QuestionBank.Validator.{
  Reason, empty_patch, validate_record_structure, validate_publishable, validate_revision_reason,
  validate_transition_request, is_none,
}
use torq_pro_ai.QuestionBank.Patch.{
  QuestionPatch, is_empty_patch, merge_reasons, apply_patch, same_content,
}
use torq_pro_ai.QuestionBank.Store.{
  BankError, content_not_found, invalid_transition, missing_revision_reason,
  content_version_unchanged, unauthorized_transition, question_already_deleted,
  question_not_deleted, question_already_archived, validation_error, partial_update_failure,
  database_error, Row, StatusHistory, LifecycleAudit, Tables, register_record, fetch_record,
  update_record_status, append_status_history, fetch_publishable_candidates,
  fetch_records_by_question_id, set_records_deleted_flag, set_records_archived,
  append_lifecycle_audit, load_question_content, save_question_content,
  delete_question_content_version,
}

-- What a call meets outside: the clock, whether the file can be replaced, whether the statements
-- of a transaction succeed up to its commit, and whether the file can be replaced once more.
pub record Environment : Type 0 where
  pub now : String
  pub writes : Bool
  pub commits : Bool
  pub rewrites : Bool

-- `BEGIN`, the statements, `c.commit()`, and `c.rollback()` where one of them raises
abbrev pub transaction :
    {A : Type 0} → Bool → (Tables → Result BankError Tables) → A → Exec Tables BankError A
transaction commits body a t = elim (body t) [
  | raised e ↦ (raised e, t)
  | ok t' ↦ if commits then (ok a, t') else (raised database_error, t)
]

unfoldable pub default_role_authorization : String → String → Bool
default_role_authorization role action = contains role ("admin" ∷ "engineer" ∷ [])

abbrev pub require_authorized : (String → String → Bool) → String → String → Result BankError Unit
require_authorized authorize role action =
    if contains action authorization_required_transitions && not (authorize role action)
    then raised (unauthorized_transition role action)
    else ok tt

-- `if reasons: raise error(reasons)`
abbrev pub no_reasons : (List Reason → BankError) → List Reason → Result BankError Unit
no_reasons error [] = ok tt
no_reasons error (reason ∷ reasons) = raised (error (reason ∷ reasons))

-- the row of a new version and its history, the transaction that both registrations make
abbrev pub draft_registration :
    Environment → String → ℕ → Option String → Option ℕ → String → Tables → Result BankError Tables
draft_registration env id version reason before actor t =
    and_then (register_record id version (env.now) (status_value draft) t) λ t'. ok (
      append_status_history
        (record {
          question_id = id;
          from_status = none;
          to_status = status_value draft;
          revision_reason = reason;
          actor = actor;
          content_version_before = before;
          content_version_after = some version;
          created_at = env.now;
        })
        t')

-- the optional arguments of `_transition`
pub record Extras : Type 0 where
  pub revision_reason : Option String
  pub reviewed_by : Option String
  pub review_date : Option String
  pub content_version_after : Option ℕ
  pub previous_status_override : Option String

abbrev pub no_extras : Extras
no_extras = record {
  revision_reason = none;
  reviewed_by = none;
  review_date = none;
  content_version_after = none;
  previous_status_override = none;
}

-- `override or status`
abbrev pub override_or : Option String → String → String
override_or none status = status
override_or (some override) status = if is_empty_str override then status else override

abbrev pub transition_history :
    Environment → String → ℕ → ℕ → String → String → String → Extras → StatusHistory
transition_history env id version after previous new actor extras = record {
  question_id = id;
  from_status = some previous;
  to_status = new;
  revision_reason = extras.revision_reason;
  actor = actor;
  content_version_before = some version;
  content_version_after = some after;
  created_at = env.now;
}

-- the statements of the transaction of `_transition`
abbrev pub transition_body :
    Environment → String → ℕ → String → String → String → Extras → Tables → Tables
transition_body env id version previous new actor extras t = elim (extras.content_version_after) [
  | some after ↦
      append_status_history (transition_history env id version after previous new actor extras) t
  | none ↦
      append_status_history (transition_history env id version version previous new actor extras)
        (update_record_status id version new (env.now) (extras.reviewed_by) (extras.review_date) t)
]

-- `_transition`
unfoldable pub transition :
    Environment → String → ℕ → String → String → Extras → Exec Tables BankError Unit
unfolding fetch_record
transition env id version new actor extras t = elim (fetch_record id version t) [
  | none ↦ (raised (content_not_found id), t)
  | some current ↦
      let previous = override_or (extras.previous_status_override) (current.validation_status) in
      if is_empty (validate_transition_request previous new)
      then transaction (env.commits)
          (λ t'. ok (transition_body env id version previous new actor extras t')) tt t
      else (raised (invalid_transition previous new), t)
]

unfoldable pub submit_for_technical_review :
    Environment → String → ℕ → String → Exec Tables BankError Unit
submit_for_technical_review env id version actor =
    transition env id version (status_value technical_review) actor no_extras

-- `current["validation_status"] if current else None`
abbrev pub status_of_row : Option Row → Option String
status_of_row none = none
status_of_row (some row) = some (row.validation_status)

unfoldable pub return_to_draft :
    Environment
    → (String → String → Bool)
    → String
    → ℕ
    → ℕ
    → String
    → String
    → String
    → Exec Tables BankError Unit
unfolding strip
return_to_draft env authorize id before after actor role reason = do
  lift (no_reasons missing_revision_reason (validate_revision_reason (some reason)))
  lift (if nat_beq after before then raised content_version_unchanged else ok tt)
  lift (require_authorized authorize role "return_to_draft")
  previous ← reads (λ t. ok (status_of_row (fetch_record id before t)))
  transition env id before (status_value draft) actor (record no_extras {
    revision_reason = some (strip reason);
    content_version_after = some after;
    previous_status_override = previous;
  })

unfoldable pub validate_question :
    Environment
    → (String → String → Bool)
    → String
    → ℕ
    → String
    → String
    → String
    → String
    → Exec Tables BankError Unit
validate_question env authorize id version actor role reviewed_by review_date = do
  lift (require_authorized authorize role "validate_question")
  transition env id version (status_value validated) actor
      (record no_extras { reviewed_by = some reviewed_by; review_date = some review_date })

unfoldable pub reject_question :
    Environment
    → (String → String → Bool)
    → String
    → ℕ
    → String
    → String
    → String
    → Exec Tables BankError Unit
reject_question env authorize id version actor role reason = do
  lift (require_authorized authorize role "reject_question")
  transition env id version (status_value rejected) actor
      (record no_extras { revision_reason = some reason })

unfoldable pub deprecate_question :
    Environment
    → (String → String → Bool)
    → String
    → ℕ
    → String
    → String
    → Exec Tables BankError Unit
deprecate_question env authorize id version actor role = do
  lift (require_authorized authorize role "deprecate_question")
  transition env id version (status_value deprecated) actor no_extras
