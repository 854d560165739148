-- ===== src/QuestionBank/Store.antt =====
-- backend/question_bank/store.py and errors.py: the JSON file of the contents, and the tables
-- question_bank_records, question_bank_status_history and question_bank_lifecycle_audit. The rows of
-- a table stand in the order of their ids; a column holds what was bound to it.
use torq_pro_ai.Prelude.{
  ℕ, String, Bool, true, false, not, Option, none, some, List, [], ◌∷◌, ◌++◌, ◌==◌, if◌then◌else◌,
  string_eq, nat_beq, ltb, keep, find_first, any, length, ◌&&◌,
}
use torq_pro_ai.Prelude.Exec.{Result, ok, raised, Exec}
use torq_pro_ai.QuestionBank.Content.{Floats, QuestionRecord}
use torq_pro_ai.QuestionBank.Validator.{Reason}

-- The classes of errors.py, and the errors of the file system and of SQLite.
pub data BankError : Type 0 where
  duplicate_content_version : String → ℕ → BankError
  content_not_found : String → BankError
  invalid_transition : String → String → BankError
  missing_revision_reason : List Reason → BankError
  content_version_unchanged : BankError
  unauthorized_transition : String → String → BankError
  question_already_deleted : String → BankError
  question_not_deleted : String → BankError
  question_already_archived : String → BankError
  validation_error : List Reason → BankError
  -- whether the compensating delete succeeded
  partial_update_failure : Bool → BankError
  file_error : BankError
  database_error : BankError

pub record Row : Type 0 where
  pub question_id : String
  pub content_version : ℕ
  pub validation_status : String
  pub reviewed_by : Option String
  pub review_date : Option String
  pub created_at : String
  pub updated_at : String
  pub is_deleted : Bool
  pub archived_at : Option String
  pub archived_by : Option String
  pub modified_at : Option String
  pub modified_by : Option String

pub record StatusHistory : Type 0 where
  pub question_id : String
  pub from_status : Option String
  pub to_status : String
  pub revision_reason : Option String
  pub actor : String
  pub content_version_before : Option ℕ
  pub content_version_after : Option ℕ
  pub created_at : String

pub record LifecycleAudit : Type 0 where
  pub question_id : String
  pub content_version : ℕ
  pub action : String
  pub actor : String
  pub actor_role : String
  pub previous_is_deleted : Bool
  pub new_is_deleted : Bool
  pub previous_archived_at : Option String
  pub new_archived_at : Option String
  pub created_at : String

pub record Tables : Type 0 where
  pub records : List Row
  pub history : List StatusHistory
  pub audit : List LifecycleAudit

-- `WHERE question_id=? AND content_version=?`
abbrev pub is_row : String → ℕ → Row → Bool
is_row id version row = (row.question_id == id) && nat_beq (row.content_version) version

abbrev pub is_of_question : String → Row → Bool
is_of_question id row = row.question_id == id

-- `UPDATE ... SET ... WHERE ...`
abbrev pub update_where : (Row → Bool) → (Row → Row) → List Row → List Row
update_where test change [] = []
update_where test change (row ∷ rows) =
    (if test row then change row else row) ∷ update_where test change rows

abbrev pub new_row : String → ℕ → String → String → Row
new_row id version status now = record {
  question_id = id;
  content_version = version;
  validation_status = status;
  reviewed_by = none;
  review_date = none;
  created_at = now;
  updated_at = now;
  is_deleted = false;
  archived_at = none;
  archived_by = none;
  modified_at = none;
  modified_by = none;
}

unfoldable pub register_record : String → ℕ → String → String → Tables → Result BankError Tables
register_record id version now status t =
    if any (λ row. is_row id version row) (t.records)
    then raised (duplicate_content_version id version)
    else ok (record t { records = t.records ++ new_row id version status now ∷ [] })

unfoldable pub fetch_record : String → ℕ → Tables → Option Row
unfolding find_first
fetch_record id version t = find_first (λ row. is_row id version row) (t.records)

-- `COALESCE(?, column)`
abbrev pub coalesce : Option String → Option String → Option String
coalesce none column = column
coalesce (some a) column = some a

abbrev pub with_status : String → String → Option String → Option String → Row → Row
with_status status now by date row = record row {
  validation_status = status;
  updated_at = now;
  reviewed_by = coalesce by (row.reviewed_by);
  review_date = coalesce date (row.review_date);
}

unfoldable pub update_record_status :
    String → ℕ → String → String → Option String → Option String → Tables → Tables
update_record_status id version status now by date t = record t {
  records =
      update_where (λ row. is_row id version row) (λ row. with_status status now by date row)
        (t.records);
}

unfoldable pub append_status_history : StatusHistory → Tables → Tables
append_status_history h t = record t { history = t.history ++ h ∷ [] }

unfoldable pub fetch_status_history : String → Tables → List StatusHistory
unfolding keep
fetch_status_history id t = keep (λ h. h.question_id == id) (t.history)

-- `WHERE validation_status='validated'`
unfoldable pub fetch_publishable_candidates : Tables → List Row
unfolding keep
fetch_publishable_candidates t = keep (λ row. row.validation_status == "validated") (t.records)

-- `ORDER BY content_version`
abbrev pub insert_row : Row → List Row → List Row
insert_row row [] = row ∷ []
insert_row row (r ∷ rows) =
    let rest = insert_row row rows in
    if ltb (r.content_version) (row.content_version) then r ∷ rest else row ∷ r ∷ rows

abbrev pub order_rows : List Row → List Row
order_rows [] = []
order_rows (row ∷ rows) = insert_row row (order_rows rows)

unfoldable pub fetch_records_by_question_id : String → Tables → List Row
unfolding keep
fetch_records_by_question_id id t = order_rows (keep (λ row. is_of_question id row) (t.records))

abbrev pub with_deleted : Bool → String → String → Row → Row
with_deleted flag now actor row = record row {
  is_deleted = flag;
  modified_at = some now;
  modified_by = some actor;
}

unfoldable pub set_records_deleted_flag : String → Bool → String → String → Tables → Tables
set_records_deleted_flag id flag now actor t = record t {
  records =
      update_where (λ row. is_of_question id row) (λ row. with_deleted flag now actor row)
        (t.records);
}

abbrev pub with_archived : String → String → Row → Row
with_archived now actor row = record row {
  archived_at = some now;
  archived_by = some actor;
  modified_at = some now;
  modified_by = some actor;
}

unfoldable pub set_records_archived : String → String → String → Tables → Tables
set_records_archived id now actor t = record t {
  records =
      update_where (λ row. is_of_question id row) (λ row. with_archived now actor row) (t.records);
}

unfoldable pub append_lifecycle_audit : LifecycleAudit → Tables → Tables
append_lifecycle_audit a t = record t { audit = t.audit ++ a ∷ [] }

unfoldable pub fetch_lifecycle_audit : String → Tables → List LifecycleAudit
unfolding keep
fetch_lifecycle_audit id t = keep (λ a. a.question_id == id) (t.audit)

module _ ⦃f : Floats⦄ where
  abbrev pub is_content : String → ℕ → QuestionRecord → Bool
  is_content id version r = (r.question_id == id) && nat_beq (r.content_version) version

  -- `max(matches, key=...)`, the first of those that are greatest
  abbrev pub latest : QuestionRecord → List QuestionRecord → QuestionRecord
  latest best [] = best
  latest best (r ∷ rs) =
      latest (if ltb (best.content_version) (r.content_version) then r else best) rs

  abbrev version_among : String → Option ℕ → List QuestionRecord → Result BankError QuestionRecord
  version_among id version [] = raised (content_not_found id)
  version_among id none (r ∷ rs) = ok (latest r rs)
  version_among id (some version) (r ∷ rs) =
      elim (find_first (λ q. nat_beq (q.content_version) version) (r ∷ rs)) [
        | some q ↦ ok q
        | none ↦ raised (content_not_found id)
      ]

  unfoldable pub load_question_content :
      List QuestionRecord → String → Option ℕ → Result BankError QuestionRecord
  unfolding keep find_first
  load_question_content contents id version =
      version_among id version (keep (λ r. r.question_id == id) contents)

  -- `writes` is whether the file can be replaced.
  unfoldable pub save_question_content :
      Bool → QuestionRecord → Exec (List QuestionRecord) BankError Unit
  save_question_content writes r contents =
      if any (λ q. is_content (r.question_id) (r.content_version) q) contents
      then (raised (duplicate_content_version (r.question_id) (r.content_version)), contents)
      else if writes
      then (ok tt, contents ++ r ∷ [])
      else (raised file_error, contents)

  unfoldable pub delete_question_content_version :
      Bool → String → ℕ → Exec (List QuestionRecord) BankError Bool
  unfolding keep
  delete_question_content_version writes id version contents =
      let remaining = keep (λ r. not (is_content id version r)) contents in
      if nat_beq (length remaining) (length contents)
      then (ok false, contents)
      else if writes
      then (ok true, remaining)
      else (raised file_error, contents)
