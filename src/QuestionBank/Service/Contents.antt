-- ===== src/QuestionBank/Service/Contents.antt =====
-- backend/question_bank/service.py: register_question_content, register_question, and
-- update_question with its compensating delete.
use torq_pro_ai.Prelude.{ℕ, String, false, Option, none, some, List, [], ◌∷◌, if◌then◌else◌, ◌+◌}
use torq_pro_ai.Prelude.Exec.{Result, ok, raised, Exec, and_then, lift, reads, pure, ◌>>=◌, ◌>>◌}
use torq_pro_ai.QuestionBank.Content.{Floats, QuestionRecord}
use torq_pro_ai.QuestionBank.Validator.{empty_patch, validate_record_structure}
use torq_pro_ai.QuestionBank.Patch.{
  QuestionPatch, is_empty_patch, merge_reasons, apply_patch, same_content,
}
use torq_pro_ai.QuestionBank.Store.{
  BankError, validation_error, partial_update_failure, Tables, load_question_content,
  save_question_content, delete_question_content_version,
}
use torq_pro_ai.QuestionBank.Service.{Environment, transaction, no_reasons, draft_registration}

module _ ⦃f : Floats⦄ where
  -- the file of the contents, and the tables
  pub record Bank : Type 0 where
    pub contents : List QuestionRecord
    pub tables : Tables

  abbrev pub on_contents :
      {A : Type 0} → Exec (List QuestionRecord) BankError A → Exec Bank BankError A
  on_contents m b = let (r, contents) = m (b.contents) in (r, record b { contents = contents })

  abbrev pub on_tables : {A : Type 0} → Exec Tables BankError A → Exec Bank BankError A
  on_tables m b = let (r, tables) = m (b.tables) in (r, record b { tables = tables })

  unfoldable pub load_question_content_validated :
      List QuestionRecord → String → Option ℕ → Result BankError QuestionRecord
  load_question_content_validated contents id version =
      and_then (load_question_content contents id version)
        λ r. and_then (no_reasons validation_error (validate_record_structure r)) λ _. ok r

  unfoldable pub register_question_content : Environment → QuestionRecord → Exec Bank BankError Unit
  register_question_content env r = do
    lift (no_reasons validation_error (validate_record_structure r))
    on_contents (save_question_content (env.writes) r)

  unfoldable pub register_question : Environment → String → ℕ → String → Exec Bank BankError Unit
  register_question env id version actor = do
    r ← reads (λ b. load_question_content_validated (b.contents) id (some version))
    on_tables (
        transaction (env.commits)
          (λ t. draft_registration env (r.question_id) (r.content_version) none none actor t) tt)

  -- `compensated`, and the error that follows
  abbrev compensate : Environment → String → ℕ → Exec Bank BankError QuestionRecord
  compensate env id version b =
      let (r, contents) = delete_question_content_version (env.rewrites) id version (b.contents) in
      elim r [
        | ok compensated ↦
            (raised (partial_update_failure compensated), record b { contents = contents })
        | raised e ↦ (raised (partial_update_failure false), record b { contents = contents })
      ]

  -- Step 2 of `update_question`: the registration, and what its failure calls for.
  unfoldable pub register_or_compensate :
      Environment → ℕ → String → QuestionRecord → Exec Bank BankError QuestionRecord
  register_or_compensate env before actor new b =
      let (r, tables) =
        transaction (env.commits)
          (λ t.
            draft_registration env (new.question_id) (new.content_version)
              (some "content updated via PATCH") (some before) actor t)
          tt (b.tables) in
      elim r [
        | ok done ↦ (ok new, record b { tables = tables })
        | raised e ↦
            compensate env (new.question_id) (new.content_version) (record b { tables = tables })
      ]

  -- the new version, from the merge at the current version
  unfoldable pub append_version :
      Environment → ℕ → String → QuestionRecord → Exec Bank BankError QuestionRecord
  append_version env before actor merged = do
    lift (no_reasons validation_error (validate_record_structure merged))
    on_contents
        (save_question_content (env.writes) (record merged { content_version = before + 1 }))
    register_or_compensate env before actor (record merged { content_version = before + 1 })

  -- the current version where the merge changes nothing, a new version where it does
  unfoldable pub append_if_changed :
      Environment → QuestionRecord → String → QuestionRecord → Exec Bank BankError QuestionRecord
  append_if_changed env current actor merged =
      if same_content merged current
      then pure current
      else append_version env (current.content_version) actor merged

  unfoldable pub update_question :
      Environment → String → QuestionPatch → String → Exec Bank BankError QuestionRecord
  update_question env id patch actor = do
    lift (if is_empty_patch patch then raised (validation_error (empty_patch ∷ [])) else ok tt)
    current ← reads (λ b. load_question_content_validated (b.contents) id none)
    lift (no_reasons validation_error (merge_reasons patch current))
    append_if_changed env current actor (apply_patch patch current)
