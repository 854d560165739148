-- ===== src/QuestionBank/Calls.antt =====
-- The calls that backend/question_bank/service.py answers by changing its state, as data, and runs of
-- them. Each call meets an environment of its own.
use torq_pro_ai.Prelude.{ℕ, String, Bool, List, [], ◌∷◌}
use torq_pro_ai.QuestionBank.Content.{Floats, QuestionRecord}
use torq_pro_ai.QuestionBank.Patch.{QuestionPatch}
use torq_pro_ai.QuestionBank.Service.{
  Environment, submit_for_technical_review, return_to_draft, validate_question, reject_question,
  deprecate_question,
}
use torq_pro_ai.QuestionBank.Service.Contents.{
  Bank, on_tables, register_question_content, register_question, update_question,
}
use torq_pro_ai.QuestionBank.Service.Removal.{delete_question, restore_question, archive_question}

module _ ⦃f : Floats⦄ where
  -- The arguments stand in the order of the functions; the last texts are the actor and the role.
  pub data Call : Type 0 where
    add_content : QuestionRecord → Call
    register : String → ℕ → String → Call
    update : String → QuestionPatch → String → Call
    submit : String → ℕ → String → Call
    send_back : String → ℕ → ℕ → String → String → String → Call
    validate : String → ℕ → String → String → String → String → Call
    reject : String → ℕ → String → String → String → Call
    deprecate : String → ℕ → String → String → Call
    delete : String → String → String → Call
    restore : String → String → String → Call
    archive : String → String → String → Call

  -- the state after a call, whether it returns or raises
  abbrev pub run_call : (String → String → Bool) → Environment → Call → Bank → Bank
  run_call authorize env (add_content r) b = (register_question_content env r b).1
  run_call authorize env (register id version actor) b =
      (register_question env id version actor b).1
  run_call authorize env (update id patch actor) b = (update_question env id patch actor b).1
  run_call authorize env (submit id version actor) b =
      (on_tables (submit_for_technical_review env id version actor) b).1
  run_call authorize env (send_back id before after actor role reason) b =
      (on_tables (return_to_draft env authorize id before after actor role reason) b).1
  run_call authorize env (validate id version actor role by date) b =
      (on_tables (validate_question env authorize id version actor role by date) b).1
  run_call authorize env (reject id version actor role reason) b =
      (on_tables (reject_question env authorize id version actor role reason) b).1
  run_call authorize env (deprecate id version actor role) b =
      (on_tables (deprecate_question env authorize id version actor role) b).1
  run_call authorize env (delete id actor role) b =
      (on_tables (delete_question env authorize id actor role) b).1
  run_call authorize env (restore id actor role) b =
      (on_tables (restore_question env authorize id actor role) b).1
  run_call authorize env (archive id actor role) b =
      (on_tables (archive_question env authorize id actor role) b).1

  abbrev pub run_calls : (String → String → Bool) → List (Environment × Call) → Bank → Bank
  run_calls authorize [] b = b
  run_calls authorize ((env, call) ∷ calls) b =
      run_calls authorize calls (run_call authorize env call b)
