-- ===== src/QuestionBank/Refinement/Runs.antt =====
-- The calls of backend/question_bank/service.py on contents and tables, and runs of calls, against
-- the specification of QuestionBank/Lifecycle.
use torq_pro_ai.Prelude.{
  ℕ, String, Bool, true, false, Option, none, some, List, [], ◌∷◌, ◌≡◌, refl, arith, Bool-cases,
  inl, inr, ap, beq→eq, ◌+◌, ◌++◌, ◌==◌, string_eq, option_eq,
}
use torq_pro_ai.Prelude.Exec.{Result-cases}
use torq_pro_ai.QuestionBank.Statuses.{
  ValidationStatus, ValidationStatus-discrete, draft, technical_review, rejected, status_value,
  validated, deprecated, is_valid_transition,
}
use torq_pro_ai.Governance.Transitions.{is_transition_allowed}
use torq_pro_ai.QuestionBank.Content.{Floats, QuestionRecord}
use torq_pro_ai.QuestionBank.Patch.{QuestionPatch, apply_patch}
use torq_pro_ai.QuestionBank.Store.{Tables, save_question_content}
use torq_pro_ai.QuestionBank.Service.{Environment, draft_registration, transaction}
use torq_pro_ai.QuestionBank.Service.Contents.{
  Bank, register_question_content, register_question, update_question, register_or_compensate,
  append_version, append_if_changed, load_question_content_validated,
}
use torq_pro_ai.QuestionBank.Calls.{
  Call, add_content, register, update, submit, send_back, validate, reject, deprecate, delete,
  restore, archive, run_call, run_calls,
}
use torq_pro_ai.QuestionBank.Lifecycle.{
  Follows, Follows-refl, Moves, stays, registers, moves, status_at,
}
use torq_pro_ai.QuestionBank.Refinement.{
  draft_registration-Follows, submit_for_technical_review-Follows, return_to_draft-Follows,
  validate_question-Follows, reject_question-Follows, deprecate_question-Follows,
  delete_question-Follows, restore_question-Follows, archive_question-Follows,
}

registration-Follows :
    (env : Environment) (id : String) (version : ℕ) (reason : Option String) (before : Option ℕ)
    (actor : String) (t : Tables)
    → Follows t (
        (transaction
          (env.commits)
          (λ t. draft_registration env id version reason before actor t)
          tt
          t).1)
registration-Follows env id version reason before actor t =
    elim (Result-cases (draft_registration env id version reason before actor t)) [
      | inl (t', e) ↦ ground (
        arith,
        Follows-refl t,
        draft_registration-Follows env id version reason before actor t t' e,
      )
      | inr (error, e) ↦ ground (arith, Follows-refl t)
    ]

module _ ⦃f : Floats⦄ where
  register_question_content-Follows :
      (env : Environment) (r : QuestionRecord) (b : Bank)
      → Follows (b.tables) ((register_question_content env r b).1.tables)
  unfolding register_question_content
  register_question_content-Follows env r b = ground (arith, Follows-refl (b.tables))

  register_question-Follows :
      (env : Environment) (id : String) (version : ℕ) (actor : String) (b : Bank)
      → Follows (b.tables) ((register_question env id version actor b).1.tables)
  unfolding register_question
  register_question-Follows env id version actor b =
      elim (Result-cases (load_question_content_validated (b.contents) id (some version))) [
        | inl (r, e) ↦ ground (
          arith,
          registration-Follows env (r.question_id) (r.content_version) none none actor (b.tables),
        )
        | inr (error, e) ↦ ground (arith, Follows-refl (b.tables))
      ]

  register_or_compensate-Follows :
      (env : Environment) (before : ℕ) (actor : String) (new : QuestionRecord) (b : Bank)
      → Follows (b.tables) ((register_or_compensate env before actor new b).1.tables)
  unfolding register_or_compensate
  register_or_compensate-Follows env before actor new b = ground (
    arith,
    registration-Follows env (new.question_id) (new.content_version)
        (some "content updated via PATCH") (some before) actor (b.tables),
  )

  append_version-Follows :
      (env : Environment) (before : ℕ) (actor : String) (merged : QuestionRecord) (b : Bank)
      → Follows (b.tables) ((append_version env before actor merged b).1.tables)
  unfolding append_version save_question_content
  append_version-Follows env before actor merged b =
      let new : QuestionRecord = record merged { content_version = before + 1 } in
      ground (
        arith,
        Follows-refl (b.tables),
        register_or_compensate-Follows env before actor new
            (record b { contents = b.contents ++ new ∷ [] }),
      )

  append_if_changed-Follows :
      (env : Environment) (current : QuestionRecord) (actor : String) (merged : QuestionRecord)
      (b : Bank)
      → Follows (b.tables) ((append_if_changed env current actor merged b).1.tables)
  unfolding append_if_changed
  append_if_changed-Follows env current actor merged b = ground (
    arith,
    Follows-refl (b.tables),
    append_version-Follows env (current.content_version) actor merged b,
  )

  update_question-Follows :
      (env : Environment) (id : String) (patch : QuestionPatch) (actor : String) (b : Bank)
      → Follows (b.tables) ((update_question env id patch actor b).1.tables)
  unfolding update_question
  update_question-Follows env id patch actor b =
      elim (Result-cases (load_question_content_validated (b.contents) id none)) [
        | inl (current, e) ↦ ground (
          arith,
          Follows-refl (b.tables),
          append_if_changed-Follows env current actor (apply_patch patch current) b,
        )
        | inr (error, e) ↦ ground (arith, Follows-refl (b.tables))
      ]

  run_call-Follows :
      (authorize : String → String → Bool) (env : Environment) (call : Call) (b : Bank)
      → Follows (b.tables) ((run_call authorize env call b).tables)
  run_call-Follows authorize env (add_content r) b = register_question_content-Follows env r b
  run_call-Follows authorize env (register id version actor) b =
      register_question-Follows env id version actor b
  run_call-Follows authorize env (update id patch actor) b =
      update_question-Follows env id patch actor b
  run_call-Follows authorize env (submit id version actor) b =
      submit_for_technical_review-Follows env id version actor (b.tables)
  run_call-Follows authorize env (send_back id before after actor role reason) b =
      return_to_draft-Follows env authorize id (b.tables) before after actor role reason
  run_call-Follows authorize env (validate id version actor role by date) b =
      validate_question-Follows env authorize id (b.tables) version actor role by date
  run_call-Follows authorize env (reject id version actor role reason) b =
      reject_question-Follows env authorize id (b.tables) version actor role reason
  run_call-Follows authorize env (deprecate id version actor role) b =
      deprecate_question-Follows env authorize id (b.tables) version actor role
  run_call-Follows authorize env (delete id actor role) b =
      delete_question-Follows env authorize id (b.tables) actor role
  run_call-Follows authorize env (restore id actor role) b =
      restore_question-Follows env authorize id (b.tables) actor role
  run_call-Follows authorize env (archive id actor role) b =
      archive_question-Follows env authorize id (b.tables) actor role

  -- Whatever the call, the environment and the outcome, the status of a version of a question stays,
  -- or a version without a row becomes a draft, or the table of statuses has the change.
  pub run_call-Moves :
      (authorize : String → String → Bool) (env : Environment) (call : Call) (b : Bank)
      (id : String) (version : ℕ)
      → Moves
          (status_at (b.tables.records) id version)
          (status_at ((run_call authorize env call b).tables.records) id version)
  unfolding Follows
  run_call-Moves authorize env call b id version = run_call-Follows authorize env call b id version

status_value-validated : (n : ValidationStatus) → status_value n ≡ "validated" → n ≡ validated
status_value-validated draft h = absurd (cc)
status_value-validated technical_review h = absurd (cc)
status_value-validated validated h = refl
status_value-validated rejected h = absurd (cc)
status_value-validated deprecated h = absurd (cc)

validated-from :
    (p : ValidationStatus) → is_valid_transition p validated ≡ true → p ≡ technical_review
unfolding is_valid_transition is_transition_allowed ValidationStatus-discrete
validated-from draft h = absurd (cc)
validated-from technical_review h = refl
validated-from validated h = absurd (cc)
validated-from rejected h = absurd (cc)
validated-from deprecated h = absurd (cc)

-- A version becomes validated from technical review only.
Moves-validated :
    {o o' : Option String}
    → Moves o o'
    → (o == some "validated") ≡ false
    → o' ≡ some "validated"
    → o ≡ some "technical_review"
Moves-validated {o = o} stays h k =
    absurd (ground (arith, (option_eq.beq_iff o (some "validated")).1 k))
Moves-validated registers h k = absurd (cc)
Moves-validated (moves p n v) h k =
    let target : n ≡ validated = status_value-validated n (ground arith) in
    ap (λ s. some (status_value s)) (validated-from p (ground (arith, v, target)))

module _ ⦃f : Floats⦄ (authorize : String → String → Bool) (id : String) (version : ℕ) where
  -- A version that is not validated, and is so after some calls, was in technical review after the
  -- first of these calls, up to one of them.
  pub run_calls-reviewed :
      (calls : List (Environment × Call)) (b : Bank)
      → (status_at (b.tables.records) id version == some "validated") ≡ false
      → status_at ((run_calls authorize calls b).tables.records) id version ≡ some "validated"
      → (first rest : List (Environment × Call)) × (calls ≡ first ++ rest)
        × (status_at ((run_calls authorize first b).tables.records) id version
            ≡ some "technical_review")
  run_calls-reviewed [] b h k = absurd (
      ground (
        arith,
        (option_eq.beq_iff (status_at (b.tables.records) id version) (some "validated")).1 k,
      ))
  run_calls-reviewed ((env, call) ∷ calls) b h k =
      let b' : Bank = run_call authorize env call b in
      elim (Bool-cases (status_at (b'.tables.records) id version == some "validated")) [
        | inl now ↦ (
          [],
          (env, call) ∷ calls,
          refl,
          Moves-validated (run_call-Moves authorize env call b id version) h
              (beq→eq (status_at (b'.tables.records) id version) (some "validated") now),
        )
        | inr later ↦
            let (first, rest, e, r) = run_calls-reviewed calls b' later k in
            ((env, call) ∷ first, rest, ap (λ cs. (env, call) ∷ cs) e, r)
      ]
