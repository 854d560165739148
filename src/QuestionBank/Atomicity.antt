-- ===== src/QuestionBank/Atomicity.antt =====
-- What update_question of backend/question_bank/service.py leaves behind where it raises.
use torq_pro_ai.Prelude.{
  ℕ, String, Bool, true, false, not, none, List, [], ◌∷◌, ◌++◌, keep, any, length-append, arith,
  ◌≡◌, refl, beq_refl, string_eq, ◌+◌, inl, inr,
}
use torq_pro_ai.Prelude.Exec.{ok, raised, Result-cases, continue-cases, Atomic, Atomic-raised}
use torq_pro_ai.QuestionBank.Content.{Floats, QuestionRecord}
use torq_pro_ai.QuestionBank.Validator.{validate_record_structure}
use torq_pro_ai.QuestionBank.Patch.{QuestionPatch, apply_patch}
use torq_pro_ai.QuestionBank.Store.{
  BankError, validation_error, is_content, save_question_content, delete_question_content_version,
}
use torq_pro_ai.QuestionBank.Service.{Environment, no_reasons}
use torq_pro_ai.QuestionBank.Service.Contents.{
  Bank, load_question_content_validated, register_or_compensate, append_version, append_if_changed,
  update_question,
}

pub keep-absent {ℓ} :
    {A : Type ℓ} (p : A → Bool) (xs : List A) (y : A)
    → any p xs ≡ false
    → p y ≡ true
    → keep (λ x. not (p x)) (xs ++ y ∷ []) ≡ xs
unfolding keep
keep-absent p [] y h k = ground arith
keep-absent p (x ∷ xs) y h k = ground (arith, keep-absent p xs y)

module _ ⦃f : Floats⦄ where
  pub is_content_refl :
      (r : QuestionRecord) → is_content (r.question_id) (r.content_version) r ≡ true
  is_content_refl r = ground (arith, beq_refl (r.question_id))

  -- the compensating delete undoes the append
  pub delete_question_content_version-append :
      (contents : List QuestionRecord) (r : QuestionRecord)
      → any (λ q. is_content (r.question_id) (r.content_version) q) contents ≡ false
      → delete_question_content_version true
          (r.question_id)
          (r.content_version)
          (contents ++ r ∷ [])
        ≡ (ok true, contents)
  unfolding delete_question_content_version keep
  delete_question_content_version-append contents r h = ground (
    arith,
    keep-absent (λ q. is_content (r.question_id) (r.content_version) q) contents r h
        (is_content_refl r),
    length-append contents (r ∷ []),
  )

  register_or_compensate-Atomic :
      (env : Environment) (before : ℕ) (actor : String) (new : QuestionRecord) (b : Bank)
      → env.rewrites ≡ true
      → any (λ q. is_content (new.question_id) (new.content_version) q) (b.contents) ≡ false
      → Atomic b (
          register_or_compensate env before actor new
            (record b { contents = b.contents ++ new ∷ [] }))
  unfolding register_or_compensate
  register_or_compensate-Atomic env before actor new b w h =
      ground (arith, delete_question_content_version-append (b.contents) new h)

  append_version-Atomic :
      (env : Environment) (before : ℕ) (actor : String) (merged : QuestionRecord) (b : Bank)
      → env.rewrites ≡ true
      → Atomic b (append_version env before actor merged b)
  unfolding append_version save_question_content
  append_version-Atomic env before actor merged b w =
      let new : QuestionRecord = record merged { content_version = before + 1 } in
      continue-cases (λ p. Atomic b p)
        (no_reasons validation_error (validate_record_structure merged)) _ b (λ e h. refl)
        λ _ h. ground (arith, register_or_compensate-Atomic env before actor new b w)

  append_if_changed-Atomic :
      (env : Environment) (current : QuestionRecord) (actor : String) (merged : QuestionRecord)
      (b : Bank)
      → env.rewrites ≡ true
      → Atomic b (append_if_changed env current actor merged b)
  unfolding append_if_changed
  append_if_changed-Atomic env current actor merged b w =
      ground (arith, append_version-Atomic env (current.content_version) actor merged b w)

  -- Where the file can be replaced a second time, an update that raises leaves the contents and the
  -- tables as they were, whichever step failed.
  pub update_question-atomic :
      (env : Environment) (id : String) (patch : QuestionPatch) (actor : String) (b b' : Bank)
      {e : BankError}
      → env.rewrites ≡ true
      → update_question env id patch actor b ≡ (raised e, b')
      → b' ≡ b
  unfolding update_question
  update_question-atomic env id patch actor b b' w h =
      Atomic-raised b (update_question env id patch actor b)
        (elim (Result-cases (load_question_content_validated (b.contents) id none)) [
          | inl (current, loaded) ↦
              ground
                (arith, append_if_changed-Atomic env current actor (apply_patch patch current) b w)
          | inr (error, refused) ↦ ground arith
        ])
        h
