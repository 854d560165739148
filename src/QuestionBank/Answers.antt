-- ===== src/QuestionBank/Answers.antt =====
-- What a content that backend/question_bank/validator.py finds no fault with is like.
use torq_pro_ai.Prelude.{
  ℕ, String, Bool, true, false, not, Option, none, some, List, [], ◌∷◌, ◌++◌, nat_beq, any,
  string_eq, length, ◌<◌, ◌≡◌, ◌⊎◌, inl, inr, refl, arith,
}
use torq_pro_ai.Prelude.Int.{pos, negsuc}
use torq_pro_ai.Prelude.Texts.{is_blank}
use torq_pro_ai.QuestionBank.Content.{
  QuestionType, Floats, Answer, QuestionRecord, single_choice, formula_selection, index, indices,
  truth, value,
}
use torq_pro_ai.QuestionBank.Validator.{
  Reason, options_length_mismatch, blank_option, repeated_option_tr, repeated_option_en, when,
  has_repeats, option_reasons, index_reasons, validate_correct_answer, validate_record_structure,
}

append-eq_nil : {A : Type 0} (xs ys : List A) → xs ++ ys ≡ [] → (xs ≡ []) × (ys ≡ [])
append-eq_nil [] ys h = (refl, h)
append-eq_nil (x ∷ xs) ys h = absurd (cc)

when-eq_nil : (b : Bool) (r : Reason) → when b r ≡ [] → b ≡ false
when-eq_nil true r h = absurd (cc)
when-eq_nil false r h = refl

-- a list of options in each language
pub record Matched (tr en : List String) : Type 0 where
  pub same_length : length en ≡ length tr
  pub no_blank : any (λ o. is_blank o) (tr ++ en) ≡ false
  pub no_repeats_tr : has_repeats tr ≡ false
  pub no_repeats_en : has_repeats en ≡ false

option_reasons-eq_nil :
    (tr : List String) (en : Option (List String))
    → option_reasons (some tr) en ≡ []
    → (options : List String) × (en ≡ some options) × Matched tr options
option_reasons-eq_nil tr none h = absurd (cc)
option_reasons-eq_nil tr (some en) h =
    let lengths = when (not (nat_beq (length tr) (length en))) options_length_mismatch in
    let blanks = when (any (λ o. is_blank o) (tr ++ en)) blank_option in
    let repeats_tr = when (has_repeats tr) repeated_option_tr in
    let repeats_en = when (has_repeats en) repeated_option_en in
    let (rest, d) = append-eq_nil (lengths ++ blanks ++ repeats_tr) repeats_en h in
    let (rest', c) = append-eq_nil (lengths ++ blanks) repeats_tr rest in
    let (a, b) = append-eq_nil lengths blanks rest' in
    (
      en,
      refl,
      record {
        same_length = ground arith;
        no_blank = when-eq_nil (any (λ o. is_blank o) (tr ++ en)) blank_option b;
        no_repeats_tr = when-eq_nil (has_repeats tr) repeated_option_tr c;
        no_repeats_en = when-eq_nil (has_repeats en) repeated_option_en d;
      },
    )

module _ ⦃f : Floats⦄ where
  index_reasons-eq_nil :
      (t : QuestionType) (tr : List String) (a : Answer)
      → index_reasons t (some tr) a ≡ []
      → (i : ℕ) × (a ≡ index (pos i)) × (i < length tr)
  index_reasons-eq_nil t tr (index (pos i)) h = (i, refl, ground arith)
  index_reasons-eq_nil t tr (index (negsuc i)) h = absurd (cc)
  index_reasons-eq_nil t tr (indices is) h = absurd (cc)
  index_reasons-eq_nil t tr (truth b) h = absurd (cc)
  index_reasons-eq_nil t tr (value v) h = absurd (cc)

  answer_reasons-eq_nil :
      (r : QuestionRecord) (tr : List String)
      → (r.question_type ≡ single_choice) ⊎ (r.question_type ≡ formula_selection)
      → validate_correct_answer (r.question_type) (some tr) (r.correct_answer) ≡ []
      → (i : ℕ) × (r.correct_answer ≡ index (pos i)) × (i < length tr)
  answer_reasons-eq_nil r tr (inl e) h =
      index_reasons-eq_nil single_choice tr (r.correct_answer) (ground arith)
  answer_reasons-eq_nil r tr (inr e) h =
      index_reasons-eq_nil formula_selection tr (r.correct_answer) (ground arith)

  -- A question of one choice, or of one formula, that has Turkish options and in which no fault is
  -- found: the answer is the index of an option, there are as many English options, no option is
  -- blank, and none is repeated in its language.
  pub validate_record_structure-choice :
      (r : QuestionRecord) (tr : List String)
      → (r.question_type ≡ single_choice) ⊎ (r.question_type ≡ formula_selection)
      → r.options_tr ≡ some tr
      → validate_record_structure r ≡ []
      → (i : ℕ) × (en : List String) × (r.correct_answer ≡ index (pos i))
        × (i < length tr)
        × (r.options_en ≡ some en)
        × Matched tr en
  unfolding validate_record_structure
  validate_record_structure-choice r tr choice o h =
      let shape : option_reasons (r.options_tr) (r.options_en) ≡ [] = ground arith in
      let answer : validate_correct_answer (r.question_type) (r.options_tr) (r.correct_answer)
          ≡ [] =
        ground arith in
      let (en, e, m) = option_reasons-eq_nil tr (r.options_en) (rw (← o) shape) in
      let (i, a, l) = answer_reasons-eq_nil r tr choice (rw (← o) answer) in (i, en, a, l, e, m)
