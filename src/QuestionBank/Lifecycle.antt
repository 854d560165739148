-- ===== src/QuestionBank/Lifecycle.antt =====
-- The status of a version of a question, as the callers of backend/question_bank/service.py see it:
-- what one statement on the tables does to it.
use torq_pro_ai.Prelude.{
  ℕ, String, Bool, true, false, Option, none, some, List, [], ◌∷◌, ◌++◌, ◌==◌, if◌then◌else◌,
  string_eq, find_first, any, ◌≡◌, refl, arith, beq→eq, nat_beq_iff, &&-split, Bool-cases,
  Option-cases, inl, inr, find_first-holds, find_first-append_some, find_first-append_none, sym, ap,
  ◌∙◌,
}
use torq_pro_ai.Prelude.Exec.{ok}
use torq_pro_ai.QuestionBank.Statuses.{
  ValidationStatus, draft, status_value, status_of_value, members, is_valid_transition,
}
use torq_pro_ai.QuestionBank.Validator.{validate_transition_request}
use torq_pro_ai.QuestionBank.Store.{
  Row, Tables, is_row, update_where, register_record, fetch_record, update_record_status,
  with_status, new_row,
}

abbrev pub status_of_found : Option Row → Option String
status_of_found none = none
status_of_found (some row) = some (row.validation_status)

-- the status of a version, where it has a row
abbrev pub status_at : List Row → String → ℕ → Option String
status_at rows id version = status_of_found (find_first (λ row. is_row id version row) rows)

-- The specification: a version is first a draft, and then follows the table of statuses.
pub data Moves : Option String → Option String → Type 0 where
  stays : {o : Option String} → Moves o o
  registers : Moves none (some (status_value draft))
  moves :
      (p n : ValidationStatus)
      → is_valid_transition p n ≡ true
      → Moves (some (status_value p)) (some (status_value n))

pub stays_at : {o o' : Option String} → o' ≡ o → Moves o o'
stays_at {o} h = rw h (stays {o = o})

pub status_of_value-eq_some :
    (s : String) {p : ValidationStatus} → status_of_value s ≡ some p → s ≡ status_value p
unfolding status_of_value
status_of_value-eq_some s {p} h =
    sym (beq→eq (status_value p) s (find_first-holds (λ q. status_value q == s) members p h))

pub validate_transition_request-Moves :
    (p n : String) → validate_transition_request p n ≡ [] → Moves (some p) (some n)
unfolding validate_transition_request
validate_transition_request-Moves p n h = elim (Option-cases (status_of_value p)) [
  | inl e ↦ absurd (ground arith)
  | inr (p', e) ↦ elim (Option-cases (status_of_value n)) [
    | inl e' ↦ absurd (ground arith)
    | inr (n', e') ↦
        rw (status_of_value-eq_some p e, status_of_value-eq_some n e') (moves p' n' (ground arith))
  ]
]

-- `Follows t t'`: every version's status in `t'` follows from the one in `t`.
unfoldable pub Follows : Tables → Tables → Type 0
Follows t t' =
    (id : String) (version : ℕ)
    → Moves (status_at (t.records) id version) (status_at (t'.records) id version)

pub Follows-refl : (t : Tables) → Follows t t
unfolding Follows
Follows-refl t id version = stays

pub Follows-same_records : (t t' : Tables) → t'.records ≡ t.records → Follows t t'
unfolding Follows
Follows-same_records t t' h id version = stays_at (ap (λ rows. status_at rows id version) h)

-- what an `UPDATE` makes of a row that was found
abbrev pub changed : (Row → Bool) → (Row → Row) → Option Row → Option Row
changed q g none = none
changed q g (some row) = some (if q row then g row else row)

status_of_found-changed :
    (q : Row → Bool) (g : Row → Row)
    → ((row : Row) → (g row).validation_status ≡ row.validation_status)
    → (o : Option Row) → status_of_found (changed q g o) ≡ status_of_found o
status_of_found-changed q g h none = refl
status_of_found-changed q g h (some row) = ground (arith, h row)

-- an `UPDATE` that changes no key
pub find_first-update_where :
    (p q : Row → Bool) (g : Row → Row) (rows : List Row)
    → ((row : Row) → p (g row) ≡ p row)
    → find_first p (update_where q g rows) ≡ changed q g (find_first p rows)
unfolding find_first
find_first-update_where p q g [] h = refl
find_first-update_where p q g (row ∷ rows) h =
    ground (arith, h row, find_first-update_where p q g rows h)

pub is_row_unique :
    (id id' : String) (version version' : ℕ) (row : Row)
    → is_row id version row ≡ true
    → is_row id' version' row ≡ true
    → (id' ≡ id) × (version' ≡ version)
is_row_unique id id' version version' row h h' =
    let (a, c) = &&-split (row.question_id == id) _ h in
    let (a', c') = &&-split (row.question_id == id') _ h' in
    (
      sym (beq→eq (row.question_id) id' a') ∙ beq→eq (row.question_id) id a,
      sym ((nat_beq_iff (row.content_version) version').0 c')
          ∙ (nat_beq_iff (row.content_version) version).0 c,
    )

-- an `UPDATE` that changes neither a key nor a status
pub Follows-update_where :
    (q : Row → Bool) (g : Row → Row) (t t' : Tables)
    → ((id : String) (version : ℕ) (row : Row) → is_row id version (g row) ≡ is_row id version row)
    → ((row : Row) → (g row).validation_status ≡ row.validation_status)
    → t'.records ≡ update_where q g (t.records)
    → Follows t t'
unfolding Follows
Follows-update_where q g t t' hk hs e id version = rw e (
    stays_at (
      rw (find_first-update_where (λ row. is_row id version row) q g (t.records) (hk id version))
        (status_of_found-changed q g hs (find_first (λ row. is_row id version row) (t.records)))))

-- `UPDATE ... SET validation_status=?`, where the table of statuses has the change
pub Follows-update_record_status :
    (id : String) (version : ℕ) (new now : String) (by date : Option String) (t : Tables)
    (current : Row)
    → fetch_record id version t ≡ some current
    → validate_transition_request (current.validation_status) new ≡ []
    → Follows t (update_record_status id version new now by date t)
unfolding Follows fetch_record update_record_status
Follows-update_record_status id version new now by date t current h k id' version' =
    let p : Row → Bool = λ row. is_row id' version' row in
    rw
      (find_first-update_where p (λ row. is_row id version row)
        (λ row. with_status new now by date row) (t.records) (λ row. refl))
      (elim (Option-cases (find_first p (t.records))) [
        | inl e ↦ rw e stays
        | inr (row, e) ↦ rw e (elim (Bool-cases (is_row id version row)) [
          | inl same ↦
              let (a, b) =
                is_row_unique id' id version' version row (find_first-holds p (t.records) row e)
                  same in
              let found : row ≡ current = ground (arith, e, h, a, b) in
              rw (same, found) (validate_transition_request-Moves (current.validation_status) new k)
          | inr other ↦ rw other stays
        ])
      ])

pub register_record-records :
    (id : String) (version : ℕ) (status now : String) (t t' : Tables)
    → register_record id version now status t ≡ ok t'
    → (t'.records ≡ t.records ++ new_row id version status now ∷ [])
      × (any (λ row. is_row id version row) (t.records) ≡ false)
unfolding register_record
register_record-records id version status now t t' h =
    elim (Bool-cases (any (λ row. is_row id version row) (t.records))) [
      | inl e ↦ absurd (ground arith)
      | inr e ↦ (ground arith, e)
    ]

status_at-append :
    (rows : List Row) (id id' : String) (version version' : ℕ) (now : String)
    → Moves
        (status_at rows id' version')
        (status_at (rows ++ new_row id version (status_value draft) now ∷ []) id' version')
unfolding find_first
status_at-append rows id id' version version' now =
    let p : Row → Bool = λ row. is_row id' version' row in
    let new : Row = new_row id version (status_value draft) now in
    elim (Option-cases (find_first p rows)) [
      | inl e ↦
          rw (e, find_first-append_none p rows (new ∷ []) e)
            (elim (Bool-cases (p new)) [ inl y ↦ rw y registers | inr n ↦ rw n stays ])
      | inr (row, e) ↦ rw (e, find_first-append_some p rows (new ∷ []) row e) stays
    ]

pub Follows-register_record :
    (id : String) (version : ℕ) (now : String) (t t' : Tables)
    → register_record id version now (status_value draft) t ≡ ok t'
    → Follows t t'
unfolding Follows
Follows-register_record id version now t t' h id' version' =
    rw ((register_record-records id version (status_value draft) now t t' h).0)
      (status_at-append (t.records) id id' version version' now)
