-- ===== src/QuestionBank/Restoring.antt =====
-- delete_question and then restore_question, of backend/question_bank/service.py.
use torq_pro_ai.Prelude.{
  String, Bool, true, false, not, none, List, [], ◌∷◌, keep, all, is_empty, map, ◌&&◌, string_eq,
  ◌≡◌, refl, sym, arith, inl, inr, ◌∙◌, ap, Bool-cases,
}
use torq_pro_ai.Prelude.Exec.{ok}
use torq_pro_ai.QuestionBank.Store.{
  Row, Tables, LifecycleAudit, is_of_question, update_where, with_deleted, insert_row, order_rows,
  append_lifecycle_audit, set_records_deleted_flag, fetch_records_by_question_id,
}
use torq_pro_ai.QuestionBank.Service.{Environment}
use torq_pro_ai.QuestionBank.Service.Removal.{
  audit_rows, lifecycle_entry, lifecycle_rows_or_not_found, delete_question, restore_question,
  versions,
}
use torq_pro_ai.QuestionBank.Refinement.{audit_rows-records}

-- a row but for who changed it last, and when
abbrev pub unmodified : Row → Row
unmodified row = record row { modified_at = none; modified_by = none }

keep-update_where :
    (q : Row → Bool) (g : Row → Row) (rows : List Row)
    → ((row : Row) → q (g row) ≡ q row)
    → keep q (update_where q g rows) ≡ map g (keep q rows)
unfolding keep
keep-update_where q g [] h = refl
keep-update_where q g (row ∷ rows) h = ground (arith, h row, keep-update_where q g rows h)

insert_row-map :
    (g : Row → Row) (row : Row) (rows : List Row)
    → ((row : Row) → (g row).content_version ≡ row.content_version)
    → insert_row (g row) (map g rows) ≡ map g (insert_row row rows)
insert_row-map g row [] h = refl
insert_row-map g row (r ∷ rows) h = ground (arith, h row, h r, insert_row-map g row rows h)

all-insert_row :
    (p : Row → Bool) (row : Row) (rows : List Row)
    → all p (insert_row row rows) ≡ p row && all p rows
all-insert_row p row [] = refl
all-insert_row p row (r ∷ rows) = ground (arith, all-insert_row p row rows)

order_rows-map :
    (g : Row → Row) (rows : List Row)
    → ((row : Row) → (g row).content_version ≡ row.content_version)
    → order_rows (map g rows) ≡ map g (order_rows rows)
order_rows-map g [] h = refl
order_rows-map g (row ∷ rows) h =
    ap (λ rs. insert_row (g row) rs) (order_rows-map g rows h)
    ∙ insert_row-map g row (order_rows rows) h

-- the rows of a question, once all of them are marked
fetch_records_by_question_id-marked :
    (id now actor : String) (flag : Bool) (entry : Row → LifecycleAudit) (rows : List Row)
    (t : Tables)
    → fetch_records_by_question_id id
        (audit_rows entry rows (set_records_deleted_flag id flag now actor t))
      ≡ map (λ row. with_deleted flag now actor row) (fetch_records_by_question_id id t)
unfolding fetch_records_by_question_id set_records_deleted_flag
fetch_records_by_question_id-marked id now actor flag entry rows t =
    let g : Row → Row = λ row. with_deleted flag now actor row in
    rw
      (
        audit_rows-records entry rows (set_records_deleted_flag id flag now actor t),
        keep-update_where (λ row. is_of_question id row) g (t.records) (λ row. refl),
      )
      (order_rows-map g (keep (λ row. is_of_question id row) (t.records)) (λ row. refl))

all-order_rows : (p : Row → Bool) (rows : List Row) → all p (order_rows rows) ≡ all p rows
all-order_rows p [] = refl
all-order_rows p (row ∷ rows) =
    all-insert_row p row (order_rows rows) ∙ ap (λ b. p row && b) (all-order_rows p rows)

none_deleted :
    (rows : List Row)
    → is_empty rows ≡ false
    → all (λ row. not (row.is_deleted)) rows ≡ true
    → all (λ row. row.is_deleted) rows ≡ false
none_deleted [] h k = absurd (cc)
none_deleted (row ∷ rows) h k = ground arith

all_deleted :
    (now actor : String) (rows : List Row)
    → is_empty rows ≡ false
    → all (λ row. not (row.is_deleted)) (map (λ row. with_deleted true now actor row) rows) ≡ false
all_deleted now actor [] h = absurd (cc)
all_deleted now actor (row ∷ rows) h = refl

-- a deletion undone, row by row
update_where-undone :
    (q : Row → Bool) (now actor now' actor' : String) (rows : List Row)
    → ((flag : Bool) (now actor : String) (row : Row) → q (with_deleted flag now actor row) ≡ q row)
    → all (λ row. not (row.is_deleted)) (keep q rows) ≡ true
    → map
        (λ row. unmodified row)
        (update_where q
          (λ row. with_deleted false now' actor' row)
          (update_where q (λ row. with_deleted true now actor row) rows))
      ≡ map (λ row. unmodified row) rows
unfolding keep
update_where-undone q now actor now' actor' [] hq h = refl
update_where-undone q now actor now' actor' (row ∷ rows) hq h = elim (Bool-cases (q row)) [
  | inl y ↦
      ground (arith, hq true now actor row, update_where-undone q now actor now' actor' rows hq)
  | inr n ↦ ground (arith, update_where-undone q now actor now' actor' rows hq)
]

module _ (env : Environment) (authorize : String → String → Bool) (id actor role : String)
    (t : Tables) where
  delete_question-ok :
      env.commits ≡ true
      → authorize role "soft_delete" ≡ true
      → is_empty (fetch_records_by_question_id id t) ≡ false
      → all (λ row. row.is_deleted) (fetch_records_by_question_id id t) ≡ false
      → delete_question env authorize id actor role t ≡ (
        ok (versions (fetch_records_by_question_id id t)),
        audit_rows
            (λ row. lifecycle_entry env id "soft_delete" actor role true (row.archived_at) row)
            (fetch_records_by_question_id id t)
            (set_records_deleted_flag id true (env.now) actor t),
      )
  unfolding delete_question lifecycle_rows_or_not_found
  delete_question-ok h k e d = ground arith

  restore_question-ok :
      env.commits ≡ true
      → authorize role "restore" ≡ true
      → is_empty (fetch_records_by_question_id id t) ≡ false
      → all (λ row. not (row.is_deleted)) (fetch_records_by_question_id id t) ≡ false
      → restore_question env authorize id actor role t ≡ (
        ok (versions (fetch_records_by_question_id id t)),
        audit_rows
            (λ row. lifecycle_entry env id "restore" actor role false (row.archived_at) row)
            (fetch_records_by_question_id id t)
            (set_records_deleted_flag id false (env.now) actor t),
      )
  unfolding restore_question lifecycle_rows_or_not_found
  restore_question-ok h k e d = ground arith

all-fetch_records :
    (p : Row → Bool) (id : String) (t : Tables)
    → all p (fetch_records_by_question_id id t)
      ≡ all p (keep (λ row. is_of_question id row) (t.records))
unfolding fetch_records_by_question_id
all-fetch_records p id t = all-order_rows p (keep (λ row. is_of_question id row) (t.records))

is_empty-marked :
    (g : Row → Row) (rows : List Row) → is_empty rows ≡ false → is_empty (map g rows) ≡ false
is_empty-marked g [] h = absurd (cc)
is_empty-marked g (row ∷ rows) h = refl

versions-marked :
    (now actor : String) (rows : List Row)
    → versions (map (λ row. with_deleted true now actor row) rows) ≡ versions rows
versions-marked now actor [] = refl
versions-marked now actor (row ∷ rows) =
    ap (λ vs. row.content_version ∷ vs) (versions-marked now actor rows)

audit_rows-history :
    (entry : Row → LifecycleAudit) (rows : List Row) (t : Tables)
    → (audit_rows entry rows t).history ≡ t.history
unfolding append_lifecycle_audit
audit_rows-history entry [] t = refl
audit_rows-history entry (row ∷ rows) t =
    audit_rows-history entry rows (append_lifecycle_audit (entry row) t)

-- A question none of whose versions is deleted, deleted and then restored where both are authorized
-- and both transactions commit: both calls return its versions, and in the end every row is as it
-- was but for who changed it last and when, and the history of statuses is as it was.
pub delete_question-restore_question :
    (env env' : Environment) (authorize : String → String → Bool)
    (id actor role actor' role' : String) (t : Tables)
    → env.commits ≡ true
    → env'.commits ≡ true
    → authorize role "soft_delete" ≡ true
    → authorize role' "restore" ≡ true
    → is_empty (fetch_records_by_question_id id t) ≡ false
    → all (λ row. not (row.is_deleted)) (fetch_records_by_question_id id t) ≡ true
    → let rows = fetch_records_by_question_id id t in
      let (deleted, t1) = delete_question env authorize id actor role t in
      let (restored, t2) = restore_question env' authorize id actor' role' t1 in
      (deleted ≡ ok (versions rows))
      × (restored ≡ ok (versions rows))
      × (map (λ row. unmodified row) (t2.records) ≡ map (λ row. unmodified row) (t.records))
      × (t2.history ≡ t.history)
unfolding set_records_deleted_flag
delete_question-restore_question env env' authorize id actor role actor' role' t c c' a a' e n =
    let rows = fetch_records_by_question_id id t in
    let entry : Row → LifecycleAudit =
      λ row. lifecycle_entry env id "soft_delete" actor role true (row.archived_at) row in
    let t0 = set_records_deleted_flag id true (env.now) actor t in
    let t1 = audit_rows entry rows t0 in
    let after = map (λ row. with_deleted true (env.now) actor row) rows in
    let marked = fetch_records_by_question_id-marked id (env.now) actor true entry rows t in
    let entry' : Row → LifecycleAudit =
      λ row. lifecycle_entry env' id "restore" actor' role' false (row.archived_at) row in
    let t2 = set_records_deleted_flag id false (env'.now) actor' t1 in
    rw
      (
        delete_question-ok env authorize id actor role t c a e (none_deleted rows e n),
        restore_question-ok env' authorize id actor' role' t1 c' a'
            (rw marked (is_empty-marked (λ row. with_deleted true (env.now) actor row) rows e))
            (rw marked (all_deleted (env.now) actor rows e)),
        marked,
      )
      (
        refl,
        ap (λ vs. ok vs) (versions-marked (env.now) actor rows),
        rw (audit_rows-records entry' after t2, audit_rows-records entry rows t0)
            (update_where-undone (λ row. is_of_question id row) (env.now) actor (env'.now) actor'
              (t.records) (λ flag now actor row. refl)
              (sym (all-fetch_records (λ row. not (row.is_deleted)) id t) ∙ n)),
        audit_rows-history entry' after t2 ∙ audit_rows-history entry rows t0,
      )
