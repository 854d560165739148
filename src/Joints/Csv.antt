-- ===== src/Joints/Csv.antt =====
-- backend/governance/joint_revision_csv.py: the export of projections. A document is the list of its
-- code points, the byte-order mark among them; the file has their UTF-8.
use torq_pro_ai.Prelude.{
  ℕ, String, Bool, false, Option, none, some, List, [], ◌∷◌, ◌++◌, map, if◌then◌else◌, nat_beq,
  nat_eq, any, contains, ◌||◌,
}
use torq_pro_ai.Prelude.Texts.{lstrip, append_str, codes, decimal}
use torq_pro_ai.Prelude.Exec.{Result, ok, and_then}
use torq_pro_ai.Governance.Enums.{LifecycleGroup, group_value}
use torq_pro_ai.Joints.Service.{Joints}
use torq_pro_ai.Joints.Projection.{JointRevisionProjection, Reads}
use torq_pro_ai.Joints.Query.{QueryError, query_all_joint_revision_projections}

abbrev pub csv_columns : List String
csv_columns =
    "joint_revision_id" ∷ "source_system" ∷ "source_status" ∷ "lifecycle_group" ∷ "canonical_status"
    ∷ "outcome" ∷ "safe_reason" ∷ []

-- `=`, `+`, `-` and `@`
abbrev pub formula_trigger_chars : List ℕ
formula_trigger_chars = 61 ∷ 43 ∷ 45 ∷ 64 ∷ []

-- `text and text[0] in _FORMULA_TRIGGER_CHARS`
abbrev pub starts_formula : List ℕ → Bool
starts_formula [] = false
starts_formula (c ∷ cs) = contains c formula_trigger_chars

unfoldable pub safe_csv_cell : Option String → String
unfolding lstrip append_str
safe_csv_cell none = ""
safe_csv_cell (some text) =
    if starts_formula (codes (lstrip text)) then append_str "'" text else text

abbrev pub group_text : Option LifecycleGroup → Option String
group_text none = none
group_text (some group) = some (group_value group)

-- the cells of a row behind the id
abbrev pub guarded_cells : JointRevisionProjection → List String
guarded_cells p =
    safe_csv_cell (some (p.source_system))
    ∷ safe_csv_cell (p.source_status)
    ∷ safe_csv_cell (group_text (p.lifecycle_group))
    ∷ safe_csv_cell (p.canonical_status)
    ∷ safe_csv_cell (some (p.outcome))
    ∷ safe_csv_cell (p.safe_reason)
    ∷ []

abbrev pub projection_to_row : JointRevisionProjection → List String
projection_to_row p = decimal (p.joint_revision_id) ∷ guarded_cells p

-- a comma, a quote, or an end of line
abbrev pub is_special : ℕ → Bool
is_special c = nat_beq c 44 || nat_beq c 34 || nat_beq c 13 || nat_beq c 10

-- a cell with its quotes doubled
abbrev pub doubled : List ℕ → List ℕ
doubled [] = []
doubled (c ∷ cs) = let rest = doubled cs in if nat_beq c 34 then 34 ∷ 34 ∷ rest else c ∷ rest

-- `csv.writer` with QUOTE_MINIMAL: a cell in front of `rest`
abbrev pub write_cell : List ℕ → List ℕ → List ℕ
write_cell cell rest =
    if any (λ c. is_special c) cell then 34 ∷ (doubled cell ++ 34 ∷ rest) else cell ++ rest

-- `writer.writerow` with the line terminator "\r\n"
abbrev pub write_row : List (List ℕ) → List ℕ → List ℕ
write_row [] rest = 13 ∷ 10 ∷ rest
write_row (cell ∷ []) rest = write_cell cell (13 ∷ 10 ∷ rest)
write_row (cell ∷ cell' ∷ cells) rest = write_cell cell (44 ∷ write_row (cell' ∷ cells) rest)

abbrev pub write_rows : List (List (List ℕ)) → List ℕ
write_rows [] = []
write_rows (row ∷ rows) = write_row row (write_rows rows)

abbrev pub table_of : List JointRevisionProjection → List (List (List ℕ))
table_of projections =
    map (λ text. codes text) csv_columns
    ∷ map (λ p. map (λ text. codes text) (projection_to_row p)) projections

unfoldable pub build_csv_text : List JointRevisionProjection → List ℕ
unfolding decimal safe_csv_cell
build_csv_text projections = write_rows (table_of projections)

unfoldable pub serialize_joint_revision_projections_csv : List JointRevisionProjection → List ℕ
serialize_joint_revision_projections_csv projections = 65279 ∷ build_csv_text projections

unfoldable pub export_joint_revision_projections_csv :
    (String → String)
    → Reads
    → Joints
    → Option ℕ
    → Option String
    → String
    → String
    → Result QueryError (List ℕ)
export_joint_revision_projections_csv lower io s joint_id search sort_by sort_order =
    and_then (query_all_joint_revision_projections lower io s joint_id search sort_by sort_order)
      λ items. ok (serialize_joint_revision_projections_csv items)
