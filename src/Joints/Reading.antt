-- ===== src/Joints/Reading.antt =====
-- What the documents of backend/governance/joint_revision_csv.py say of the projections, to a reader
-- that finds a cell by the name of its column.
use torq_pro_ai.Prelude.{
  ℕ, String, Bool, true, false, not, Option, none, some, List, [], ◌∷◌, map, if◌then◌else◌, nat_beq,
  any, all, is_empty, length, string_eq, ◌==◌, ◌||◌, ◌≡◌, refl, arith, Bool-cases, inl, inr,
}
use mathlib.Core.Option.{map as option_map}
use torq_pro_ai.Prelude.Texts.{lstrip, append_str, codes, is_space}
use torq_pro_ai.Prelude.Texts.Decimals.{int_of, decimal-int_of}
use torq_pro_ai.Governance.Enums.{LifecycleGroup, group_value}
use torq_pro_ai.Joints.Projection.{JointRevisionProjection}
use torq_pro_ai.Joints.Csv.{
  starts_formula, safe_csv_cell, guarded_cells, projection_to_row, group_text, table_of,
  build_csv_text, serialize_joint_revision_projections_csv,
}
use torq_pro_ai.Joints.Reader.{Table, row_start, read_csv, read_csv-write_rows}

-- a cell that a spreadsheet takes for a formula: behind white space, one of `=`, `+`, `-` and `@`
abbrev begins_formula : List ℕ → Bool
begins_formula [] = false
begins_formula (c ∷ cs) = nat_beq c 61 || nat_beq c 43 || nat_beq c 45 || nat_beq c 64

abbrev pub is_formula : String → Bool
is_formula text = begins_formula (codes (lstrip text))

-- the columns that a reader of the export expects
abbrev pub column_names : List String
column_names =
    "joint_revision_id" ∷ "source_system" ∷ "source_status" ∷ "lifecycle_group" ∷ "canonical_status"
    ∷ "outcome" ∷ "safe_reason" ∷ []

abbrev cell_under : List String → String → List (List ℕ) → Option (List ℕ)
cell_under [] name row = none
cell_under (n ∷ ns) name [] = none
cell_under (n ∷ ns) name (cell ∷ row) = if n == name then some cell else cell_under ns name row

abbrev column : String → List (List ℕ) → Option (List ℕ)
column name row = cell_under column_names name row

-- the cell of a value: empty, the text, or a text that would be a formula behind an apostrophe
pub data Shows : Option String → Option (List ℕ) → Type 0 where
  absent : Shows none (some [])
  as_it_is : (text : String) → is_formula text ≡ false → Shows (some text) (some (codes text))
  guarded : (text : String) → is_formula text ≡ true → Shows (some text) (some (39 ∷ codes text))

pub data ShowsInt (n : ℕ) : Option (List ℕ) → Type 0 where
  digits : (cell : List ℕ) → int_of 0 cell ≡ some n → ShowsInt n (some cell)

-- The row of a projection, found by the names of its columns.
pub record IsRowOf (p : JointRevisionProjection) (row : List (List ℕ)) : Type 0 where
  pub width : length row ≡ length column_names
  pub id : ShowsInt (p.joint_revision_id) (column "joint_revision_id" row)
  pub system : Shows (some (p.source_system)) (column "source_system" row)
  pub status : Shows (p.source_status) (column "source_status" row)
  pub group : Shows (option_map group_value (p.lifecycle_group)) (column "lifecycle_group" row)
  pub canonical : Shows (p.canonical_status) (column "canonical_status" row)
  pub outcome : Shows (some (p.outcome)) (column "outcome" row)
  pub reason : Shows (p.safe_reason) (column "safe_reason" row)

pub data AreRowsOf : List JointRevisionProjection → Table → Type 0 where
  no_rows : AreRowsOf [] []
  one_more :
      {p : JointRevisionProjection} {ps : List JointRevisionProjection} {row : List (List ℕ)}
      {rows : Table}
      → IsRowOf p row
      → AreRowsOf ps rows
      → AreRowsOf (p ∷ ps) (row ∷ rows)

-- A byte-order mark, and behind it a document with the names of the columns and a row for each
-- projection, in order.
pub record IsExport (ps : List JointRevisionProjection) (document : List ℕ) : Type 0 where
  pub text : List ℕ
  pub marked : document ≡ 65279 ∷ text
  pub rows : Table
  pub read : read_csv row_start text ≡ some (map (λ name. codes name) column_names ∷ rows)
  pub shown : AreRowsOf ps rows

begins_formula_lem : (cs : List ℕ) → starts_formula cs ≡ begins_formula cs
begins_formula_lem [] = refl
begins_formula_lem (c ∷ cs) = ground arith

safe_csv_cell-Shows : (value : Option String) → Shows value (some (codes (safe_csv_cell value)))
unfolding safe_csv_cell append_str
safe_csv_cell-Shows none = absent
safe_csv_cell-Shows (some text) = elim (Bool-cases (is_formula text)) [
  | inl y ↦ rw (begins_formula_lem (codes (lstrip text)), y) (guarded text y)
  | inr n ↦ rw (begins_formula_lem (codes (lstrip text)), n) (as_it_is text n)
]

group_text_lem : (g : Option LifecycleGroup) → group_text g ≡ option_map group_value g
group_text_lem none = refl
group_text_lem (some g) = refl

abbrev row_of : JointRevisionProjection → List (List ℕ)
row_of p = map (λ text. codes text) (projection_to_row p)

projection_to_row-IsRowOf : (p : JointRevisionProjection) → IsRowOf p (row_of p)
projection_to_row-IsRowOf p = record {
  width = refl;
  id = digits _ (decimal-int_of (p.joint_revision_id));
  system = safe_csv_cell-Shows (some (p.source_system));
  status = safe_csv_cell-Shows (p.source_status);
  group =
      rw (← group_text_lem (p.lifecycle_group))
        (safe_csv_cell-Shows (group_text (p.lifecycle_group)));
  canonical = safe_csv_cell-Shows (p.canonical_status);
  outcome = safe_csv_cell-Shows (some (p.outcome));
  reason = safe_csv_cell-Shows (p.safe_reason);
}

projections-AreRowsOf : (ps : List JointRevisionProjection) → AreRowsOf ps (map (λ p. row_of p) ps)
projections-AreRowsOf [] = no_rows
projections-AreRowsOf (p ∷ ps) = one_more (projection_to_row-IsRowOf p) (projections-AreRowsOf ps)

rows_filled :
    (ps : List JointRevisionProjection)
    → all (λ row. not (is_empty row)) (map (λ p. row_of p) ps) ≡ true
rows_filled [] = refl
rows_filled (p ∷ ps) = rows_filled ps

-- Whatever is in the projections, the exported document is a byte-order mark and a text that a strict
-- reader of comma-separated values reads as the seven names of the columns and, in order, a row for
-- each projection: under its name each field is an empty cell where it is None, else its text, behind
-- an apostrophe where it would be a formula, and the digits of the id give the id.
pub serialize_joint_revision_projections_csv-IsExport :
    (ps : List JointRevisionProjection) → IsExport ps (serialize_joint_revision_projections_csv ps)
unfolding serialize_joint_revision_projections_csv build_csv_text
serialize_joint_revision_projections_csv-IsExport ps = record {
  text = build_csv_text ps;
  marked = refl;
  rows = map (λ p. row_of p) ps;
  read = read_csv-write_rows (table_of ps) (rows_filled ps);
  shown = projections-AreRowsOf ps;
}

safe_csv_cell-no_formula : (value : Option String) → is_formula (safe_csv_cell value) ≡ false
unfolding safe_csv_cell lstrip append_str is_space
safe_csv_cell-no_formula none = refl
safe_csv_cell-no_formula (some text) = elim (Bool-cases (is_formula text)) [
  | inl y ↦ rw (begins_formula_lem (codes (lstrip text)), y) refl
  | inr n ↦ rw (begins_formula_lem (codes (lstrip text)), n, n) refl
]

-- No cell of a row but its id is taken for a formula: none starts with a trigger behind white space.
pub guarded_cells-no_formula :
    (p : JointRevisionProjection) → any (λ text. is_formula text) (guarded_cells p) ≡ false
guarded_cells-no_formula p =
    rw
      (
        safe_csv_cell-no_formula (some (p.source_system)),
        safe_csv_cell-no_formula (p.source_status),
        safe_csv_cell-no_formula (group_text (p.lifecycle_group)),
        safe_csv_cell-no_formula (p.canonical_status),
        safe_csv_cell-no_formula (some (p.outcome)),
        safe_csv_cell-no_formula (p.safe_reason),
      )
      refl
