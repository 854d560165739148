-- ===== src/Examples/Joints.antt =====
-- The theorems on joints, their query and their export at concrete tables.
use mathlib.Core.List.{Perm}
use torq_pro_ai.Prelude.{
  ℕ, String, Bool, true, false, not, none, some, List, [], ◌∷◌, ◌==◌, ◌≡◌, ◌≤◌, refl, arith, any,
  find_first, length, if◌then◌else◌, string_eq,
}
use torq_pro_ai.Prelude.Int.{pos}
use torq_pro_ai.Prelude.Texts.{is_empty_str}
use torq_pro_ai.Prelude.Exec.{ok}
use torq_pro_ai.Prelude.Sorting.{Ordered}
use torq_pro_ai.Joints.Service.{Revision, Joints, Snapshots, get_joint_revision}
use torq_pro_ai.Joints.Revisions.{
  JointCall, create, revise, submit, approve, reject, run_joint_calls,
}
use torq_pro_ai.Joints.Closed.{run_joint_calls-closed}
use torq_pro_ai.Joints.Invariant.{IsSound}
use torq_pro_ai.Joints.Invariant.Calls.{run_joint_calls-IsSound}
use torq_pro_ai.Joints.Projection.{JointRevisionProjection, Reads, project_joint_revisions_bulk}
use torq_pro_ai.Joints.Query.{
  int, JointRevisionQueryResult, normalize_search, searched, sorted_projections,
  query_all_joint_revision_projections, query_joint_revision_projections,
}
use torq_pro_ai.Joints.Csv.{guarded_cells, serialize_joint_revision_projections_csv}
use torq_pro_ai.Joints.Reading.{
  is_formula, IsExport, serialize_joint_revision_projections_csv-IsExport, guarded_cells-no_formula,
}
use torq_pro_ai.Joints.Pages.{first_pages, query_joint_revision_projections-pages}
use torq_pro_ai.Joints.Order.{comes_before, query_all_joint_revision_projections-Ordered}

-- the empty object and one other
abbrev text_of : Bool → String
text_of true = "{\"torque\": 5}"
text_of false = "{}"

abbrev bool_beq : Bool → Bool → Bool
bool_beq a b = if a then b else not b

bool_beq_refl : (b : Bool) → bool_beq b b ≡ true
bool_beq_refl true = refl
bool_beq_refl false = refl

text_of-read : (b : Bool) → (text_of b == "{\"torque\": 5}") ≡ b
text_of-read true = refl
text_of-read false = refl

text_of-filled : (b : Bool) → is_empty_str (text_of b) ≡ false
text_of-filled true = refl
text_of-filled false = refl

instance abbrev two_snapshots : Snapshots
two_snapshots = record {
  Snapshot = Bool;
  snapshot_beq = λ a b. bool_beq a b;
  empty = false;
  dumps = λ b. text_of b;
  loads = λ text. text == "{\"torque\": 5}";
  beq_refl = bool_beq_refl;
  loads_dumps = text_of-read;
  dumps-is_text = text_of-filled;
}

abbrev no_joints : Joints
no_joints = record { projects = 7 ∷ []; joints = []; revisions = []; audits = [] }

abbrev revision : ℕ → String → Revision
revision id status = record {
  id = id;
  joint_id = 1;
  revision_no = id;
  status = status;
  snapshot_json = some "{}";
  change_summary = some "first";
  created_by = some 3;
  created_at = "2026-01-01";
  submitted_at = none;
  reviewed_by = some 4;
  reviewed_at = none;
  approved_at = none;
  idempotency_key = none;
}

abbrev some_joints : Joints
some_joints = record no_joints {
  revisions = revision 1 "approved" ∷ revision 2 "review" ∷ revision 3 "odd" ∷ [];
}

abbrev later : List JointCall
later = reject "2026-01-05" 1 (some 9) ∷ approve "2026-01-06" 2 (some 4) ∷ []

abbrev from_the_start : List JointCall
from_the_start =
    create "2026-01-01" 7 "J-1" "Flange" none (some 3)
    ∷ revise "2026-01-02" 1 none (some "first") (some 3) (some "key")
    ∷ submit "2026-01-03" 1 (some 3)
    ∷ approve "2026-01-04" 1 (some 4)
    ∷ []

abbrev all_reads : Reads
all_reads = record { lists = true; reads = λ id. true }

projection : JointRevisionProjection
projection = record {
  source_system = "joint_revision";
  joint_revision_id = 3;
  source_status = some "=1,\"x\"";
  lifecycle_group = none;
  canonical_status = none;
  outcome = "unsupported_status";
  safe_reason = some "no";
}

run_joint_calls-closed_example :
    get_joint_revision 1 (run_joint_calls later some_joints) ≡ ok (revision 1 "approved")
unfolding get_joint_revision find_first
run_joint_calls-closed_example =
    run_joint_calls-closed 1 (revision 1 "approved") later some_joints refl refl

run_joint_calls-IsSound_example : IsSound (run_joint_calls from_the_start no_joints)
run_joint_calls-IsSound_example =
    run_joint_calls-IsSound from_the_start no_joints (record { reviewed = refl; apart = refl })

serialize_joint_revision_projections_csv-IsExport_example :
    IsExport (projection ∷ []) (serialize_joint_revision_projections_csv (projection ∷ []))
serialize_joint_revision_projections_csv-IsExport_example =
    serialize_joint_revision_projections_csv-IsExport (projection ∷ [])

guarded_cells-no_formula_example : any (λ text. is_formula text) (guarded_cells projection) ≡ false
guarded_cells-no_formula_example = guarded_cells-no_formula projection

-- the items of a query for all, in descending order of their canonical status
sorted_items : List JointRevisionProjection
sorted_items =
    sorted_projections (λ text. text) (project_joint_revisions_bulk all_reads some_joints none)
      "canonical_status" "desc"

query_all_joint_revision_projections-Ordered_example :
    Perm
      (searched
        (λ text. text)
        (normalize_search (λ text. text) none)
        (project_joint_revisions_bulk all_reads some_joints none))
      sorted_items
    × Ordered (λ p q. comes_before (λ text. text) "canonical_status" true p q) sorted_items
unfolding query_all_joint_revision_projections normalize_search sorted_items
query_all_joint_revision_projections-Ordered_example =
    query_all_joint_revision_projections-Ordered (λ text. text) all_reads some_joints none none
      "canonical_status" "desc" sorted_items refl

query_joint_revision_projections-pages_example :
    (result : JointRevisionQueryResult) × (query_joint_revision_projections
        (λ text. text)
        all_reads
        some_joints
        none
        none
        "canonical_status"
        "desc"
        (int (pos 2))
        (int (pos 2))
      ≡ ok result)
    × (length (result.items) ≤ 2)
    × (result.total ≡ length sorted_items)
    × (first_pages
          (λ text. text)
          all_reads
          some_joints
          none
          none
          "canonical_status"
          "desc"
          2
          (result.total_pages)
        ≡ sorted_items)
unfolding query_all_joint_revision_projections normalize_search sorted_items
query_joint_revision_projections-pages_example =
    query_joint_revision_projections-pages (λ text. text) all_reads some_joints none none
      "canonical_status" "desc" 2 sorted_items (omega arith) (omega arith) refl 2 (omega arith)
