-- ===== src/Joints/Service.antt =====
-- backend/joints/service.py, schema.py and exceptions.py: joints, and their revisions from draft to
-- approval. The calls come one after the other and the database answers.
use torq_pro_ai.Prelude.{
  ℕ, String, Bool, true, false, not, Option, none, some, List, [], ◌∷◌, ◌++◌, map, ◌==◌,
  if◌then◌else◌, string_eq, nat_eq, option_eq, nat_beq, ltb, keep, find_first, any, contains, ◌&&◌,
  suc, ◌≡◌,
}
use torq_pro_ai.Prelude.Texts.{is_empty_str}
use torq_pro_ai.Prelude.Exec.{Result, ok, raised, Exec, and_then}

pub data JointError : Type 0 where
  joint_not_found : ℕ → JointError
  joint_code_conflict : String → JointError
  joint_archived : ℕ → JointError
  joint_revision_not_found : ℕ → JointError
  joint_revision_conflict : JointError
  joint_revision_state : JointError

-- a row of `joints`
pub record Joint : Type 0 where
  pub id : ℕ
  pub project_id : ℕ
  pub joint_code : String
  pub name : String
  pub description : Option String
  pub status : String
  pub current_revision_id : Option ℕ
  pub created_by : Option ℕ
  pub created_at : String
  pub updated_at : Option String
  pub archived_at : Option String

-- a row of `joint_revisions`
pub record Revision : Type 0 where
  pub id : ℕ
  pub joint_id : ℕ
  pub revision_no : ℕ
  pub status : String
  pub snapshot_json : Option String
  pub change_summary : Option String
  pub created_by : Option ℕ
  pub created_at : String
  pub submitted_at : Option String
  pub reviewed_by : Option ℕ
  pub reviewed_at : Option String
  pub approved_at : Option String
  pub idempotency_key : Option String

-- The text of an audit entry, with the numbers that it shows.
pub data Detail : Type 0 where
  code_text : String → Detail
  id_text : ℕ → Detail
  revision_text : ℕ → ℕ → Detail

-- a row of `audit_log`, without its time
pub record AuditEntry : Type 0 where
  pub user_id : Option ℕ
  pub action : String
  pub detail : Detail

-- The tables; of `projects`, the ids.
pub record Joints : Type 0 where
  pub projects : List ℕ
  pub joints : List Joint
  pub revisions : List Revision
  pub audits : List AuditEntry

-- What the service uses of the module json, on the objects that a request can hold.
pub record Snapshots : Type 1 where
  pub Snapshot : Type 0
  pub snapshot_beq : Snapshot → Snapshot → Bool
  pub empty : Snapshot
  pub dumps : Snapshot → String
  pub loads : String → Snapshot
  pub beq_refl : (s : Snapshot) → snapshot_beq s s ≡ true
  pub loads_dumps : (s : Snapshot) → loads (dumps s) ≡ s
  pub dumps-is_text : (s : Snapshot) → is_empty_str (dumps s) ≡ false

abbrev pub joint_revision_statuses : List String
joint_revision_statuses = "draft" ∷ "review" ∷ "approved" ∷ "rejected" ∷ []

-- the greatest number in a column, 0 where there is none
abbrev pub greatest : List ℕ → ℕ
greatest [] = 0
greatest (n ∷ ns) = let rest = greatest ns in if ltb n rest then rest else n

abbrev pub add_audit : Option ℕ → String → Detail → Joints → Joints
add_audit user action detail s = record s {
  audits = s.audits ++ record { user_id = user; action = action; detail = detail } ∷ [];
}

unfoldable pub get_joint : ℕ → Joints → Result JointError Joint
unfolding find_first
get_joint joint_id s = elim (find_first (λ j. nat_beq (j.id) joint_id) (s.joints)) [
  | some j ↦ ok j
  | none ↦ raised (joint_not_found joint_id)
]

unfoldable pub get_joint_revision : ℕ → Joints → Result JointError Revision
unfolding find_first
get_joint_revision revision_id s =
    elim (find_first (λ r. nat_beq (r.id) revision_id) (s.revisions)) [
      | some r ↦ ok r
      | none ↦ raised (joint_revision_not_found revision_id)
    ]

-- The ids ascend in a table, as rows are only ever added.
unfoldable pub list_joints : Option ℕ → Joints → List Joint
unfolding keep
list_joints none s = s.joints
list_joints (some project_id) s = keep (λ j. nat_beq (j.project_id) project_id) (s.joints)

unfoldable pub list_joint_revisions : Option ℕ → Joints → List Revision
unfolding keep
list_joint_revisions none s = s.revisions
list_joint_revisions (some joint_id) s = keep (λ r. nat_beq (r.joint_id) joint_id) (s.revisions)

abbrev pub new_joint : ℕ → String → String → Option String → Option ℕ → String → ℕ → Joint
new_joint project_id code name description created_by ts id = record {
  id = id;
  project_id = project_id;
  joint_code = code;
  name = name;
  description = description;
  status = "draft";
  current_revision_id = none;
  created_by = created_by;
  created_at = ts;
  updated_at = some ts;
  archived_at = none;
}

unfoldable pub create_joint :
    String → ℕ → String → String → Option String → Option ℕ → Exec Joints JointError Joint
create_joint ts project_id code name description created_by s =
    if not (contains project_id (s.projects))
    then (raised (joint_not_found project_id), s)
    else if any (λ j. nat_beq (j.project_id) project_id && (j.joint_code == code)) (s.joints)
    then (raised (joint_code_conflict code), s)
    else let j =
        new_joint project_id code name description created_by ts
          (suc (greatest (map (λ j. j.id) (s.joints)))) in
      (
        ok j,
        add_audit created_by "joint_create" (code_text code)
            (record s { joints = s.joints ++ j ∷ [] }),
      )

-- `UPDATE joints SET ... WHERE id=?`
abbrev pub update_joints : ℕ → (Joint → Joint) → List Joint → List Joint
update_joints id change [] = []
update_joints id change (j ∷ js) =
    (if nat_beq (j.id) id then change j else j) ∷ update_joints id change js

abbrev pub update_revisions : ℕ → (Revision → Revision) → List Revision → List Revision
update_revisions id change [] = []
update_revisions id change (r ∷ rs) =
    (if nat_beq (r.id) id then change r else r) ∷ update_revisions id change rs

abbrev pub archived : String → String → Joint → Joint
archived ts ts' j = record j { status = "archived"; archived_at = some ts; updated_at = some ts' }

-- The update asks for the time twice.
unfoldable pub archive_joint : String → String → ℕ → Option ℕ → Exec Joints JointError Joint
unfolding get_joint
archive_joint ts ts' joint_id actor s = elim (get_joint joint_id s) [
  | raised e ↦ (raised e, s)
  | ok j ↦ if j.status == "archived" then (ok j, s) else (
    ok (archived ts ts' j),
    add_audit actor "joint_archive" (id_text joint_id)
        (record s { joints = update_joints joint_id (λ j. archived ts ts' j) (s.joints) }),
  )
]

-- the three updates of a revision
abbrev pub submitted : String → Revision → Revision
submitted ts r = record r { status = "review"; submitted_at = some ts }

abbrev pub approved : String → Option ℕ → Revision → Revision
approved ts actor r = record r {
  status = "approved";
  reviewed_by = actor;
  reviewed_at = some ts;
  approved_at = some ts;
}

abbrev pub rejected : String → Option ℕ → Revision → Revision
rejected ts actor r = record r { status = "rejected"; reviewed_by = actor; reviewed_at = some ts }

-- the update of the joint by an approval
abbrev pub activated : String → ℕ → Joint → Joint
activated ts revision_id j = record j {
  current_revision_id = some revision_id;
  status = "active";
  updated_at = some ts;
}

abbrev pub set_revision : ℕ → (Revision → Revision) → Joints → Joints
set_revision id change s = record s { revisions = update_revisions id change (s.revisions) }

unfoldable pub submit_joint_revision : String → ℕ → Option ℕ → Exec Joints JointError Revision
unfolding get_joint_revision
submit_joint_revision ts id actor s = elim (get_joint_revision id s) [
  | raised e ↦ (raised e, s)
  | ok r ↦ if not (r.status == "draft") then (raised joint_revision_state, s) else (
    ok (submitted ts r),
    add_audit actor "joint_revision_submit" (id_text id) (set_revision id (λ r. submitted ts r) s),
  )
]

unfoldable pub approve_joint_revision : String → ℕ → Option ℕ → Exec Joints JointError Revision
unfolding get_joint_revision
approve_joint_revision ts id actor s = elim (get_joint_revision id s) [
  | raised e ↦ (raised e, s)
  | ok r ↦
      if not (r.status == "review")
      then (raised joint_revision_state, s)
      else if r.created_by == actor
      then (raised joint_revision_state, s)
      else (
        ok (approved ts actor r),
        add_audit actor "joint_revision_approve" (id_text id)
            (record (set_revision id (λ r. approved ts actor r) s) {
              joints = update_joints (r.joint_id) (λ j. activated ts id j) (s.joints);
            }),
      )
]

unfoldable pub reject_joint_revision : String → ℕ → Option ℕ → Exec Joints JointError Revision
unfolding get_joint_revision
reject_joint_revision ts id actor s = elim (get_joint_revision id s) [
  | raised e ↦ (raised e, s)
  | ok r ↦
      if not (r.status == "review")
      then (raised joint_revision_state, s)
      else if r.created_by == actor
      then (raised joint_revision_state, s)
      else (
        ok (rejected ts actor r),
        add_audit actor "joint_revision_reject" (id_text id)
            (set_revision id (λ r. rejected ts actor r) s),
      )
]

unfoldable pub assert_revision_belongs_to_joint : ℕ → ℕ → Joints → Result JointError Unit
assert_revision_belongs_to_joint id joint_id s =
    and_then (get_joint_revision id s)
      λ r. if nat_beq (r.joint_id) joint_id then ok tt else raised joint_revision_conflict
