-- ===== src/Joints/Revisions.antt =====
-- backend/joints/service.py: create_joint_revision with its idempotency key, and the calls that change
-- a revision, as data.
use torq_pro_ai.Prelude.{
  ℕ, String, Bool, Option, none, some, get_or, List, [], ◌∷◌, ◌++◌, map, ◌==◌, if◌then◌else◌,
  string_eq, nat_eq, option_eq, nat_beq, find_first, ltb, ◌&&◌, suc,
}
use torq_pro_ai.Prelude.Texts.{is_empty_str}
use torq_pro_ai.Prelude.Exec.{Result, ok, raised, Exec}
use torq_pro_ai.Joints.Service.{
  JointError, joint_archived, joint_revision_conflict, Joint, Revision, Joints, Snapshots,
  revision_text, greatest, add_audit, get_joint, create_joint, archive_joint, submit_joint_revision,
  approve_joint_revision, reject_joint_revision,
}

abbrev pub has_key : ℕ → String → Revision → Bool
has_key joint_id key r = nat_beq (r.joint_id) joint_id && (r.idempotency_key == some key)

-- `MAX(revision_no)`, of the revisions of a joint
abbrev pub latest_revision_no : ℕ → List Revision → ℕ
latest_revision_no joint_id [] = 0
latest_revision_no joint_id (r ∷ rs) =
    let rest = latest_revision_no joint_id rs in
    if nat_beq (r.joint_id) joint_id
    then (if ltb (r.revision_no) rest then rest else r.revision_no)
    else rest

module _ ⦃j : Snapshots⦄ where
  -- `json.loads(text or "{}")`; the text "{}" is that of the empty object
  abbrev pub stored_snapshot : Option String → j.Snapshot
  stored_snapshot none = j.empty
  stored_snapshot (some text) = if is_empty_str text then j.empty else j.loads text

  abbrev same_revision_request : j.Snapshot → Option String → Option ℕ → Revision → Bool
  same_revision_request snapshot summary created_by r =
      j.snapshot_beq (stored_snapshot (r.snapshot_json)) snapshot
      && (r.change_summary == summary)
      && (r.created_by == created_by)

  -- `_match_existing_idempotent_revision`
  unfoldable pub match_existing_idempotent_revision :
      ℕ
      → String
      → j.Snapshot
      → Option String
      → Option ℕ
      → Joints
      → Result JointError (Option Revision)
  unfolding find_first
  match_existing_idempotent_revision joint_id key snapshot summary created_by s =
      elim (find_first (λ r. has_key joint_id key r) (s.revisions)) [
        | none ↦ ok none
        | some r ↦
            if same_revision_request snapshot summary created_by r
            then ok (some r)
            else raised joint_revision_conflict
      ]

  abbrev pub new_revision :
      String → ℕ → j.Snapshot → Option String → Option ℕ → Option String → List Revision → Revision
  new_revision ts joint_id snapshot summary created_by key rs = record {
    id = suc (greatest (map (λ r. r.id) rs));
    joint_id = joint_id;
    revision_no = suc (latest_revision_no joint_id rs);
    status = "draft";
    snapshot_json = some (j.dumps snapshot);
    change_summary = summary;
    created_by = created_by;
    created_at = ts;
    submitted_at = none;
    reviewed_by = none;
    reviewed_at = none;
    approved_at = none;
    idempotency_key = key;
  }

  -- what follows the lookup of the key
  abbrev pub insert_revision :
      String
      → Joint
      → ℕ
      → j.Snapshot
      → Option String
      → Option ℕ
      → Option String
      → Exec Joints JointError Revision
  insert_revision ts joint joint_id snapshot summary created_by key s =
      if joint.status == "archived"
      then (raised (joint_archived joint_id), s)
      else let r = new_revision ts joint_id snapshot summary created_by key (s.revisions) in
        (
          ok r,
          add_audit created_by "joint_revision_create" (revision_text joint_id (r.revision_no))
              (record s { revisions = s.revisions ++ r ∷ [] }),
        )

  abbrev keyed_revision :
      String
      → Joint
      → ℕ
      → j.Snapshot
      → Option String
      → Option ℕ
      → Option String
      → Exec Joints JointError Revision
  keyed_revision ts joint joint_id snapshot summary created_by none s =
      insert_revision ts joint joint_id snapshot summary created_by none s
  keyed_revision ts joint joint_id snapshot summary created_by (some key) s =
      elim (match_existing_idempotent_revision joint_id key snapshot summary created_by s) [
        | raised e ↦ (raised e, s)
        | ok (some r) ↦ (ok r, s)
        | ok none ↦ insert_revision ts joint joint_id snapshot summary created_by (some key) s
      ]

  unfoldable pub create_joint_revision :
      String
      → ℕ
      → Option (j.Snapshot)
      → Option String
      → Option ℕ
      → Option String
      → Exec Joints JointError Revision
  unfolding get_joint
  create_joint_revision ts joint_id snapshot summary created_by key s =
      elim (get_joint joint_id s) [
        | raised e ↦ (raised e, s)
        | ok joint ↦
            keyed_revision ts joint joint_id (get_or snapshot (j.empty)) summary created_by key s
      ]

  -- The arguments stand in the order of the functions, behind the times that the call is given.
  pub data JointCall : Type 0 where
    create : String → ℕ → String → String → Option String → Option ℕ → JointCall
    archive : String → String → ℕ → Option ℕ → JointCall
    revise : String → ℕ → Option (j.Snapshot) → Option String → Option ℕ → Option String → JointCall
    submit : String → ℕ → Option ℕ → JointCall
    approve : String → ℕ → Option ℕ → JointCall
    reject : String → ℕ → Option ℕ → JointCall

  abbrev pub run_joint_call : JointCall → Joints → Joints
  run_joint_call (create ts project_id code name description created_by) s =
      (create_joint ts project_id code name description created_by s).1
  run_joint_call (archive ts ts' joint_id actor) s = (archive_joint ts ts' joint_id actor s).1
  run_joint_call (revise ts joint_id snapshot summary created_by key) s =
      (create_joint_revision ts joint_id snapshot summary created_by key s).1
  run_joint_call (submit ts id actor) s = (submit_joint_revision ts id actor s).1
  run_joint_call (approve ts id actor) s = (approve_joint_revision ts id actor s).1
  run_joint_call (reject ts id actor) s = (reject_joint_revision ts id actor s).1

  abbrev pub run_joint_calls : List JointCall → Joints → Joints
  run_joint_calls [] s = s
  run_joint_calls (call ∷ calls) s = run_joint_calls calls (run_joint_call call s)
