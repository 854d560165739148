-- ===== src/Joints/Closed.antt =====
-- Approved and rejected revisions of backend/joints/service.py.
use torq_pro_ai.Prelude.{
  ℕ, String, Bool, true, false, Option, some, get_or, ◌↔◌, List, [], ◌∷◌, ◌==◌, ◌||◌, string_eq,
  nat_eq, option_eq, nat_beq, nat_beq_iff, find_first, find_first-append_some, ◌≡◌, refl, sym, ap,
  ◌∙◌, arith, Bool-cases, inl, inr, beq→eq,
}
use torq_pro_ai.Prelude.Exec.{ok}
use torq_pro_ai.Joints.Service.{
  Revision, Joints, Snapshots, update_revisions, get_joint_revision, create_joint, archive_joint,
  submit_joint_revision, approve_joint_revision, reject_joint_revision, submitted, approved,
  rejected,
}
use torq_pro_ai.Joints.Revisions.{
  create_joint_revision, JointCall, create, archive, revise, submit, approve, reject,
  run_joint_call, run_joint_calls, new_revision,
}

abbrev pub closed_status : String → Bool
closed_status status = (status == "approved") || (status == "rejected")

abbrev pub is_closed : Revision → Bool
is_closed r = closed_status (r.status)

abbrev pub with_id : ℕ → List Revision → Option Revision
with_id id rs = find_first (λ r. nat_beq (r.id) id) rs

-- An update of another row, or of none.
pub with_id-update_revisions :
    (id id' : ℕ) (change : Revision → Revision) (rs : List Revision)
    → nat_beq id' id ≡ false
    → ((r : Revision) → (change r).id ≡ r.id)
    → with_id id (update_revisions id' change rs) ≡ with_id id rs
unfolding find_first
with_id-update_revisions id id' change [] h k = refl
with_id-update_revisions id id' change (r ∷ rs) h k =
    ground (arith, k r, with_id-update_revisions id id' change rs h k)

closed-not_draft : (r : Revision) → is_closed r ≡ true → (r.status == "draft") ≡ false
closed-not_draft r h = elim (Bool-cases (r.status == "draft")) [
  | inl y ↦
      let impossible : closed_status "draft" ≡ true =
        sym (ap (λ t. closed_status t) (beq→eq (r.status) "draft" y)) ∙ h in
      absurd (cc)
  | inr n ↦ n
]

closed-not_review : (r : Revision) → is_closed r ≡ true → (r.status == "review") ≡ false
closed-not_review r h = elim (Bool-cases (r.status == "review")) [
  | inl y ↦
      let impossible : closed_status "review" ≡ true =
        sym (ap (λ t. closed_status t) (beq→eq (r.status) "review" y)) ∙ h in
      absurd (cc)
  | inr n ↦ n
]

module _ (s : Joints) (id : ℕ) (r : Revision) (found : with_id id (s.revisions) ≡ some r)
    (closed : is_closed r ≡ true) where
  submit-keeps :
      (ts : String) (id' : ℕ) (actor : Option ℕ)
      → with_id id ((submit_joint_revision ts id' actor s).1.revisions) ≡ some r
  unfolding submit_joint_revision get_joint_revision
  submit-keeps ts id' actor = elim (Bool-cases (nat_beq id' id)) [
    | inl same ↦ ground (arith, found, (nat_beq_iff id' id).0 same, closed-not_draft r closed)
    | inr other ↦ ground (
      arith,
      found,
      with_id-update_revisions id id' (λ r. submitted ts r) (s.revisions) other (λ r. refl),
    )
  ]

  approve-keeps :
      (ts : String) (id' : ℕ) (actor : Option ℕ)
      → with_id id ((approve_joint_revision ts id' actor s).1.revisions) ≡ some r
  unfolding approve_joint_revision get_joint_revision
  approve-keeps ts id' actor = elim (Bool-cases (nat_beq id' id)) [
    | inl same ↦ ground (arith, found, (nat_beq_iff id' id).0 same, closed-not_review r closed)
    | inr other ↦ ground (
      arith,
      found,
      with_id-update_revisions id id' (λ r. approved ts actor r) (s.revisions) other (λ r. refl),
    )
  ]

  reject-keeps :
      (ts : String) (id' : ℕ) (actor : Option ℕ)
      → with_id id ((reject_joint_revision ts id' actor s).1.revisions) ≡ some r
  unfolding reject_joint_revision get_joint_revision
  reject-keeps ts id' actor = elim (Bool-cases (nat_beq id' id)) [
    | inl same ↦ ground (arith, found, (nat_beq_iff id' id).0 same, closed-not_review r closed)
    | inr other ↦ ground (
      arith,
      found,
      with_id-update_revisions id id' (λ r. rejected ts actor r) (s.revisions) other (λ r. refl),
    )
  ]

  create-keeps :
      (ts : String) (project_id : ℕ) (code name : String) (description : Option String)
      (by : Option ℕ)
      → with_id id ((create_joint ts project_id code name description by s).1.revisions) ≡ some r
  unfolding create_joint
  create-keeps ts project_id code name description by = ground (arith, found)

  archive-keeps :
      (ts ts' : String) (joint_id : ℕ) (actor : Option ℕ)
      → with_id id ((archive_joint ts ts' joint_id actor s).1.revisions) ≡ some r
  unfolding archive_joint
  archive-keeps ts ts' joint_id actor = ground (arith, found)

  revise-keeps :
      ⦃j : Snapshots⦄ (ts : String) (joint_id : ℕ) (snapshot : Option (j.Snapshot))
      (summary : Option String) (by : Option ℕ) (key : Option String)
      → with_id id ((create_joint_revision ts joint_id snapshot summary by key s).1.revisions)
        ≡ some r
  unfolding create_joint_revision
  revise-keeps ⦃j⦄ ts joint_id snapshot summary by key = ground (
    arith,
    found,
    find_first-append_some (λ r. nat_beq (r.id) id) (s.revisions)
        (new_revision ts joint_id (get_or snapshot (j.empty)) summary by key (s.revisions) ∷ []) r
        found,
  )

module _ ⦃j : Snapshots⦄ (id : ℕ) (r : Revision) (closed : is_closed r ≡ true) where
  run_joint_call-keeps :
      (call : JointCall) (s : Joints)
      → with_id id (s.revisions) ≡ some r
      → with_id id ((run_joint_call call s).revisions) ≡ some r
  run_joint_call-keeps (create ts project_id code name description by) s h =
      create-keeps s id r h closed ts project_id code name description by
  run_joint_call-keeps (archive ts ts' joint_id actor) s h =
      archive-keeps s id r h closed ts ts' joint_id actor
  run_joint_call-keeps (revise ts joint_id snapshot summary by key) s h =
      revise-keeps s id r h closed ts joint_id snapshot summary by key
  run_joint_call-keeps (submit ts id' actor) s h = submit-keeps s id r h closed ts id' actor
  run_joint_call-keeps (approve ts id' actor) s h = approve-keeps s id r h closed ts id' actor
  run_joint_call-keeps (reject ts id' actor) s h = reject-keeps s id r h closed ts id' actor

  run_joint_calls-keeps :
      (calls : List JointCall) (s : Joints)
      → with_id id (s.revisions) ≡ some r
      → with_id id ((run_joint_calls calls s).revisions) ≡ some r
  run_joint_calls-keeps [] s h = h
  run_joint_calls-keeps (call ∷ calls) s h =
      run_joint_calls-keeps calls (run_joint_call call s) (run_joint_call-keeps call s h)

get_joint_revision_iff :
    (id : ℕ) (s : Joints) (r : Revision)
    → (get_joint_revision id s ≡ ok r) ↔ (with_id id (s.revisions) ≡ some r)
unfolding get_joint_revision
get_joint_revision_iff id s r = ground arith

-- An approved or rejected revision is found, exactly as it was, after any calls.
pub run_joint_calls-closed :
    ⦃j : Snapshots⦄ (id : ℕ) (r : Revision) (calls : List JointCall) (s : Joints)
    → is_closed r ≡ true
    → get_joint_revision id s ≡ ok r
    → get_joint_revision id (run_joint_calls calls s) ≡ ok r
run_joint_calls-closed id r calls s closed h =
    (get_joint_revision_iff id (run_joint_calls calls s) r).1
      (run_joint_calls-keeps id r closed calls s ((get_joint_revision_iff id s r).0 h))
