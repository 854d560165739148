-- ===== src/Joints/Invariant/Calls.antt =====
-- The calls of backend/joints/service.py keep the table of revisions sound.
use torq_pro_ai.Prelude.{
  ℕ, String, Bool, true, false, not, Option, none, some, get_or, List, [], ◌∷◌, ◌++◌, ◌==◌, ◌||◌,
  ◌&&◌, string_eq, nat_eq, option_eq, nat_beq, all, any, find_first, ◌≡◌, refl, arith, Bool-cases,
  Option-cases, inl, inr,
}
use torq_pro_ai.Prelude.Exec.{Result-cases}
use torq_pro_ai.Joints.Service.{
  Revision, Joints, Snapshots, update_revisions, get_joint, get_joint_revision, create_joint,
  archive_joint, submit_joint_revision, approve_joint_revision, reject_joint_revision, submitted,
  approved, rejected,
}
use torq_pro_ai.Joints.Revisions.{
  create_joint_revision, JointCall, create, archive, revise, submit, approve, reject,
  run_joint_call, run_joint_calls, match_existing_idempotent_revision, new_revision, has_key,
}
use torq_pro_ai.Joints.Closed.{with_id}
use torq_pro_ai.Joints.Invariant.{
  is_reviewed, same_key, clash, IsSound, is_apart-update_revisions, all-update_revisions,
  any-clash_new, is_apart-append,
}

all-append_one :
    (p : Revision → Bool) (rs : List Revision) (r : Revision)
    → all p rs ≡ true
    → p r ≡ true
    → all p (rs ++ r ∷ []) ≡ true
all-append_one p [] r h k = ground arith
all-append_one p (r' ∷ rs) r h k = ground (arith, all-append_one p rs r)

-- the same revisions
IsSound-same : (s s' : Joints) → s'.revisions ≡ s.revisions → IsSound s → IsSound s'
IsSound-same s s' e h = record { reviewed = rw e (h.reviewed); apart = rw e (h.apart) }

-- an update that keeps ids, numbers and keys, and leaves the row that is found reviewed
IsSound-update :
    (id : ℕ) (change : Revision → Revision) (s s' : Joints)
    → ((r r' : Revision) → clash (change r) r' ≡ clash r r')
    → ((r r' : Revision) → clash r (change r') ≡ clash r r')
    → s'.revisions ≡ update_revisions id change (s.revisions)
    → ((r : Revision) → with_id id (s.revisions) ≡ some r → is_reviewed (change r) ≡ true)
    → IsSound s
    → IsSound s'
IsSound-update id change s s' l r e k h = record {
  reviewed = rw e (all-update_revisions id change l r (s.revisions) (h.apart) (h.reviewed) k);
  apart = rw (e, is_apart-update_revisions id change l r (s.revisions)) (h.apart);
}

module _ (s : Joints) (h : IsSound s) where
  submit-IsSound :
      (ts : String) (id : ℕ) (actor : Option ℕ) → IsSound ((submit_joint_revision ts id actor s).1)
  unfolding submit_joint_revision get_joint_revision
  submit-IsSound ts id actor = elim (Option-cases (with_id id (s.revisions))) [
    | inl absent ↦ IsSound-same s ((submit_joint_revision ts id actor s).1) (ground arith) h
    | inr (r, found) ↦ elim (Bool-cases (not (r.status == "draft"))) [
      | inl refused ↦ IsSound-same s ((submit_joint_revision ts id actor s).1) (ground arith) h
      | inr done ↦
          IsSound-update id (λ r. submitted ts r) s ((submit_joint_revision ts id actor s).1)
            (λ r r'. refl) (λ r r'. refl) (ground arith) (λ r' found'. refl) h
    ]
  ]

  approve-IsSound :
      (ts : String) (id : ℕ) (actor : Option ℕ) → IsSound ((approve_joint_revision ts id actor s).1)
  unfolding approve_joint_revision get_joint_revision
  approve-IsSound ts id actor = elim (Option-cases (with_id id (s.revisions))) [
    | inl absent ↦ IsSound-same s ((approve_joint_revision ts id actor s).1) (ground arith) h
    | inr (r, found) ↦ elim (Bool-cases (not (r.status == "review") || r.created_by == actor)) [
      | inl refused ↦ IsSound-same s ((approve_joint_revision ts id actor s).1) (ground arith) h
      | inr done ↦
          IsSound-update id (λ r. approved ts actor r) s ((approve_joint_revision ts id actor s).1)
            (λ r r'. refl) (λ r r'. refl) (ground arith)
            (λ r' found'. ground (arith, found, found')) h
    ]
  ]

  reject-IsSound :
      (ts : String) (id : ℕ) (actor : Option ℕ) → IsSound ((reject_joint_revision ts id actor s).1)
  unfolding reject_joint_revision get_joint_revision
  reject-IsSound ts id actor = elim (Option-cases (with_id id (s.revisions))) [
    | inl absent ↦ IsSound-same s ((reject_joint_revision ts id actor s).1) (ground arith) h
    | inr (r, found) ↦ elim (Bool-cases (not (r.status == "review") || r.created_by == actor)) [
      | inl refused ↦ IsSound-same s ((reject_joint_revision ts id actor s).1) (ground arith) h
      | inr done ↦
          IsSound-update id (λ r. rejected ts actor r) s ((reject_joint_revision ts id actor s).1)
            (λ r r'. refl) (λ r r'. refl) (ground arith)
            (λ r' found'. ground (arith, found, found')) h
    ]
  ]

  create-IsSound :
      (ts : String) (project_id : ℕ) (code name : String) (description : Option String)
      (by : Option ℕ)
      → IsSound ((create_joint ts project_id code name description by s).1)
  unfolding create_joint
  create-IsSound ts project_id code name description by =
      IsSound-same s ((create_joint ts project_id code name description by s).1) (ground arith) h

  archive-IsSound :
      (ts ts' : String) (joint_id : ℕ) (actor : Option ℕ)
      → IsSound ((archive_joint ts ts' joint_id actor s).1)
  unfolding archive_joint
  archive-IsSound ts ts' joint_id actor =
      IsSound-same s ((archive_joint ts ts' joint_id actor s).1) (ground arith) h

module _ ⦃j : Snapshots⦄ where
  any-has_key :
      (joint_id : ℕ) (key : String) (rs : List Revision)
      → find_first (λ r. has_key joint_id key r) rs ≡ none
      → any (λ r. nat_beq (r.joint_id) joint_id && same_key (r.idempotency_key) (some key)) rs
        ≡ false
  unfolding find_first
  any-has_key joint_id key [] h = refl
  any-has_key joint_id key (r ∷ rs) h = ground (arith, any-has_key joint_id key rs)

  any-no_key :
      (joint_id : ℕ) (rs : List Revision)
      → any (λ r. nat_beq (r.joint_id) joint_id && same_key (r.idempotency_key) none) rs ≡ false
  any-no_key joint_id [] = refl
  any-no_key joint_id (r ∷ rs) = ground (arith, any-no_key joint_id rs)

  -- a new revision, whose key no revision of the joint has
  IsSound-new :
      (ts : String) (joint_id : ℕ) (snapshot : j.Snapshot) (summary : Option String) (by : Option ℕ)
      (key : Option String) (s s' : Joints)
      → any (λ r. nat_beq (r.joint_id) joint_id && same_key (r.idempotency_key) key) (s.revisions)
        ≡ false
      → s'.revisions
        ≡ s.revisions ++ new_revision ts joint_id snapshot summary by key (s.revisions) ∷ []
      → IsSound s
      → IsSound s'
  IsSound-new ts joint_id snapshot summary by key s s' k e h =
      let new : Revision = new_revision ts joint_id snapshot summary by key (s.revisions) in
      record {
        reviewed = rw e (all-append_one (λ r. is_reviewed r) (s.revisions) new (h.reviewed) refl);
        apart = rw e (
            is_apart-append (s.revisions) new (h.apart)
              (any-clash_new (s.revisions) new (omega arith) (omega arith) k));
      }

  revise-IsSound :
      (ts : String) (joint_id : ℕ) (snapshot : Option (j.Snapshot)) (summary : Option String)
      (by : Option ℕ) (key : Option String) (s : Joints)
      → IsSound s
      → IsSound ((create_joint_revision ts joint_id snapshot summary by key s).1)
  unfolding create_joint_revision match_existing_idempotent_revision
  revise-IsSound ts joint_id snapshot summary by none s h =
      elim (Result-cases (get_joint joint_id s)) [
        | inr (error, unknown) ↦
            IsSound-same s ((create_joint_revision ts joint_id snapshot summary by none s).1)
              (ground arith) h
        | inl (joint, known) ↦ elim (Bool-cases (joint.status == "archived")) [
          | inl closed ↦
              IsSound-same s ((create_joint_revision ts joint_id snapshot summary by none s).1)
                (ground arith) h
          | inr live ↦
              IsSound-new ts joint_id (get_or snapshot (j.empty)) summary by none s
                ((create_joint_revision ts joint_id snapshot summary by none s).1)
                (any-no_key joint_id (s.revisions)) (ground arith) h
        ]
      ]
  revise-IsSound ts joint_id snapshot summary by (some key) s h =
      elim (Result-cases (get_joint joint_id s)) [
        | inr (error, unknown) ↦
            IsSound-same s ((create_joint_revision ts joint_id snapshot summary by (some key) s).1)
              (ground arith) h
        | inl (joint, known) ↦
            elim (Option-cases (find_first (λ r. has_key joint_id key r) (s.revisions))) [
              | inr (r, used) ↦
                  IsSound-same s
                    ((create_joint_revision ts joint_id snapshot summary by (some key) s).1)
                    (ground arith) h
              | inl unused ↦ elim (Bool-cases (joint.status == "archived")) [
                | inl closed ↦
                    IsSound-same s
                      ((create_joint_revision ts joint_id snapshot summary by (some key) s).1)
                      (ground arith) h
                | inr live ↦
                    IsSound-new ts joint_id (get_or snapshot (j.empty)) summary by (some key) s
                      ((create_joint_revision ts joint_id snapshot summary by (some key) s).1)
                      (any-has_key joint_id key (s.revisions) unused) (ground arith) h
              ]
            ]
      ]

  run_joint_call-IsSound :
      (call : JointCall) (s : Joints) → IsSound s → IsSound (run_joint_call call s)
  run_joint_call-IsSound (create ts project_id code name description by) s h =
      create-IsSound s h ts project_id code name description by
  run_joint_call-IsSound (archive ts ts' joint_id actor) s h =
      archive-IsSound s h ts ts' joint_id actor
  run_joint_call-IsSound (revise ts joint_id snapshot summary by key) s h =
      revise-IsSound ts joint_id snapshot summary by key s h
  run_joint_call-IsSound (submit ts id actor) s h = submit-IsSound s h ts id actor
  run_joint_call-IsSound (approve ts id actor) s h = approve-IsSound s h ts id actor
  run_joint_call-IsSound (reject ts id actor) s h = reject-IsSound s h ts id actor

  -- Whatever the calls, in a table that is sound every revision keeps a known status, an approved or
  -- rejected one was reviewed by another than the one who made it, and no two revisions share an id,
  -- or within a joint a number or an idempotency key.
  pub run_joint_calls-IsSound :
      (calls : List JointCall) (s : Joints) → IsSound s → IsSound (run_joint_calls calls s)
  run_joint_calls-IsSound [] s h = h
  run_joint_calls-IsSound (call ∷ calls) s h =
      run_joint_calls-IsSound calls (run_joint_call call s) (run_joint_call-IsSound call s h)
