-- ===== src/Joints/Invariant.antt =====
-- What holds of the table of revisions of backend/joints/service.py, and what an update and a new row
-- do to it.
pub mod Calls
use torq_pro_ai.Prelude.{
  ℕ, String, Bool, true, false, not, Option, none, some, get_or, List, [], ◌∷◌, ◌++◌, map, ◌==◌,
  ◌||◌, ◌&&◌, ◌<◌, ◌≤◌, if◌then◌else◌, string_eq, nat_eq, option_eq, nat_beq, nat_beq_iff, contains,
  all, any, find_first, suc, ◌≡◌, refl, arith, sym, ap, ◌∙◌, Bool-cases, Option-cases, inl, inr,
  beq→eq, &&-split, ◌⊎◌,
}
use torq_pro_ai.Prelude.Exec.{Result, ok, raised, Result-cases}
use torq_pro_ai.Joints.Service.{
  Joint, Revision, Joints, Snapshots, joint_revision_statuses, update_revisions, greatest,
  get_joint, get_joint_revision, create_joint, archive_joint, submit_joint_revision,
  approve_joint_revision, reject_joint_revision, submitted, approved, rejected,
}
use torq_pro_ai.Joints.Revisions.{
  create_joint_revision, JointCall, create, archive, revise, submit, approve, reject,
  run_joint_call, run_joint_calls, match_existing_idempotent_revision, new_revision, has_key,
  latest_revision_no,
}
use torq_pro_ai.Joints.Closed.{is_closed, closed_status, with_id}

-- A revision has a known status, and where it is approved or rejected another reviewed it than the
-- one who made it.
abbrev pub is_reviewed : Revision → Bool
is_reviewed r =
    contains (r.status) joint_revision_statuses
    && (if is_closed r then not (r.created_by == r.reviewed_by) else true)

abbrev pub same_key : Option String → Option String → Bool
same_key none k = false
same_key (some k) none = false
same_key (some k) (some k') = k == k'

-- two revisions of one id, or of one joint with one number or one idempotency key
abbrev pub clash : Revision → Revision → Bool
clash r r' =
    nat_beq (r.id) (r'.id)
    || (nat_beq (r.joint_id) (r'.joint_id)
        && (nat_beq (r.revision_no) (r'.revision_no)
            || same_key (r.idempotency_key) (r'.idempotency_key)))

abbrev pub is_apart : List Revision → Bool
is_apart [] = true
is_apart (r ∷ rs) = not (any (λ r'. clash r r') rs) && is_apart rs

pub record IsSound (s : Joints) : Type 0 where
  pub reviewed : all (λ r. is_reviewed r) (s.revisions) ≡ true
  pub apart : is_apart (s.revisions) ≡ true

module _ (id : ℕ) (change : Revision → Revision)
    (keeps_l : (r r' : Revision) → clash (change r) r' ≡ clash r r')
    (keeps_r : (r r' : Revision) → clash r (change r') ≡ clash r r') where
  any-update_revisions :
      (r : Revision) (rs : List Revision)
      → any (λ r'. clash r r') (update_revisions id change rs) ≡ any (λ r'. clash r r') rs
  any-update_revisions r [] = refl
  any-update_revisions r (r' ∷ rs) = ground (arith, keeps_r r r', any-update_revisions r rs)

  any-changed :
      (r : Revision) (rs : List Revision)
      → any (λ r'. clash (change r) r') rs ≡ any (λ r'. clash r r') rs
  any-changed r [] = refl
  any-changed r (r' ∷ rs) = ground (arith, keeps_l r r', any-changed r rs)

  pub is_apart-update_revisions :
      (rs : List Revision) → is_apart (update_revisions id change rs) ≡ is_apart rs
  is_apart-update_revisions [] = refl
  is_apart-update_revisions (r ∷ rs) = ground (
    arith,
    any-update_revisions r rs,
    any-update_revisions (change r) rs,
    any-changed r rs,
    is_apart-update_revisions rs,
  )

  update_revisions-absent :
      (r : Revision) (rs : List Revision)
      → nat_beq (r.id) id ≡ true
      → any (λ r'. clash r r') rs ≡ false
      → update_revisions id change rs ≡ rs
  update_revisions-absent r [] h k = refl
  update_revisions-absent r (r' ∷ rs) h k = ground (arith, update_revisions-absent r rs)

  pub all-update_revisions :
      (rs : List Revision)
      → is_apart rs ≡ true
      → all (λ r. is_reviewed r) rs ≡ true
      → ((r : Revision) → with_id id rs ≡ some r → is_reviewed (change r) ≡ true)
      → all (λ r. is_reviewed r) (update_revisions id change rs) ≡ true
  unfolding find_first
  all-update_revisions [] a h k = refl
  all-update_revisions (r ∷ rs) a h k =
      let (apart, rest) = &&-split (not (any (λ r'. clash r r') rs)) (is_apart rs) a in
      let (first, others) = &&-split (is_reviewed r) (all (λ r. is_reviewed r) rs) h in
      elim (Bool-cases (nat_beq (r.id) id)) [
        | inl same ↦
            rw (same, update_revisions-absent r rs same (ground arith), others, k r (rw same refl))
              refl
        | inr other ↦
            rw (other, first, all-update_revisions rs rest others λ r' found. k r' (rw other found))
              refl
      ]

-- A revision beyond all others of its table.
pub any-clash_new :
    (rs : List Revision) (new : Revision)
    → greatest (map (λ r. r.id) rs) < new.id
    → latest_revision_no (new.joint_id) rs < new.revision_no
    → any
        (λ r.
          nat_beq (r.joint_id) (new.joint_id) && same_key (r.idempotency_key) (new.idempotency_key))
        rs
      ≡ false
    → any (λ r. clash r new) rs ≡ false
any-clash_new [] new h k l = refl
any-clash_new (r ∷ rs) new h k l = ground (arith, any-clash_new rs new)

any-append_clash :
    (r : Revision) (rs : List Revision) (new : Revision)
    → any (λ r'. clash r r') (rs ++ new ∷ []) ≡ any (λ r'. clash r r') rs || clash r new
any-append_clash r [] new = ground arith
any-append_clash r (r' ∷ rs) new = ground (arith, any-append_clash r rs new)

pub is_apart-append :
    (rs : List Revision) (new : Revision)
    → is_apart rs ≡ true
    → any (λ r. clash r new) rs ≡ false
    → is_apart (rs ++ new ∷ []) ≡ true
is_apart-append [] new h k = refl
is_apart-append (r ∷ rs) new h k = ground (arith, any-append_clash r rs new, is_apart-append rs new)
