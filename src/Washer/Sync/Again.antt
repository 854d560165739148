-- ===== src/Washer/Sync/Again.antt =====
-- A washer decision that backend/governance/adapters/washer_resolution_sync.py synchronized, given to
-- it again.
use torq_pro_ai.Prelude.{
  String, Bool, true, false, Option, none, some, ◌≡◌, string_eq, option_eq, refl, ap, ◌∙◌,
  Bool-cases, inl, inr,
}
use mathlib.Core.Option.{some-injective}
use torq_pro_ai.Prelude.Texts.{is_empty_str}
use torq_pro_ai.Prelude.Exec.{ok, Result-cases}
use torq_pro_ai.Governance.Enums.{ResolutionStatus}
use torq_pro_ai.Governance.Events.{Backing}
use torq_pro_ai.Governance.Store.{Event, Store, find_by_idempotency_key}
use torq_pro_ai.Governance.Service.Engine.{by_key}
use torq_pro_ai.Governance.Service.Legality.{Command, run, transition_of}
use torq_pro_ai.Washer.Records.{
  WasherResolutionStatus, open_, under_review, resolved, accepted_as_is,
  blocked_authoritative_source, rejected,
}
use torq_pro_ai.Washer.Decisions.{WasherResolutionDecision}
use torq_pro_ai.Washer.Sync.{
  synchronized, already_synchronized, SyncResult, unwritten, sync_idempotency_key, Lineage,
  existing_event_matches, sync_new, sync_syncable, sync_stored, sync_status, sync_washer_decision,
}
use torq_pro_ai.Washer.Sync.Written.{
  key-filled, read_failure-outcome, outcome_back, command_by_status-IsOf, sync_new-synchronized,
  stored_matches,
}
use torq_pro_ai.Governance.Service.Found.{held, found_by_key}
use torq_pro_ai.Governance.Service.Traces.{Reaches}

-- A later state of the log, which is configured.
pub record IsLater ⦃b : Backing⦄ (store store' : Option Store) : Type 0 where
  pub before : Store
  pub after : Store
  pub was : store ≡ some before
  pub is : store' ≡ some after
  pub reached : Reaches before after

module _ ⦃b : Backing⦄ ⦃l : Lineage⦄ (d : WasherResolutionDecision) where
  -- the store in which the key of the decision finds an event that was made of it
  sync_syncable_known :
      (status : ResolutionStatus) (dry_run : Bool) (at id : String) (s : Store) (e : Event)
      → find_by_idempotency_key s (sync_idempotency_key d) ≡ ok (some e)
      → existing_event_matches e d status ≡ true
      → sync_syncable d status dry_run at id s ≡ (some (unwritten d already_synchronized), s)
  unfolding sync_syncable
  sync_syncable_known status dry_run at id s e found m = rw (sync_syncable, found, m) refl

  -- the stores behind a run that stored an event under a key that is not empty
  found_after_run :
      (c : Command b.Metadata) (s s' s'' : Store) (e : Event)
      → run c s ≡ (ok (e, true), s')
      → Reaches s' s''
      → is_empty_str (transition_of c).idempotency_key ≡ false
      → find_by_idempotency_key s'' (transition_of c).idempotency_key ≡ ok (some e)
  unfolding find_by_idempotency_key by_key
  found_after_run c s s' s'' e first later full =
      rw (full, (held c s s' s'' e first later).read)
        (ap (λ o. ok o) (rw full at (found_by_key c s s' s'' e first later full)))

  -- the first run, and the arguments of the second
  module _ (dry_run dry_run' : Bool) (at id at' id' : String) (r : SyncResult)
      (o : r.outcome ≡ synchronized) where
    sync_new_again :
        (status : ResolutionStatus) (s s' s'' : Store)
        → sync_new d status dry_run at id s ≡ (some r, s')
        → Reaches s' s''
        → sync_syncable d status dry_run' at' id' s''
          ≡ (some (unwritten d already_synchronized), s'')
    sync_new_again status s s' s'' h later =
        let (c, e, found, first) = sync_new-synchronized d status dry_run at id s s' r h o in
        let same = (command_by_status-IsOf d status at id c found).key in
        sync_syncable_known status dry_run' at' id' s'' e
          (rw same at (found_after_run c s s' s'' e first later (rw same (key-filled d))))
          (stored_matches d status at id c s s' e found first)

    sync_syncable_again :
        (status : ResolutionStatus) (s s' s'' : Store)
        → sync_syncable d status dry_run at id s ≡ (some r, s')
        → Reaches s' s''
        → sync_syncable d status dry_run' at' id' s''
          ≡ (some (unwritten d already_synchronized), s'')
    unfolding sync_syncable
    sync_syncable_again status s s' s'' h later =
        elim (Result-cases (find_by_idempotency_key s (sync_idempotency_key d))) [
          | inl (some e, f) ↦ elim (Bool-cases (existing_event_matches e d status)) [
            | inl m ↦ absurd (let o'' = outcome_back (rw (sync_syncable, f, m) at h) o in cc)
            | inr m ↦ absurd (let o'' = outcome_back (rw (sync_syncable, f, m) at h) o in cc)
          ]
          | inl (none, f) ↦ sync_new_again status s s' s'' (rw (sync_syncable, f) at h) later
          | inr (err, f) ↦
              let h' = rw (sync_syncable, f) at h in
              let o' =
                read_failure-outcome d err r (ap (λ (x : Option SyncResult × Store). x.0) h') in
              absurd (cc)
        ]

    sync_stored_again :
        (status : ResolutionStatus) (store store' store'' : Option Store)
        → sync_stored d status dry_run at id store ≡ (some r, store')
        → IsLater store' store''
        → sync_stored d status dry_run' at' id' store''
          ≡ (some (unwritten d already_synchronized), store'')
    sync_stored_again status none store' store'' h k = absurd (let o' = outcome_back h o in cc)
    sync_stored_again status (some s) store' store'' h k =
        let first = sync_syncable d status dry_run at id s in
        let same : first.1 ≡ k.before =
          some-injective _ _ (ap (λ (x : Option SyncResult × Option Store). x.1) h ∙ k.was) in
        rw k.is (
          ap (λ (x : Option SyncResult × Store). (x.0, some x.1))
            (sync_syncable_again status s first.1 k.after (λ i. ((h i).0, first.1))
              (rw same k.reached)))

    sync_status_again :
        (status : WasherResolutionStatus) (store store' store'' : Option Store)
        → sync_status d status dry_run at id store ≡ (some r, store')
        → IsLater store' store''
        → sync_status d status dry_run' at' id' store''
          ≡ (some (unwritten d already_synchronized), store'')
    sync_status_again open_ store store' store'' h k = absurd (let o' = outcome_back h o in cc)
    sync_status_again under_review store store' store'' h k =
        absurd (let o' = outcome_back h o in cc)
    sync_status_again resolved store store' store'' h k =
        sync_stored_again ResolutionStatus.resolved store store' store'' h k
    sync_status_again accepted_as_is store store' store'' h k =
        sync_stored_again ResolutionStatus.waived store store' store'' h k
    sync_status_again blocked_authoritative_source store store' store'' h k =
        absurd (let o' = outcome_back h o in cc)
    sync_status_again rejected store store' store'' h k =
        sync_stored_again ResolutionStatus.rejected store store' store'' h k

    -- A decision that was synchronized, given again with any clock, event id and dry-run flag, to
    -- any store that the one the first run left came to by further commands and changes of access,
    -- is reported as already synchronized, and that store is returned.
    pub sync_washer_decision_again :
        (store store' store'' : Option Store)
        → sync_washer_decision d dry_run at id store ≡ (some r, store')
        → IsLater store' store''
        → sync_washer_decision d dry_run' at' id' store''
          ≡ (some (unwritten d already_synchronized), store'')
    unfolding sync_washer_decision
    sync_washer_decision_again store store' store'' h k =
        sync_status_again d.new_status store store' store'' h k
