-- ===== src/Washer/Sync/Written.antt =====
-- The event that backend/governance/adapters/washer_resolution_sync.py writes of a washer decision.
use torq_pro_ai.Prelude.{
  String, Bool, true, false, Option, some, ◌≡◌, string_eq, option_eq, refl, sym, ap, ◌∙◌, beq_refl,
  Option-cases, inl, inr,
}
use mathlib.Core.Option.{some-injective}
use torq_pro_ai.Prelude.Texts.{append_str, is_empty_str}
use torq_pro_ai.Prelude.Exec.{ok, Result-cases}
use torq_pro_ai.Governance.Enums.{ResolutionStatus, resolution_value}
use torq_pro_ai.Governance.Errors.{
  GovernanceError, idempotency_conflict, duplicate_decision, invalid_transition,
  missing_required_field, corruption, store_failure, aggregate_not_found, value_error,
  validation_error, decode_error,
}
use torq_pro_ai.Governance.Events.{Backing}
use torq_pro_ai.Governance.Store.{Event, Store}
use torq_pro_ai.Governance.Service.{Transition, event_of}
use torq_pro_ai.Governance.Service.Engine.{Ran-Stored}
use torq_pro_ai.Governance.Service.Legality.{Command, run, transition_of, validator_of}
use torq_pro_ai.Governance.Service.Invariant.{run-Ran}
use torq_pro_ai.Washer.Decisions.{WasherResolutionDecision}
use torq_pro_ai.Washer.Sync.{
  SyncOutcome, synchronized, failed, SyncResult, failure_of, read_failure, sync_idempotency_key,
  Lineage, build_metadata, existing_event_matches, command_by_status, sync_new,
}

pub key-filled : (d : WasherResolutionDecision) → is_empty_str (sync_idempotency_key d) ≡ false
unfolding sync_idempotency_key append_str
key-filled d = refl

pub failure_of-outcome :
    (d : WasherResolutionDecision) (err : GovernanceError) → (failure_of d err).outcome ≡ failed
failure_of-outcome d (idempotency_conflict key) = refl
failure_of-outcome d (duplicate_decision id) = refl
failure_of-outcome d (invalid_transition previous new group) = refl
failure_of-outcome d (missing_required_field name fields) = refl
failure_of-outcome d corruption = refl
failure_of-outcome d store_failure = refl
failure_of-outcome d (aggregate_not_found type id) = refl
failure_of-outcome d (value_error value) = refl
failure_of-outcome d validation_error = refl
failure_of-outcome d decode_error = refl

pub read_failure-outcome :
    (d : WasherResolutionDecision) (err : GovernanceError) (r : SyncResult)
    → read_failure d err ≡ some r
    → r.outcome ≡ failed
read_failure-outcome d (idempotency_conflict key) r h = absurd (cc)
read_failure-outcome d (duplicate_decision id) r h = absurd (cc)
read_failure-outcome d (invalid_transition previous new group) r h = absurd (cc)
read_failure-outcome d (missing_required_field name fields) r h = absurd (cc)
read_failure-outcome d corruption r h = rw (sym (some-injective _ _ h)) refl
read_failure-outcome d store_failure r h = rw (sym (some-injective _ _ h)) refl
read_failure-outcome d (aggregate_not_found type id) r h = absurd (cc)
read_failure-outcome d (value_error value) r h = absurd (cc)
read_failure-outcome d validation_error r h = absurd (cc)
read_failure-outcome d decode_error r h = absurd (cc)

pub outcome_back :
    {S : Type 0} {r r' : SyncResult} {o : SyncOutcome} {s s' : S}
    → ◌≡◌ {A = Option SyncResult × S} (some r', s) (some r, s')
    → r.outcome ≡ o
    → r'.outcome ≡ o
outcome_back {S = S} h o =
    ap (λ (x : SyncResult). x.outcome)
      (some-injective _ _ (ap (λ (x : Option SyncResult × S). x.0) h))
    ∙ o

module _ ⦃b : Backing⦄ ⦃l : Lineage⦄ (d : WasherResolutionDecision) where
  -- an event that was made of the decision
  pub record IsOf (status : ResolutionStatus) (t : Transition b.Metadata) : Type 0 where
    pub key : t.idempotency_key ≡ sync_idempotency_key d
    pub matches : (p : String) → existing_event_matches (event_of t p) d status ≡ true

  -- the event of the arguments with a status and a comment
  sync_call-IsOf :
      (status : ResolutionStatus) (at id : String) (t : Transition b.Metadata)
      → t.aggregate_type ≡ "washer_resolution"
      → t.aggregate_id ≡ d.resolution_id
      → t.decision_id ≡ d.decision_id
      → t.new_status ≡ resolution_value status
      → t.metadata ≡ some (build_metadata d at)
      → t.idempotency_key ≡ sync_idempotency_key d
      → IsOf status t
  unfolding existing_event_matches event_of
  sync_call-IsOf status at id t type aggregate decision new metadata key = record {
    key = key;
    matches = λ p.
        rw
          (
            type,
            aggregate,
            decision,
            new,
            metadata,
            l.holds-of_pairs _ "source_decision_id" (some d.decision_id),
            beq_refl d.resolution_id,
            beq_refl d.decision_id,
            beq_refl (resolution_value status),
          )
          (l.holds-of_pairs _ "source_idempotency_key" d.idempotency_key
            ∙ beq_refl d.idempotency_key);
  }

  pub command_by_status-IsOf :
      (status : ResolutionStatus) (at id : String) (c : Command b.Metadata)
      → command_by_status status d at id ≡ some c
      → IsOf status (transition_of c)
  command_by_status-IsOf ResolutionStatus.open_ at id c h = absurd (cc)
  command_by_status-IsOf ResolutionStatus.resolved at id c h =
      rw (sym (some-injective _ _ h))
        (sync_call-IsOf ResolutionStatus.resolved at id _ refl refl refl refl refl refl)
  command_by_status-IsOf ResolutionStatus.waived at id c h =
      rw (sym (some-injective _ _ h))
        (sync_call-IsOf ResolutionStatus.waived at id _ refl refl refl refl refl refl)
  command_by_status-IsOf ResolutionStatus.rejected at id c h =
      rw (sym (some-injective _ _ h))
        (sync_call-IsOf ResolutionStatus.rejected at id _ refl refl refl refl refl refl)

  pub sync_new-synchronized :
      (status : ResolutionStatus) (dry_run : Bool) (at id : String) (s s' : Store) (r : SyncResult)
      → sync_new d status dry_run at id s ≡ (some r, s')
      → r.outcome ≡ synchronized
      → (c : Command b.Metadata) × (e : Event) × (command_by_status status d at id ≡ some c)
        × (run c s ≡ (ok (e, true), s'))
  unfolding sync_new
  sync_new-synchronized status true at id s s' r h o = absurd (cc)
  sync_new-synchronized status false at id s s' r h o =
      elim (Option-cases (command_by_status status d at id)) [
        | inl none' ↦ absurd (let h' = rw none' at h in cc)
        | inr (c, found) ↦ elim (Result-cases (run c s).0) [
          | inl ((e, true), o') ↦
              let h' = rw (found, o') at h in (c, e, found, λ i. (o' i, (h' i).1))
          | inl ((e, false), o') ↦
              absurd (let h' = rw (found, o') at h in let o'' = outcome_back h' o in cc)
          | inr (err, o') ↦ absurd (
              let h' = rw (found, o') at h in
              let o'' = sym (failure_of-outcome d err) ∙ outcome_back h' o in cc)
        ]
      ]

  pub stored_matches :
      (status : ResolutionStatus) (at id : String) (c : Command b.Metadata) (s s' : Store)
      (e : Event)
      → command_by_status status d at id ≡ some c
      → run c s ≡ (ok (e, true), s')
      → existing_event_matches e d status ≡ true
  stored_matches status at id c s s' e h first =
      let t = transition_of c in
      let w = Ran-Stored t (validator_of c) s e s' (run-Ran c s) first in
      rw w.event ((command_by_status-IsOf status at id c h).matches _)
