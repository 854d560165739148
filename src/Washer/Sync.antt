-- ===== src/Washer/Sync.antt =====
-- backend/governance/adapters/washer_resolution_sync.py: a washer decision as an event of the
-- governance log, with the map of statuses of adapters/washer_resolution.py.
mod Written
pub mod Again
use torq_pro_ai.Prelude.{
  String, Bool, true, false, Option, none, some, List, [], ◌∷◌, Eq, ◌==◌, ◌&&◌, ◌≡◌, if◌then◌else◌,
  string_eq, option_eq, get_default,
}
use torq_pro_ai.Prelude.Texts.{append_str, is_empty_str}
use torq_pro_ai.Prelude.Exec.{Result, ok, raised}
use torq_pro_ai.Governance.Enums.{ResolutionStatus, resolution_value}
use torq_pro_ai.Governance.Errors.{
  GovernanceError, invalid_transition, missing_required_field, store_failure, corruption,
  idempotency_conflict, duplicate_decision, aggregate_not_found, value_error, validation_error,
  decode_error,
}
use torq_pro_ai.Governance.Events.{Backing}
use torq_pro_ai.Governance.Store.{Event, Store, find_by_idempotency_key}
use torq_pro_ai.Governance.Service.Commands.{Call}
use torq_pro_ai.Governance.Service.Legality.{Command, resolve, refuse, waive, run}
use torq_pro_ai.Washer.Records.{
  WasherResolutionStatus, open_, under_review, resolved, accepted_as_is,
  blocked_authoritative_source, rejected,
}
use torq_pro_ai.Washer.Decisions.{WasherResolutionDecision}

pub data MappingQuality : Type 0 where
  exact partial unsupported : MappingQuality

-- `_STATUS_MAP` of washer_resolution.py
abbrev pub status_map : WasherResolutionStatus → Option ResolutionStatus × MappingQuality
status_map open_ = (some ResolutionStatus.open_, exact)
status_map under_review = (some ResolutionStatus.open_, partial)
status_map resolved = (some ResolutionStatus.resolved, exact)
status_map accepted_as_is = (some ResolutionStatus.waived, exact)
status_map rejected = (some ResolutionStatus.rejected, exact)
status_map blocked_authoritative_source = (none, unsupported)

abbrev exact_status : Option ResolutionStatus × MappingQuality → Option ResolutionStatus
exact_status (status, exact) = status
exact_status (status, partial) = none
exact_status (status, unsupported) = none

-- `_SYNCABLE_STATUS_MAP.get`
abbrev pub syncable_status : WasherResolutionStatus → Option ResolutionStatus
syncable_status status = exact_status (status_map status)

pub data SyncOutcome : Type 0 where
  synchronized already_synchronized would_synchronize skipped_open : SyncOutcome
  not_representable governance_store_unconfigured failed : SyncOutcome

-- A result, without its message, which the category stands for; of the metadata, the event id.
pub record SyncResult : Type 0 where
  pub resolution_id : String
  pub washer_decision_id : String
  pub governance_aggregate_id : String
  pub outcome : SyncOutcome
  pub event_written : Bool
  pub retry_may_help : Bool
  pub safe_error_category : Option String
  pub governance_event_id : Option String

-- `_result`
abbrev pub result :
    WasherResolutionDecision
    → SyncOutcome
    → Bool
    → Bool
    → Option String
    → Option String
    → SyncResult
result d outcome written retry category event_id = record {
  resolution_id = d.resolution_id;
  washer_decision_id = d.decision_id;
  governance_aggregate_id = d.resolution_id;
  outcome = outcome;
  event_written = written;
  retry_may_help = retry;
  safe_error_category = category;
  governance_event_id = event_id;
}

-- a result that writes nothing and is no failure
abbrev pub unwritten : WasherResolutionDecision → SyncOutcome → SyncResult
unwritten d outcome = result d outcome false false none none

-- The results of the handlers: a corrupt store is a store that failed, of which a retry is said to
-- help.
abbrev pub failure_of : WasherResolutionDecision → GovernanceError → SyncResult
failure_of d (idempotency_conflict key) =
    result d failed false false (some "idempotency_conflict") none
failure_of d (duplicate_decision id) =
    result d failed false false (some "decision_id_collision") none
failure_of d (invalid_transition previous new group) =
    result d failed false false (some "invalid_transition") none
failure_of d (missing_required_field name fields) =
    result d failed false false (some "missing_required_field") none
failure_of d corruption = result d failed false true (some "store_corruption") none
failure_of d store_failure = result d failed false true (some "store_io_error") none
failure_of d (aggregate_not_found type id) =
    result d failed false false (some "unexpected_error") none
failure_of d (value_error value) = result d failed false false (some "unexpected_error") none
failure_of d validation_error = result d failed false false (some "unexpected_error") none
failure_of d decode_error = result d failed false false (some "unexpected_error") none

-- The handler of the lookup, which catches two errors: None stands for another, which is raised.
abbrev pub read_failure : WasherResolutionDecision → GovernanceError → Option SyncResult
read_failure d corruption = some (failure_of d corruption)
read_failure d store_failure = some (failure_of d store_failure)
read_failure d err = none

-- `f"{key}"` of a key that may be None
abbrev shown_key : Option String → String
shown_key none = "None"
shown_key (some key) = key

unfoldable pub sync_idempotency_key : WasherResolutionDecision → String
unfolding append_str
sync_idempotency_key d = append_str "washer-sync:" (shown_key d.idempotency_key)

-- `x or None`
abbrev or_none : String → Option String
or_none text = if is_empty_str text then none else some text

-- Dicts of texts among the bags of metadata: `of_pairs` makes one, and `holds m k v` is
-- `m.get(k) == v`.
pub record Lineage ⦃b : Backing⦄ : Type 0 where
  pub of_pairs : List (String × Option String) → b.Metadata
  pub holds : b.Metadata → String → Option String → Bool
  pub holds-of_pairs :
      (pairs : List (String × Option String)) (k : String) (v : Option String)
      → holds (of_pairs pairs) k v ≡ (get_default pairs k none == v)

module _ ⦃b : Backing⦄ ⦃l : Lineage⦄ where
  abbrev pub build_metadata : WasherResolutionDecision → String → b.Metadata
  build_metadata d synchronized_at = l.of_pairs (
      ("source_system", some "washer_resolution")
      ∷ ("source_decision_id", some d.decision_id)
      ∷ ("source_idempotency_key", d.idempotency_key)
      ∷ ("source_aggregate_id", some d.resolution_id)
      ∷ ("source_event_timestamp", some d.decided_at)
      ∷ ("sync_version", some "1")
      ∷ ("causation_id", some d.decision_id)
      ∷ ("synchronized_at", some synchronized_at)
      ∷ [])

  unfoldable pub existing_event_matches : Event → WasherResolutionDecision → ResolutionStatus → Bool
  existing_event_matches e d status =
      (e.aggregate_type == "washer_resolution")
      && (e.aggregate_id == d.resolution_id)
      && (e.decision_id == d.decision_id)
      && (e.new_status == resolution_value status)
      && l.holds e.metadata "source_decision_id" (some d.decision_id)
      && l.holds e.metadata "source_idempotency_key" d.idempotency_key

  -- The arguments of the command. An actor that is empty fails the required field as None does.
  abbrev pub sync_call : WasherResolutionDecision → String → String → Call b.Metadata
  sync_call d synchronized_at fresh_id = record {
    aggregate_id = d.resolution_id;
    aggregate_type = "washer_resolution";
    decision_id = d.decision_id;
    idempotency_key = sync_idempotency_key d;
    occurred_at = d.decided_at;
    metadata = some (build_metadata d synchronized_at);
    event_id = none;
    fresh_id = fresh_id;
  }

  -- `_COMMAND_BY_STATUS`, where it has the status
  abbrev pub command_by_status :
      ResolutionStatus → WasherResolutionDecision → String → String → Option (Command b.Metadata)
  command_by_status ResolutionStatus.open_ d at id = none
  command_by_status ResolutionStatus.resolved d at id =
      some (resolve (sync_call d at id) d.resolved_by (or_none d.resolution_note))
  command_by_status ResolutionStatus.waived d at id =
      some (waive (sync_call d at id) d.resolved_by (or_none d.resolution_note))
  command_by_status ResolutionStatus.rejected d at id =
      some (refuse (sync_call d at id) d.resolved_by (or_none d.resolution_note))

  abbrev sync_written :
      WasherResolutionDecision → Result GovernanceError (Event × Bool) → SyncResult
  sync_written d (raised err) = failure_of d err
  sync_written d (ok (e, false)) = unwritten d already_synchronized
  sync_written d (ok (e, true)) = result d synchronized true false none (some e.event_id)

  -- what follows the lookup of the key; None where `_COMMAND_BY_STATUS` raises a KeyError
  unfoldable pub sync_new :
      WasherResolutionDecision
      → ResolutionStatus
      → Bool
      → String
      → String
      → Store
      → Option SyncResult × Store
  sync_new d status dry_run synchronized_at fresh_id s =
      if dry_run
      then (some (unwritten d would_synchronize), s)
      else elim (command_by_status status d synchronized_at fresh_id) [
        | none ↦ (none, s)
        | some c ↦ let (r, s') = run c s in (some (sync_written d r), s')
      ]

  unfoldable pub sync_syncable :
      WasherResolutionDecision
      → ResolutionStatus
      → Bool
      → String
      → String
      → Store
      → Option SyncResult × Store
  sync_syncable d status dry_run synchronized_at fresh_id s =
      elim (find_by_idempotency_key s (sync_idempotency_key d)) [
        | raised err ↦ (read_failure d err, s)
        | ok (some e) ↦
            if existing_event_matches e d status
            then (some (unwritten d already_synchronized), s)
            else (some (result d failed false false (some "idempotency_conflict") none), s)
        | ok none ↦ sync_new d status dry_run synchronized_at fresh_id s
      ]

  abbrev pub sync_stored :
      WasherResolutionDecision
      → ResolutionStatus
      → Bool
      → String
      → String
      → Option Store
      → Option SyncResult × Option Store
  sync_stored d status dry_run synchronized_at fresh_id none =
      (some (unwritten d governance_store_unconfigured), none)
  sync_stored d status dry_run synchronized_at fresh_id (some s) =
      let (r, s') = sync_syncable d status dry_run synchronized_at fresh_id s in (r, some s')

  abbrev sync_mapped :
      WasherResolutionDecision
      → Option ResolutionStatus
      → Bool
      → String
      → String
      → Option Store
      → Option SyncResult × Option Store
  sync_mapped d none dry_run synchronized_at fresh_id store =
      (some (unwritten d not_representable), store)
  sync_mapped d (some status) dry_run synchronized_at fresh_id store =
      sync_stored d status dry_run synchronized_at fresh_id store

  -- the branches on the new status
  abbrev pub sync_status :
      WasherResolutionDecision
      → WasherResolutionStatus
      → Bool
      → String
      → String
      → Option Store
      → Option SyncResult × Option Store
  sync_status d open_ dry_run synchronized_at fresh_id store =
      (some (unwritten d skipped_open), store)
  sync_status d status dry_run synchronized_at fresh_id store =
      sync_mapped d (syncable_status status) dry_run synchronized_at fresh_id store

  -- None stands for an error that is raised. `synchronized_at` is the argument, or the clock;
  -- `fresh_id` is the id that the event gets.
  unfoldable pub sync_washer_decision :
      WasherResolutionDecision
      → Bool
      → String
      → String
      → Option Store
      → Option SyncResult × Option Store
  sync_washer_decision d dry_run synchronized_at fresh_id store =
      sync_status d d.new_status dry_run synchronized_at fresh_id store
