-- ===== src/Examples/Sync.antt =====
-- A decision that resolves a washer record, synchronized with an empty governance log.
use mathlib.Core.HLevel.{×_discrete}
use mathlib.Core.List.{List-discrete}
use torq_pro_ai.Prelude.{
  ℕ, ◌∷◌, String, true, false, Option, none, some, List, [], ◌≡◌, refl, ◌==◌, Eq, enum_eq,
  string_eq, option_eq, Bool-cases, inl, inr, beq→eq, beq_refl, sym, ap, ◌∙◌, get_default, keep,
  find_first, last?,
}
use torq_pro_ai.Prelude.Texts.{append_str, is_blank, is_space, is_digit, is_present}
use torq_pro_ai.Governance.Enums.{
  ResolutionStatus-discrete, LifecycleGroup-discrete, resolution_of_value,
}
use torq_pro_ai.Governance.Events.{GovernanceEvent, Backing, make_event}
use torq_pro_ai.Governance.Timestamps.{
  is_valid_utc_iso8601, match_pieces, match_rest, fits, optional_timestamp_ok,
}
use torq_pro_ai.Governance.Decisions.{
  make_resolution, validate_resolution_decision, validate_transition, validate_required_fields,
}
use torq_pro_ai.Governance.Transitions.{is_transition_allowed}
use torq_pro_ai.Governance.Store.{
  Store, missing, read_raw, write_raw_atomic, validate_all, all_events, events_for_aggregate,
  find_by_decision_id, find_by_idempotency_key, append,
}
use torq_pro_ai.Governance.Service.{
  event_history, latest_event, effective_status, normalize_request, event_matches_request,
  resolve_idempotency, event_of, persist_new, execute_transition,
}
use torq_pro_ai.Governance.Service.Commands.{
  validate_resolution, resolve_resolution, reject_resolution, waive_resolution, resolution_command,
  resolution_command_decision,
}
use torq_pro_ai.Governance.Service.Legality.{Command, submit, run}
use torq_pro_ai.Governance.Service.Traces.{here, next, command}
use torq_pro_ai.Prelude.{get_or}
use torq_pro_ai.Washer.Records.{open_, resolved}
use torq_pro_ai.Washer.Decisions.{WasherResolutionDecision}
use torq_pro_ai.Washer.Sync.{
  SyncResult, already_synchronized, result, synchronized, unwritten, Lineage, sync_idempotency_key,
  existing_event_matches, sync_new, sync_syncable, sync_washer_decision,
}
use torq_pro_ai.Washer.Reconciliation.{
  no_counts, ReconciliationReport, Source, reconcile_from, reconcile,
}
use torq_pro_ai.Washer.Reconciliation.Counting.{IsBalanced, reconcile-IsBalanced}
use torq_pro_ai.Washer.Sync.Again.{IsLater, sync_washer_decision_again}

discrete_of {ℓ} : {A : Type ℓ} ⦃e : Eq A⦄ → Discrete A
discrete_of a b = elim (Bool-cases (a == b)) [
  | inl t ↦ yes (beq→eq a b t)
  | inr f ↦
      no (λ e. absurd (let h : false ≡ true = sym f ∙ ap (λ x. a == x) (sym e) ∙ beq_refl a in cc))
]

instance abbrev in_memory : Backing
in_memory = record {
  Metadata = List (String × Option String);
  metadata_eq = enum_eq (List-discrete (×_discrete discrete_of discrete_of));
  no_metadata = [];
  Json = GovernanceEvent (List (String × Option String));
  model_dump = λ e. e;
  model_validate = λ e. some e;
  validate-dump = λ e h. refl;
}

instance abbrev pairs : Lineage
pairs = record {
  of_pairs = λ m. m;
  holds = λ m k v. get_default m k none == v;
  holds-of_pairs = λ m k v. refl;
}

abbrev decision : WasherResolutionDecision
decision = record {
  decision_id = "DEC-1";
  resolution_id = "WR-1";
  previous_status = open_;
  new_status = resolved;
  resolution_note = "measured again";
  evidence_reference = "lab-12";
  resolved_by = "mk";
  decided_at = "2024-05-06T07:08:09Z";
  confidence_level = none;
  integrity_checksum = "c0";
  idempotency_key = some "k-1";
}

abbrev empty_log : Option Store
empty_log = some (record { content = missing; writable = true })

-- the first synchronization
first : Option SyncResult × Option Store
unfolding append_str keep find_first last? is_blank is_space is_digit is_present run
    resolve_resolution reject_resolution waive_resolution resolution_command
    resolution_command_decision validate_resolution execute_transition persist_new event_of
    resolve_idempotency event_matches_request normalize_request effective_status latest_event
    event_history append find_by_idempotency_key find_by_decision_id events_for_aggregate all_events
    validate_all write_raw_atomic read_raw is_transition_allowed validate_required_fields
    validate_transition validate_resolution_decision make_resolution optional_timestamp_ok
    is_valid_utc_iso8601 match_rest match_pieces fits make_event ResolutionStatus-discrete
    LifecycleGroup-discrete resolution_of_value sync_idempotency_key existing_event_matches sync_new
    sync_syncable sync_washer_decision
first = sync_washer_decision decision false "2024-05-07T00:00:00Z" "EV-1" empty_log

first_step :
    sync_washer_decision decision false "2024-05-07T00:00:00Z" "EV-1" empty_log
    ≡ (some (result decision synchronized true false none (some "EV-1")), first.1)
unfolding first
first_step = refl

left_store : Store
unfolding first
left_store = get_or first.1 (record { content = missing; writable = true })

-- a command for something else, between the two
other_command : Command (List (String × Option String))
other_command =
    submit
      (record {
        aggregate_id = "joint-7";
        aggregate_type = "joint";
        decision_id = "d1";
        idempotency_key = "k1";
        occurred_at = "2024-05-07T12:00:00Z";
        metadata = none;
        event_id = none;
        fresh_id = "EV-3";
      })
      "ayse" none

later_store : Store
later_store = (run other_command left_store).1

later : IsLater first.1 (some later_store)
unfolding first left_store later_store
later = record {
  before = left_store;
  after = later_store;
  was = refl;
  is = refl;
  reached = next here (command other_command left_store);
}

-- the same decision, a day later
sync_washer_decision_again_example :
    sync_washer_decision decision false "2024-05-08T00:00:00Z" "EV-2" (some later_store)
    ≡ (some (unwritten decision already_synchronized), some later_store)
sync_washer_decision_again_example =
    sync_washer_decision_again decision false false "2024-05-07T00:00:00Z" "EV-1"
      "2024-05-08T00:00:00Z" "EV-2" (result decision synchronized true false none (some "EV-1"))
      refl empty_log first.1 (some later_store) first_step later

-- the decision twice in one reconciliation
abbrev sources : List Source
sources =
    record { decision = decision; synchronized_at = "2024-05-07T00:00:00Z"; fresh_id = "EV-1" }
    ∷ record { decision = decision; synchronized_at = "2024-05-08T00:00:00Z"; fresh_id = "EV-2" }
    ∷ []

reconciled : Option ReconciliationReport × Option Store
unfolding append_str keep find_first last? is_blank is_space is_digit is_present run
    resolve_resolution reject_resolution waive_resolution resolution_command
    resolution_command_decision validate_resolution execute_transition persist_new event_of
    resolve_idempotency event_matches_request normalize_request effective_status latest_event
    event_history append find_by_idempotency_key find_by_decision_id events_for_aggregate all_events
    validate_all write_raw_atomic read_raw is_transition_allowed validate_required_fields
    validate_transition validate_resolution_decision make_resolution optional_timestamp_ok
    is_valid_utc_iso8601 match_rest match_pieces fits make_event ResolutionStatus-discrete
    LifecycleGroup-discrete resolution_of_value sync_idempotency_key existing_event_matches sync_new
    sync_syncable sync_washer_decision reconcile_from reconcile
reconciled = reconcile sources false empty_log

abbrev report : ReconciliationReport
report = record {
  counters = record no_counts {
    scanned = 2;
    eligible = 2;
    synchronized_count = 1;
    already_synchronized_count = 1;
  };
  records =
      result decision synchronized true false none (some "EV-1")
      ∷ unwritten decision already_synchronized
      ∷ [];
  dry_run = false;
}

reconciled_step : reconcile sources false empty_log ≡ (some report, reconciled.1)
unfolding reconciled
reconciled_step = refl

reconcile-IsBalanced_example : IsBalanced report × ◌≡◌ {A = ℕ} 2 2
unfolding reconciled
reconcile-IsBalanced_example =
    reconcile-IsBalanced sources false empty_log reconciled.1 report reconciled_step
