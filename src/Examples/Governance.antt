-- ===== src/Examples/Governance.antt =====
-- A governance store in memory, and a review that is submitted and approved.
use text.Mathlib.TextEquality.{eq_iff}
use torq_pro_ai.Prelude.{
  ap, ◌≤◌, String, Bool, true, false, none, some, List, [], ◌∷◌, ◌≡◌, ◌≢◌, ◌↔◌, refl, arith,
  string_eq, length, keep, find_first, last?,
}
use torq_pro_ai.Prelude.Texts.{is_blank, is_space, is_digit, is_present}
use torq_pro_ai.Prelude.Exec.{Result, ok, raised}
use torq_pro_ai.Governance.Enums.{
  ReviewStatus, review, ReviewStatus-discrete, LifecycleGroup-discrete, review_of_value,
}
use torq_pro_ai.Governance.Errors.{GovernanceError, idempotency_conflict, duplicate_decision}
use torq_pro_ai.Governance.Events.{GovernanceEvent, Backing, make_event}
use torq_pro_ai.Governance.Timestamps.{
  is_valid_utc_iso8601, match_pieces, match_rest, fits, optional_timestamp_ok,
}
use torq_pro_ai.Governance.Decisions.{
  make_review, validate_review_decision, validate_transition, validate_required_fields,
}
use torq_pro_ai.Governance.Transitions.{is_transition_allowed}
use torq_pro_ai.Governance.Store.{
  Store, Event, payload, missing, read_raw, write_raw_atomic, validate_all, all_events,
  events_for_aggregate, find_by_decision_id, find_by_idempotency_key, append,
}
use torq_pro_ai.Governance.Service.{
  event_history, latest_event, effective_status, normalize_request, event_matches_request,
  resolve_idempotency, event_of, persist_new, execute_transition,
}
use torq_pro_ai.Governance.Service.Commands.{
  Call, validate_review, validate_publication, validate_resolution, submit_review, approve_review,
  reject_review, activate_publication, supersede_publication, archive_publication,
  resolve_resolution, reject_resolution, waive_resolution, submit_review_decision,
  approve_review_decision,
}
use torq_pro_ai.Governance.Service.Engine.{by_key, by_decision}
use torq_pro_ai.Governance.Service.{Normalized}
use torq_pro_ai.Governance.Log.{permits, moves, concerns, status_in}
use torq_pro_ai.Governance.Log.Terminal.{review_terminal_iff}
use torq_pro_ai.Governance.Log.Bounds.{max_events}
use torq_pro_ai.Governance.Timestamps.Matching.{is_valid_utc_iso8601-newline}
use torq_pro_ai.Governance.Service.Legality.{
  Command, run, submit, approve, transition_of, validator_of,
}
use torq_pro_ai.Governance.Service.Invariant.{IsSound, Grows, run-Grows}
use torq_pro_ai.Governance.Service.Retry.{
  run_retry, run_key_reuse, run_decision_reuse, run_empty_key_retry,
}
use torq_pro_ai.Governance.Service.Acceptance.{validator_of_iff}
use torq_pro_ai.Governance.Service.Outcomes.{Moved, run-Moved, run_terminal, run_goes_through}
use torq_pro_ai.Governance.Service.Traces.{
  new_store, Reaches, here, next, command, Reaches-IsSound, Reaches-length,
}

instance abbrev memory : Backing
memory = record {
  Metadata = String;
  metadata_eq = string_eq;
  no_metadata = "{}";
  Json = GovernanceEvent String;
  model_dump = λ e. e;
  model_validate = λ e. some e;
  validate-dump = λ e h. refl;
}

call : String → String → Call String
call decision key = record {
  aggregate_id = "joint-7";
  aggregate_type = "joint";
  decision_id = decision;
  idempotency_key = key;
  occurred_at = "2024-05-06T07:08:09.5Z";
  metadata = none;
  event_id = none;
  fresh_id = "f1";
}

abbrev submission : Command String
submission = submit (call "d1" "k1") "ayse" none

abbrev approval : Command String
approval = approve (call "d2" "k2") "mehmet" (some "ok")

abbrev empty_disk : Store
empty_disk = record { content = missing; writable = true }

-- runs a command with everything open
outcome : Command String → Store → Result GovernanceError (Event × Bool) × Store
unfolding call keep find_first last? is_blank is_space is_digit is_present run submit_review
    approve_review reject_review activate_publication supersede_publication archive_publication
    resolve_resolution reject_resolution waive_resolution submit_review_decision
    approve_review_decision validate_review validate_publication validate_resolution
    execute_transition persist_new event_of resolve_idempotency event_matches_request
    normalize_request effective_status latest_event event_history append find_by_idempotency_key
    find_by_decision_id events_for_aggregate all_events validate_all write_raw_atomic read_raw
    is_transition_allowed validate_required_fields validate_transition validate_review_decision
    make_review optional_timestamp_ok is_valid_utc_iso8601 match_rest match_pieces fits make_event
    ReviewStatus-discrete LifecycleGroup-discrete review_of_value by_key by_decision
outcome c d = run c d

first_event : Event
unfolding outcome
first_event = event_of (transition_of submission) "draft"

after_submission : Store
unfolding outcome
after_submission = record { content = payload (first_event ∷ []); writable = true }

submitted : run submission empty_disk ≡ (ok (first_event, true), after_submission)
unfolding outcome first_event after_submission
submitted = refl

retried : Command String
unfolding call
retried = submit (record (call "d1" "k1") { occurred_at = "2024-05-06T09:00:00Z" }) "ayse" none

other_request : Command String
unfolding call
other_request = submit (call "d9" "k1") "ayse" none

same_decision : Command String
unfolding call
same_decision = submit (call "d1" "k9") "ayse" none

after_approval : List Event
unfolding outcome
after_approval = first_event ∷ event_of (transition_of approval) "under_review" ∷ []

approved_store : Store
unfolding outcome after_approval
approved_store = record { content = payload after_approval; writable = true }

-- the approval moves the status on
approved_later : Reaches after_submission approved_store
unfolding outcome after_submission after_approval approved_store first_event
approved_later = next here (command approval after_submission)

-- the same submission, given again behind the approval
run_retry_example : run retried approved_store ≡ (ok (first_event, false), approved_store)
unfolding outcome retried first_event
run_retry_example =
    run_retry submission retried empty_disk after_submission approved_store first_event submitted
      approved_later refl refl refl

d1_ne_d9 : ◌≢◌ {A = String} "d9" "d1"
d1_ne_d9 = ground (arith, eq_iff "d9" "d1")

run_key_reuse_example :
    run other_request approved_store ≡ (raised (idempotency_conflict "k1"), approved_store)
unfolding outcome other_request first_event
run_key_reuse_example =
    run_key_reuse submission other_request empty_disk after_submission approved_store first_event
      submitted approved_later refl refl
      (λ h. d1_ne_d9 (ap (λ (n : Normalized String). n.decision_id) h))

run_decision_reuse_example :
    run same_decision approved_store ≡ (raised (duplicate_decision "d1"), approved_store)
unfolding outcome same_decision first_event after_approval approved_store
run_decision_reuse_example =
    run_decision_reuse submission same_decision empty_disk after_submission approved_store
      first_event after_approval submitted approved_later refl refl refl

keyless : Command String
unfolding call
keyless = submit (call "d1" "") "ayse" none

keyless_event : Event
unfolding outcome keyless
keyless_event = event_of (transition_of keyless) "draft"

after_keyless : Store
unfolding outcome
after_keyless = record { content = payload (keyless_event ∷ []); writable = true }

run_empty_key_retry_example :
    run keyless after_keyless ≡ (raised (duplicate_decision "d1"), after_keyless)
unfolding outcome keyless keyless_event after_keyless
run_empty_key_retry_example =
    run_empty_key_retry keyless empty_disk after_keyless after_keyless keyless_event refl here refl

run-Grows_example : Grows after_submission (run approval after_submission)
run-Grows_example = run-Grows approval after_submission

run-Moved_example : Moved (transition_of submission) empty_disk after_submission
run-Moved_example = run-Moved submission empty_disk after_submission first_event submitted

reached : Reaches (new_store true) (run approval (run submission (new_store true)).1).1
reached = next (next here (command submission _)) (command approval _)

Reaches-IsSound_example : IsSound (run approval (run submission (new_store true)).1).1
Reaches-IsSound_example = Reaches-IsSound true reached

read_after_approval :
    all_events (run approval (run submission (new_store true)).1).1 ≡ ok after_approval
unfolding outcome after_approval first_event
read_after_approval = refl

Reaches-length_example :
    length (keep (concerns "joint-7" review) after_approval) ≤ max_events review
Reaches-length_example =
    Reaches-length true (run approval (run submission (new_store true)).1).1 after_approval
      "joint-7" review reached read_after_approval

run_terminal_example :
    run approval (run approval (run submission (new_store true)).1).1
    ≢ (ok (first_event, true), after_submission)
unfolding outcome
run_terminal_example =
    run_terminal approval (run approval (run submission (new_store true)).1).1 after_submission
      first_event "approved" refl ((review_terminal_iff ReviewStatus.approved).0 refl)

validator_of_iff_example : (validator_of approval "under_review" ≡ ok tt) ↔ (
    (permits review "under_review" "approved" ≡ true)
    × (is_blank "mehmet" ≡ false)
    × (is_valid_utc_iso8601 "2024-05-06T07:08:09.5Z" ≡ true))
unfolding call
validator_of_iff_example = validator_of_iff approval "under_review"

run_goes_through_example :
    (d' : Store) × (run approval after_submission
      ≡ (ok (event_of (transition_of approval) "under_review", true), d'))
unfolding outcome after_submission first_event permits moves status_in
run_goes_through_example =
    run_goes_through approval after_submission (first_event ∷ []) refl refl refl refl refl refl refl

is_valid_utc_iso8601-newline_example : is_valid_utc_iso8601 "2024-05-06T07:08:09Z\n" ≡ true
unfolding outcome
is_valid_utc_iso8601-newline_example =
    is_valid_utc_iso8601-newline "2024-05-06T07:08:09Z" "2024-05-06T07:08:09Z\n" refl refl refl
