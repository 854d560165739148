-- ===== src/Examples/Washer.antt =====
-- A source ledger of three washer records, a decision, evidence, and a closure.
use text.Mathlib.TextEquality.{eq_iff}
use torq_pro_ai.Prelude.{
  String, Bool, true, false, none, some, List, [], ◌∷◌, map, ◌≡◌, ◌≢◌, ◌↔◌, refl, arith, string_eq,
  option_eq, ◌==◌, if◌then◌else◌, keep, find_first, last?, contains, Bool-cases, inl, inr,
}
use torq_pro_ai.Prelude.Texts.{is_blank, is_space, is_digit, strip, lstrip, rstrip}
use torq_pro_ai.Prelude.Exec.{Result, ok, raised}
use torq_pro_ai.Governance.Timestamps.{
  is_valid_utc_iso8601, match_pieces, match_rest, fits, optional_timestamp_ok,
}
use torq_pro_ai.Washer.Records.{
  WasherIssueType, WasherResolutionStatus, open_, resolved, blocked_authoritative_source,
  WasherResolutionStatus-discrete, ConfidenceLevel-discrete, WasherResolutionRecord,
  get_washer_resolution, WasherError, blocked_record_decision, evidence_integrity,
  duplicate_closure,
}
use torq_pro_ai.Washer.Digests.{
  Json, string, Payload, match_hex, is_valid_sha256_hex, Hashing, compute_checksum,
  normalize_required, normalize_optional, normalize_url,
}
use torq_pro_ai.Washer.Decisions.{
  is_blocked_source_status, is_transition_allowed, validate_transition, missing_fields,
  validate_decision_fields, WasherResolutionDecision, make_decision, decision_to_dict,
  build_decision, decisions_for_resolution, find_by_idempotency_key, recorded_under_key,
  record_decision,
}
use torq_pro_ai.Washer.Evidence.{
  EvidenceType, verified, unverified, EvidenceType-discrete, WasherResolutionEvidence,
  EvidenceRequest, unverified_evidence, make_evidence, normalize_fields, verification_fields_match,
  evidence_to_dict, verify_evidence_integrity, create_washer_resolution_evidence,
  evidence_for_resolution, append_evidence,
}
use torq_pro_ai.Washer.Closures.{
  WasherResolutionClosure, ClosureRequest, make_closure, normalize_all, has_no_duplicates,
  normalize_evidence_ids, closure_to_dict, closure_of, verify_closure_integrity,
  create_washer_resolution_closure, get_closure_for_resolution, append_closure,
}
use torq_pro_ai.Washer.Service.{
  Ledgers, current_status, effective_status, DecisionRequest, same_request, decision_of, decide_new,
  decide_resolution, Detail, resolution_detail,
}
use torq_pro_ai.Washer.Service.Closing.{
  existing_record, classify_one, classify, terminal_decision, status_reasons, readiness_of,
  evaluate_closure_readiness, ClosureReadiness, persist_evidence, record_resolution_evidence,
  append_if_sound, persist_closure, close_if_ready, close_if_open, close_resolution,
}
use torq_pro_ai.Washer.Service.Closing.Readiness.{
  IsClosable, supports, supporting_ids, evidence_of, evaluate_closure_readiness_iff,
}
use torq_pro_ai.Washer.Service.Closing.Outcomes.{after_closure}
use torq_pro_ai.Washer.Service.Closing.Stored.{
  IsClosure, close_resolution-IsClosure, close_resolution_again,
}
use torq_pro_ai.Washer.Service.Deciding.{made, after_decision}
use torq_pro_ai.Washer.Service.Deciding.Statuses.{Moves, decide_resolution-Moves}
use torq_pro_ai.Washer.Service.Deciding.Accepts.{
  decide_resolution_accepts, decide_resolution_blocked,
}
use torq_pro_ai.Washer.Service.Recording.{after_evidence}
use torq_pro_ai.Washer.Service.Recording.Integrity.{
  filled, record_resolution_evidence_clean, record_resolution_evidence_padded,
}
use torq_pro_ai.Washer.Service.Views.{resolution_detail_lem}
use torq_pro_ai.Washer.Audit.{is_final}
use torq_pro_ai.Washer.Traces.{decide, act, new_ledgers, Reaches, here, next}
use torq_pro_ai.Washer.Traces.Invariants.{IsAudited}
use torq_pro_ai.Washer.Traces.Verdicts.{
  Reaches-IsAudited, Reaches-undecided, Reaches-never_reopened, Reaches-never_closed,
}

abbrev zeros : String
zeros = "0000000000000000000000000000000000000000000000000000000000000000"

abbrev ones : String
ones = "1111111111111111111111111111111111111111111111111111111111111111"

-- a digest that tells a payload with a padded title from the others
abbrev title_of : Json → String
title_of (string s) = s
title_of _ = ""

abbrev is_padded : Payload → Bool
is_padded p = contains " ISO 7089" (map (λ x. title_of x.1) (keep (λ x. x.0 == "title") p))

abbrev hash : Payload → String
hash p = if is_padded p then ones else zeros

hash-hex : (p : Payload) → is_valid_sha256_hex (hash p) ≡ true
unfolding is_valid_sha256_hex match_hex
hash-hex p = elim (Bool-cases (is_padded p)) [ inl t ↦ rw t refl | inr f ↦ rw f refl ]

instance abbrev hashing : Hashing
hashing = record { digest = hash; digest-hex = hash-hex }

abbrev washer : String → WasherResolutionStatus → WasherResolutionRecord
washer resolution_id status = record {
  resolution_id = resolution_id;
  washer_record_id = "W-7089";
  issue_type = WasherIssueType.source_missing;
  reason_code = none;
  resolution_status = status;
  resolution_note = "";
  evidence_reference = "";
  resolved_standard = none;
  resolved_by = "";
  resolved_at = "";
  confidence_level = none;
  requires_authoritative_source = false;
}

abbrev washers : List WasherResolutionRecord
washers = washer "R-1" open_ ∷ washer "R-2" blocked_authoritative_source ∷ []

abbrev start : Ledgers
start = new_ledgers washers

abbrev noon : String
noon = "2026-01-02T12:00:00.000000Z"

abbrev request : DecisionRequest
request = record {
  resolution_id = "R-1";
  new_status = resolved;
  resolution_note = "checked";
  evidence_reference = "ISO 7089";
  resolved_by = "mk";
  idempotency_key = "k-1";
  confidence_level = none;
  decision_id = "DEC-1";
  decided_at = noon;
}

abbrev decision : WasherResolutionDecision
decision = made request open_

abbrev decided_ledgers : Ledgers
decided_ledgers = after_decision start decision

-- runs an operation with everything open
outcome : DecisionRequest → Ledgers → Result WasherError (WasherResolutionDecision × Bool) × Ledgers
unfolding keep find_first last? is_blank is_space is_digit strip lstrip rstrip is_valid_utc_iso8601
    match_pieces match_rest fits optional_timestamp_ok WasherResolutionStatus-discrete
    ConfidenceLevel-discrete EvidenceType-discrete get_washer_resolution match_hex
    is_valid_sha256_hex compute_checksum normalize_required normalize_optional normalize_url
    is_blocked_source_status is_transition_allowed validate_transition missing_fields
    validate_decision_fields make_decision decision_to_dict build_decision decisions_for_resolution
    find_by_idempotency_key recorded_under_key record_decision unverified_evidence make_evidence
    normalize_fields verification_fields_match evidence_to_dict verify_evidence_integrity
    create_washer_resolution_evidence evidence_for_resolution append_evidence make_closure
    normalize_all has_no_duplicates normalize_evidence_ids closure_to_dict closure_of
    verify_closure_integrity create_washer_resolution_closure get_closure_for_resolution
    append_closure current_status effective_status same_request decision_of decide_new
    decide_resolution existing_record classify_one classify terminal_decision status_reasons
    readiness_of evaluate_closure_readiness persist_evidence record_resolution_evidence
    append_if_sound persist_closure close_if_ready close_if_open close_resolution supports
    supporting_ids is_final act
outcome r s = decide_resolution r s

washer_found : get_washer_resolution washers "R-1" ≡ some (washer "R-1" open_)
unfolding outcome
washer_found = refl

first_decision : decide_resolution request start ≡ (ok (decision, true), decided_ledgers)
unfolding outcome
first_decision = refl

abbrev other_request : DecisionRequest
other_request = record request { resolution_note = "other" }

decide_resolution-Moves_example : Moves request start decided_ledgers decision
decide_resolution-Moves_example =
    decide_resolution-Moves request start decided_ledgers decision first_decision

decide_resolution_accepts_example :
    decide_resolution request start
    ≡ (ok (made request open_, true), after_decision start (made request open_))
unfolding outcome
decide_resolution_accepts_example =
    decide_resolution_accepts request start open_ refl refl refl refl refl refl refl refl refl refl

abbrev blocked_request : DecisionRequest
blocked_request = record request { resolution_id = "R-2" }

decide_resolution_blocked_example :
    decide_resolution blocked_request start ≡ (raised (blocked_record_decision "R-2"), start)
unfolding outcome
decide_resolution_blocked_example =
    decide_resolution_blocked blocked_request start blocked_authoritative_source refl refl refl refl

act-request : act (decide request) start ≡ decided_ledgers
unfolding outcome
act-request = refl

decided_ledgers-Reaches : Reaches washers decided_ledgers
decided_ledgers-Reaches = rw (← act-request) (next (decide request) start here)

Reaches-IsAudited_example : IsAudited washers decided_ledgers
Reaches-IsAudited_example = Reaches-IsAudited washers decided_ledgers decided_ledgers-Reaches

Reaches-undecided_example : decisions_for_resolution decided_ledgers.decisions "R-2" ≡ []
unfolding outcome
Reaches-undecided_example =
    Reaches-undecided washers decided_ledgers "R-2" (washer "R-2" blocked_authoritative_source)
      decided_ledgers-Reaches refl refl

Reaches-never_reopened_example : ◌≡◌ {A = List WasherResolutionDecision} [] []
unfolding outcome
Reaches-never_reopened_example =
    Reaches-never_reopened washers decided_ledgers "R-1" (washer "R-1" open_) [] [] decision
      decided_ledgers-Reaches refl refl refl

abbrev closure_request : ClosureRequest
closure_request = record {
  resolution_id = "R-1";
  closure_rationale = "done";
  closed_by = "mk";
  closure_id = "CLR-1";
  closed_at = noon;
}

Reaches-never_closed_example :
    (err : WasherError) × (close_resolution closure_request decided_ledgers
      ≡ (raised err, decided_ledgers))
Reaches-never_closed_example =
    Reaches-never_closed washers decided_ledgers closure_request decided_ledgers-Reaches

abbrev evidence_request : EvidenceRequest
evidence_request = record {
  resolution_id = "R-1";
  evidence_type = EvidenceType.manufacturer_document;
  title = "ISO 7089";
  description = "page 3";
  source_reference = "catalogue";
  created_by = "mk";
  source_locator = none;
  source_url = some "https://example.org";
  source_standard = none;
  evidence_id = "WRE-1";
  created_at = noon;
}

record_resolution_evidence_clean_example :
    record_resolution_evidence evidence_request start
    ≡ (ok (filled evidence_request), after_evidence start (filled evidence_request))
unfolding outcome
record_resolution_evidence_clean_example =
    record_resolution_evidence_clean evidence_request start (washer "R-1" open_) refl refl refl

abbrev padded_request : EvidenceRequest
padded_request = record evidence_request { title = " ISO 7089" }

abbrev padded_evidence : WasherResolutionEvidence
padded_evidence = record {
  evidence_id = "WRE-1";
  resolution_id = "R-1";
  evidence_type = EvidenceType.manufacturer_document;
  title = "ISO 7089";
  description = "page 3";
  source_reference = "catalogue";
  source_locator = none;
  source_url = some "https://example.org";
  source_standard = none;
  verification_status = unverified;
  verified_by = none;
  verified_at = none;
  created_by = "mk";
  created_at = noon;
  integrity_checksum = ones;
}

digests-differ :
    compute_checksum (evidence_to_dict (unverified_evidence padded_request))
    ≢ compute_checksum (evidence_to_dict padded_evidence)
unfolding outcome
digests-differ e = ground (arith, e, eq_iff ones zeros)

record_resolution_evidence_padded_example :
    record_resolution_evidence padded_request start ≡ (raised (evidence_integrity "WRE-1"), start)
unfolding outcome
record_resolution_evidence_padded_example =
    record_resolution_evidence_padded padded_request start (washer "R-1" open_) padded_evidence refl
      refl digests-differ

abbrev verified_evidence : WasherResolutionEvidence
verified_evidence = record padded_evidence {
  verification_status = verified;
  verified_by = some "qa";
  verified_at = some noon;
  integrity_checksum = zeros;
}

-- ledgers that hold verified evidence for a resolved record
abbrev closable_ledgers : Ledgers
closable_ledgers = record decided_ledgers { evidence = verified_evidence ∷ [] }

abbrev closure : WasherResolutionClosure
closure = record {
  closure_id = "CLR-1";
  resolution_id = "R-1";
  closure_status = "closed";
  closure_rationale = "done";
  closed_by = "mk";
  closed_at = noon;
  evidence_ids = "WRE-1" ∷ [];
  decision_id = "DEC-1";
  integrity_checksum = zeros;
}

first_closure :
    close_resolution closure_request closable_ledgers
    ≡ (ok closure, after_closure closable_ledgers closure)
unfolding outcome
first_closure = refl

evaluate_closure_readiness_iff_example :
    (ready : ClosureReadiness) × (evaluate_closure_readiness closable_ledgers "R-1" ≡ ok ready)
    × ((ready.is_ready ≡ true) ↔ IsClosable (washer "R-1" open_) closable_ledgers "R-1")
    × (ready.evidence_ids.verified_ids ≡ supporting_ids (evidence_of closable_ledgers "R-1"))
evaluate_closure_readiness_iff_example =
    evaluate_closure_readiness_iff (washer "R-1" open_) closable_ledgers "R-1" washer_found

close_resolution-IsClosure_example :
    IsClosure closure_request closable_ledgers (after_closure closable_ledgers closure) closure
close_resolution-IsClosure_example =
    close_resolution-IsClosure closure_request closable_ledgers
      (after_closure closable_ledgers closure) closure first_closure

close_resolution_again_example :
    close_resolution closure_request (after_closure closable_ledgers closure)
    ≡ (raised (duplicate_closure "R-1"), after_closure closable_ledgers closure)
close_resolution_again_example =
    close_resolution_again closure_request closure_request closable_ledgers
      (after_closure closable_ledgers closure) closure first_closure refl refl

resolution_detail_lem_example :
    (d : Detail) × (resolution_detail decided_ledgers "R-1" ≡ ok (some d))
    × (d.of_record ≡ washer "R-1" open_)
    × (effective_status decided_ledgers "R-1" ≡ ok d.of_row.effective_status)
resolution_detail_lem_example =
    resolution_detail_lem decided_ledgers "R-1" (washer "R-1" open_) washer_found
