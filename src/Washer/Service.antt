-- ===== src/Washer/Service.antt =====
-- backend/library/washer_resolution_service.py: the operations that read and write the four ledgers
-- together. `uuid4` and the clock are the identifiers and the times of the requests. Its proofs are
-- in the modules below.
pub mod Closing
pub mod Deciding
pub mod Recording
pub mod Views
use torq_pro_ai.Prelude.{
  ℕ, String, Bool, true, false, ◌&&◌, ◌||◌, Option, none, some, List, [], ◌∷◌, map, string_eq,
  option_eq, ◌==◌, if◌then◌else◌, length, last?, find_first, contains,
}
use torq_pro_ai.Prelude.Texts.{is_blank, is_empty_str}
use torq_pro_ai.Prelude.Exec.{
  Result, ok, raised, and_then, Exec, pure, raise, lift, reads, continue, ◌>>=◌, ◌>>◌,
}
use torq_pro_ai.Washer.Records.{
  WasherIssueType, WasherResolutionStatus, blocked_authoritative_source, status_eq, ConfidenceLevel,
  confidence_eq, terminal_statuses, WasherResolutionRecord, get_washer_resolution, WasherError,
  missing_idempotency_key, idempotency_conflict, resolution_not_found, stop_iteration,
}
use torq_pro_ai.Washer.Digests.{Hashing}
use torq_pro_ai.Washer.Decisions.{
  validate_transition, validate_decision_fields, WasherResolutionDecision, build_decision,
  decisions_for_resolution, find_by_idempotency_key, record_decision,
}
use torq_pro_ai.Washer.Evidence.{WasherResolutionEvidence}
use torq_pro_ai.Washer.Closures.{WasherResolutionClosure}

-- The files of the four ledgers.
pub record Ledgers : Type 0 where
  pub source : List WasherResolutionRecord
  pub decisions : List WasherResolutionDecision
  pub evidence : List WasherResolutionEvidence
  pub closures : List WasherResolutionClosure

-- a write of the decision ledger
abbrev pub on_decisions :
    {A : Type 0} → Exec (List WasherResolutionDecision) WasherError A → Exec Ledgers WasherError A
on_decisions f s = let (r, l) = f s.decisions in (r, record s { decisions = l })

-- a write of the evidence ledger
abbrev pub on_evidence :
    {A : Type 0} → Exec (List WasherResolutionEvidence) WasherError A → Exec Ledgers WasherError A
on_evidence f s = let (r, l) = f s.evidence in (r, record s { evidence = l })

-- a write of the closure ledger
abbrev pub on_closures :
    {A : Type 0} → Exec (List WasherResolutionClosure) WasherError A → Exec Ledgers WasherError A
on_closures f s = let (r, l) = f s.closures in (r, record s { closures = l })

-- `history[-1].new_status if history else record.resolution_status`
unfoldable pub current_status :
    WasherResolutionRecord → List WasherResolutionDecision → WasherResolutionStatus
current_status r history = elim (last? history) [
  | none ↦ r.resolution_status
  | some d ↦ d.new_status
]

unfoldable pub effective_status : Ledgers → String → Result WasherError WasherResolutionStatus
effective_status s resolution_id = elim (get_washer_resolution s.source resolution_id) [
  | none ↦ raised (resolution_not_found resolution_id)
  | some r ↦ ok (current_status r (decisions_for_resolution s.decisions resolution_id))
]

-- The keyword arguments of `decide_resolution`, and what one call generates.
pub record DecisionRequest : Type 0 where
  pub resolution_id : String
  pub new_status : WasherResolutionStatus
  pub resolution_note : String
  pub evidence_reference : String
  pub resolved_by : String
  pub idempotency_key : String
  pub confidence_level : Option ConfidenceLevel
  pub decision_id : String
  pub decided_at : String

unfoldable pub same_request : WasherResolutionDecision → DecisionRequest → Bool
same_request existing r =
    existing.resolution_id == r.resolution_id
    && existing.new_status == r.new_status
    && existing.resolution_note == r.resolution_note
    && existing.evidence_reference == r.evidence_reference
    && existing.resolved_by == r.resolved_by
    && existing.confidence_level == r.confidence_level

unfoldable pub decision_of : DecisionRequest → WasherResolutionStatus → WasherResolutionDecision
decision_of r previous = record {
  decision_id = r.decision_id;
  resolution_id = r.resolution_id;
  previous_status = previous;
  new_status = r.new_status;
  resolution_note = r.resolution_note;
  evidence_reference = r.evidence_reference;
  resolved_by = r.resolved_by;
  decided_at = r.decided_at;
  confidence_level = r.confidence_level;
  integrity_checksum = "";
  idempotency_key = some r.idempotency_key;
}

module _ ⦃h : Hashing⦄ where
  -- step 3 of `decide_resolution`
  unfoldable pub decide_new :
      DecisionRequest → Exec Ledgers WasherError (WasherResolutionDecision × Bool)
  decide_new r = do
    previous ← reads (λ s. effective_status s r.resolution_id)
    lift (validate_transition previous r.new_status r.resolution_id)
    lift (validate_decision_fields r.resolution_note r.evidence_reference (some r.resolved_by))
    decision ← lift (build_decision (decision_of r previous))
    on_decisions (record_decision decision)

  -- the new decision with `true`, or the decision of the same request with `false`
  unfoldable pub decide_resolution :
      DecisionRequest → Exec Ledgers WasherError (WasherResolutionDecision × Bool)
  decide_resolution r s =
      if is_empty_str r.idempotency_key || is_blank r.idempotency_key
      then (raised missing_idempotency_key, s)
      else elim (find_by_idempotency_key s.decisions r.idempotency_key) [
        | some replay ↦
            if same_request replay r
            then (ok (replay, false), s)
            else (raised (idempotency_conflict r.idempotency_key), s)
        | none ↦ decide_new r s
      ]

pub record QueueRow : Type 0 where
  pub resolution_id : String
  pub washer_record_id : String
  pub issue_type : WasherIssueType
  pub source_status : WasherResolutionStatus
  pub effective_status : WasherResolutionStatus
  pub decision_count : ℕ
  pub is_blocked : Bool
  pub is_terminal : Bool
  pub requires_authoritative_source : Bool

unfoldable pub queue_row : List WasherResolutionDecision → WasherResolutionRecord → QueueRow
queue_row ledger r =
    let history = decisions_for_resolution ledger r.resolution_id in
    let current = current_status r history in
    record {
      resolution_id = r.resolution_id;
      washer_record_id = r.washer_record_id;
      issue_type = r.issue_type;
      source_status = r.resolution_status;
      effective_status = current;
      decision_count = length history;
      is_blocked = r.resolution_status == blocked_authoritative_source;
      is_terminal = contains current terminal_statuses;
      requires_authoritative_source = r.requires_authoritative_source;
    }

unfoldable pub resolution_queue : Ledgers → List QueueRow
resolution_queue s = map (queue_row s.decisions) s.source

-- The dict of `resolution_detail`: the fields of the record, and those of its row.
pub record Detail : Type 0 where
  pub of_record : WasherResolutionRecord
  pub of_row : QueueRow

-- `next` raises `StopIteration` on a queue without the row
unfoldable pub resolution_detail : Ledgers → String → Result WasherError (Option Detail)
resolution_detail s resolution_id = elim (get_washer_resolution s.source resolution_id) [
  | none ↦ ok none
  | some r ↦ (elim (find_first (λ row. row.resolution_id == resolution_id) (resolution_queue s)) [
    | none ↦ raised stop_iteration
    | some row ↦ ok (some (record { of_record = r; of_row = row }))
  ])
]
