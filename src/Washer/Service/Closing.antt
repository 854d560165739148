-- ===== src/Washer/Service/Closing.antt =====
-- backend/library/washer_resolution_service.py: evidence for a resolution, the readiness of a
-- resolution to be closed, and its closure.
pub mod Readiness
pub mod Outcomes
pub mod Stored
use torq_pro_ai.Prelude.{
  ℕ, String, Bool, true, false, Option, none, some, List, [], ◌∷◌, ◌++◌, ◌==◌, if◌then◌else◌,
  length, last?, contains, is_empty,
}
use torq_pro_ai.Prelude.Exec.{
  Result, ok, raised, and_then, Exec, pure, raise, lift, reads, continue, ◌>>=◌, ◌>>◌,
}
use torq_pro_ai.Washer.Records.{
  WasherResolutionStatus, status_eq, terminal_statuses, WasherResolutionRecord,
  get_washer_resolution, Reason, blocked_source, no_decision_record, no_verified_evidence,
  no_decision_id, not_terminal, corrupted_evidence, has_closure, WasherError, resolution_not_found,
  blocked_record_decision, evidence_integrity, duplicate_closure, closure_integrity,
  closure_not_ready,
}
use torq_pro_ai.Washer.Digests.{Hashing}
use torq_pro_ai.Washer.Decisions.{
  is_blocked_source_status, WasherResolutionDecision, decisions_for_resolution,
}
use torq_pro_ai.Washer.Evidence.{
  WasherResolutionEvidence, verified, rejected, unverified, EvidenceRequest,
  verify_evidence_integrity, create_washer_resolution_evidence, evidence_for_resolution,
  append_evidence,
}
use torq_pro_ai.Washer.Closures.{
  WasherResolutionClosure, ClosureRequest, verify_closure_integrity,
  create_washer_resolution_closure, get_closure_for_resolution, append_closure,
}
use torq_pro_ai.Washer.Service.{Ledgers, on_evidence, on_closures, current_status}

-- `if wr.get_washer_resolution(resolution_id) is None: raise ResolutionNotFoundError`
unfoldable pub existing_record : Ledgers → String → Result WasherError WasherResolutionRecord
existing_record s resolution_id = elim (get_washer_resolution s.source resolution_id) [
  | none ↦ raised (resolution_not_found resolution_id)
  | some r ↦ ok r
]

-- The four lists of `evaluate_closure_readiness`.
pub record EvidenceIds : Type 0 where
  pub verified_ids : List String
  pub unverified_ids : List String
  pub rejected_ids : List String
  pub corrupted_ids : List String

abbrev no_ids : EvidenceIds
no_ids = record { verified_ids = []; unverified_ids = []; rejected_ids = []; corrupted_ids = [] }

pub record ClosureReadiness : Type 0 where
  pub resolution_id : String
  pub effective_status : WasherResolutionStatus
  pub is_ready : Bool
  pub decision_id : Option String
  pub evidence_ids : EvidenceIds
  pub blocking_reasons : List Reason

abbrev reason_if : Bool → Reason → List Reason
reason_if true reason = reason ∷ []
reason_if false reason = []

-- the identifier of the last decision, where the status is terminal
unfoldable pub terminal_decision :
    WasherResolutionStatus → List WasherResolutionDecision → Option String
terminal_decision current history =
    if contains current terminal_statuses
    then elim (last? history) [ none ↦ none | some d ↦ some d.decision_id ]
    else none

unfoldable pub status_reasons : WasherResolutionStatus → List WasherResolutionDecision → List Reason
status_reasons current history =
    if contains current terminal_statuses
    then reason_if (is_empty history) no_decision_record
    else not_terminal current ∷ []

abbrev closure_reasons : Option WasherResolutionClosure → List Reason
closure_reasons none = []
closure_reasons (some c) = has_closure c.closure_id ∷ []

module _ ⦃h : Hashing⦄ where
  -- where the loop puts one record
  unfoldable pub classify_one : WasherResolutionEvidence → EvidenceIds → EvidenceIds
  classify_one e ids =
      if verify_evidence_integrity e
      then elim e.verification_status [
        | verified ↦ record ids { verified_ids = e.evidence_id ∷ ids.verified_ids }
        | rejected ↦ record ids { rejected_ids = e.evidence_id ∷ ids.rejected_ids }
        | unverified ↦ record ids { unverified_ids = e.evidence_id ∷ ids.unverified_ids }
      ]
      else record ids { corrupted_ids = e.evidence_id ∷ ids.corrupted_ids }

  -- the loop over the evidence of a resolution
  unfoldable pub classify : List WasherResolutionEvidence → EvidenceIds
  unfolding classify_one
  classify [] = no_ids
  classify (e ∷ es) = classify_one e (classify es)

  unfoldable pub readiness_of : WasherResolutionRecord → Ledgers → String → ClosureReadiness
  readiness_of r s resolution_id =
      let history = decisions_for_resolution s.decisions resolution_id in
      let current = current_status r history in
      let ids = classify (evidence_for_resolution s.evidence resolution_id) in
      let reasons =
        reason_if (is_blocked_source_status r.resolution_status) blocked_source
        ++ status_reasons current history
        ++ (if is_empty ids.corrupted_ids
            then []
            else corrupted_evidence (length ids.corrupted_ids) ∷ [])
        ++ reason_if (is_empty ids.verified_ids) no_verified_evidence
        ++ closure_reasons (get_closure_for_resolution s.closures resolution_id) in
      record {
        resolution_id = resolution_id;
        effective_status = current;
        is_ready = is_empty reasons;
        decision_id = terminal_decision current history;
        evidence_ids = ids;
        blocking_reasons = reasons;
      }

  unfoldable pub evaluate_closure_readiness : Ledgers → String → Result WasherError ClosureReadiness
  evaluate_closure_readiness s resolution_id =
      and_then (existing_record s resolution_id) λ r. ok (readiness_of r s resolution_id)

  -- the last two statements of `record_resolution_evidence`
  unfoldable pub persist_evidence :
      WasherResolutionEvidence → Exec Ledgers WasherError WasherResolutionEvidence
  persist_evidence e =
      if verify_evidence_integrity e
      then on_evidence (append_evidence e)
      else raise (evidence_integrity e.evidence_id)

  unfoldable pub record_resolution_evidence :
      EvidenceRequest → Exec Ledgers WasherError WasherResolutionEvidence
  record_resolution_evidence q = do
    reads (λ s. existing_record s q.resolution_id)
    e ← lift (create_washer_resolution_evidence q)
    persist_evidence e

  -- the loop of `resolution_evidence_for`
  unfoldable pub check_integrity : List WasherResolutionEvidence → Result WasherError Unit
  check_integrity [] = ok tt
  check_integrity (e ∷ es) =
      if verify_evidence_integrity e
      then check_integrity es
      else raised (evidence_integrity e.evidence_id)

  unfoldable pub resolution_evidence_for :
      Ledgers → String → Result WasherError (List WasherResolutionEvidence)
  resolution_evidence_for s resolution_id = and_then (existing_record s resolution_id) λ _.
      let records = evidence_for_resolution s.evidence resolution_id in
      and_then (check_integrity records) λ _. ok records

  -- step 6 of `close_resolution`
  unfoldable pub append_if_sound :
      String → WasherResolutionClosure → Exec Ledgers WasherError WasherResolutionClosure
  append_if_sound resolution_id c =
      if verify_closure_integrity c
      then on_closures (append_closure c)
      else raise (closure_integrity resolution_id)

  -- steps 5 and 6 of `close_resolution`
  unfoldable pub persist_closure :
      ClosureRequest → ClosureReadiness → String → Exec Ledgers WasherError WasherResolutionClosure
  persist_closure q readiness decision_id = do
    c ← lift (create_washer_resolution_closure q readiness.evidence_ids.verified_ids decision_id)
    append_if_sound q.resolution_id c

  -- step 4, and what follows where it passes
  unfoldable pub close_if_ready :
      ClosureRequest → ClosureReadiness → Exec Ledgers WasherError WasherResolutionClosure
  close_if_ready q readiness =
      if readiness.is_ready
      then elim readiness.decision_id [
        | some decision_id ↦ persist_closure q readiness decision_id
        | none ↦ raise (closure_not_ready q.resolution_id (no_decision_id ∷ []))
      ]
      else raise (closure_not_ready q.resolution_id readiness.blocking_reasons)

  -- step 3, and what follows where it passes
  unfoldable pub close_if_open : ClosureRequest → Exec Ledgers WasherError WasherResolutionClosure
  close_if_open q s = elim (get_closure_for_resolution s.closures q.resolution_id) [
    | some _ ↦ (raised (duplicate_closure q.resolution_id), s)
    | none ↦ continue (evaluate_closure_readiness s q.resolution_id) (close_if_ready q) s
  ]

  unfoldable pub close_resolution :
      ClosureRequest → Exec Ledgers WasherError WasherResolutionClosure
  close_resolution q = do
    r ← reads (λ s. existing_record s q.resolution_id)
    if is_blocked_source_status r.resolution_status
        then raise (blocked_record_decision q.resolution_id)
        else close_if_open q

  unfoldable pub get_resolution_closure :
      Ledgers → String → Result WasherError (Option WasherResolutionClosure)
  get_resolution_closure s resolution_id = and_then (existing_record s resolution_id) λ _.
      elim (get_closure_for_resolution s.closures resolution_id) [
        | none ↦ ok none
        | some c ↦
            if verify_closure_integrity c
            then ok (some c)
            else raised (closure_integrity resolution_id)
      ]
