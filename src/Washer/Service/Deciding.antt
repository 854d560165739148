-- ===== src/Washer/Service/Deciding.antt =====
-- How `decide_resolution` ends, and what a retry of a decided request is answered.
pub mod Retry
pub mod Statuses
pub mod Accepts
use torq_pro_ai.Prelude.{
  String, Bool, true, false, ◌||◌, Option, none, some, List, [], ◌∷◌, ◌++◌, ◌≡◌, refl, sym, ap,
  arith, Bool-cases, Option-cases, any, if◌then◌else◌, find_first, string_eq, ◌==◌, ◌⊎◌, inl, inr,
}
use torq_pro_ai.Prelude.Texts.{is_blank, is_empty_str}
use torq_pro_ai.Prelude.Exec.{
  Result, ok, raised, Result-cases, ok-injective, continue, lift, reads, ◌>>=◌, ◌>>◌,
}
use torq_pro_ai.Washer.Records.{
  WasherResolutionStatus, WasherError, missing_idempotency_key, idempotency_conflict,
  validation_error, duplicate_decision_id,
}
use torq_pro_ai.Washer.Digests.{Hashing, compute_checksum}
use torq_pro_ai.Washer.Decisions.{
  WasherResolutionDecision, make_decision, build_decision, decision_to_dict, validate_transition,
  validate_decision_fields, find_by_idempotency_key, recorded_under_key, record_decision,
  append_decision,
}
use torq_pro_ai.Washer.Service.{
  Ledgers, DecisionRequest, effective_status, same_request, decision_of, decide_new,
  decide_resolution, on_decisions,
}

-- some decision of the ledger has the identifier
abbrev pub is_used : String → List WasherResolutionDecision → Bool
is_used decision_id ledger = any (λ e. e.decision_id == decision_id) ledger

abbrev pub after_decision : Ledgers → WasherResolutionDecision → Ledgers
after_decision s d = record s { decisions = s.decisions ++ d ∷ [] }

module _ ⦃h : Hashing⦄ where
  -- the decision that a request makes of a resolution whose status is `previous`
  abbrev pub made : DecisionRequest → WasherResolutionStatus → WasherResolutionDecision
  made r previous =
      let d = decision_of r previous in
      record d { integrity_checksum = compute_checksum (decision_to_dict d) }

  -- What is known of a request that is recorded.
  pub record Decided (r : DecisionRequest) (s : Ledgers) : Type 0 where
    pub previous : WasherResolutionStatus
    pub status : effective_status s r.resolution_id ≡ ok previous
    pub legal : validate_transition previous r.new_status r.resolution_id ≡ ok tt
    pub complete :
        validate_decision_fields r.resolution_note r.evidence_reference (some r.resolved_by) ≡ ok tt
    pub key : (is_empty_str r.idempotency_key || is_blank r.idempotency_key) ≡ false
    pub no_key : find_by_idempotency_key s.decisions r.idempotency_key ≡ none
    pub no_decision : is_used r.decision_id s.decisions ≡ false

  -- The three ways in which a request ends.
  pub data Decides (r : DecisionRequest) (s : Ledgers)
      : Result WasherError (WasherResolutionDecision × Bool) × Ledgers → Type 0 where
    failed : (err : WasherError) → Decides r s (raised err, s)
    replayed :
        (d : WasherResolutionDecision)
        → find_by_idempotency_key s.decisions r.idempotency_key ≡ some d
        → same_request d r ≡ true
        → Decides r s (ok (d, false), s)
    decided :
        (k : Decided r s)
        → Decides r s (ok (made r k.previous, true), after_decision s (made r k.previous))

  build_decision-cases :
      (r : DecisionRequest) (p : WasherResolutionStatus)
      → (build_decision (decision_of r p) ≡ ok (made r p))
        ⊎ (build_decision (decision_of r p) ≡ raised validation_error)
  unfolding build_decision make_decision
  build_decision-cases r p = ground arith

  pub record_decision-new :
      (r : DecisionRequest) (p : WasherResolutionStatus) (ledger : List WasherResolutionDecision)
      → find_by_idempotency_key ledger r.idempotency_key ≡ none
      → is_used r.decision_id ledger ≡ false
      → record_decision (made r p) ledger ≡ (ok (made r p, true), ledger ++ made r p ∷ [])
  unfolding record_decision decision_of find_by_idempotency_key
  record_decision-new r p ledger k u = ground arith

  record_decision-duplicate :
      (r : DecisionRequest) (p : WasherResolutionStatus) (ledger : List WasherResolutionDecision)
      → find_by_idempotency_key ledger r.idempotency_key ≡ none
      → is_used r.decision_id ledger ≡ true
      → record_decision (made r p) ledger ≡ (raised (duplicate_decision_id r.decision_id), ledger)
  unfolding record_decision decision_of find_by_idempotency_key
  record_decision-duplicate r p ledger k u = ground arith

  module _ (r : DecisionRequest) (s : Ledgers)
      (key : (is_empty_str r.idempotency_key || is_blank r.idempotency_key) ≡ false)
      (no_key : find_by_idempotency_key s.decisions r.idempotency_key ≡ none) where
    recorded-Decides :
        (p : WasherResolutionStatus)
        → effective_status s r.resolution_id ≡ ok p
        → validate_transition p r.new_status r.resolution_id ≡ ok tt
        → validate_decision_fields r.resolution_note r.evidence_reference (some r.resolved_by)
          ≡ ok tt
        → Decides r s (on_decisions (record_decision (made r p)) s)
    recorded-Decides p st l c = elim (Bool-cases (is_used r.decision_id s.decisions)) [
      | inl u ↦ rw (record_decision-duplicate r p s.decisions no_key u) (failed _)
      | inr u ↦ rw (record_decision-new r p s.decisions no_key u) (
          decided (record {
            previous = p;
            status = st;
            legal = l;
            complete = c;
            key = key;
            no_key = no_key;
            no_decision = u;
          }))
    ]

    decide_new-Decides : Decides r s (decide_new r s)
    unfolding decide_new
    decide_new-Decides = elim (Result-cases (effective_status s r.resolution_id)) [
      | inr (err, bad) ↦ rw bad (failed err)
      | inl (p, st) ↦
          rw st elim (Result-cases (validate_transition p r.new_status r.resolution_id)) [
            | inr (err, bad) ↦ rw bad (failed err)
            | inl (tt, l) ↦
                rw l
                  elim (Result-cases (
                    validate_decision_fields r.resolution_note r.evidence_reference
                      (some r.resolved_by))) [
                        | inr (err, bad) ↦ rw bad (failed err)
                        | inl (tt, c) ↦ rw c elim (build_decision-cases r p) [
                          | inr bad ↦ rw bad (failed validation_error)
                          | inl b ↦ rw b (recorded-Decides p st l c)
                        ]
                      ]
          ]
    ]

  -- Every request ends in one of the three ways.
  pub decide_resolution-Decides :
      (r : DecisionRequest) (s : Ledgers) → Decides r s (decide_resolution r s)
  unfolding decide_resolution
  decide_resolution-Decides r s =
      elim (Bool-cases (is_empty_str r.idempotency_key || is_blank r.idempotency_key)) [
        | inl bad ↦ rw bad (failed missing_idempotency_key)
        | inr key ↦
            rw key elim (Option-cases (find_by_idempotency_key s.decisions r.idempotency_key)) [
              | inl k ↦ rw k (decide_new-Decides r s key k)
              | inr (d, k) ↦ rw k elim (Bool-cases (same_request d r)) [
                | inl m ↦ rw m (replayed d k m)
                | inr m ↦ rw m (failed (idempotency_conflict r.idempotency_key))
              ]
            ]
      ]

  Decides-Decided :
      (r : DecisionRequest) (s s' : Ledgers) (d : WasherResolutionDecision)
      {x : Result WasherError (WasherResolutionDecision × Bool) × Ledgers}
      → Decides r s x
      → x ≡ (ok (d, true), s')
      → (k : Decided r s) × (made r k.previous ≡ d) × (after_decision s d ≡ s')
  Decides-Decided r s s' d (failed err) q = absurd (cc)
  Decides-Decided r s s' d (replayed e f m) q = absurd (cc)
  Decides-Decided r s s' d (decided k) q =
      let same =
        ok-injective
          (ap (λ (y : Result WasherError (WasherResolutionDecision × Bool) × Ledgers). y.0) q) in
      let it = ap (λ (y : WasherResolutionDecision × Bool). y.0) same in
      (
        k,
        it,
        rw (← it)
            (ap (λ (y : Result WasherError (WasherResolutionDecision × Bool) × Ledgers). y.1) q),
      )

  pub decide_resolution-Decided :
      (r : DecisionRequest) (s s' : Ledgers) (d : WasherResolutionDecision)
      → decide_resolution r s ≡ (ok (d, true), s')
      → (k : Decided r s) × (made r k.previous ≡ d) × (after_decision s d ≡ s')
  decide_resolution-Decided r s s' d q = Decides-Decided r s s' d (decide_resolution-Decides r s) q
