-- ===== src/Washer/Service/Closing/Readiness.antt =====
-- When a resolution is ready to be closed, without the loop and the list of reasons.
use torq_pro_ai.Prelude.{
  String, Bool, true, false, ◌&&◌, none, some, List, [], ◌∷◌, map, ◌≡◌, ◌↔◌, refl, arith,
  if◌then◌else◌, keep, all, is_empty, contains, inl, inr, ◌⊎◌, Option-cases,
}
use torq_pro_ai.Prelude.Exec.{ok}
use torq_pro_ai.Washer.Records.{
  status_eq, WasherResolutionRecord, terminal_statuses, get_washer_resolution,
}
use torq_pro_ai.Washer.Digests.{Hashing}
use torq_pro_ai.Washer.Decisions.{
  is_blocked_source_status, WasherResolutionDecision, decisions_for_resolution,
}
use torq_pro_ai.Washer.Evidence.{
  WasherResolutionEvidence, EvidenceVerificationStatus, verified, rejected, unverified,
  verification_eq, verify_evidence_integrity, evidence_for_resolution,
}
use torq_pro_ai.Washer.Closures.{get_closure_for_resolution}
use torq_pro_ai.Washer.Service.{Ledgers, current_status}
use torq_pro_ai.Washer.Service.Closing.{
  EvidenceIds, ClosureReadiness, classify, classify_one, readiness_of, status_reasons,
  evaluate_closure_readiness, existing_record,
}

abbrev pub is_verified : EvidenceVerificationStatus → Bool
is_verified verified = true
is_verified rejected = false
is_verified unverified = false

module _ ⦃h : Hashing⦄ where
  -- the evidence that counts for a closure
  unfoldable pub supports : WasherResolutionEvidence → Bool
  supports e = verify_evidence_integrity e && is_verified e.verification_status

  unfoldable pub supporting_ids : List WasherResolutionEvidence → List String
  supporting_ids es = map (λ e. e.evidence_id) (keep supports es)

  -- The evidence of a resolution and its history, as the closure reads them.
  abbrev pub evidence_of : Ledgers → String → List WasherResolutionEvidence
  evidence_of s a = evidence_for_resolution s.evidence a

  abbrev pub history_of : Ledgers → String → List WasherResolutionDecision
  history_of s a = decisions_for_resolution s.decisions a

  -- A resolution that is not blocked, whose effective status is terminal by a decision, all of
  -- whose evidence is intact, some of it verified, and which has no closure.
  pub record IsClosable (w : WasherResolutionRecord) (s : Ledgers) (a : String) : Type 0 where
    pub unblocked : is_blocked_source_status w.resolution_status ≡ false
    pub terminal : contains (current_status w (history_of s a)) terminal_statuses ≡ true
    pub decided : is_empty (history_of s a) ≡ false
    pub intact : all verify_evidence_integrity (evidence_of s a) ≡ true
    pub supported : is_empty (supporting_ids (evidence_of s a)) ≡ false
    pub open_one : get_closure_for_resolution s.closures a ≡ none

  status-cases :
      (v : EvidenceVerificationStatus) → (v ≡ verified) ⊎ ((v ≡ rejected) ⊎ (v ≡ unverified))
  status-cases verified = inl refl
  status-cases rejected = inr (inl refl)
  status-cases unverified = inr (inr refl)

  classify_one-verified :
      (e : WasherResolutionEvidence) (ids : EvidenceIds)
      → (classify_one e ids).verified_ids
        ≡ (if supports e then e.evidence_id ∷ ids.verified_ids else ids.verified_ids)
  unfolding classify_one supports
  classify_one-verified e ids = ground (arith, status-cases e.verification_status)

  classify_one-corrupted :
      (e : WasherResolutionEvidence) (ids : EvidenceIds)
      → (classify_one e ids).corrupted_ids ≡ (
          if verify_evidence_integrity e
          then ids.corrupted_ids
          else e.evidence_id ∷ ids.corrupted_ids)
  unfolding classify_one
  classify_one-corrupted e ids = ground (arith, status-cases e.verification_status)

  pub classify-verified :
      (es : List WasherResolutionEvidence) → (classify es).verified_ids ≡ supporting_ids es
  unfolding classify supporting_ids keep
  classify-verified [] = refl
  classify-verified (e ∷ es) =
      ground (arith, classify_one-verified e (classify es), classify-verified es)

  pub classify-corrupted :
      (es : List WasherResolutionEvidence)
      → is_empty (classify es).corrupted_ids ≡ all verify_evidence_integrity es
  unfolding classify
  classify-corrupted [] = refl
  classify-corrupted (e ∷ es) =
      ground (arith, classify_one-corrupted e (classify es), classify-corrupted es)

  module _ (w : WasherResolutionRecord) (s : Ledgers) (a : String) where
    ready-IsClosable : (readiness_of w s a).is_ready ≡ true → IsClosable w s a
    unfolding readiness_of status_reasons
    ready-IsClosable r =
        let v = classify-verified (evidence_of s a) in
        let c = classify-corrupted (evidence_of s a) in
        record {
          unblocked = ground (arith, r);
          terminal = ground (arith, r);
          decided = ground (arith, r);
          intact = ground (arith, r, v, c);
          supported = ground (arith, r, v, c);
          open_one = ground (arith, r, Option-cases (get_closure_for_resolution s.closures a));
        }

    IsClosable-ready : IsClosable w s a → (readiness_of w s a).is_ready ≡ true
    unfolding readiness_of status_reasons
    IsClosable-ready k = ground (
      arith,
      k.unblocked,
      k.terminal,
      k.decided,
      k.intact,
      k.supported,
      k.open_one,
      classify-verified (evidence_of s a),
      classify-corrupted (evidence_of s a),
    )

    pub readiness_iff : ((readiness_of w s a).is_ready ≡ true) ↔ IsClosable w s a
    readiness_iff = (ready-IsClosable, IsClosable-ready)

    evaluate_lem :
        get_washer_resolution s.source a ≡ some w
        → evaluate_closure_readiness s a ≡ ok (readiness_of w s a)
    unfolding evaluate_closure_readiness existing_record
    evaluate_lem g = ground arith

    verified_lem : (readiness_of w s a).evidence_ids.verified_ids ≡ supporting_ids (evidence_of s a)
    unfolding readiness_of
    verified_lem = classify-verified (evidence_of s a)

    -- Of a resolution that the source ledger has, the readiness is computed. It is ready exactly
    -- where the resolution is not blocked, its status is terminal by a decision, its evidence is
    -- all intact and some of it verified, and no closure exists; and its verified identifiers are
    -- those of the intact, verified evidence, in its order.
    pub evaluate_closure_readiness_iff :
        get_washer_resolution s.source a ≡ some w
        → (ready : ClosureReadiness) × (evaluate_closure_readiness s a ≡ ok ready)
          × ((ready.is_ready ≡ true) ↔ IsClosable w s a)
          × (ready.evidence_ids.verified_ids ≡ supporting_ids (evidence_of s a))
    evaluate_closure_readiness_iff g =
        (readiness_of w s a, evaluate_lem g, readiness_iff, verified_lem)
