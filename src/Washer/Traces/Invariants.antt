-- ===== src/Washer/Traces/Invariants.antt =====
-- What holds of the ledgers in every run of the service.
use torq_pro_ai.Prelude.{
  String, Bool, true, false, not, ◌&&◌, ◌||◌, some, List, [], ◌∷◌, ◌++◌, ◌≡◌, refl, sym, arith, ◌∙◌,
  ◌==◌, string_eq, beq_refl, keep, All, All-append, inl, inr, Bool-cases, beq→eq,
}
use torq_pro_ai.Prelude.Exec.{Result}
use torq_pro_ai.Washer.Records.{
  WasherResolutionStatus, WasherResolutionRecord, WasherError, get_washer_resolution,
}
use torq_pro_ai.Washer.Digests.{Hashing, compute_checksum}
use torq_pro_ai.Washer.Decisions.{
  WasherResolutionDecision, decision_to_dict, verify_integrity, decisions_for_resolution,
}
use torq_pro_ai.Washer.Evidence.{WasherResolutionEvidence, unverified, EvidenceRequest}
use torq_pro_ai.Washer.Closures.{WasherResolutionClosure, ClosureRequest}
use torq_pro_ai.Washer.Service.{Ledgers, DecisionRequest, decision_of}
use torq_pro_ai.Washer.Service.Closing.Outcomes.{
  Closes, failed, closed, close_resolution-Closes, is_closed,
}
use torq_pro_ai.Washer.Service.Deciding.{
  made, Decided, Decides, failed as undecided, replayed, decided, decide_resolution-Decides,
}
use torq_pro_ai.Washer.Service.Deciding.Statuses.{
  effective_status-eq_ok, validate_transition-eq_ok, decisions_for_resolution-append_own,
  decisions_for_resolution-append_other,
}
use torq_pro_ai.Washer.Service.Recording.{
  Records, failed as unrecorded, recorded, record_resolution_evidence-Records,
}
use torq_pro_ai.Washer.Audit.{IsChain, IsChain-append, status_behind_lem}
use torq_pro_ai.Washer.Traces.{Operation, decide, record_evidence, close, act}

-- no two closures are of one resolution
unfoldable pub is_closed_once : List WasherResolutionClosure → Bool
is_closed_once [] = true
is_closed_once (c ∷ cs) = not (is_closed c.resolution_id cs) && is_closed_once cs

is_closed-append :
    (a : String) (cs : List WasherResolutionClosure) (c : WasherResolutionClosure)
    → is_closed a (cs ++ c ∷ []) ≡ (is_closed a cs || c.resolution_id == a)
is_closed-append a [] c = ground arith
is_closed-append a (x ∷ cs) c = ground (arith, is_closed-append a cs c)

eq_sym : (a b : String) → (a == b) ≡ true → (b == a) ≡ true
eq_sym a b h = rw (beq→eq a b h) (beq_refl b)

is_closed_once-append :
    (cs : List WasherResolutionClosure) (c : WasherResolutionClosure)
    → is_closed_once cs ≡ true
    → is_closed c.resolution_id cs ≡ false
    → is_closed_once (cs ++ c ∷ []) ≡ true
unfolding is_closed_once
is_closed_once-append [] c o f = refl
is_closed_once-append (x ∷ cs) c o f = ground (
  arith,
  is_closed_once-append cs c,
  is_closed-append x.resolution_id cs c,
  eq_sym c.resolution_id x.resolution_id,
)

module _ ⦃h : Hashing⦄ where
  -- The decisions of every resolution of the source ledger are a legal audit trail from the status
  -- that it has there, every decision is intact, no evidence is verified, and no resolution is
  -- closed twice.
  pub record IsAudited (source : List WasherResolutionRecord) (s : Ledgers) : Type 0 where
    pub same_source : s.source ≡ source
    pub audited :
        (a : String) (w : WasherResolutionRecord)
        → get_washer_resolution source a ≡ some w
        → IsChain w.resolution_status (decisions_for_resolution s.decisions a)
    pub intact : All (λ d. verify_integrity d ≡ true) s.decisions
    pub unverified_only : All (λ e. e.verification_status ≡ unverified) s.evidence
    pub once : is_closed_once s.closures ≡ true

  made-verifies :
      (r : DecisionRequest) (p : WasherResolutionStatus) → verify_integrity (made r p) ≡ true
  unfolding verify_integrity compute_checksum decision_to_dict keep
  made-verifies r p = beq_refl (made r p).integrity_checksum

  module _ (source : List WasherResolutionRecord) (s : Ledgers) (k : IsAudited source s) where
    IsChain-made :
        (r : DecisionRequest) (j : Decided r s) (a : String) (w : WasherResolutionRecord)
        → get_washer_resolution source a ≡ some w
        → r.resolution_id ≡ a
        → IsChain w.resolution_status
            (decisions_for_resolution s.decisions a ++ made r j.previous ∷ [])
    unfolding decision_of
    IsChain-made r j a w g e =
        let (w', g', c) = effective_status-eq_ok s r.resolution_id j.previous j.status in
        let (_, legal) =
          validate_transition-eq_ok j.previous r.new_status r.resolution_id j.legal in
        let same : w' ≡ w = cc (g, g', k.same_source, e) in
        IsChain-append w.resolution_status (decisions_for_resolution s.decisions a)
          (made r j.previous) (k.audited a w g)
          (sym c
            ∙ rw (same, e) (sym (status_behind_lem w (decisions_for_resolution s.decisions a))))
          legal

    IsChain-after_decision :
        (r : DecisionRequest) (j : Decided r s) (a : String) (w : WasherResolutionRecord)
        → get_washer_resolution source a ≡ some w
        → IsChain w.resolution_status
            (decisions_for_resolution (s.decisions ++ made r j.previous ∷ []) a)
    unfolding decision_of
    IsChain-after_decision r j a w g = elim (Bool-cases (r.resolution_id == a)) [
      | inl t ↦
          rw
            (decisions_for_resolution-append_own s.decisions (made r j.previous) a
              (beq→eq r.resolution_id a t))
            (IsChain-made r j a w g (beq→eq r.resolution_id a t))
      | inr f ↦
          rw
            (decisions_for_resolution-append_other s.decisions (made r j.previous) a
              (λ e. cc (f, e, beq_refl a)))
            (k.audited a w g)
    ]

    decided-IsAudited :
        (r : DecisionRequest) {x : Result WasherError (WasherResolutionDecision × Bool) × Ledgers}
        → Decides r s x
        → IsAudited source x.1
    decided-IsAudited r (undecided err) = k
    decided-IsAudited r (replayed d f m) = k
    decided-IsAudited r (decided j) = record {
      same_source = k.same_source;
      audited = IsChain-after_decision r j;
      intact =
          All-append _ s.decisions (made r j.previous ∷ []) k.intact
            (made-verifies r j.previous, tt);
      unverified_only = k.unverified_only;
      once = k.once;
    }

    recorded-IsAudited :
        (q : EvidenceRequest) {x : Result WasherError WasherResolutionEvidence × Ledgers}
        → Records q s x
        → IsAudited source x.1
    recorded-IsAudited q (unrecorded err) = k
    recorded-IsAudited q (recorded e j) = record {
      same_source = k.same_source;
      audited = k.audited;
      intact = k.intact;
      unverified_only = All-append _ s.evidence (e ∷ []) k.unverified_only (j.status, tt);
      once = k.once;
    }

    closed-IsAudited :
        (q : ClosureRequest) {x : Result WasherError WasherResolutionClosure × Ledgers}
        → Closes q s x
        → IsAudited source x.1
    closed-IsAudited q (failed err) = k
    closed-IsAudited q (closed c j) = record {
      same_source = k.same_source;
      audited = k.audited;
      intact = k.intact;
      unverified_only = k.unverified_only;
      once = is_closed_once-append s.closures c k.once j.fresh;
    }

    pub act-IsAudited : (o : Operation) → IsAudited source (act o s)
    unfolding act
    act-IsAudited (decide r) = decided-IsAudited r (decide_resolution-Decides r s)
    act-IsAudited (record_evidence q) =
        recorded-IsAudited q (record_resolution_evidence-Records q s)
    act-IsAudited (close q) = closed-IsAudited q (close_resolution-Closes q s)
