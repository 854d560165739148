-- ===== src/Washer/Service/Deciding/Statuses.antt =====
-- What a recorded decision does to the statuses of the resolutions.
use torq_pro_ai.Prelude.{
  String, true, false, some, List, [], ◌∷◌, ◌++◌, ◌≡◌, ◌≢◌, refl, ◌∙◌, arith, string_eq, ◌==◌,
  beq_refl, ne→beq, last?-append_one, keep, keep-append, append-nil, Option-cases, inl, inr,
}
use torq_pro_ai.Prelude.Exec.{ok}
use torq_pro_ai.Washer.Records.{
  WasherResolutionStatus, WasherResolutionRecord, get_washer_resolution, status_eq,
}
use torq_pro_ai.Washer.Digests.{Hashing}
use torq_pro_ai.Washer.Decisions.{
  WasherResolutionDecision, decisions_for_resolution, is_transition_allowed,
  is_blocked_source_status, validate_transition,
}
use torq_pro_ai.Washer.Service.{
  Ledgers, DecisionRequest, decision_of, decide_resolution, effective_status, current_status,
}
use torq_pro_ai.Washer.Service.Deciding.{made, after_decision, Decided, decide_resolution-Decided}

pub decisions_for_resolution-append_own :
    (ledger : List WasherResolutionDecision) (d : WasherResolutionDecision) (a : String)
    → d.resolution_id ≡ a
    → decisions_for_resolution (ledger ++ d ∷ []) a ≡ decisions_for_resolution ledger a ++ d ∷ []
unfolding decisions_for_resolution keep
decisions_for_resolution-append_own ledger d a e =
    keep-append (λ x. x.resolution_id == a) ledger (d ∷ []) ∙ rw (e, beq_refl a)

pub decisions_for_resolution-append_other :
    (ledger : List WasherResolutionDecision) (d : WasherResolutionDecision) (a : String)
    → d.resolution_id ≢ a
    → decisions_for_resolution (ledger ++ d ∷ []) a ≡ decisions_for_resolution ledger a
unfolding decisions_for_resolution keep
decisions_for_resolution-append_other ledger d a ne =
    keep-append (λ x. x.resolution_id == a) ledger (d ∷ [])
    ∙ rw (ne→beq d.resolution_id a ne) (append-nil _)

current_status-append :
    (w : WasherResolutionRecord) (ds : List WasherResolutionDecision) (d : WasherResolutionDecision)
    → current_status w (ds ++ d ∷ []) ≡ d.new_status
unfolding current_status
current_status-append w ds d = ground (arith, last?-append_one ds d)

pub effective_status-eq_ok :
    (s : Ledgers) (a : String) (p : WasherResolutionStatus)
    → effective_status s a ≡ ok p
    → (w : WasherResolutionRecord) × (get_washer_resolution s.source a ≡ some w)
      × (current_status w (decisions_for_resolution s.decisions a) ≡ p)
unfolding effective_status
effective_status-eq_ok s a p e = elim (Option-cases (get_washer_resolution s.source a)) [
  | inl g ↦ absurd (ground arith)
  | inr (w, g) ↦ (w, g, ground arith)
]

effective_status-found :
    (s : Ledgers) (a : String) (w : WasherResolutionRecord)
    → get_washer_resolution s.source a ≡ some w
    → effective_status s a ≡ ok (current_status w (decisions_for_resolution s.decisions a))
unfolding effective_status
effective_status-found s a w g = ground arith

effective_status-after_own :
    (s : Ledgers) (d : WasherResolutionDecision) (p : WasherResolutionStatus)
    → effective_status s d.resolution_id ≡ ok p
    → effective_status (after_decision s d) d.resolution_id ≡ ok d.new_status
effective_status-after_own s d p e =
    let (w, g, _) = effective_status-eq_ok s d.resolution_id p e in
    effective_status-found (after_decision s d) d.resolution_id w g
    ∙ rw (
      decisions_for_resolution-append_own s.decisions d d.resolution_id refl,
      current_status-append w (decisions_for_resolution s.decisions d.resolution_id) d,
    )

effective_status-after_other :
    (s : Ledgers) (d : WasherResolutionDecision) (a : String)
    → d.resolution_id ≢ a
    → effective_status (after_decision s d) a ≡ effective_status s a
unfolding effective_status
effective_status-after_other s d a ne =
    ground (arith, decisions_for_resolution-append_other s.decisions d a ne)

-- What a recorded decision says and does: it starts from the status of its resolution, which is
-- not blocked and may go to the requested one; its resolution has that status then, and every
-- other resolution the status that it had.
pub record Moves ⦃h : Hashing⦄ (r : DecisionRequest) (s s' : Ledgers) (d : WasherResolutionDecision)
    : Type 0 where
  pub before : effective_status s r.resolution_id ≡ ok d.previous_status
  pub legal : is_transition_allowed d.previous_status r.new_status ≡ true
  pub unblocked : is_blocked_source_status d.previous_status ≡ false
  pub after : effective_status s' r.resolution_id ≡ ok r.new_status
  pub others : (a : String) → r.resolution_id ≢ a → effective_status s' a ≡ effective_status s a

pub validate_transition-eq_ok :
    (p n : WasherResolutionStatus) (a : String)
    → validate_transition p n a ≡ ok tt
    → (is_blocked_source_status p ≡ false) × (is_transition_allowed p n ≡ true)
unfolding validate_transition
validate_transition-eq_ok p n a e = ground arith

module _ ⦃h : Hashing⦄ where
  made-Moves :
      (r : DecisionRequest) (s : Ledgers) (k : Decided r s)
      → Moves r s (after_decision s (made r k.previous)) (made r k.previous)
  unfolding decision_of
  made-Moves r s k =
      let (open_one, legal) =
        validate_transition-eq_ok k.previous r.new_status r.resolution_id k.legal in
      record {
        before = k.status;
        legal = legal;
        unblocked = open_one;
        after = effective_status-after_own s (made r k.previous) k.previous k.status;
        others = effective_status-after_other s (made r k.previous);
      }

  -- A recorded decision starts from the effective status of its resolution, which is not blocked
  -- and which the table lets go to the requested one. The effective status of the resolution is the
  -- requested one then, and that of every other resolution is what it was.
  pub decide_resolution-Moves :
      (r : DecisionRequest) (s s' : Ledgers) (d : WasherResolutionDecision)
      → decide_resolution r s ≡ (ok (d, true), s')
      → Moves r s s' d
  decide_resolution-Moves r s s' d q =
      let (k, it, after) = decide_resolution-Decided r s s' d q in
      rw (← after, ← it) (made-Moves r s k)
