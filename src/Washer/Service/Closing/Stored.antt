-- ===== src/Washer/Service/Closing/Stored.antt =====
-- What a stored closure is made of, and what a second request for it is answered.
use torq_pro_ai.Prelude.{
  String, true, false, none, some, List, [], ◌∷◌, ◌++◌, ◌≡◌, sym, ◌∙◌, ◌==◌, string_eq,
  find_first-append_one, beq_refl, last?,
}
use torq_pro_ai.Prelude.Exec.{ok, raised, checked-Yields, Yields, and_then-Yields, Yields-eq_ok}
use torq_pro_ai.Washer.Records.{
  WasherResolutionRecord, validation_error, get_washer_resolution, duplicate_closure,
}
use torq_pro_ai.Washer.Digests.{Hashing, normalize_required, compute_checksum}
use torq_pro_ai.Washer.Decisions.{is_blocked_source_status, WasherResolutionDecision}
use torq_pro_ai.Washer.Closures.{
  WasherResolutionClosure, ClosureRequest, make_closure, normalize_evidence_ids,
  verify_closure_integrity, closure_of, closure_to_dict, create_washer_resolution_closure,
  get_closure_for_resolution,
}
use torq_pro_ai.Washer.Service.{Ledgers}
use torq_pro_ai.Washer.Service.Closing.{existing_record, close_resolution, close_if_open}
use torq_pro_ai.Washer.Service.Closing.Readiness.{
  IsClosable, supporting_ids, evidence_of, history_of,
}
use torq_pro_ai.Washer.Service.Closing.Outcomes.{
  close_resolution-Closed, after_closure, close_if_open-some, existing_record-some,
}

-- The identifiers of a closure are those that its constructor was given, without the white space
-- around them.
abbrev Names : WasherResolutionClosure → WasherResolutionClosure → Type 0
Names x y =
    (normalize_required x.resolution_id ≡ ok y.resolution_id)
    × (normalize_evidence_ids x.evidence_ids ≡ ok y.evidence_ids)
    × (normalize_required x.decision_id ≡ ok y.decision_id)

make_closure-Names : (x : WasherResolutionClosure) → Yields (Names x) (make_closure x)
unfolding make_closure
make_closure-Names x = and_then-Yields _ (normalize_required x.closure_id) _ λ a _.
    and_then-Yields _ (normalize_required x.resolution_id) _ λ b resolution.
      and_then-Yields _ (normalize_required x.closure_rationale) _ λ c _.
        and_then-Yields _ (normalize_required x.closed_by) _ λ d _.
          and_then-Yields _ (normalize_required x.decision_id) _ λ e decision.
            and_then-Yields _ (normalize_evidence_ids x.evidence_ids) _ λ f evidence.
              checked-Yields (Names x) _ _ validation_error (resolution, evidence, decision)

module _ ⦃h : Hashing⦄ where
  -- What a stored closure is.
  pub record IsClosure (q : ClosureRequest) (s s' : Ledgers) (c : WasherResolutionClosure)
      : Type 0 where
    pub of_record : WasherResolutionRecord
    pub found : get_washer_resolution s.source q.resolution_id ≡ some of_record
    pub closable : IsClosable of_record s q.resolution_id
    pub last : WasherResolutionDecision
    pub is_last : last? (history_of s q.resolution_id) ≡ some last
    pub of_resolution : normalize_required q.resolution_id ≡ ok c.resolution_id
    pub evidence :
        normalize_evidence_ids (supporting_ids (evidence_of s q.resolution_id)) ≡ ok c.evidence_ids
    pub decision : normalize_required last.decision_id ≡ ok c.decision_id
    pub sound : verify_closure_integrity c ≡ true
    pub appended : after_closure s c ≡ s'

  -- the record that the factory hands to the model
  abbrev filled_closure : ClosureRequest → List String → String → WasherResolutionClosure
  filled_closure q ids i =
      let c = closure_of q ids i in
      record c { integrity_checksum = compute_checksum (closure_to_dict c) }

  created-Names :
      (q : ClosureRequest) (ids : List String) (i : String) (c : WasherResolutionClosure)
      → create_washer_resolution_closure q ids i ≡ ok c
      → (normalize_required q.resolution_id ≡ ok c.resolution_id)
        × (normalize_evidence_ids ids ≡ ok c.evidence_ids)
        × (normalize_required i ≡ ok c.decision_id)
  unfolding create_washer_resolution_closure closure_of
  created-Names q ids i c e =
      Yields-eq_ok (Names (closure_of q ids i)) (create_washer_resolution_closure q ids i)
        (make_closure-Names (filled_closure q ids i)) e

  -- A closure that is stored is of a resolution that was closable. Up to white space around them,
  -- its identifiers are those of that resolution, of its last decision, and of exactly its intact,
  -- verified evidence. Its checksum fits it, and it stands behind the closures that were there.
  pub close_resolution-IsClosure :
      (q : ClosureRequest) (s s' : Ledgers) (c : WasherResolutionClosure)
      → close_resolution q s ≡ (ok c, s')
      → IsClosure q s s' c
  close_resolution-IsClosure q s s' c e =
      let (k, after) = close_resolution-Closed q s s' c e in
      let (resolution, evidence, decision) = created-Names q _ _ c k.created in
      record {
        of_record = k.of_record;
        found = k.found;
        closable = k.closable;
        last = k.last;
        is_last = k.is_last;
        of_resolution = resolution;
        evidence = evidence;
        decision = decision;
        sound = k.sound;
        appended = after;
      }

  repeated :
      (q : ClosureRequest) (s : Ledgers) (w : WasherResolutionRecord) (c : WasherResolutionClosure)
      → existing_record s q.resolution_id ≡ ok w
      → is_blocked_source_status w.resolution_status ≡ false
      → close_if_open q s ≡ (raised (duplicate_closure q.resolution_id), s)
      → close_resolution q s ≡ (raised (duplicate_closure q.resolution_id), s)
  unfolding close_resolution
  repeated q s w c g u e = rw (g, u, e)

  get_closure_for_resolution-append :
      (closures : List WasherResolutionClosure) (c : WasherResolutionClosure) (a : String)
      → get_closure_for_resolution closures a ≡ none
      → c.resolution_id ≡ a
      → get_closure_for_resolution (closures ++ c ∷ []) a ≡ some c
  unfolding get_closure_for_resolution
  get_closure_for_resolution-append closures c a n e =
      find_first-append_one (λ x. x.resolution_id == a) closures c n (rw e (beq_refl a))

  -- Behind a stored closure of a resolution that is named without white space around it, every
  -- further request to close that resolution raises that it is closed, and writes nothing.
  pub close_resolution_again :
      (q r : ClosureRequest) (s s' : Ledgers) (c : WasherResolutionClosure)
      → close_resolution q s ≡ (ok c, s')
      → c.resolution_id ≡ q.resolution_id
      → r.resolution_id ≡ q.resolution_id
      → close_resolution r s' ≡ (raised (duplicate_closure r.resolution_id), s')
  close_resolution_again q r s s' c e same again =
      let (k, after) = close_resolution-Closed q s s' c e in
      rw (← after) (
        repeated r (after_closure s c) k.of_record c
          (existing_record-some (after_closure s c) r.resolution_id k.of_record (rw again k.found))
          k.closable.unblocked
          (close_if_open-some r (after_closure s c) c (
            get_closure_for_resolution-append s.closures c r.resolution_id
              (rw again k.closable.open_one) (same ∙ sym again))))
