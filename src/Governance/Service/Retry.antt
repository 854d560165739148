-- ===== src/Governance/Service/Retry.antt =====
-- Idempotency: what a request finds when it, or one with its key or decision, was stored before.
use torq_pro_ai.Prelude.{
  String, true, false, none, some, List, ◌≡◌, ◌≢◌, refl, sym, ◌∙◌, string_eq, option_eq, inl, inr,
  beq_refl, Bool-cases,
}
use torq_pro_ai.Prelude.{beq→eq, &&-split}
use torq_pro_ai.Prelude.Int.{int_eq}
use torq_pro_ai.Prelude.Texts.{is_empty_str}
use torq_pro_ai.Prelude.Exec.{Result, ok, raised, ok-injective}
use torq_pro_ai.Governance.Enums.{group_value}
use torq_pro_ai.Governance.Errors.{GovernanceError, idempotency_conflict, duplicate_decision}
use torq_pro_ai.Governance.Events.{Backing}
use torq_pro_ai.Governance.Store.{Event, Store, all_events}
use torq_pro_ai.Governance.Log.{status_in}
use torq_pro_ai.Governance.Service.{
  metadata_or, Transition, Normalized, event_of, execute_transition, event_matches_request,
  normalize_request,
}
use torq_pro_ai.Governance.Service.Engine.{
  by_key, by_decision, resolve_in-replay, resolve_in-conflict, resolve_in-duplicate,
  resolve_idempotency_lem,
}
use torq_pro_ai.Governance.Service.Legality.{Command, run, run_lem, transition_of, validator_of}
use torq_pro_ai.Governance.Service.Traces.{Reaches}
use torq_pro_ai.Governance.Service.Found.{ran, held, log_later, found_by_key, found_by_decision}

module _ ⦃b : Backing⦄ where
  -- An event matches the request that it was made of.
  matches_own :
      (t : Transition b.Metadata) (p : String)
      → event_matches_request (event_of t p) (normalize_request t) ≡ true
  unfolding event_matches_request event_of normalize_request
  matches_own t p =
      rw
        (
          beq_refl t.aggregate_id,
          beq_refl t.aggregate_type,
          beq_refl (group_value t.lifecycle_group),
          beq_refl t.decision_id,
          beq_refl t.new_status,
          beq_refl t.actor,
          beq_refl t.review_comment,
          beq_refl t.change_reason,
          beq_refl t.revision_no,
          beq_refl t.supersedes_id,
          beq_refl t.superseded_by_id,
        )
        ((b.metadata_eq.beq_iff _ _).1 refl)

  -- An event matches no other request than the one that it was made of.
  matches_only_own :
      (t : Transition b.Metadata) (p : String) (n : Normalized b.Metadata)
      → event_matches_request (event_of t p) n ≡ true
      → n ≡ normalize_request t
  unfolding event_matches_request event_of normalize_request
  matches_only_own t p n h =
      let (r11, h11) = &&-split _ _ h in
      let (r10, h10) = &&-split _ _ r11 in
      let (r9, h9) = &&-split _ _ r10 in
      let (r8, h8) = &&-split _ _ r9 in
      let (r7, h7) = &&-split _ _ r8 in
      let (r6, h6) = &&-split _ _ r7 in
      let (r5, h5) = &&-split _ _ r6 in
      let (r4, h4) = &&-split _ _ r5 in
      let (r3, h3) = &&-split _ _ r4 in
      let (r2, h2) = &&-split _ _ r3 in
      let (r1, h1) = &&-split _ _ r2 in
      λ i. record {
        aggregate_id = sym (beq→eq t.aggregate_id n.aggregate_id r1) i;
        aggregate_type = sym (beq→eq t.aggregate_type n.aggregate_type h1) i;
        lifecycle_group = sym (beq→eq (group_value t.lifecycle_group) n.lifecycle_group h2) i;
        decision_id = sym (beq→eq t.decision_id n.decision_id h3) i;
        new_status = sym (beq→eq t.new_status n.new_status h4) i;
        actor = sym (beq→eq t.actor n.actor h5) i;
        review_comment = sym (beq→eq t.review_comment n.review_comment h6) i;
        change_reason = sym (beq→eq t.change_reason n.change_reason h7) i;
        revision_no = sym (beq→eq t.revision_no n.revision_no h8) i;
        supersedes_id = sym (beq→eq t.supersedes_id n.supersedes_id h9) i;
        superseded_by_id = sym (beq→eq t.superseded_by_id n.superseded_by_id h10) i;
        metadata = sym ((b.metadata_eq.beq_iff (metadata_or t.metadata) n.metadata).0 h11) i;
      }

  module _ (t : Transition b.Metadata) (v : String → Result GovernanceError Unit) (d : Store)
      (es : List Event) (e : Event) (read : all_events d ≡ ok es) where
    execute_known :
        by_key t.idempotency_key es ≡ some e
        → event_matches_request e (normalize_request t) ≡ true
        → execute_transition t v d ≡ (ok (e, false), d)
    unfolding execute_transition
    execute_known k m = rw (resolve_idempotency_lem d es t read, resolve_in-replay es t e k m)

    execute_conflict :
        by_key t.idempotency_key es ≡ some e
        → event_matches_request e (normalize_request t) ≡ false
        → execute_transition t v d ≡ (raised (idempotency_conflict t.idempotency_key), d)
    unfolding execute_transition
    execute_conflict k m = rw (resolve_idempotency_lem d es t read, resolve_in-conflict es t e k m)

    execute_duplicate :
        by_key t.idempotency_key es ≡ none
        → by_decision t.decision_id es ≡ some e
        → execute_transition t v d ≡ (raised (duplicate_decision t.decision_id), d)
    unfolding execute_transition
    execute_duplicate k i =
        rw (resolve_idempotency_lem d es t read, resolve_in-duplicate es t e k i)

  -- A command that stored an event under a key that is not empty, given again with that key and
  -- the same normalized request (the timestamp and the event id may differ) to any store that the
  -- one it left came to by further commands and changes of access, returns that event as a replay,
  -- and writes nothing.
  pub run_retry :
      (c c' : Command b.Metadata) (d d' d'' : Store) (e : Event)
      → run c d ≡ (ok (e, true), d')
      → Reaches d' d''
      → is_empty_str (transition_of c).idempotency_key ≡ false
      → (transition_of c').idempotency_key ≡ (transition_of c).idempotency_key
      → normalize_request (transition_of c') ≡ normalize_request (transition_of c)
      → run c' d'' ≡ (ok (e, false), d'')
  run_retry c c' d d' d'' e first later full key same =
      let t = transition_of c in
      let s = ran c d d' d'' e first later in
      rw (run_lem c') (
        execute_known (transition_of c') (validator_of c') d'' (log_later c d d' d'' e first later)
          e (held c d d' d'' e first later).read
          (rw key (found_by_key c d d' d'' e first later full))
          (rw (same, s.event) (matches_own t (status_in s.log t.aggregate_id t.lifecycle_group))))

  -- The key of a stored event, which is not empty, given again with another normalized request to
  -- any store that was reached since, raises the conflict of that key, and nothing is written.
  pub run_key_reuse :
      (c c' : Command b.Metadata) (d d' d'' : Store) (e : Event)
      → run c d ≡ (ok (e, true), d')
      → Reaches d' d''
      → is_empty_str (transition_of c).idempotency_key ≡ false
      → (transition_of c').idempotency_key ≡ (transition_of c).idempotency_key
      → normalize_request (transition_of c') ≢ normalize_request (transition_of c)
      → run c' d'' ≡ (raised (idempotency_conflict (transition_of c').idempotency_key), d'')
  run_key_reuse c c' d d' d'' e first later full key other =
      let t = transition_of c in
      let s = ran c d d' d'' e first later in
      rw (run_lem c') (
        execute_conflict (transition_of c') (validator_of c') d''
          (log_later c d d' d'' e first later) e (held c d d' d'' e first later).read
          (rw key (found_by_key c d d' d'' e first later full))
          (elim (Bool-cases (event_matches_request e (normalize_request (transition_of c')))) [
            | inl m ↦ absurd (
                other (
                  matches_only_own t (status_in s.log t.aggregate_id t.lifecycle_group) _
                    (rw s.event at m)))
            | inr m ↦ m
          ]))

  -- The decision of a stored event, given again to any store that was reached since, under a key
  -- that no event of that store has, or under the empty key, raises the duplicate decision, and
  -- nothing is written.
  pub run_decision_reuse :
      (c c' : Command b.Metadata) (d d' d'' : Store) (e : Event) (es : List Event)
      → run c d ≡ (ok (e, true), d')
      → Reaches d' d''
      → (transition_of c').decision_id ≡ (transition_of c).decision_id
      → all_events d'' ≡ ok es
      → by_key (transition_of c').idempotency_key es ≡ none
      → run c' d'' ≡ (raised (duplicate_decision (transition_of c').decision_id), d'')
  run_decision_reuse c c' d d' d'' e es first later decision read unseen = rw (run_lem c') (
      execute_duplicate (transition_of c') (validator_of c') d'' es e read unseen (
        rw (decision, ok-injective (sym read ∙ (held c d d' d'' e first later).read))
          (found_by_decision c d d' d'' e first later)))

  -- A command with the empty key that stored an event raises the duplicate of its decision when it
  -- is given again to any store that was reached since, and nothing is written.
  pub run_empty_key_retry :
      (c : Command b.Metadata) (d d' d'' : Store) (e : Event)
      → run c d ≡ (ok (e, true), d')
      → Reaches d' d''
      → is_empty_str (transition_of c).idempotency_key ≡ true
      → run c d'' ≡ (raised (duplicate_decision (transition_of c).decision_id), d'')
  unfolding by_key
  run_empty_key_retry c d d' d'' e first later empty =
      run_decision_reuse c c d d' d'' e (log_later c d d' d'' e first later) first later refl
        (held c d d' d'' e first later).read (rw empty)
