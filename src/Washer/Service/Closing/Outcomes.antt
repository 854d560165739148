-- ===== src/Washer/Service/Closing/Outcomes.antt =====
-- How `close_resolution` ends.
use torq_pro_ai.Prelude.{
  String, Bool, true, false, none, some, List, [], ◌∷◌, ◌++◌, ◌≡◌, ap, arith, ◌==◌, string_eq,
  if◌then◌else◌, any, Bool-cases, Option-cases, inl, inr, last?,
}
use torq_pro_ai.Prelude.Exec.{Result, ok, raised, Result-cases, ok-injective, continue}
use torq_pro_ai.Washer.Records.{
  WasherResolutionRecord, status_eq, get_washer_resolution, WasherError, resolution_not_found,
  duplicate_closure, closure_integrity,
}
use torq_pro_ai.Washer.Digests.{Hashing}
use torq_pro_ai.Washer.Decisions.{is_blocked_source_status, WasherResolutionDecision}
use torq_pro_ai.Washer.Closures.{
  WasherResolutionClosure, ClosureRequest, verify_closure_integrity,
  create_washer_resolution_closure, get_closure_for_resolution, append_closure,
}
use torq_pro_ai.Washer.Service.{Ledgers}
use torq_pro_ai.Washer.Service.Closing.{
  existing_record, readiness_of, evaluate_closure_readiness, close_if_ready, persist_closure,
  append_if_sound, close_if_open, close_resolution, terminal_decision,
}
use torq_pro_ai.Washer.Service.Closing.Readiness.{
  IsClosable, readiness_iff, supporting_ids, evidence_of, history_of, classify-verified,
}

abbrev pub is_closed : String → List WasherResolutionClosure → Bool
is_closed a closures = any (λ x. x.resolution_id == a) closures

abbrev pub after_closure : Ledgers → WasherResolutionClosure → Ledgers
after_closure s c = record s { closures = s.closures ++ c ∷ [] }

module _ ⦃h : Hashing⦄ where
  -- What is known of a request that stored the closure `c`.
  pub record Closed (q : ClosureRequest) (s : Ledgers) (c : WasherResolutionClosure) : Type 0 where
    pub of_record : WasherResolutionRecord
    pub found : get_washer_resolution s.source q.resolution_id ≡ some of_record
    pub closable : IsClosable of_record s q.resolution_id
    pub last : WasherResolutionDecision
    pub is_last : last? (history_of s q.resolution_id) ≡ some last
    pub created :
        create_washer_resolution_closure q
          (supporting_ids (evidence_of s q.resolution_id))
          last.decision_id
        ≡ ok c
    pub sound : verify_closure_integrity c ≡ true
    pub fresh : is_closed c.resolution_id s.closures ≡ false

  pub data Closes (q : ClosureRequest) (s : Ledgers)
      : Result WasherError WasherResolutionClosure × Ledgers → Type 0 where
    failed : (err : WasherError) → Closes q s (raised err, s)
    closed : (c : WasherResolutionClosure) → Closed q s c → Closes q s (ok c, after_closure s c)

  append_if_sound_lem :
      (a : String) (c : WasherResolutionClosure) (s : Ledgers)
      → append_if_sound a c s ≡ (
          if verify_closure_integrity c
          then (if is_closed c.resolution_id s.closures
              then (raised (duplicate_closure c.resolution_id), s)
              else (ok c, after_closure s c))
          else (raised (closure_integrity a), s))
  unfolding append_if_sound append_closure
  append_if_sound_lem a c s = ground arith

  last-of_terminal :
      (w : WasherResolutionRecord) (s : Ledgers) (a : String) (i : String)
      → (readiness_of w s a).decision_id ≡ some i
      → (d : WasherResolutionDecision) × (last? (history_of s a) ≡ some d) × (d.decision_id ≡ i)
  unfolding readiness_of terminal_decision
  last-of_terminal w s a i e = elim (Option-cases (last? (history_of s a))) [
    | inl n ↦ absurd (ground arith)
    | inr (d, l) ↦ (d, l, ground arith)
  ]

  module _ (q : ClosureRequest) (s : Ledgers) (w : WasherResolutionRecord)
      (found : get_washer_resolution s.source q.resolution_id ≡ some w) where
    verified_ids_lem :
        (readiness_of w s q.resolution_id).evidence_ids.verified_ids
        ≡ supporting_ids (evidence_of s q.resolution_id)
    unfolding readiness_of
    verified_ids_lem = classify-verified (evidence_of s q.resolution_id)

    persist_closure-Closes :
        IsClosable w s q.resolution_id
        → (d : WasherResolutionDecision) → last? (history_of s q.resolution_id) ≡ some d
        → Closes q s (persist_closure q (readiness_of w s q.resolution_id) d.decision_id s)
    unfolding persist_closure
    persist_closure-Closes k d l =
        rw verified_ids_lem
          elim (Result-cases (
            create_washer_resolution_closure q (supporting_ids (evidence_of s q.resolution_id))
              d.decision_id)) [
                | inr (err, bad) ↦ rw bad (failed err)
                | inl (c, m) ↦
                    rw (m, append_if_sound_lem q.resolution_id c s)
                      elim (Bool-cases (verify_closure_integrity c)) [
                        | inr bad ↦ rw bad (failed (closure_integrity q.resolution_id))
                        | inl v ↦ rw v elim (Bool-cases (is_closed c.resolution_id s.closures)) [
                          | inl bad ↦ rw bad (failed (duplicate_closure c.resolution_id))
                          | inr f ↦ rw f (
                              closed c (record {
                                of_record = w;
                                found = found;
                                closable = k;
                                last = d;
                                is_last = l;
                                created = m;
                                sound = v;
                                fresh = f;
                              }))
                        ]
                      ]
              ]

    close_if_ready-Closes : Closes q s (close_if_ready q (readiness_of w s q.resolution_id) s)
    unfolding close_if_ready
    close_if_ready-Closes = elim (Bool-cases (readiness_of w s q.resolution_id).is_ready) [
      | inr bad ↦ rw bad (failed _)
      | inl r ↦ rw r elim (Option-cases (readiness_of w s q.resolution_id).decision_id) [
        | inl n ↦ rw n (failed _)
        | inr (i, e) ↦
            (let (d, l, same) = last-of_terminal w s q.resolution_id i e in
              rw (e, ← same) (persist_closure-Closes ((readiness_iff w s q.resolution_id).0 r) d l))
      ]
    ]

  existing_record-none :
      (s : Ledgers) (a : String)
      → get_washer_resolution s.source a ≡ none
      → existing_record s a ≡ raised (resolution_not_found a)
  unfolding existing_record
  existing_record-none s a g = ground arith

  pub existing_record-some :
      (s : Ledgers) (a : String) (w : WasherResolutionRecord)
      → get_washer_resolution s.source a ≡ some w
      → existing_record s a ≡ ok w
  unfolding existing_record
  existing_record-some s a w g = ground arith

  evaluate-some :
      (s : Ledgers) (a : String) (w : WasherResolutionRecord)
      → existing_record s a ≡ ok w
      → evaluate_closure_readiness s a ≡ ok (readiness_of w s a)
  unfolding evaluate_closure_readiness
  evaluate-some s a w g = ground arith

  pub close_if_open-some :
      (q : ClosureRequest) (s : Ledgers) (c : WasherResolutionClosure)
      → get_closure_for_resolution s.closures q.resolution_id ≡ some c
      → close_if_open q s ≡ (raised (duplicate_closure q.resolution_id), s)
  unfolding close_if_open
  close_if_open-some q s c g = ground arith

  close_if_open-none :
      (q : ClosureRequest) (s : Ledgers)
      → get_closure_for_resolution s.closures q.resolution_id ≡ none
      → close_if_open q s
        ≡ continue (evaluate_closure_readiness s q.resolution_id) (close_if_ready q) s
  unfolding close_if_open
  close_if_open-none q s g = ground arith

  close_if_open-Closes :
      (q : ClosureRequest) (s : Ledgers) (w : WasherResolutionRecord)
      → get_washer_resolution s.source q.resolution_id ≡ some w
      → Closes q s (close_if_open q s)
  close_if_open-Closes q s w g =
      elim (Option-cases (get_closure_for_resolution s.closures q.resolution_id)) [
        | inr (c, bad) ↦ rw (close_if_open-some q s c bad) (failed _)
        | inl n ↦
            rw
              (
                close_if_open-none q s n,
                evaluate-some s q.resolution_id w (existing_record-some s q.resolution_id w g),
              )
              (close_if_ready-Closes q s w g)
      ]

  -- Every request ends with an error and the ledgers as they were, or with a closure behind those
  -- that were there.
  pub close_resolution-Closes :
      (q : ClosureRequest) (s : Ledgers) → Closes q s (close_resolution q s)
  unfolding close_resolution
  close_resolution-Closes q s =
      elim (Option-cases (get_washer_resolution s.source q.resolution_id)) [
        | inl g ↦ rw (existing_record-none s q.resolution_id g) (failed _)
        | inr (w, g) ↦
            rw (existing_record-some s q.resolution_id w g)
              elim (Bool-cases (is_blocked_source_status w.resolution_status)) [
                | inl bad ↦ rw bad (failed _)
                | inr u ↦ rw u (close_if_open-Closes q s w g)
              ]
      ]

  Closes-Closed :
      (q : ClosureRequest) (s s' : Ledgers) (c : WasherResolutionClosure)
      {x : Result WasherError WasherResolutionClosure × Ledgers}
      → Closes q s x
      → x ≡ (ok c, s')
      → Closed q s c × (after_closure s c ≡ s')
  Closes-Closed q s s' c (failed err) e = absurd (cc)
  Closes-Closed q s s' c (closed c' k) e =
      let same =
        ok-injective (ap (λ (y : Result WasherError WasherResolutionClosure × Ledgers). y.0) e) in
      (
        rw (← same) k,
        rw (← same) (ap (λ (y : Result WasherError WasherResolutionClosure × Ledgers). y.1) e),
      )

  pub close_resolution-Closed :
      (q : ClosureRequest) (s s' : Ledgers) (c : WasherResolutionClosure)
      → close_resolution q s ≡ (ok c, s')
      → Closed q s c × (after_closure s c ≡ s')
  close_resolution-Closed q s s' c e = Closes-Closed q s s' c (close_resolution-Closes q s) e
