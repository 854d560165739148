-- ===== src/Governance/Service/Engine.antt =====
-- What `_execute_transition` may do to a store, as a relation with three cases.
use torq_pro_ai.Prelude.{
  String, Bool, true, false, Option, none, some, List, [], ◌∷◌, ◌++◌, ◌≡◌, refl, sym, ap, inl, inr,
  ◌==◌, string_eq, if◌then◌else◌, keep, find_first, Bool-cases, Option-cases, arith,
}
use torq_pro_ai.Prelude.Texts.{is_empty_str}
use torq_pro_ai.Prelude.Exec.{Result, ok, raised, Result-cases, ok-injective, ◌>>◌, pure, continue}
use torq_pro_ai.Governance.Enums.{LifecycleGroup, group_eq}
use torq_pro_ai.Governance.Errors.{
  GovernanceError, store_failure, idempotency_conflict, duplicate_decision, validation_error,
}
use torq_pro_ai.Governance.Events.{make_event, Backing}
use torq_pro_ai.Governance.Timestamps.{is_valid_utc_iso8601}
use torq_pro_ai.Governance.Store.{
  Event, Store, all_events, find_by_decision_id, find_by_idempotency_key, append,
}
use torq_pro_ai.Governance.Store.Append.{append_lem, append_refused}
use torq_pro_ai.Governance.Service.{
  Transition, effective_status, normalize_request, event_matches_request, resolve_idempotency,
  event_of, persist_new, execute_transition,
}
use torq_pro_ai.Governance.Log.{status_in, concerns}

module _ ⦃b : Backing⦄ where
  -- the event that a key finds: none for the empty key
  unfoldable pub by_key : String → List Event → Option Event
  by_key key es = if is_empty_str key then none else find_first (λ e. e.idempotency_key == key) es

  unfoldable pub by_decision : String → List Event → Option Event
  by_decision id es = find_first (λ e. e.decision_id == id) es

  keep-keep :
      (a : String) (g : LifecycleGroup) (es : List Event)
      → keep (λ e. e.lifecycle_group == g) (keep (λ e. e.aggregate_id == a) es)
        ≡ keep (concerns a g) es
  unfolding keep
  keep-keep a g [] = refl
  keep-keep a g (e ∷ es) = ground (arith, keep-keep a g es)

  -- The service's effective status is that of the log.
  pub effective_status_lem :
      (d : Store) (es : List Event) (a : String) (g : LifecycleGroup)
      → all_events d ≡ ok es
      → effective_status d a g ≡ ok (status_in es a g)
  unfolding effective_status status_in
  effective_status_lem d es a g h = rw (h, keep-keep a g es) (ground arith)

  unfoldable pub resolve_in :
      List Event → Transition b.Metadata → Result GovernanceError (Option Event)
  resolve_in es t = elim (by_key t.idempotency_key es) [
    | some e ↦
        if event_matches_request e (normalize_request t)
        then ok (some e)
        else raised (idempotency_conflict t.idempotency_key)
    | none ↦ elim (by_decision t.decision_id es) [
      | some _ ↦ raised (duplicate_decision t.decision_id)
      | none ↦ ok none
    ]
  ]

  module _ (es : List Event) (t : Transition b.Metadata) where
    pub resolve_in-new :
        by_key t.idempotency_key es ≡ none
        → by_decision t.decision_id es ≡ none
        → resolve_in es t ≡ ok none
    unfolding resolve_in
    resolve_in-new k i = ground arith

    pub resolve_in-duplicate :
        (e : Event)
        → by_key t.idempotency_key es ≡ none
        → by_decision t.decision_id es ≡ some e
        → resolve_in es t ≡ raised (duplicate_decision t.decision_id)
    unfolding resolve_in
    resolve_in-duplicate e k i = ground arith

    pub resolve_in-replay :
        (e : Event)
        → by_key t.idempotency_key es ≡ some e
        → event_matches_request e (normalize_request t) ≡ true
        → resolve_in es t ≡ ok (some e)
    unfolding resolve_in
    resolve_in-replay e k m = ground arith

    pub resolve_in-conflict :
        (e : Event)
        → by_key t.idempotency_key es ≡ some e
        → event_matches_request e (normalize_request t) ≡ false
        → resolve_in es t ≡ raised (idempotency_conflict t.idempotency_key)
    unfolding resolve_in
    resolve_in-conflict e k m = ground arith

  pub resolve_idempotency_lem :
      (d : Store) (es : List Event) (t : Transition b.Metadata)
      → all_events d ≡ ok es
      → resolve_idempotency d t.idempotency_key t.decision_id (normalize_request t)
        ≡ resolve_in es t
  unfolding resolve_idempotency find_by_idempotency_key find_by_decision_id resolve_in by_key
      by_decision
  resolve_idempotency_lem d es t h = ground arith

  pub resolve_idempotency_unread :
      (d : Store) (err : GovernanceError) (t : Transition b.Metadata)
      → all_events d ≡ raised err
      → resolve_idempotency d t.idempotency_key t.decision_id (normalize_request t) ≡ raised err
  unfolding resolve_idempotency find_by_idempotency_key find_by_decision_id
  resolve_idempotency_unread d err t h = ground arith

  -- The three ways in which a request ends: with an error, with the event of the same request, and
  -- with a new event behind those that were there.
  pub data Ran (t : Transition b.Metadata) (v : String → Result GovernanceError Unit) (d : Store)
      : Result GovernanceError (Event × Bool) × Store → Type 0 where
    failed : (err : GovernanceError) → Ran t v d (raised err, d)
    replayed :
        (es : List Event) (e : Event)
        → all_events d ≡ ok es
        → by_key t.idempotency_key es ≡ some e
        → event_matches_request e (normalize_request t) ≡ true
        → Ran t v d (ok (e, false), d)
    stored :
        (es : List Event) (d' : Store)
        → all_events d ≡ ok es
        → by_key t.idempotency_key es ≡ none
        → by_decision t.decision_id es ≡ none
        → v (status_in es t.aggregate_id t.lifecycle_group) ≡ ok tt
        → is_valid_utc_iso8601 t.occurred_at ≡ true
        → all_events d' ≡ ok (es ++ event_of t (status_in es t.aggregate_id t.lifecycle_group) ∷ [])
        → d'.writable ≡ true
        → Ran t v d (ok (event_of t (status_in es t.aggregate_id t.lifecycle_group), true), d')

  module _ (t : Transition b.Metadata) (v : String → Result GovernanceError Unit) (d : Store)
      (es : List Event) (read : all_events d ≡ ok es) (no_key : by_key t.idempotency_key es ≡ none)
      (no_decision : by_decision t.decision_id es ≡ none) where
    -- behind the validation, whatever the file system does
    write_event-Ran :
        v (status_in es t.aggregate_id t.lifecycle_group) ≡ ok tt
        → is_valid_utc_iso8601 t.occurred_at ≡ true
        → let e = event_of t (status_in es t.aggregate_id t.lifecycle_group) in
          Ran t v d ((append e >> pure (e, true)) d)
    unfolding event_of
    write_event-Ran valid time = elim (Bool-cases d.writable) [
      | inl w ↦
          (let (d', a, r, w') =
              append_lem d es (event_of t (status_in es t.aggregate_id t.lifecycle_group)) read time
                w in
            rw a (stored es d' read no_key no_decision valid time r w'))
      | inr w ↦
          rw
            (append_refused d es (event_of t (status_in es t.aggregate_id t.lifecycle_group)) read
              w)
            (failed store_failure)
    ]

    persist_new-Ran : Ran t v d (persist_new t v d)
    unfolding persist_new make_event event_of
    persist_new-Ran =
        rw (effective_status_lem d es t.aggregate_id t.lifecycle_group read)
          elim (Result-cases (v (status_in es t.aggregate_id t.lifecycle_group))) [
            | inr (err, bad) ↦ rw bad (failed err)
            | inl (tt, valid) ↦ rw valid elim (Bool-cases (is_valid_utc_iso8601 t.occurred_at)) [
              | inl time ↦ rw time (write_event-Ran valid time)
              | inr time ↦ rw time (failed validation_error)
            ]
          ]

    resolved-Ran : Ran t v d (
        continue
          (resolve_in es t)
          (λ existing. elim existing [ some e ↦ pure (e, false) | none ↦ persist_new t v ])
          d)
    resolved-Ran = rw (resolve_in-new es t no_key no_decision) persist_new-Ran

  found-Ran :
      (t : Transition b.Metadata) (v : String → Result GovernanceError Unit) (d : Store)
      (es : List Event)
      → all_events d ≡ ok es
      → Ran t v d (
          continue
            (resolve_in es t)
            (λ existing. elim existing [ some e ↦ pure (e, false) | none ↦ persist_new t v ])
            d)
  found-Ran t v d es h = elim (Option-cases (by_key t.idempotency_key es)) [
    | inl k ↦ elim (Option-cases (by_decision t.decision_id es)) [
      | inl i ↦ resolved-Ran t v d es h k i
      | inr (e, i) ↦
          rw (resolve_in-duplicate es t e k i) (failed (duplicate_decision t.decision_id))
    ]
    | inr (e, k) ↦ elim (Bool-cases (event_matches_request e (normalize_request t))) [
      | inl m ↦ rw (resolve_in-replay es t e k m) (replayed es e h k m)
      | inr m ↦
          rw (resolve_in-conflict es t e k m) (failed (idempotency_conflict t.idempotency_key))
    ]
  ]

  -- Every request ends in one of the three ways.
  pub execute_transition-Ran :
      (t : Transition b.Metadata) (v : String → Result GovernanceError Unit) (d : Store)
      → Ran t v d (execute_transition t v d)
  unfolding execute_transition
  execute_transition-Ran t v d = elim (Result-cases (all_events d)) [
    | inl (es, h) ↦ rw (resolve_idempotency_lem d es t h) (found-Ran t v d es h)
    | inr (err, h) ↦ rw (resolve_idempotency_unread d err t h) (failed err)
  ]

  -- What is known of a request that stored `e` and left `d'`.
  pub record Stored (t : Transition b.Metadata) (v : String → Result GovernanceError Unit)
      (d : Store) (e : Event) (d' : Store) : Type 0 where
    pub log : List Event
    pub read : all_events d ≡ ok log
    pub no_key : by_key t.idempotency_key log ≡ none
    pub no_decision : by_decision t.decision_id log ≡ none
    pub valid : v (status_in log t.aggregate_id t.lifecycle_group) ≡ ok tt
    pub event : e ≡ event_of t (status_in log t.aggregate_id t.lifecycle_group)
    pub read' : all_events d' ≡ ok (log ++ e ∷ [])

  pub Ran-Stored :
      (t : Transition b.Metadata) (v : String → Result GovernanceError Unit) (d : Store) (e : Event)
      (d' : Store) {r : Result GovernanceError (Event × Bool) × Store}
      → Ran t v d r
      → r ≡ (ok (e, true), d')
      → Stored t v d e d'
  Ran-Stored t v d e d' (failed err) q = absurd (cc)
  Ran-Stored t v d e d' (replayed es e' h k m) q = absurd (cc)
  Ran-Stored t v d e d' (stored es d'' h k i valid time r w) q =
      let same = ok-injective (ap (λ (x : Result GovernanceError (Event × Bool) × Store). x.0) q) in
      record {
        log = es;
        read = h;
        no_key = k;
        no_decision = i;
        valid = valid;
        event = sym (ap (λ (x : Event × Bool). x.0) same);
        read' =
            rw
              (
                ← ap (λ (x : Event × Bool). x.0) same,
                ← ap (λ (x : Result GovernanceError (Event × Bool) × Store). x.1) q,
              )
              r;
      }
