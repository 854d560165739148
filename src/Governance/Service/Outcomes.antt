-- ===== src/Governance/Service/Outcomes.antt =====
-- What a command changes: the status of its own lifecycle and no other; and when it goes through.
use torq_pro_ai.Prelude.{
  String, true, false, none, List, [], ◌∷◌, ◌++◌, ◌≡◌, ◌≢◌, refl, sym, ◌∙◌, ap, ◌==◌, string_eq,
  ◌&&◌,
}
use torq_pro_ai.Prelude.Texts.{is_blank}
use torq_pro_ai.Prelude.Exec.{Result, ok, raised, ok-injective}
use torq_pro_ai.Governance.Enums.{LifecycleGroup, group_eq}
use torq_pro_ai.Governance.Errors.{GovernanceError}
use torq_pro_ai.Governance.Events.{Backing, make_event}
use torq_pro_ai.Governance.Timestamps.{is_valid_utc_iso8601}
use torq_pro_ai.Governance.Store.{Event, Store, all_events}
use torq_pro_ai.Governance.Store.Append.{append_lem}
use torq_pro_ai.Governance.Log.{permits, status_in, IsTerminal}
use torq_pro_ai.Governance.Log.Chains.{status_in-append_own, status_in-append_other}
use torq_pro_ai.Governance.Service.{
  Transition, effective_status, event_of, execute_transition, persist_new,
}
use torq_pro_ai.Governance.Service.Engine.{
  Stored, Ran-Stored, by_key, by_decision, effective_status_lem, resolve_idempotency_lem,
  resolve_idempotency_unread, resolve_in-new,
}
use torq_pro_ai.Governance.Service.Legality.{
  Command, run, run_lem, transition_of, validator_of, validator_of-permits,
}
use torq_pro_ai.Governance.Service.Invariant.{run-Ran}
use torq_pro_ai.Governance.Service.Acceptance.{responsible, validator_of_iff}

module _ ⦃b : Backing⦄ where
  -- The statuses of two stores, where only the lifecycle of the request has moved, to its status.
  pub record Moved (t : Transition b.Metadata) (d d' : Store) : Type 0 where
    pub own : effective_status d' t.aggregate_id t.lifecycle_group ≡ ok t.new_status
    pub others :
        (a : String) (g : LifecycleGroup)
        → (t.aggregate_id == a && t.lifecycle_group == g) ≡ false
        → effective_status d' a g ≡ effective_status d a g

  module _ (t : Transition b.Metadata) (p : String) where
    event_of-group : (event_of t p).lifecycle_group ≡ t.lifecycle_group
    unfolding event_of
    event_of-group = refl

    event_of-aggregate : (event_of t p).aggregate_id ≡ t.aggregate_id
    unfolding event_of
    event_of-aggregate = refl

    event_of-status : (event_of t p).new_status ≡ t.new_status
    unfolding event_of
    event_of-status = refl

  module _ (t : Transition b.Metadata) (p : String) (es : List Event) where
    status_in-event_of_own :
        status_in (es ++ event_of t p ∷ []) t.aggregate_id t.lifecycle_group ≡ t.new_status
    unfolding event_of
    status_in-event_of_own = status_in-append_own es (event_of t p)

    status_in-event_of_other :
        (a : String) (g : LifecycleGroup)
        → (t.aggregate_id == a && t.lifecycle_group == g) ≡ false
        → status_in (es ++ event_of t p ∷ []) a g ≡ status_in es a g
    unfolding event_of
    status_in-event_of_other a g h = status_in-append_other es (event_of t p) a g h

  Stored-Moved :
      (t : Transition b.Metadata) (v : String → Result GovernanceError Unit) (d d' : Store)
      (e : Event)
      → Stored t v d e d'
      → Moved t d d'
  Stored-Moved t v d d' e s =
      let p = status_in s.log t.aggregate_id t.lifecycle_group in
      let after = rw s.event at s.read' in
      record {
        own =
            effective_status_lem d' _ t.aggregate_id t.lifecycle_group after
            ∙ ap ok (status_in-event_of_own t p s.log);
        others = λ a g other.
            effective_status_lem d' _ a g after
            ∙ ap ok (status_in-event_of_other t p s.log a g other)
            ∙ sym (effective_status_lem d s.log a g s.read);
      }

  -- Behind a command that stored an event, the lifecycle of the command has the status that it
  -- asked for, and every other lifecycle of every aggregate the status that it had.
  pub run-Moved :
      (c : Command b.Metadata) (d d' : Store) (e : Event)
      → run c d ≡ (ok (e, true), d')
      → Moved (transition_of c) d d'
  run-Moved c d d' e h =
      Stored-Moved (transition_of c) (validator_of c) d d' e
        (Ran-Stored (transition_of c) (validator_of c) d e d' (run-Ran c d) h)

  -- No command stores an event of a lifecycle that has reached a terminal status.
  pub run_terminal :
      (c : Command b.Metadata) (d d' : Store) (e : Event) (s : String)
      → effective_status d (transition_of c).aggregate_id (transition_of c).lifecycle_group ≡ ok s
      → IsTerminal (transition_of c).lifecycle_group s
      → run c d ≢ (ok (e, true), d')
  run_terminal c d d' e s status terminal h =
      let t = transition_of c in
      let st = Ran-Stored t (validator_of c) d e d' (run-Ran c d) h in
      let same =
        ok-injective
          (sym (effective_status_lem d st.log t.aggregate_id t.lifecycle_group st.read) ∙ status) in
      let allowed = validator_of-permits c _ st.valid in
      let denied = terminal t.new_status in cc (rw same at allowed)

  -- A store that cannot be read fails every command with the error of the read.
  run_unread :
      (c : Command b.Metadata) (d : Store) (err : GovernanceError)
      → all_events d ≡ raised err
      → run c d ≡ (raised err, d)
  unfolding execute_transition
  run_unread c d err h = rw (run_lem c, resolve_idempotency_unread d err (transition_of c) h)

  module _ (t : Transition b.Metadata) (v : String → Result GovernanceError Unit) (d : Store)
      (es : List Event) (read : all_events d ≡ ok es)
      (valid : v (status_in es t.aggregate_id t.lifecycle_group) ≡ ok tt)
      (time : is_valid_utc_iso8601 t.occurred_at ≡ true) (w : d.writable ≡ true) where
    persist_new_goes_through :
        (d' : Store) × (persist_new t v d
          ≡ (ok (event_of t (status_in es t.aggregate_id t.lifecycle_group), true), d'))
    unfolding persist_new make_event event_of
    persist_new_goes_through =
        let e = event_of t (status_in es t.aggregate_id t.lifecycle_group) in
        let (d', a, r, w') = append_lem d es e read time w in
        (d', rw (effective_status_lem d es t.aggregate_id t.lifecycle_group read, valid, time, a))

  -- A command whose move the table permits, which names whoever is responsible at a valid time,
  -- with a key and a decision that were not used before, is stored, if the file can be read and
  -- written.
  pub run_goes_through :
      (c : Command b.Metadata) (d : Store) (es : List Event)
      → all_events d ≡ ok es
      → d.writable ≡ true
      → by_key (transition_of c).idempotency_key es ≡ none
      → by_decision (transition_of c).decision_id es ≡ none
      → permits
          (transition_of c).lifecycle_group
          (status_in es (transition_of c).aggregate_id (transition_of c).lifecycle_group)
          (transition_of c).new_status
        ≡ true
      → is_blank (responsible c) ≡ false
      → is_valid_utc_iso8601 (transition_of c).occurred_at ≡ true
      → (d' : Store) × (run c d ≡ (
        ok (
          event_of
              (transition_of c)
              (status_in es (transition_of c).aggregate_id (transition_of c).lifecycle_group),
          true,
        ),
        d',
      ))
  unfolding execute_transition
  run_goes_through c d es read w no_key no_decision allowed named time =
      let t = transition_of c in
      let valid =
        (validator_of_iff c (status_in es t.aggregate_id t.lifecycle_group)).1
          (allowed, named, time) in
      let (d', r) = persist_new_goes_through t (validator_of c) d es read valid time w in
      (
        d',
        rw (run_lem c, resolve_idempotency_lem d es t read, resolve_in-new es t no_key no_decision)
            r,
      )
