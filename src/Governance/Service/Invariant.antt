-- ===== src/Governance/Service/Invariant.antt =====
-- What the nine commands keep of the store: the log only grows, by legal events.
use torq_pro_ai.Prelude.{
  String, Bool, true, false, none, List, [], ◌∷◌, ◌++◌, ◌≡◌, refl, sym, ◌∙◌, ap, arith,
}
use torq_pro_ai.Prelude.Exec.{Result, ok, raised, ok-injective}
use torq_pro_ai.Governance.Errors.{GovernanceError}
use torq_pro_ai.Governance.Events.{Backing}
use torq_pro_ai.Governance.Store.{Event, Store, all_events}
use torq_pro_ai.Governance.Log.{IsLegal, grow, Follows, status_in, permits}
use torq_pro_ai.Governance.Service.{Transition, event_of}
use torq_pro_ai.Governance.Service.Engine.{
  Ran, failed, replayed, stored, by_decision, execute_transition-Ran,
}
use torq_pro_ai.Governance.Service.Legality.{
  Command, run, run_lem, transition_of, validator_of, validator_of-permits,
}

module _ ⦃b : Backing⦄ where
  -- Every command ends in one of the three ways of the engine.
  pub run-Ran :
      (c : Command b.Metadata) (d : Store) → Ran (transition_of c) (validator_of c) d (run c d)
  run-Ran c d = rw (run_lem c) (execute_transition-Ran (transition_of c) (validator_of c) d)

  -- The store can be read, and what it holds is a legal log.
  pub record IsSound (d : Store) : Type 0 where
    pub log : List Event
    pub read : all_events d ≡ ok log
    pub legal : IsLegal log

  stored_event-Follows :
      (t : Transition b.Metadata) (es : List Event)
      → permits t.lifecycle_group (status_in es t.aggregate_id t.lifecycle_group) t.new_status
        ≡ true
      → by_decision t.decision_id es ≡ none
      → Follows es (event_of t (status_in es t.aggregate_id t.lifecycle_group))
  unfolding by_decision event_of
  stored_event-Follows t es p i = record { previous = refl; permitted = p; new_decision = i }

  Ran-IsSound :
      (c : Command b.Metadata) (d : Store) {r : Result GovernanceError (Event × Bool) × Store}
      → Ran (transition_of c) (validator_of c) d r
      → IsSound d
      → IsSound r.1
  Ran-IsSound c d (failed err) s = s
  Ran-IsSound c d (replayed es e h k m) s = s
  Ran-IsSound c d (stored es d' h k i v time r w) s = record {
    log = _;
    read = r;
    legal =
        grow es _ (rw (ok-injective (sym h ∙ s.read)) s.legal)
          (stored_event-Follows (transition_of c) es (validator_of-permits c _ v) i);
  }

  -- Every command, failing or not, keeps the log legal.
  pub run-IsSound : (c : Command b.Metadata) (d : Store) → IsSound d → IsSound (run c d).1
  run-IsSound c d s = Ran-IsSound c d (run-Ran c d) s

  -- A result, with the store behind it, that fits a log which only grows.
  pub record Grows (d : Store) (r : Result GovernanceError (Event × Bool) × Store) : Type 0 where
    pub failure : (err : GovernanceError) → r.0 ≡ raised err → r.1 ≡ d
    pub replay : (e : Event) → r.0 ≡ ok (e, false) → r.1 ≡ d
    pub success :
        (e : Event) (es : List Event)
        → r.0 ≡ ok (e, true)
        → all_events d ≡ ok es
        → all_events r.1 ≡ ok (es ++ e ∷ [])

  Ran-Grows :
      (t : Transition b.Metadata) (v : String → Result GovernanceError Unit) (d : Store)
      {r : Result GovernanceError (Event × Bool) × Store}
      → Ran t v d r
      → Grows d r
  Ran-Grows t v d (failed err) = record {
    failure = λ _ _. refl;
    replay = λ e h. refl;
    success = λ e es h. cc;
  }
  Ran-Grows t v d (replayed es e h k m) = record {
    failure = λ _ _. refl;
    replay = λ e' h'. refl;
    success = λ e' es' h'. ground arith;
  }
  Ran-Grows t v d (stored es d' h k i p time r w) = record {
    failure = λ err h'. cc;
    replay = λ e' h'. ground arith;
    success = λ e' es' h' read.
        rw (← ok-injective (sym h ∙ read), ← ap (λ (x : Event × Bool). x.0) (ok-injective h')) r;
  }

  -- Where a command raises or replays, the store is as it was; where it stores an event, and the
  -- store could be read, that event stands behind those that were there.
  pub run-Grows : (c : Command b.Metadata) (d : Store) → Grows d (run c d)
  run-Grows c d = Ran-Grows (transition_of c) (validator_of c) d (run-Ran c d)
