-- ===== src/Governance/Service/Traces/Growth.antt =====
-- The log only grows in a run: what a request stored is found from then on.
use torq_pro_ai.Prelude.{
  String, some, List, [], ◌∷◌, ◌++◌, ◌≡◌, sym, ◌∙◌, append_assoc, Bool, Bool-cases, inl, inr,
}
use torq_pro_ai.Governance.Service.Engine.{Ran, failed, replayed, stored, by_key, by_decision}
use torq_pro_ai.Prelude.Exec.{Result, ok, ok-injective}
use torq_pro_ai.Governance.Errors.{GovernanceError}
use torq_pro_ai.Governance.Events.{Backing}
use torq_pro_ai.Governance.Store.{Event, Store, all_events}
use torq_pro_ai.Governance.Service.{Transition, event_of}
use torq_pro_ai.Governance.Log.{status_in}
use torq_pro_ai.Governance.Service.Legality.{transition_of, validator_of}
use torq_pro_ai.Governance.Service.Invariant.{run-Ran}
use torq_pro_ai.Governance.Service.Traces.{Step, command, access, Reaches, here, next}
use torq_pro_ai.Prelude.{find_first-append_some}
use torq_pro_ai.Prelude.Texts.{is_empty_str}

module _ ⦃b : Backing⦄ where
  -- a store that holds a log and perhaps further events behind it
  pub record Holds (es : List Event) (d : Store) : Type 0 where
    pub later : List Event
    pub read : all_events d ≡ ok (es ++ later)

  Ran-Holds :
      (t : Transition b.Metadata) (v : String → Result GovernanceError Unit) (d : Store)
      (es : List Event) {r : Result GovernanceError (Event × Bool) × Store}
      → Ran t v d r
      → Holds es d
      → Holds es r.1
  Ran-Holds t v d es (failed err) h = h
  Ran-Holds t v d es (replayed es' e read k m) h = h
  Ran-Holds t v d es (stored es' d' read k i p time r w) h = record {
    later = h.later ++ event_of t (status_in es' t.aggregate_id t.lifecycle_group) ∷ [];
    read = rw (← append_assoc es h.later, ← ok-injective (sym read ∙ h.read)) r;
  }

  Step-Holds : (es : List Event) {d d' : Store} → Step d d' → Holds es d → Holds es d'
  unfolding all_events
  Step-Holds es (command c d) h = Ran-Holds (transition_of c) (validator_of c) d es (run-Ran c d) h
  Step-Holds es (access w d) h = record { later = h.later; read = h.read }

  pub Reaches-Holds : (es : List Event) {d d' : Store} → Reaches d d' → Holds es d → Holds es d'
  Reaches-Holds es here h = h
  Reaches-Holds es (next r st) h = Step-Holds es st (Reaches-Holds es r h)

  pub by_key-later :
      (key : String) (es later : List Event) (e : Event)
      → by_key key es ≡ some e
      → by_key key (es ++ later) ≡ some e
  unfolding by_key
  by_key-later key es later e h = elim (Bool-cases (is_empty_str key)) [
    | inl empty ↦ absurd (let h' = rw empty at h in cc)
    | inr full ↦ rw full (find_first-append_some _ es later e (rw full at h))
  ]

  pub by_decision-later :
      (id : String) (es later : List Event) (e : Event)
      → by_decision id es ≡ some e
      → by_decision id (es ++ later) ≡ some e
  unfolding by_decision
  by_decision-later id es later e h = find_first-append_some _ es later e h
