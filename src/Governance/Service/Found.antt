-- ===== src/Governance/Service/Found.antt =====
-- What a command stored is found, by its key and by its decision, in every store that the one it left
-- comes to.
use torq_pro_ai.Prelude.{
  String, true, false, none, some, List, [], ◌∷◌, ◌++◌, ◌≡◌, ap, string_eq, option_eq, ◌==◌,
  find_first-append_one, beq_refl,
}
use torq_pro_ai.Prelude.Int.{int_eq}
use torq_pro_ai.Prelude.Texts.{is_empty_str}
use torq_pro_ai.Prelude.Exec.{Result, ok}
use torq_pro_ai.Governance.Errors.{GovernanceError}
use torq_pro_ai.Governance.Events.{Backing}
use torq_pro_ai.Governance.Store.{Event, Store}
use torq_pro_ai.Governance.Service.{Transition, event_of}
use torq_pro_ai.Governance.Service.Engine.{Stored, Ran-Stored, by_key, by_decision}
use torq_pro_ai.Governance.Service.Legality.{Command, run, transition_of, validator_of}
use torq_pro_ai.Governance.Service.Invariant.{run-Ran}
use torq_pro_ai.Governance.Service.Traces.{Reaches}
use torq_pro_ai.Governance.Service.Traces.Growth.{
  Holds, Reaches-Holds, by_key-later, by_decision-later,
}
use torq_pro_ai.Prelude.{append-nil}

module _ ⦃b : Backing⦄ where
  pub by_key-stored :
      (key : String) (es : List Event) (e : Event)
      → is_empty_str key ≡ false
      → e.idempotency_key ≡ key
      → by_key key es ≡ none
      → by_key key (es ++ e ∷ []) ≡ some e
  unfolding by_key
  by_key-stored key es e full same h = rw full (
      find_first-append_one (λ e'. e'.idempotency_key == key) es e (rw full at h)
        (rw same (beq_refl key)))

  by_decision-stored :
      (id : String) (es : List Event) (e : Event)
      → e.decision_id ≡ id
      → by_decision id es ≡ none
      → by_decision id (es ++ e ∷ []) ≡ some e
  unfolding by_decision
  by_decision-stored id es e same h =
      find_first-append_one (λ e'. e'.decision_id == id) es e h (rw same (beq_refl id))

  pub event_key :
      {t : Transition b.Metadata} {v : String → Result GovernanceError Unit} {d d' : Store}
      {e : Event}
      → Stored t v d e d'
      → e.idempotency_key ≡ t.idempotency_key
  unfolding event_of
  event_key s = ap (λ (x : Event). x.idempotency_key) s.event

  event_decision :
      {t : Transition b.Metadata} {v : String → Result GovernanceError Unit} {d d' : Store}
      {e : Event}
      → Stored t v d e d'
      → e.decision_id ≡ t.decision_id
  unfolding event_of
  event_decision s = ap (λ (x : Event). x.decision_id) s.event

  -- what a run finds in every store that its store comes to later
  module _ (c : Command b.Metadata) (d d' d'' : Store) (e : Event)
      (first : run c d ≡ (ok (e, true), d')) (later : Reaches d' d'') where
    pub ran : Stored (transition_of c) (validator_of c) d e d'
    ran = Ran-Stored (transition_of c) (validator_of c) d e d' (run-Ran c d) first

    pub held : Holds (ran.log ++ e ∷ []) d''
    held =
        Reaches-Holds (ran.log ++ e ∷ []) later
          (record { later = []; read = rw (append-nil (ran.log ++ e ∷ [])) ran.read' })

    abbrev pub log_later : List Event
    log_later = (ran.log ++ e ∷ []) ++ held.later

    pub found_by_key :
        is_empty_str (transition_of c).idempotency_key ≡ false
        → by_key (transition_of c).idempotency_key log_later ≡ some e
    found_by_key full =
        by_key-later (transition_of c).idempotency_key (ran.log ++ e ∷ []) held.later e (
          by_key-stored (transition_of c).idempotency_key ran.log e full (event_key ran) ran.no_key)

    pub found_by_decision : by_decision (transition_of c).decision_id log_later ≡ some e
    found_by_decision =
        by_decision-later (transition_of c).decision_id (ran.log ++ e ∷ []) held.later e (
          by_decision-stored (transition_of c).decision_id ran.log e (event_decision ran)
            ran.no_decision)
