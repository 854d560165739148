-- ===== src/Governance/Service/Traces.antt =====
-- Stores that a governance file can come to, from none, by commands and by changes of its access.
pub mod Growth
use torq_pro_ai.Prelude.{◌≤◌, String, Bool, List, [], ◌≡◌, refl, sym, ◌∙◌, length, keep}
use torq_pro_ai.Prelude.Exec.{ok, ok-injective}
use torq_pro_ai.Governance.Enums.{LifecycleGroup}
use torq_pro_ai.Governance.Events.{Backing}
use torq_pro_ai.Governance.Store.{Event, Store, missing, all_events, validate_all}
use torq_pro_ai.Governance.Log.{start, concerns}
use torq_pro_ai.Governance.Log.Bounds.{IsLegal-length, max_events}
use torq_pro_ai.Governance.Service.Legality.{Command, run}
use torq_pro_ai.Governance.Service.Invariant.{IsSound, run-IsSound}

module _ ⦃b : Backing⦄ where
  -- no file yet
  abbrev pub new_store : Bool → Store
  new_store w = record { content = missing; writable = w }

  pub data Step : Store → Store → Type 0 where
    command : (c : Command b.Metadata) (d : Store) → Step d (run c d).1
    access : (w : Bool) (d : Store) → Step d (record d { writable = w })

  pub data Reaches (d : Store) : Store → Type 0 where
    here : Reaches d d
    next : {d' d'' : Store} → Reaches d d' → Step d' d'' → Reaches d d''

  new_store-IsSound : (w : Bool) → IsSound (new_store w)
  unfolding all_events validate_all
  new_store-IsSound w = record { log = []; read = refl; legal = start }

  access-IsSound : (w : Bool) (d : Store) → IsSound d → IsSound (record d { writable = w })
  unfolding all_events
  access-IsSound w d s = record { log = s.log; read = s.read; legal = s.legal }

  Step-IsSound : {d d' : Store} → Step d d' → IsSound d → IsSound d'
  Step-IsSound (command c d) s = run-IsSound c d s
  Step-IsSound (access w d) s = access-IsSound w d s

  -- Whatever commands are given, and whenever the file cannot be written, a store that began with
  -- no file can be read, and its log is legal: each event starts from the status of its lifecycle,
  -- makes a move that the table permits, and has a decision that no event before it has.
  pub Reaches-IsSound : (w : Bool) {d : Store} → Reaches (new_store w) d → IsSound d
  Reaches-IsSound w here = new_store-IsSound w
  Reaches-IsSound w (next r st) = Step-IsSound st (Reaches-IsSound w r)

  -- A readable store that commands made of one with no file, whenever the file could not be
  -- written, holds at most two events of the review of an aggregate, at most two of its
  -- publication, and at most one of its resolution.
  pub Reaches-length :
      (w : Bool) (d : Store) (es : List Event) (a : String) (g : LifecycleGroup)
      → Reaches (new_store w) d
      → all_events d ≡ ok es
      → length (keep (concerns a g) es) ≤ max_events g
  Reaches-length w d es a g r read =
      let s = Reaches-IsSound w r in
      IsLegal-length es a g (rw (ok-injective (sym read ∙ s.read)) s.legal)
