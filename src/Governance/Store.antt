-- ===== src/Governance/Store.antt =====
-- backend/governance/store.py: `FileGovernanceEventStore`. The state is the file at `_path`, as far
-- as `_read_raw` tells its contents apart, and whether the system lets `_write_raw_atomic` finish.
-- The lock is not modelled: an operation here is one step.
pub mod Append
use torq_pro_ai.Prelude.{
  String, Bool, Option, none, some, List, [], ◌∷◌, ◌++◌, string_eq, ◌==◌, if◌then◌else◌, keep,
  find_first,
}
use torq_pro_ai.Prelude.Texts.{is_empty_str}
use torq_pro_ai.Prelude.Exec.{Result, ok, raised, and_then, Exec}
use torq_pro_ai.Governance.Errors.{GovernanceError, store_failure, corruption, decode_error}
use torq_pro_ai.Governance.Events.{GovernanceEvent, Backing}

pub data Content (J : Type 0) : Type 0 where
  missing unreadable undecodable blank not_json wrong_shape : Content J
  payload : List J → Content J

pub record Disk (J : Type 0) : Type 0 where
  pub content : Content J
  pub writable : Bool

unfoldable pub read_raw : {J : Type 0} → Disk J → Result GovernanceError (List J)
read_raw d = elim d.content [
  | missing ↦ ok []
  | unreadable ↦ raised store_failure
  | undecodable ↦ raised decode_error
  | blank ↦ ok []
  | not_json ↦ raised corruption
  | wrong_shape ↦ raised corruption
  | payload events ↦ ok events
]

-- The new file replaces the old one, or the old one stays.
unfoldable pub write_raw_atomic : {J : Type 0} → List J → Exec (Disk J) GovernanceError Unit
write_raw_atomic events d =
    if d.writable then (ok tt, record d { content = payload events }) else (raised store_failure, d)

module _ ⦃b : Backing⦄ where
  abbrev pub Event : Type 0
  Event = GovernanceEvent b.Metadata

  abbrev pub Store : Type 0
  Store = Disk b.Json

  -- the loop of `all_events`
  unfoldable pub validate_all : List b.Json → Result GovernanceError (List Event)
  validate_all [] = ok []
  validate_all (raw ∷ rest) = elim (b.model_validate raw) [
    | none ↦ raised corruption
    | some e ↦ and_then (validate_all rest) (λ es. ok (e ∷ es))
  ]

  unfoldable pub all_events : Store → Result GovernanceError (List Event)
  unfolding read_raw
  all_events d = and_then (read_raw d) validate_all

  unfoldable pub events_for_aggregate : Store → String → Result GovernanceError (List Event)
  events_for_aggregate d aggregate_id =
      and_then (all_events d) λ es. ok (keep (λ e. e.aggregate_id == aggregate_id) es)

  unfoldable pub find_by_decision_id : Store → String → Result GovernanceError (Option Event)
  find_by_decision_id d decision_id =
      and_then (all_events d) λ es. ok (find_first (λ e. e.decision_id == decision_id) es)

  unfoldable pub find_by_idempotency_key : Store → String → Result GovernanceError (Option Event)
  find_by_idempotency_key d key =
      if is_empty_str key
      then ok none
      else and_then (all_events d) λ es. ok (find_first (λ e. e.idempotency_key == key) es)

  unfoldable pub append : Event → Exec Store GovernanceError Event
  unfolding read_raw write_raw_atomic
  append event d = elim (read_raw d) [
    | raised err ↦ (raised err, d)
    | ok events ↦
        (let (r, d') = write_raw_atomic (events ++ b.model_dump event ∷ []) d in
          (and_then r (λ _. ok event), d'))
  ]
