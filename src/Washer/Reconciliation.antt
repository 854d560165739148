-- ===== src/Washer/Reconciliation.antt =====
-- backend/governance/adapters/washer_resolution_reconciliation.py: every washer decision synchronized
-- in turn, and the outcomes counted.
pub mod Counting
use torq_pro_ai.Prelude.{
  String, Bool, true, false, Option, none, some, List, [], ◌∷◌, ◌++◌, ℕ, ◌+◌, if◌then◌else◌,
}
use torq_pro_ai.Governance.Events.{Backing}
use torq_pro_ai.Governance.Store.{Store}
use torq_pro_ai.Washer.Decisions.{WasherResolutionDecision}
use torq_pro_ai.Washer.Sync.{
  SyncOutcome, synchronized, already_synchronized, would_synchronize, skipped_open,
  not_representable, governance_store_unconfigured, failed, SyncResult, Lineage,
  sync_washer_decision,
}

-- the dict of the counters, by `_COUNTER_NAMES`
pub record Counters : Type 0 where
  pub scanned : ℕ
  pub eligible : ℕ
  pub synchronized_count : ℕ
  pub already_synchronized_count : ℕ
  pub would_synchronize_count : ℕ
  pub not_representable_count : ℕ
  pub skipped_open_count : ℕ
  pub failed_count : ℕ
  pub governance_store_unconfigured_count : ℕ

abbrev pub no_counts : Counters
no_counts = record {
  scanned = 0;
  eligible = 0;
  synchronized_count = 0;
  already_synchronized_count = 0;
  would_synchronize_count = 0;
  not_representable_count = 0;
  skipped_open_count = 0;
  failed_count = 0;
  governance_store_unconfigured_count = 0;
}

-- membership in `_ELIGIBLE_OUTCOMES`
abbrev pub is_eligible : SyncOutcome → Bool
is_eligible skipped_open = false
is_eligible not_representable = false
is_eligible outcome = true

-- the counter that `_OUTCOME_TO_COUNTER` names, plus one
abbrev pub count_outcome : SyncOutcome → Counters → Counters
count_outcome synchronized c = record c { synchronized_count = c.synchronized_count + 1 }
count_outcome already_synchronized c = record c {
  already_synchronized_count = c.already_synchronized_count + 1;
}
count_outcome would_synchronize c = record c {
  would_synchronize_count = c.would_synchronize_count + 1;
}
count_outcome skipped_open c = record c { skipped_open_count = c.skipped_open_count + 1 }
count_outcome not_representable c = record c {
  not_representable_count = c.not_representable_count + 1;
}
count_outcome governance_store_unconfigured c = record c {
  governance_store_unconfigured_count = c.governance_store_unconfigured_count + 1;
}
count_outcome failed c = record c { failed_count = c.failed_count + 1 }

abbrev pub count_eligible : SyncOutcome → Counters → Counters
count_eligible outcome c = if is_eligible outcome then record c { eligible = c.eligible + 1 } else c

-- the three counters of one round of the loop
abbrev pub counted : SyncOutcome → Counters → Counters
counted outcome c =
    count_eligible outcome (count_outcome outcome (record c { scanned = c.scanned + 1 }))

pub record ReconciliationReport : Type 0 where
  pub counters : Counters
  pub records : List SyncResult
  pub dry_run : Bool

abbrev pub terminal_outcome_sum : ReconciliationReport → ℕ
terminal_outcome_sum report =
    report.counters.synchronized_count + report.counters.already_synchronized_count
    + report.counters.would_synchronize_count + report.counters.not_representable_count
    + report.counters.skipped_open_count + report.counters.failed_count
    + report.counters.governance_store_unconfigured_count

-- a decision, with the time and the event id that its synchronization meets
pub record Source : Type 0 where
  pub decision : WasherResolutionDecision
  pub synchronized_at : String
  pub fresh_id : String

module _ ⦃b : Backing⦄ ⦃l : Lineage⦄ where
  -- The loop, from the counters and the records so far. None stands for an error that is raised.
  unfoldable pub reconcile_from :
      Counters
      → List SyncResult
      → List Source
      → Bool
      → Option Store
      → Option ReconciliationReport × Option Store
  reconcile_from counters records [] dry_run store =
      (some (record { counters = counters; records = records; dry_run = dry_run }), store)
  reconcile_from counters records (s ∷ sources) dry_run store =
      let (r, store') =
        sync_washer_decision s.decision dry_run s.synchronized_at s.fresh_id store in
      elim r [
        | none ↦ (none, store')
        | some result ↦
            reconcile_from (counted result.outcome counters) (records ++ result ∷ []) sources
              dry_run store'
      ]

  unfoldable pub reconcile :
      List Source → Bool → Option Store → Option ReconciliationReport × Option Store
  reconcile sources dry_run store = reconcile_from no_counts [] sources dry_run store
