-- ===== src/Washer/Reconciliation/Counting.antt =====
-- What the counters of a reconciliation add up to, and what a dry run leaves alone.
use torq_pro_ai.Prelude.{
  String, ◌+◌, Bool, true, Option, none, some, List, [], ◌∷◌, ◌++◌, ◌≡◌, refl, sym, ap, ◌∙◌, arith,
  length, length-append, Bool-cases, Option-cases, inl, inr,
}
use mathlib.Core.Option.{some-injective}
use torq_pro_ai.Prelude.Exec.{Result-cases}
use torq_pro_ai.Governance.Enums.{ResolutionStatus}
use torq_pro_ai.Governance.Events.{Backing}
use torq_pro_ai.Governance.Store.{Store, find_by_idempotency_key}
use torq_pro_ai.Washer.Records.{
  WasherResolutionStatus, open_, under_review, resolved, accepted_as_is,
  blocked_authoritative_source, rejected,
}
use torq_pro_ai.Washer.Decisions.{WasherResolutionDecision}
use torq_pro_ai.Washer.Sync.{
  SyncOutcome, synchronized, already_synchronized, would_synchronize, skipped_open,
  not_representable, governance_store_unconfigured, failed, SyncResult, Lineage,
  sync_idempotency_key, existing_event_matches, sync_new, sync_syncable, sync_stored, sync_status,
  sync_washer_decision,
}
use torq_pro_ai.Washer.Reconciliation.{
  Counters, no_counts, counted, ReconciliationReport, terminal_outcome_sum, Source, reconcile_from,
  reconcile,
}

-- Every decision that was looked at is in one outcome, and eligible but for two outcomes.
pub record IsBalanced (report : ReconciliationReport) : Type 0 where
  pub all : report.counters.scanned ≡ terminal_outcome_sum report
  pub eligible :
      report.counters.scanned
      ≡ report.counters.eligible + report.counters.not_representable_count
        + report.counters.skipped_open_count
  pub records : report.counters.scanned ≡ length report.records

abbrev report_of : Counters → List SyncResult → Bool → ReconciliationReport
report_of c rs dry = record { counters = c; records = rs; dry_run = dry }

counted-scanned : (o : SyncOutcome) (c : Counters) → (counted o c).scanned ≡ c.scanned + 1
counted-scanned synchronized c = refl
counted-scanned already_synchronized c = refl
counted-scanned would_synchronize c = refl
counted-scanned skipped_open c = refl
counted-scanned not_representable c = refl
counted-scanned governance_store_unconfigured c = refl
counted-scanned failed c = refl

counted-sum :
    (o : SyncOutcome) (c : Counters) (rs rs' : List SyncResult) (dry : Bool)
    → terminal_outcome_sum (report_of (counted o c) rs' dry)
      ≡ terminal_outcome_sum (report_of c rs dry) + 1
counted-sum synchronized c rs rs' dry = omega arith
counted-sum already_synchronized c rs rs' dry = omega arith
counted-sum would_synchronize c rs rs' dry = omega arith
counted-sum skipped_open c rs rs' dry = omega arith
counted-sum not_representable c rs rs' dry = omega arith
counted-sum governance_store_unconfigured c rs rs' dry = omega arith
counted-sum failed c rs rs' dry = omega arith

counted-eligible :
    (o : SyncOutcome) (c : Counters)
    → (counted o c).eligible
        + (counted o c).not_representable_count
        + (counted o c).skipped_open_count
      ≡ c.eligible + c.not_representable_count + c.skipped_open_count + 1
counted-eligible synchronized c = omega arith
counted-eligible already_synchronized c = omega arith
counted-eligible would_synchronize c = omega arith
counted-eligible skipped_open c = omega arith
counted-eligible not_representable c = omega arith
counted-eligible governance_store_unconfigured c = omega arith
counted-eligible failed c = omega arith

counted-IsBalanced :
    (o : SyncOutcome) (r : SyncResult) (c : Counters) (rs : List SyncResult) (dry : Bool)
    → IsBalanced (report_of c rs dry)
    → IsBalanced (report_of (counted o c) (rs ++ r ∷ []) dry)
counted-IsBalanced o r c rs dry h = record {
  all = counted-scanned o c ∙ ap (λ n. n + 1) h.all ∙ sym (counted-sum o c rs (rs ++ r ∷ []) dry);
  eligible = counted-scanned o c ∙ ap (λ n. n + 1) h.eligible ∙ sym (counted-eligible o c);
  records = counted-scanned o c ∙ ap (λ n. n + 1) h.records ∙ sym (length-append rs (r ∷ []));
}

module _ ⦃b : Backing⦄ ⦃l : Lineage⦄ where
  reconcile_from-IsBalanced :
      (c : Counters) (rs : List SyncResult) (sources : List Source) (dry : Bool)
      (store store' : Option Store) (report : ReconciliationReport)
      → IsBalanced (report_of c rs dry)
      → reconcile_from c rs sources dry store ≡ (some report, store')
      → IsBalanced report × (report.counters.scanned ≡ c.scanned + length sources)
  unfolding reconcile_from
  reconcile_from-IsBalanced c rs [] dry store store' report k h =
      rw (sym (some-injective _ _ (ap (λ (x : Option ReconciliationReport × Option Store). x.0) h)))
        (k, omega arith)
  reconcile_from-IsBalanced c rs (s ∷ sources) dry store store' report k h =
      let first = sync_washer_decision s.decision dry s.synchronized_at s.fresh_id store in
      elim (Option-cases first.0) [
        | inl e ↦ absurd (let h' = rw (reconcile_from, e) at h in cc)
        | inr (r, e) ↦
            let (ih, n) =
              reconcile_from-IsBalanced (counted r.outcome c) (rs ++ r ∷ []) sources dry first.1
                store' report (counted-IsBalanced r.outcome r c rs dry k)
                (rw (reconcile_from, e) at h) in
            (ih, n ∙ (rw (counted-scanned r.outcome c) (omega arith)))
      ]

  sync_syncable_dry_run :
      (d : WasherResolutionDecision) (status : ResolutionStatus) (at id : String) (s : Store)
      → (sync_syncable d status true at id s).1 ≡ s
  unfolding sync_syncable sync_new
  sync_syncable_dry_run d status at id s =
      elim (Result-cases (find_by_idempotency_key s (sync_idempotency_key d))) [
        | inl (some e, f) ↦ elim (Bool-cases (existing_event_matches e d status)) [
          | inl m ↦ rw (sync_syncable, f, m) refl
          | inr m ↦ rw (sync_syncable, f, m) refl
        ]
        | inl (none, f) ↦ rw (sync_syncable, f) refl
        | inr (err, f) ↦ rw (sync_syncable, f) refl
      ]

  sync_stored_dry_run :
      (d : WasherResolutionDecision) (status : ResolutionStatus) (at id : String)
      (store : Option Store)
      → (sync_stored d status true at id store).1 ≡ store
  sync_stored_dry_run d status at id none = refl
  sync_stored_dry_run d status at id (some s) = ap some (sync_syncable_dry_run d status at id s)

  sync_status_dry_run :
      (d : WasherResolutionDecision) (status : WasherResolutionStatus) (at id : String)
      (store : Option Store)
      → (sync_status d status true at id store).1 ≡ store
  sync_status_dry_run d open_ at id store = refl
  sync_status_dry_run d under_review at id store = refl
  sync_status_dry_run d resolved at id store = sync_stored_dry_run d _ at id store
  sync_status_dry_run d accepted_as_is at id store = sync_stored_dry_run d _ at id store
  sync_status_dry_run d blocked_authoritative_source at id store = refl
  sync_status_dry_run d rejected at id store = sync_stored_dry_run d _ at id store

  reconcile_from_dry_run :
      (c : Counters) (rs : List SyncResult) (sources : List Source) (store : Option Store)
      → (reconcile_from c rs sources true store).1 ≡ store
  unfolding reconcile_from sync_washer_decision
  reconcile_from_dry_run c rs [] store = refl
  reconcile_from_dry_run c rs (s ∷ sources) store =
      let first = sync_washer_decision s.decision true s.synchronized_at s.fresh_id store in
      let same : first.1 ≡ store =
        sync_status_dry_run s.decision s.decision.new_status s.synchronized_at s.fresh_id store in
      elim (Option-cases first.0) [
        | inl e ↦ rw (reconcile_from, e) same
        | inr (r, e) ↦
            rw (reconcile_from, e)
              (reconcile_from_dry_run (counted r.outcome c) (rs ++ r ∷ []) sources first.1 ∙ same)
      ]

  -- The report of a reconciliation that ends counts each decision once: the decisions looked at are
  -- the ones given, the sum over the outcomes, the eligible ones with the two outcomes that are not,
  -- and the records of the report.
  pub reconcile-IsBalanced :
      (sources : List Source) (dry_run : Bool) (store store' : Option Store)
      (report : ReconciliationReport)
      → reconcile sources dry_run store ≡ (some report, store')
      → IsBalanced report × (report.counters.scanned ≡ length sources)
  unfolding reconcile
  reconcile-IsBalanced sources dry_run store store' report h =
      let (balanced, n) =
        reconcile_from-IsBalanced no_counts [] sources dry_run store store' report
          (record { all = refl; eligible = refl; records = refl }) h in
      (balanced, n ∙ omega arith)

  -- A dry run leaves the store as it is, whether it ends or raises.
  reconcile_dry_run :
      (sources : List Source) (store : Option Store) → (reconcile sources true store).1 ≡ store
  unfolding reconcile
  reconcile_dry_run sources store = reconcile_from_dry_run no_counts [] sources store
