-- ===== src/Washer/Traces/Verdicts.antt =====
-- What every run of the service keeps to.
use torq_pro_ai.Prelude.{
  String, true, some, List, [], ◌∷◌, ◌++◌, ◌≡◌, refl, arith, string_eq, keep, All,
}
use torq_pro_ai.Prelude.Exec.{Result, raised}
use torq_pro_ai.Washer.Records.{WasherResolutionRecord, WasherError, get_washer_resolution}
use torq_pro_ai.Washer.Digests.{Hashing}
use torq_pro_ai.Washer.Decisions.{WasherResolutionDecision, decisions_for_resolution}
use torq_pro_ai.Washer.Evidence.{WasherResolutionEvidence, unverified, evidence_for_resolution}
use torq_pro_ai.Washer.Closures.{WasherResolutionClosure, ClosureRequest}
use torq_pro_ai.Washer.Service.{Ledgers}
use torq_pro_ai.Washer.Service.Closing.{close_resolution}
use torq_pro_ai.Washer.Service.Closing.Outcomes.{Closes, failed, closed, close_resolution-Closes}
use torq_pro_ai.Washer.Service.Closing.Readiness.{supports, supporting_ids}
use torq_pro_ai.Washer.Audit.{IsChain-final, IsChain-after, is_final}
use torq_pro_ai.Washer.Traces.{Reaches, here, next, new_ledgers}
use torq_pro_ai.Washer.Traces.Invariants.{IsAudited, act-IsAudited, is_closed_once}

module _ ⦃h : Hashing⦄ where
  new-IsAudited : (source : List WasherResolutionRecord) → IsAudited source (new_ledgers source)
  unfolding decisions_for_resolution keep is_closed_once
  new-IsAudited source = record {
    same_source = refl;
    audited = λ a w g. tt;
    intact = tt;
    unverified_only = tt;
    once = refl;
  }

  -- In every run of the service from new ledgers, whatever its operations are and however they end,
  -- the source ledger stays as it is, the decisions of every resolution are a legal audit trail
  -- from the status that it has there, the checksum of every decision fits it, no evidence becomes
  -- verified, and no resolution has two closures.
  pub Reaches-IsAudited :
      (source : List WasherResolutionRecord) (s : Ledgers) → Reaches source s → IsAudited source s
  Reaches-IsAudited source s here = new-IsAudited source
  Reaches-IsAudited source s (next o t r) = act-IsAudited source t (Reaches-IsAudited source t r) o

  -- In every run, a resolution whose source status is terminal or blocked has no decision.
  pub Reaches-undecided :
      (source : List WasherResolutionRecord) (s : Ledgers) (a : String) (w : WasherResolutionRecord)
      → Reaches source s
      → get_washer_resolution source a ≡ some w
      → is_final w.resolution_status ≡ true
      → decisions_for_resolution s.decisions a ≡ []
  Reaches-undecided source s a w r g f =
      IsChain-final w.resolution_status (decisions_for_resolution s.decisions a) f
        ((Reaches-IsAudited source s r).audited a w g)

  -- In every run, no decision of a resolution follows one that is terminal: nothing is reopened.
  pub Reaches-never_reopened :
      (source : List WasherResolutionRecord) (s : Ledgers) (a : String) (w : WasherResolutionRecord)
      (xs ys : List WasherResolutionDecision) (d : WasherResolutionDecision)
      → Reaches source s
      → get_washer_resolution source a ≡ some w
      → decisions_for_resolution s.decisions a ≡ xs ++ d ∷ ys
      → is_final d.new_status ≡ true
      → ys ≡ []
  Reaches-never_reopened source s a w xs ys d r g e f = IsChain-final d.new_status ys f (
      IsChain-after w.resolution_status xs ys d
        (rw (← e) ((Reaches-IsAudited source s r).audited a w g)))

  supporting_ids-unverified :
      (es : List WasherResolutionEvidence) (a : String)
      → All (λ e. e.verification_status ≡ unverified) es
      → supporting_ids (evidence_for_resolution es a) ≡ []
  unfolding supporting_ids supports evidence_for_resolution keep
  supporting_ids-unverified [] a u = refl
  supporting_ids-unverified (e ∷ es) a u = ground (arith, supporting_ids-unverified es a u.1, u.0)

  Closes-raised :
      (q : ClosureRequest) (s : Ledgers) {x : Result WasherError WasherResolutionClosure × Ledgers}
      → All (λ e. e.verification_status ≡ unverified) s.evidence
      → Closes q s x
      → (err : WasherError) × (x ≡ (raised err, s))
  Closes-raised q s u (failed err) = (err, refl)
  Closes-raised q s u (closed c k) =
      absurd (cc (k.closable.supported, supporting_ids-unverified s.evidence q.resolution_id u))

  -- In every run, `close_resolution` raises and writes nothing, whatever it is asked: its
  -- operations record unverified evidence only, and a closure needs verified evidence.
  pub Reaches-never_closed :
      (source : List WasherResolutionRecord) (s : Ledgers) (q : ClosureRequest)
      → Reaches source s
      → (err : WasherError) × (close_resolution q s ≡ (raised err, s))
  Reaches-never_closed source s q r =
      Closes-raised q s (Reaches-IsAudited source s r).unverified_only (close_resolution-Closes q s)
