-- ===== src/Washer/Traces.antt =====
-- Runs of the service: the operations that write, in any order and with any outcome.
pub mod Invariants
pub mod Verdicts
use torq_pro_ai.Prelude.{String, List, [], ◌≡◌}
use torq_pro_ai.Washer.Records.{WasherResolutionRecord}
use torq_pro_ai.Washer.Digests.{Hashing}
use torq_pro_ai.Washer.Evidence.{EvidenceRequest}
use torq_pro_ai.Washer.Closures.{ClosureRequest}
use torq_pro_ai.Washer.Service.{Ledgers, DecisionRequest, decide_resolution}
use torq_pro_ai.Washer.Service.Closing.{record_resolution_evidence, close_resolution}

pub data Operation : Type 0 where
  decide : DecisionRequest → Operation
  record_evidence : EvidenceRequest → Operation
  close : ClosureRequest → Operation

-- The ledgers of a new installation: the source ledger, and nothing written.
abbrev pub new_ledgers : List WasherResolutionRecord → Ledgers
new_ledgers source = record { source = source; decisions = []; evidence = []; closures = [] }

module _ ⦃h : Hashing⦄ where
  -- the ledgers behind an operation
  unfoldable pub act : Operation → Ledgers → Ledgers
  act (decide r) s = (decide_resolution r s).1
  act (record_evidence q) s = (record_resolution_evidence q s).1
  act (close q) s = (close_resolution q s).1

  -- the ledgers that the operations of the service make of new ones
  pub data Reaches (source : List WasherResolutionRecord) : Ledgers → Type 0 where
    here : Reaches source (new_ledgers source)
    next : (o : Operation) (s : Ledgers) → Reaches source s → Reaches source (act o s)
