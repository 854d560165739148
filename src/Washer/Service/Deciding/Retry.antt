-- ===== src/Washer/Service/Deciding/Retry.antt =====
-- What `decide_resolution` answers to a key that it has recorded.
use torq_pro_ai.Prelude.{String, string_eq, option_eq}
use torq_pro_ai.Washer.Records.{status_eq, confidence_eq}
use torq_pro_ai.Washer.Service.{DecisionRequest}

-- the same request, with what another call generates
abbrev pub again : DecisionRequest → String → String → DecisionRequest
again r decision_id decided_at = record r { decision_id = decision_id; decided_at = decided_at }
