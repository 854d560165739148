-- ===== src/Washer/Service/Views.antt =====
-- The views of the queue and of one resolution, against the effective status.
use torq_pro_ai.Prelude.{
  String, some, List, [], ◌∷◌, map, ◌≡◌, refl, arith, ◌==◌, string_eq, find_first, beq→eq,
  find_first-holds,
}
use torq_pro_ai.Prelude.Exec.{ok}
use torq_pro_ai.Washer.Records.{WasherResolutionRecord, get_washer_resolution}
use torq_pro_ai.Washer.Decisions.{WasherResolutionDecision}
use torq_pro_ai.Washer.Service.{
  Ledgers, QueueRow, queue_row, resolution_queue, Detail, resolution_detail, effective_status,
}

find_first-queue_row :
    (ds : List WasherResolutionDecision) (source : List WasherResolutionRecord) (a : String)
    (w : WasherResolutionRecord)
    → find_first (λ r. r.resolution_id == a) source ≡ some w
    → find_first (λ row. row.resolution_id == a) (map (queue_row ds) source) ≡ some (queue_row ds w)
unfolding find_first queue_row
find_first-queue_row ds [] a w g = absurd (cc)
find_first-queue_row ds (r ∷ rs) a w g = ground (arith, find_first-queue_row ds rs a w)

queue-found :
    (s : Ledgers) (a : String) (w : WasherResolutionRecord)
    → get_washer_resolution s.source a ≡ some w
    → find_first (λ row. row.resolution_id == a) (resolution_queue s)
      ≡ some (queue_row s.decisions w)
unfolding resolution_queue get_washer_resolution
queue-found s a w g = find_first-queue_row s.decisions s.source a w g

find_first-resolution_id :
    (source : List WasherResolutionRecord) (a : String) (w : WasherResolutionRecord)
    → get_washer_resolution source a ≡ some w
    → w.resolution_id ≡ a
unfolding get_washer_resolution
find_first-resolution_id source a w g =
    beq→eq w.resolution_id a (find_first-holds (λ r. r.resolution_id == a) source w g)

row-effective_status :
    (s : Ledgers) (a : String) (w : WasherResolutionRecord)
    → get_washer_resolution s.source a ≡ some w
    → effective_status s a ≡ ok (queue_row s.decisions w).effective_status
unfolding effective_status queue_row
row-effective_status s a w g = ground (arith, find_first-resolution_id s.source a w g)

detail-found :
    (s : Ledgers) (a : String) (w : WasherResolutionRecord) (row : QueueRow)
    → get_washer_resolution s.source a ≡ some w
    → find_first (λ row. row.resolution_id == a) (resolution_queue s) ≡ some row
    → resolution_detail s a ≡ ok (some (record { of_record = w; of_row = row }))
unfolding resolution_detail
detail-found s a w row g q = ground arith

-- The detail of a resolution that the source ledger has is found: `next` never raises. It is that
-- of its record, and its row has the effective status that the decisions start from.
pub resolution_detail_lem :
    (s : Ledgers) (a : String) (w : WasherResolutionRecord)
    → get_washer_resolution s.source a ≡ some w
    → (d : Detail) × (resolution_detail s a ≡ ok (some d))
      × (d.of_record ≡ w)
      × (effective_status s a ≡ ok d.of_row.effective_status)
resolution_detail_lem s a w g = (
  record { of_record = w; of_row = queue_row s.decisions w },
  detail-found s a w (queue_row s.decisions w) g (queue-found s a w g),
  refl,
  row-effective_status s a w g,
)
