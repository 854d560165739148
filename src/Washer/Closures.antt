-- ===== src/Washer/Closures.antt =====
-- backend/library/washer_resolution_closure.py and washer_resolution_closure_store.py: the closure
-- records, their validators and factory, and the ledger that they are appended to.
use torq_pro_ai.Prelude.{
  String, Bool, true, not, ◌&&◌, Option, List, [], ◌∷◌, ◌++◌, string_eq, ◌==◌, if◌then◌else◌,
  find_first, any, is_empty, contains,
}
use torq_pro_ai.Prelude.Exec.{Result, ok, raised, and_then, Exec}
use torq_pro_ai.Governance.Timestamps.{is_valid_utc_iso8601}
use torq_pro_ai.Washer.Records.{WasherError, validation_error, duplicate_closure}
use torq_pro_ai.Washer.Digests.{
  string, strings, Payload, Hashing, compute_checksum, is_valid_sha256_hex, normalize_required,
}

pub record WasherResolutionClosure : Type 0 where
  pub closure_id : String
  pub resolution_id : String
  pub closure_status : String
  pub closure_rationale : String
  pub closed_by : String
  pub closed_at : String
  pub evidence_ids : List String
  pub decision_id : String
  pub integrity_checksum : String

-- the loop of `_evidence_ids_valid`
unfoldable pub normalize_all : List String → Result WasherError (List String)
unfolding normalize_required
normalize_all [] = ok []
normalize_all (item ∷ rest) =
    and_then (normalize_required item)
      λ stripped. and_then (normalize_all rest) λ others. ok (stripped ∷ others)

-- `len(set(xs)) == len(xs)`
unfoldable pub has_no_duplicates : List String → Bool
has_no_duplicates [] = true
has_no_duplicates (x ∷ xs) = not (contains x xs) && has_no_duplicates xs

-- `_evidence_ids_valid`
unfoldable pub normalize_evidence_ids : List String → Result WasherError (List String)
unfolding normalize_all has_no_duplicates
normalize_evidence_ids value =
    if is_empty value
    then raised validation_error
    else and_then (normalize_all value)
        λ ids. if has_no_duplicates ids then ok ids else raised validation_error

-- The constructor: it normalizes the fields, then tests their forms.
unfoldable pub make_closure : WasherResolutionClosure → Result WasherError WasherResolutionClosure
unfolding normalize_required normalize_evidence_ids
make_closure c = and_then (normalize_required c.closure_id) λ closure_id.
    and_then (normalize_required c.resolution_id) λ resolution_id.
      and_then (normalize_required c.closure_rationale) λ closure_rationale.
        and_then (normalize_required c.closed_by) λ closed_by.
          and_then (normalize_required c.decision_id) λ decision_id.
            and_then (normalize_evidence_ids c.evidence_ids) λ evidence_ids.
              if c.closure_status == "closed"
                && is_valid_utc_iso8601 c.closed_at
                && is_valid_sha256_hex c.integrity_checksum
              then ok (record c {
                closure_id = closure_id;
                resolution_id = resolution_id;
                closure_rationale = closure_rationale;
                closed_by = closed_by;
                decision_id = decision_id;
                evidence_ids = evidence_ids;
              })
              else raised validation_error

-- `to_dict`
unfoldable pub closure_to_dict : WasherResolutionClosure → Payload
closure_to_dict c =
    ("closure_id", string c.closure_id)
    ∷ ("resolution_id", string c.resolution_id)
    ∷ ("closure_status", string c.closure_status)
    ∷ ("closure_rationale", string c.closure_rationale)
    ∷ ("closed_by", string c.closed_by)
    ∷ ("closed_at", string c.closed_at)
    ∷ ("evidence_ids", strings c.evidence_ids)
    ∷ ("decision_id", string c.decision_id)
    ∷ ("integrity_checksum", string c.integrity_checksum)
    ∷ []

-- What `close_resolution` is given, and the identifier and the time that one call generates.
pub record ClosureRequest : Type 0 where
  pub resolution_id : String
  pub closure_rationale : String
  pub closed_by : String
  pub closure_id : String
  pub closed_at : String

-- the record that the factory fills, its checksum aside
unfoldable pub closure_of : ClosureRequest → List String → String → WasherResolutionClosure
closure_of r evidence_ids decision_id = record {
  closure_id = r.closure_id;
  resolution_id = r.resolution_id;
  closure_status = "closed";
  closure_rationale = r.closure_rationale;
  closed_by = r.closed_by;
  closed_at = r.closed_at;
  evidence_ids = evidence_ids;
  decision_id = decision_id;
  integrity_checksum = "";
}

module _ ⦃h : Hashing⦄ where
  unfoldable pub verify_closure_integrity : WasherResolutionClosure → Bool
  unfolding closure_to_dict
  verify_closure_integrity c = c.integrity_checksum == compute_checksum (closure_to_dict c)

  unfoldable pub create_washer_resolution_closure :
      ClosureRequest → List String → String → Result WasherError WasherResolutionClosure
  unfolding closure_of
  create_washer_resolution_closure r evidence_ids decision_id =
      let c = closure_of r evidence_ids decision_id in
      make_closure (record c { integrity_checksum = compute_checksum (closure_to_dict c) })

unfoldable pub get_closure_for_resolution :
    List WasherResolutionClosure → String → Option WasherResolutionClosure
get_closure_for_resolution ledger resolution_id =
    find_first (λ c. c.resolution_id == resolution_id) ledger

unfoldable pub append_closure :
    WasherResolutionClosure
    → Exec (List WasherResolutionClosure) WasherError WasherResolutionClosure
append_closure c ledger =
    if any (λ x. x.resolution_id == c.resolution_id) ledger
    then (raised (duplicate_closure c.resolution_id), ledger)
    else (ok c, ledger ++ c ∷ [])
