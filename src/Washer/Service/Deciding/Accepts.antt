-- ===== src/Washer/Service/Deciding/Accepts.antt =====
-- When a decision goes through.
use Prim.Native.Char.{code}
use torq_pro_ai.Prelude.{
  ℕ, suc, String, Bool, true, false, ◌&&◌, ◌||◌, none, some, List, [], ◌∷◌, ◌≡◌, refl, arith, ◌∙◌,
}
use torq_pro_ai.Prelude.Texts.{is_blank, is_space, is_empty_str, codes}
use torq_pro_ai.Prelude.Exec.{ok, raised}
use torq_pro_ai.Governance.Timestamps.{is_valid_utc_iso8601}
use torq_pro_ai.Washer.Records.{WasherResolutionStatus, blocked_record_decision}
use torq_pro_ai.Washer.Digests.{Hashing, compute_checksum, is_valid_sha256_hex, match_hex, is_hex}
use torq_pro_ai.Washer.Decisions.{
  make_decision, build_decision, decision_to_dict, validate_transition, validate_decision_fields,
  missing_fields, find_by_idempotency_key, is_transition_allowed, is_blocked_source_status,
}
use torq_pro_ai.Washer.Service.{
  Ledgers, DecisionRequest, effective_status, decision_of, decide_new, decide_resolution,
}
use torq_pro_ai.Washer.Service.Deciding.{made, after_decision, is_used, record_decision-new}

is_hex-not_space : (c : ℕ) → is_hex c ≡ true → is_space c ≡ false
unfolding is_hex is_space
is_hex-not_space c v = ground arith

and-left : (a b : Bool) → (a && b) ≡ true → a ≡ true
and-left a b h = ground arith

match_hex-head : (k c : ℕ) (cs : List ℕ) → match_hex (suc k) (c ∷ cs) ≡ true → is_hex c ≡ true
unfolding match_hex
match_hex-head k c cs v = and-left (is_hex c) (match_hex k cs) v

hex_empty : match_hex 64 [] ≡ true → ⊥
unfolding match_hex
hex_empty h = cc

sha256_hex-not_blank : (s : String) → is_valid_sha256_hex s ≡ true → is_blank s ≡ false
unfolding is_valid_sha256_hex is_blank
sha256_hex-not_blank String.[] v = absurd (hex_empty v)
sha256_hex-not_blank (String.◌∷◌ c s) v =
    rw (is_hex-not_space (code c) (match_hex-head 63 (code c) (codes s) v))

not_blank-not_empty : (s : String) → is_blank s ≡ false → is_empty_str s ≡ false
unfolding is_blank
not_blank-not_empty String.[] h = absurd (cc)
not_blank-not_empty (String.◌∷◌ c s) h = refl

module _ ⦃h : Hashing⦄ where
  checksum-not_blank :
      (r : DecisionRequest) (p : WasherResolutionStatus)
      → is_blank (compute_checksum (decision_to_dict (decision_of r p))) ≡ false
  unfolding compute_checksum
  checksum-not_blank r p = sha256_hex-not_blank _ (h.digest-hex _)

  build_decision_complete :
      (r : DecisionRequest) (p : WasherResolutionStatus)
      → is_blank r.resolution_note ≡ false
      → is_blank r.evidence_reference ≡ false
      → is_valid_utc_iso8601 r.decided_at ≡ true
      → build_decision (decision_of r p) ≡ ok (made r p)
  unfolding build_decision make_decision decision_of
  build_decision_complete r p n e t = rw (n, e, t, checksum-not_blank r p)

  validate_decision_fields_complete :
      (note evidence by : String)
      → is_blank note ≡ false
      → is_blank evidence ≡ false
      → is_blank by ≡ false
      → validate_decision_fields note evidence (some by) ≡ ok tt
  unfolding validate_decision_fields missing_fields
  validate_decision_fields_complete note evidence by n e b =
      ground (arith, not_blank-not_empty note n, not_blank-not_empty evidence e)

  validate_transition-legal :
      (p n : WasherResolutionStatus) (a : String)
      → is_blocked_source_status p ≡ false
      → is_transition_allowed p n ≡ true
      → validate_transition p n a ≡ ok tt
  unfolding validate_transition
  validate_transition-legal p n a b l = ground arith

  validate_transition-blocked :
      (p n : WasherResolutionStatus) (a : String)
      → is_blocked_source_status p ≡ true
      → validate_transition p n a ≡ raised (blocked_record_decision a)
  unfolding validate_transition
  validate_transition-blocked p n a b = ground arith

  decide_resolution-unused :
      (r : DecisionRequest) (s : Ledgers)
      → (is_empty_str r.idempotency_key || is_blank r.idempotency_key) ≡ false
      → find_by_idempotency_key s.decisions r.idempotency_key ≡ none
      → decide_resolution r s ≡ decide_new r s
  unfolding decide_resolution
  decide_resolution-unused r s k f = ground arith

  -- A request is recorded, with the identifier and the time that the call generates, where its key
  -- is given and unused, the effective status of its resolution is not blocked and may go to the
  -- requested one, its note, evidence reference and resolver are not blank, and the generated time
  -- has its form and the generated identifier is new.
  pub decide_resolution_accepts :
      (r : DecisionRequest) (s : Ledgers) (p : WasherResolutionStatus)
      → (is_empty_str r.idempotency_key || is_blank r.idempotency_key) ≡ false
      → find_by_idempotency_key s.decisions r.idempotency_key ≡ none
      → effective_status s r.resolution_id ≡ ok p
      → is_blocked_source_status p ≡ false
      → is_transition_allowed p r.new_status ≡ true
      → is_blank r.resolution_note ≡ false
      → is_blank r.evidence_reference ≡ false
      → is_blank r.resolved_by ≡ false
      → is_valid_utc_iso8601 r.decided_at ≡ true
      → is_used r.decision_id s.decisions ≡ false
      → decide_resolution r s ≡ (ok (made r p, true), after_decision s (made r p))
  unfolding decide_new
  decide_resolution_accepts r s p k f st b l n e by t u =
      decide_resolution-unused r s k f
      ∙ rw (
        st,
        validate_transition-legal p r.new_status r.resolution_id b l,
        validate_decision_fields_complete r.resolution_note r.evidence_reference r.resolved_by n e
            by,
        build_decision_complete r p n e t,
        record_decision-new r p s.decisions f u,
      )

  -- A request with a given, unused key for a resolution whose effective status is blocked raises
  -- that it is blocked, whatever else the request says, and records nothing.
  pub decide_resolution_blocked :
      (r : DecisionRequest) (s : Ledgers) (p : WasherResolutionStatus)
      → (is_empty_str r.idempotency_key || is_blank r.idempotency_key) ≡ false
      → find_by_idempotency_key s.decisions r.idempotency_key ≡ none
      → effective_status s r.resolution_id ≡ ok p
      → is_blocked_source_status p ≡ true
      → decide_resolution r s ≡ (raised (blocked_record_decision r.resolution_id), s)
  unfolding decide_new
  decide_resolution_blocked r s p k f st b =
      decide_resolution-unused r s k f
      ∙ rw (st, validate_transition-blocked p r.new_status r.resolution_id b)
