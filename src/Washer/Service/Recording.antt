-- ===== src/Washer/Service/Recording.antt =====
-- How `record_resolution_evidence` ends, and what the factory makes of texts with white space around
-- them.
pub mod Integrity
use torq_pro_ai.Prelude.{
  String, Bool, true, false, Option, none, some, List, [], ◌∷◌, ◌++◌, ◌≡◌, ◌≢◌, refl, sym, ap,
  arith, ◌==◌, string_eq, if◌then◌else◌, any, Bool-cases, Option-cases, inl, inr, beq_refl, ne→beq,
  ◌∙◌,
}
use torq_pro_ai.Prelude.Exec.{
  Result, ok, raised, and_then, Result-cases, continue, Exec, lift, raise, reads, ◌>>=◌, ◌>>◌,
  Yields, and_then-Yields, Yields-eq_ok, and_then-eq_ok, checked-eq_ok,
}
use torq_pro_ai.Washer.Records.{
  WasherError, validation_error, get_washer_resolution, evidence_integrity, duplicate_evidence_id,
  resolution_not_found,
}
use torq_pro_ai.Washer.Digests.{
  Hashing, compute_checksum, normalize_required, normalize_optional, normalize_url,
}
use torq_pro_ai.Washer.Evidence.{
  WasherResolutionEvidence, unverified, EvidenceRequest, unverified_evidence, normalize_fields,
  make_evidence, evidence_to_dict, verify_evidence_integrity, create_washer_resolution_evidence,
  append_evidence,
}
use torq_pro_ai.Washer.Service.{Ledgers, on_evidence}
use torq_pro_ai.Washer.Service.Closing.{
  existing_record, persist_evidence, record_resolution_evidence,
}

abbrev pub is_recorded : String → List WasherResolutionEvidence → Bool
is_recorded i evidence = any (λ x. x.evidence_id == i) evidence

abbrev pub after_evidence : Ledgers → WasherResolutionEvidence → Ledgers
after_evidence s e = record s { evidence = s.evidence ++ e ∷ [] }

-- The validators leave the verification and the checksum of a record as they are.
abbrev pub Keeps : WasherResolutionEvidence → WasherResolutionEvidence → Type 0
Keeps x y =
    (y.verification_status ≡ x.verification_status) × (y.integrity_checksum ≡ x.integrity_checksum)

normalize_fields-Keeps : (x : WasherResolutionEvidence) → Yields (Keeps x) (normalize_fields x)
unfolding normalize_fields
normalize_fields-Keeps x = and_then-Yields _ (normalize_required x.evidence_id) _ λ a _.
    and_then-Yields _ (normalize_required x.resolution_id) _ λ b _.
      and_then-Yields _ (normalize_required x.title) _ λ c _.
        and_then-Yields _ (normalize_required x.description) _ λ d _.
          and_then-Yields _ (normalize_required x.source_reference) _ λ e _.
            and_then-Yields _ (normalize_required x.created_by) _ λ f _.
              and_then-Yields _ (normalize_optional x.source_locator) _ λ g _.
                and_then-Yields _ (normalize_optional x.source_standard) _ λ i _.
                  and_then-Yields _ (normalize_optional x.verified_by) _
                    λ j _. and_then-Yields _ (normalize_url x.source_url) _ λ k _. (refl, refl)

pub make_evidence-eq_ok :
    (x y : WasherResolutionEvidence)
    → make_evidence x ≡ ok y
    → (normalize_fields x ≡ ok y) × Keeps x y
unfolding make_evidence
make_evidence-eq_ok x y e =
    let (z, n, r) = and_then-eq_ok (normalize_fields x) _ e in
    let same = checked-eq_ok _ z y validation_error r in
    (
      n ∙ ap ok same,
      rw (← same) (Yields-eq_ok (Keeps x) (normalize_fields x) (normalize_fields-Keeps x) n),
    )

module _ ⦃h : Hashing⦄ where
  -- What is known of evidence that was recorded.
  pub record Recorded (q : EvidenceRequest) (s : Ledgers) (e : WasherResolutionEvidence)
      : Type 0 where
    pub created : create_washer_resolution_evidence q ≡ ok e
    pub sound : verify_evidence_integrity e ≡ true
    pub fresh : is_recorded e.evidence_id s.evidence ≡ false
    pub status : e.verification_status ≡ unverified

  pub data Records (q : EvidenceRequest) (s : Ledgers)
      : Result WasherError WasherResolutionEvidence × Ledgers → Type 0 where
    failed : (err : WasherError) → Records q s (raised err, s)
    recorded :
        (e : WasherResolutionEvidence) → Recorded q s e → Records q s (ok e, after_evidence s e)

  create-unverified :
      (q : EvidenceRequest) (e : WasherResolutionEvidence)
      → create_washer_resolution_evidence q ≡ ok e
      → e.verification_status ≡ unverified
  unfolding create_washer_resolution_evidence unverified_evidence
  create-unverified q e c = (make_evidence-eq_ok _ e c).1.0

  pub persist_evidence_lem :
      (e : WasherResolutionEvidence) (s : Ledgers)
      → persist_evidence e s ≡ (
          if verify_evidence_integrity e
          then (if is_recorded e.evidence_id s.evidence
              then (raised (duplicate_evidence_id e.evidence_id), s)
              else (ok e, after_evidence s e))
          else (raised (evidence_integrity e.evidence_id), s))
  unfolding persist_evidence append_evidence
  persist_evidence_lem e s = ground arith

  -- Every request ends with an error and the ledgers as they were, or with a record behind those
  -- that were there.
  pub record_resolution_evidence-Records :
      (q : EvidenceRequest) (s : Ledgers) → Records q s (record_resolution_evidence q s)
  unfolding record_resolution_evidence
  record_resolution_evidence-Records q s = elim (Result-cases (existing_record s q.resolution_id)) [
    | inr (err, bad) ↦ rw bad (failed err)
    | inl (w, g) ↦ rw g elim (Result-cases (create_washer_resolution_evidence q)) [
      | inr (err, bad) ↦ rw bad (failed err)
      | inl (e, c) ↦
          rw (c, persist_evidence_lem e s)
            elim (Bool-cases (verify_evidence_integrity e)) [
              | inr bad ↦ rw bad (failed _)
              | inl v ↦ rw v elim (Bool-cases (is_recorded e.evidence_id s.evidence)) [
                | inl bad ↦ rw bad (failed _)
                | inr f ↦ rw f (
                    recorded e (record {
                      created = c;
                      sound = v;
                      fresh = f;
                      status = create-unverified q e c;
                    }))
              ]
            ]
    ]
  ]
