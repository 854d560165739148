-- ===== src/Washer/Service/Recording/Integrity.antt =====
-- The checksum that the factories compute of the texts they are given, against the one that the
-- service computes of the texts the models keep.
use torq_pro_ai.Prelude.{true, false, some, ◌≡◌, ◌≢◌, arith, ◌∙◌, string_eq, beq_refl, ne→beq, keep}
use torq_pro_ai.Prelude.Exec.{ok, raised}
use torq_pro_ai.Washer.Records.{WasherResolutionRecord, get_washer_resolution, evidence_integrity}
use torq_pro_ai.Washer.Digests.{Hashing, compute_checksum}
use torq_pro_ai.Washer.Evidence.{
  WasherResolutionEvidence, EvidenceRequest, unverified_evidence, make_evidence, evidence_to_dict,
  verify_evidence_integrity, create_washer_resolution_evidence,
}
use torq_pro_ai.Washer.Service.{Ledgers}
use torq_pro_ai.Washer.Service.Closing.{
  existing_record, persist_evidence, record_resolution_evidence,
}
use torq_pro_ai.Washer.Service.Recording.{
  is_recorded, after_evidence, make_evidence-eq_ok, persist_evidence_lem,
}

module _ ⦃h : Hashing⦄ where
  -- the record that the factory hands to the model
  abbrev pub filled : EvidenceRequest → WasherResolutionEvidence
  filled q =
      let e = unverified_evidence q in
      record e { integrity_checksum = compute_checksum (evidence_to_dict e) }

  filled-verifies : (q : EvidenceRequest) → verify_evidence_integrity (filled q) ≡ true
  unfolding verify_evidence_integrity compute_checksum evidence_to_dict keep
  filled-verifies q = beq_refl (filled q).integrity_checksum

  created-checksum :
      (q : EvidenceRequest) (e : WasherResolutionEvidence)
      → create_washer_resolution_evidence q ≡ ok e
      → e.integrity_checksum ≡ compute_checksum (evidence_to_dict (unverified_evidence q))
  unfolding create_washer_resolution_evidence
  created-checksum q e c = (make_evidence-eq_ok (filled q) e c).1.1

  padded-fails :
      (q : EvidenceRequest) (e : WasherResolutionEvidence)
      → create_washer_resolution_evidence q ≡ ok e
      → compute_checksum (evidence_to_dict (unverified_evidence q))
        ≢ compute_checksum (evidence_to_dict e)
      → verify_evidence_integrity e ≡ false
  unfolding verify_evidence_integrity compute_checksum keep
  padded-fails q e c ne = rw (created-checksum q e c) (ne→beq _ _ ne)

  record_resolution_evidence_lem :
      (q : EvidenceRequest) (s : Ledgers) (w : WasherResolutionRecord)
      (e : WasherResolutionEvidence)
      → get_washer_resolution s.source q.resolution_id ≡ some w
      → create_washer_resolution_evidence q ≡ ok e
      → record_resolution_evidence q s ≡ persist_evidence e s
  unfolding record_resolution_evidence existing_record
  record_resolution_evidence_lem q s w e g c = ground arith

  -- Where the model keeps every text of a request for evidence as it is given, the resolution
  -- exists and the identifier is new, the evidence is recorded behind what was there.
  pub record_resolution_evidence_clean :
      (q : EvidenceRequest) (s : Ledgers) (w : WasherResolutionRecord)
      → get_washer_resolution s.source q.resolution_id ≡ some w
      → make_evidence (filled q) ≡ ok (filled q)
      → is_recorded q.evidence_id s.evidence ≡ false
      → record_resolution_evidence q s ≡ (ok (filled q), after_evidence s (filled q))
  unfolding create_washer_resolution_evidence unverified_evidence
  record_resolution_evidence_clean q s w g c f =
      record_resolution_evidence_lem q s w (filled q) g c
      ∙ persist_evidence_lem (filled q) s
      ∙ rw (filled-verifies q, f)

  -- Where the factory makes a record of a request, but the digest of the texts that were given is
  -- not that of the texts that the model kept, as with white space around a title, the service
  -- raises that the record it has just made is corrupt, and nothing is recorded.
  pub record_resolution_evidence_padded :
      (q : EvidenceRequest) (s : Ledgers) (w : WasherResolutionRecord)
      (e : WasherResolutionEvidence)
      → get_washer_resolution s.source q.resolution_id ≡ some w
      → create_washer_resolution_evidence q ≡ ok e
      → compute_checksum (evidence_to_dict (unverified_evidence q))
        ≢ compute_checksum (evidence_to_dict e)
      → record_resolution_evidence q s ≡ (raised (evidence_integrity e.evidence_id), s)
  record_resolution_evidence_padded q s w e g c ne =
      record_resolution_evidence_lem q s w e g c
      ∙ persist_evidence_lem e s
      ∙ rw (padded-fails q e c ne)
