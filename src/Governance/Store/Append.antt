-- ===== src/Governance/Store/Append.antt =====
-- `append` of the file store against the list of the events that `all_events` reads.
use torq_pro_ai.Prelude.{if◌then◌else◌, true, false, List, [], ◌∷◌, ◌++◌, ◌≡◌, refl, arith}
use torq_pro_ai.Prelude.Exec.{ok, raised, and_then, and_then-eq_ok}
use torq_pro_ai.Governance.Errors.{store_failure}
use torq_pro_ai.Governance.Events.{Backing}
use torq_pro_ai.Governance.Timestamps.{is_valid_utc_iso8601}
use torq_pro_ai.Governance.Store.{payload, read_raw, Event, Store, validate_all, all_events, append}

module _ ⦃b : Backing⦄ where
  validate_all-append :
      (raws : List b.Json) (e : Event)
      → is_valid_utc_iso8601 e.occurred_at ≡ true
      → validate_all (raws ++ b.model_dump e ∷ [])
        ≡ and_then (validate_all raws) (λ es. ok (es ++ e ∷ []))
  unfolding validate_all
  validate_all-append [] e v = rw (b.validate-dump e v)
  validate_all-append (raw ∷ raws) e v = ground (arith, validate_all-append raws e v)

  -- a payload in the place of a readable file
  pub all_events-payload :
      (d : Store) (raws : List b.Json)
      → all_events (record d { content = payload raws }) ≡ validate_all raws
  unfolding all_events
  all_events-payload d raws = refl

  pub all_events-eq_ok :
      (d : Store) (es : List Event)
      → all_events d ≡ ok es
      → (raws : List b.Json) × (read_raw d ≡ ok raws) × (validate_all raws ≡ ok es)
  unfolding all_events
  all_events-eq_ok d es h = and_then-eq_ok (read_raw d) validate_all h

  append_of_raws :
      (d : Store) (raws : List b.Json) (e : Event)
      → read_raw d ≡ ok raws
      → append e d ≡ (
          if d.writable
          then (ok e, record d { content = payload (raws ++ b.model_dump e ∷ []) })
          else (raised store_failure, d))
  unfolding append
  append_of_raws d raws e r = ground arith

  -- What a store holds after an event was appended to a readable, writable file.
  pub append_lem :
      (d : Store) (es : List Event) (e : Event)
      → all_events d ≡ ok es
      → is_valid_utc_iso8601 e.occurred_at ≡ true
      → d.writable ≡ true
      → (d' : Store) × (append e d ≡ (ok e, d'))
        × (all_events d' ≡ ok (es ++ e ∷ []))
        × (d'.writable ≡ true)
  append_lem d es e h v w =
      let (raws, r, k) = all_events-eq_ok d es h in
      (
        record d { content = payload (raws ++ b.model_dump e ∷ []) },
        rw (append_of_raws d raws e r, w),
        rw (all_events-payload d, validate_all-append raws e v, k),
        w,
      )

  -- A file that cannot be written stays as it was.
  pub append_refused :
      (d : Store) (es : List Event) (e : Event)
      → all_events d ≡ ok es
      → d.writable ≡ false
      → append e d ≡ (raised store_failure, d)
  append_refused d es e h w =
      let (raws, r, k) = all_events-eq_ok d es h in rw (append_of_raws d raws e r, w)
