-- ===== src/Washer/Audit.antt =====
-- The specification of the audit trail of a resolution: which lists of decisions are legal from a
-- first status.
use torq_pro_ai.Prelude.{
  Bool, true, false, List, [], ◌∷◌, ◌++◌, ◌≡◌, refl, arith, ◌==◌, last?, contains, ◌||◌,
}
use torq_pro_ai.Washer.Records.{
  WasherResolutionStatus, status_eq, WasherResolutionRecord, terminal_statuses,
  blocked_authoritative_source, open_, under_review, resolved, accepted_as_is, rejected,
  WasherResolutionStatus-discrete,
}
use torq_pro_ai.Washer.Decisions.{WasherResolutionDecision, is_transition_allowed}
use torq_pro_ai.Washer.Service.{current_status}

-- each decision starts where the one before it ended, and makes a move of the table
abbrev pub IsChain : WasherResolutionStatus → List WasherResolutionDecision → Type 0
IsChain p [] = Unit
IsChain p (d ∷ ds) =
    (d.previous_status ≡ p)
    × (is_transition_allowed p d.new_status ≡ true)
    × IsChain d.new_status ds

-- the status behind a list of decisions
abbrev pub status_behind :
    WasherResolutionStatus → List WasherResolutionDecision → WasherResolutionStatus
status_behind p [] = p
status_behind p (d ∷ ds) = status_behind d.new_status ds

-- a status that no decision leaves
unfoldable pub is_final : WasherResolutionStatus → Bool
is_final s = s == blocked_authoritative_source || contains s terminal_statuses

pub status_behind_lem :
    (w : WasherResolutionRecord) (ds : List WasherResolutionDecision)
    → status_behind w.resolution_status ds ≡ current_status w ds
unfolding current_status last?
status_behind_lem w [] = refl
status_behind_lem w (d ∷ []) = refl
status_behind_lem w (d ∷ e ∷ ds) = status_behind_lem w (e ∷ ds)

pub IsChain-append :
    (p : WasherResolutionStatus) (ds : List WasherResolutionDecision) (d : WasherResolutionDecision)
    → IsChain p ds
    → d.previous_status ≡ status_behind p ds
    → is_transition_allowed d.previous_status d.new_status ≡ true
    → IsChain p (ds ++ d ∷ [])
IsChain-append p [] d k e l = (e, rw (← e) l, tt)
IsChain-append p (x ∷ ds) d k e l = (k.0, k.1, IsChain-append x.new_status ds d k.2 e l)

-- what the table says of a final status
pub is_final-closed :
    (p n : WasherResolutionStatus) → is_final p ≡ true → is_transition_allowed p n ≡ false
unfolding is_final is_transition_allowed WasherResolutionStatus-discrete
is_final-closed open_ n h = absurd (cc)
is_final-closed under_review n h = absurd (cc)
is_final-closed resolved n h = refl
is_final-closed accepted_as_is n h = refl
is_final-closed blocked_authoritative_source n h = refl
is_final-closed rejected n h = refl

pub IsChain-final :
    (p : WasherResolutionStatus) (ds : List WasherResolutionDecision)
    → is_final p ≡ true
    → IsChain p ds
    → ds ≡ []
IsChain-final p [] f k = refl
IsChain-final p (d ∷ ds) f k = absurd (ground (arith, is_final-closed p d.new_status f, k.1))

pub IsChain-after :
    (p : WasherResolutionStatus) (xs ys : List WasherResolutionDecision)
    (d : WasherResolutionDecision)
    → IsChain p (xs ++ d ∷ ys)
    → IsChain d.new_status ys
IsChain-after p [] ys d k = k.2
IsChain-after p (x ∷ xs) ys d k = IsChain-after x.new_status xs ys d k.2
