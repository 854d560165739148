-- ===== src/Governance/Log/Chains.antt =====
-- Legal logs: each lifecycle of each aggregate is a chain of moves from its initial status.
use torq_pro_ai.Prelude.{
  String, Bool, true, false, Option, none, some, List, [], ◌∷◌, ◌++◌, ◌≡◌, refl, ◌∙◌, string_eq,
  keep, last?, last?-append_one, keep-append, append-nil, inl, inr, Bool-cases, beq_refl, &&-split,
  beq→eq,
}
use torq_pro_ai.Governance.Enums.{LifecycleGroup, group_eq}
use torq_pro_ai.Governance.Events.{GovernanceEvent}
use torq_pro_ai.Governance.Service.{initial_status}
use torq_pro_ai.Governance.Log.{
  permits, concerns, status_or, status_in, Follows, IsLegal, start, grow,
}

module _ {M : Type 0} where
  -- Events each of which moves on from the one before, from `s`.
  abbrev pub Linked : (String → String → Bool) → String → List (GovernanceEvent M) → Type 0
  Linked may s [] = Unit
  Linked may s (e ∷ es) =
      (e.previous_status ≡ s) × (may s e.new_status ≡ true) × Linked may e.new_status es

  abbrev pub Chain : LifecycleGroup → String → List (GovernanceEvent M) → Type 0
  Chain g = Linked (permits g)

  abbrev end_status : String → List (GovernanceEvent M) → String
  end_status s [] = s
  end_status s (e ∷ es) = end_status e.new_status es

  abbrev status_from : String → Option (GovernanceEvent M) → String
  status_from s none = s
  status_from s (some e) = e.new_status

  status_from-last? :
      (s : String) (es : List (GovernanceEvent M)) → status_from s (last? es) ≡ end_status s es
  unfolding last?
  status_from-last? s [] = refl
  status_from-last? s (e ∷ []) = refl
  status_from-last? s (e ∷ e' ∷ es) = status_from-last? s (e' ∷ es)

  status_or-eq :
      (g : LifecycleGroup) (o : Option (GovernanceEvent M))
      → status_or g o ≡ status_from (initial_status g) o
  status_or-eq g none = refl
  status_or-eq g (some e) = refl

  -- The status in a log is where the chain of the lifecycle ends.
  status_in-eq :
      (es : List (GovernanceEvent M)) (a : String) (g : LifecycleGroup)
      → status_in es a g ≡ end_status (initial_status g) (keep (concerns a g) es)
  unfolding status_in
  status_in-eq es a g =
      status_or-eq g (last? (keep (concerns a g) es))
      ∙ status_from-last? (initial_status g) (keep (concerns a g) es)

  Chain-append :
      (g : LifecycleGroup) (s : String) (es : List (GovernanceEvent M)) (e : GovernanceEvent M)
      → Chain g s es
      → e.previous_status ≡ end_status s es
      → permits g e.previous_status e.new_status ≡ true
      → Chain g s (es ++ e ∷ [])
  Chain-append g s [] e c h p = (h, rw (← h) p, tt)
  Chain-append g s (e' ∷ es) e c h p = (c.0, c.1, Chain-append g e'.new_status es e c.2 h p)

  keep-concerns_other :
      (a : String) (g : LifecycleGroup) (es : List (GovernanceEvent M)) (e : GovernanceEvent M)
      → concerns a g e ≡ false
      → keep (concerns a g) (es ++ e ∷ []) ≡ keep (concerns a g) es
  unfolding keep
  keep-concerns_other a g es e h = rw (keep-append (concerns a g) es (e ∷ []), h) (append-nil _)

  keep-concerns_own :
      (a : String) (g : LifecycleGroup) (es : List (GovernanceEvent M)) (e : GovernanceEvent M)
      → concerns a g e ≡ true
      → keep (concerns a g) (es ++ e ∷ []) ≡ keep (concerns a g) es ++ e ∷ []
  unfolding keep
  keep-concerns_own a g es e h = rw (keep-append (concerns a g) es (e ∷ []), h)

  concerns-eq :
      (a : String) (g : LifecycleGroup) (e : GovernanceEvent M)
      → concerns a g e ≡ true
      → (e.aggregate_id ≡ a) × (e.lifecycle_group ≡ g)
  concerns-eq a g e h =
      let (i, k) = &&-split _ _ h in (beq→eq e.aggregate_id a i, beq→eq e.lifecycle_group g k)

  Follows-moves :
      (es : List (GovernanceEvent M)) (e : GovernanceEvent M) (a : String) (g : LifecycleGroup)
      → Follows es e
      → concerns a g e ≡ true
      → (e.previous_status ≡ end_status (initial_status g) (keep (concerns a g) es))
        × (permits g e.previous_status e.new_status ≡ true)
  Follows-moves es e a g f h =
      let (i, k) = concerns-eq a g e h in
      (rw (← status_in-eq es a g, ← i, ← k) f.previous, rw (← k) f.permitted)

  -- In a legal log the events of every lifecycle of every aggregate are a chain of moves of its
  -- table, from its initial status.
  pub IsLegal-Chain :
      {es : List (GovernanceEvent M)} (a : String) (g : LifecycleGroup)
      → IsLegal es
      → Chain g (initial_status g) (keep (concerns a g) es)
  unfolding keep
  IsLegal-Chain a g start = tt
  IsLegal-Chain a g (grow es e l f) = elim (Bool-cases (concerns a g e)) [
    | inr other ↦ rw (keep-concerns_other a g es e other) (IsLegal-Chain a g l)
    | inl own ↦
        (let (p, q) = Follows-moves es e a g f own in
          rw (keep-concerns_own a g es e own) (
            Chain-append g (initial_status g) (keep (concerns a g) es) e (IsLegal-Chain a g l) p q))
  ]

  -- The status behind one more event: that event's, or the one before.
  pub status_in-append_own :
      (es : List (GovernanceEvent M)) (e : GovernanceEvent M)
      → status_in (es ++ e ∷ []) e.aggregate_id e.lifecycle_group ≡ e.new_status
  unfolding status_in
  status_in-append_own es e = rw (
    keep-concerns_own e.aggregate_id e.lifecycle_group es e
        (rw (beq_refl e.aggregate_id, beq_refl e.lifecycle_group)),
    last?-append_one (keep (concerns e.aggregate_id e.lifecycle_group) es) e,
  )

  pub status_in-append_other :
      (es : List (GovernanceEvent M)) (e : GovernanceEvent M) (a : String) (g : LifecycleGroup)
      → concerns a g e ≡ false
      → status_in (es ++ e ∷ []) a g ≡ status_in es a g
  unfolding status_in
  status_in-append_other es e a g h = rw (keep-concerns_other a g es e h)
