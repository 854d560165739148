-- ===== src/Joints/Order.antt =====
-- The order of the items that query_all_joint_revision_projections of
-- backend/governance/joint_revision_query.py answers.
use mathlib.Core.List.{Perm}
use mathlib.Core.List.Perm
use torq_pro_ai.Prelude.{
  ℕ, String, Bool, true, false, not, Option, List, [], ◌∷◌, ◌++◌, ◌==◌, if◌then◌else◌, string_eq,
  keep, ◌≡◌, refl, arith, Bool-cases, inl, inr,
}
use torq_pro_ai.Prelude.Exec.{ok}
use torq_pro_ai.Prelude.Sorting.{
  stable_sort, Ordered, before_or, stable_sort-Perm, keep-Perm, All-stable_sort,
  stable_sort-Ordered, stable_sort-sorted, All-keep, Ordered-map, Ordered-append,
}
use torq_pro_ai.Joints.Service.{Joints}
use torq_pro_ai.Joints.Projection.{JointRevisionProjection, Reads, project_joint_revisions_bulk}
use torq_pro_ai.Joints.Query.{
  codes_less, id_less, text_field, has_value, directed, value_codes, value_less, sorted_projections,
  searched, normalize_search, query_all_joint_revision_projections,
}

codes_less-asym : (a b : List ℕ) → codes_less a b ≡ true → codes_less b a ≡ false
codes_less-asym [] [] h = refl
codes_less-asym [] (d ∷ ds) h = refl
codes_less-asym (c ∷ cs) [] h = absurd (cc)
codes_less-asym (c ∷ cs) (d ∷ ds) h = ground (arith, codes_less-asym cs ds)

codes_less-negtrans :
    (a b c : List ℕ) → codes_less c b ≡ false → codes_less b a ≡ false → codes_less c a ≡ false
codes_less-negtrans [] b c h k = refl
codes_less-negtrans (x ∷ a) [] c h k = absurd (cc)
codes_less-negtrans (x ∷ a) (y ∷ b) [] h k = absurd (cc)
codes_less-negtrans (x ∷ a) (y ∷ b) (z ∷ c) h k = ground (arith, codes_less-negtrans a b c)

module _ (lower : String → String) (sort_by : String) where
  -- The order asked for: by id; or by a text in the direction asked for, and where two texts are the
  -- same by ascending id, with the items that lack the text behind all others, by ascending id.
  abbrev pub comes_before : Bool → JointRevisionProjection → JointRevisionProjection → Bool
  comes_before reverse q p =
      if sort_by == "joint_revision_id"
      then directed reverse (λ p q. id_less p q) q p
      else if has_value sort_by q
      then (if has_value sort_by p
          then before_or (λ p q. directed reverse (λ p q. value_less lower sort_by p q) p q)
              (λ p q. id_less p q) q p
          else true)
      else (if has_value sort_by p then false else id_less q p)

  abbrev key : JointRevisionProjection → List ℕ
  key p = value_codes lower (text_field sort_by p)

  directed-asym :
      (reverse : Bool) (p q : JointRevisionProjection)
      → directed reverse (λ p q. value_less lower sort_by p q) p q ≡ true
      → directed reverse (λ p q. value_less lower sort_by p q) q p ≡ false
  directed-asym true p q h = codes_less-asym (key q) (key p) h
  directed-asym false p q h = codes_less-asym (key p) (key q) h

  directed-negtrans :
      (reverse : Bool) (p q r : JointRevisionProjection)
      → directed reverse (λ p q. value_less lower sort_by p q) r q ≡ false
      → directed reverse (λ p q. value_less lower sort_by p q) q p ≡ false
      → directed reverse (λ p q. value_less lower sort_by p q) r p ≡ false
  directed-negtrans true p q r h k = codes_less-negtrans (key r) (key q) (key p) k h
  directed-negtrans false p q r h k = codes_less-negtrans (key p) (key q) (key r) h k

  by_id :
      (reverse : Bool) (items : List JointRevisionProjection)
      → Ordered
          (λ p q. directed reverse (λ p q. id_less p q) p q)
          (stable_sort (λ p q. directed reverse (λ p q. id_less p q) p q) items)
  by_id true items =
      stable_sort-sorted (λ p q. id_less q p) (λ p q h. ground arith) (λ p q r h k. ground arith)
        items
  by_id false items =
      stable_sort-sorted (λ p q. id_less p q) (λ p q h. ground arith) (λ p q r h k. ground arith)
        items

  by_value :
      (reverse : Bool) (items : List JointRevisionProjection)
      → (sort_by == "joint_revision_id") ≡ false
      → Ordered
          (λ p q. comes_before reverse p q)
          (stable_sort
              (λ p q. directed reverse (λ p q. value_less lower sort_by p q) p q)
              (stable_sort (λ p q. id_less p q) (keep (λ p. has_value sort_by p) items))
            ++ stable_sort (λ p q. id_less p q) (keep (λ p. not (has_value sort_by p)) items))
  by_value reverse items other =
      let less : JointRevisionProjection → JointRevisionProjection → Bool =
        λ p q. directed reverse (λ p q. value_less lower sort_by p q) p q in
      let tie : JointRevisionProjection → JointRevisionProjection → Bool = λ p q. id_less p q in
      let full = keep (λ p. has_value sort_by p) items in
      let empty = keep (λ p. not (has_value sort_by p)) items in
      let Full : JointRevisionProjection → Type 0 = λ p. has_value sort_by p ≡ true in
      let Empty : JointRevisionProjection → Type 0 = λ p. not (has_value sort_by p) ≡ true in
      let first = stable_sort less (stable_sort tie full) in
      let last = stable_sort tie empty in
      let all_full =
        All-stable_sort Full less (stable_sort tie full)
          (All-stable_sort Full tie full (All-keep (λ p. has_value sort_by p) items)) in
      let all_empty =
        All-stable_sort Empty tie empty (All-keep (λ p. not (has_value sort_by p)) items) in
      Ordered-append Full Empty (λ p q. comes_before reverse p q) (λ p q h k. ground (arith, other))
        first last all_full all_empty
        (Ordered-map Full (before_or less tie) (λ p q. comes_before reverse p q)
          (λ p q h k b. rw (other, h, k) b) first all_full
          (stable_sort-Ordered less tie (directed-asym reverse) (directed-negtrans reverse)
            (stable_sort tie full) (by_id false full)))
        (Ordered-map Empty tie (λ p q. comes_before reverse p q)
          (λ p q h k b. ground (arith, other)) last all_empty (by_id false empty))

  pub sorted_projections-Ordered :
      (items : List JointRevisionProjection) (sort_order : String)
      → Ordered
          (λ p q. comes_before (sort_order == "desc") p q)
          (sorted_projections lower items sort_by sort_order)
  unfolding sorted_projections
  sorted_projections-Ordered items sort_order = elim (Bool-cases (sort_by == "joint_revision_id")) [
    | inl same ↦ rw same (by_id (sort_order == "desc") items)
    | inr other ↦
        let split : sorted_projections lower items sort_by sort_order
            ≡ stable_sort
                (λ p q. directed (sort_order == "desc") (λ p q. value_less lower sort_by p q) p q)
                (stable_sort (λ p q. id_less p q) (keep (λ p. has_value sort_by p) items))
              ++ stable_sort (λ p q. id_less p q) (keep (λ p. not (has_value sort_by p)) items) =
          rw other refl in
        rw split (by_value (sort_order == "desc") items other)
  ]

  sorted_projections-Perm :
      (items : List JointRevisionProjection) (sort_order : String)
      → Perm items (sorted_projections lower items sort_by sort_order)
  unfolding sorted_projections
  sorted_projections-Perm items sort_order = elim (Bool-cases (sort_by == "joint_revision_id")) [
    | inl same ↦
        rw same
          (stable_sort-Perm (λ p q. directed (sort_order == "desc") (λ p q. id_less p q) p q) items)
    | inr other ↦
        let full = keep (λ p. has_value sort_by p) items in
        let empty = keep (λ p. not (has_value sort_by p)) items in
        rw other (
          Perm.trans (keep-Perm (λ p. has_value sort_by p) items) (
            Perm.append
              (Perm.trans (stable_sort-Perm (λ p q. id_less p q) full) (
                stable_sort-Perm
                  (λ p q. directed (sort_order == "desc") (λ p q. value_less lower sort_by p q) p q)
                  (stable_sort (λ p q. id_less p q) full)))
              (stable_sort-Perm (λ p q. id_less p q) empty)))
  ]

-- What a query for all items answers is a rearrangement of the projections that match the search, in
-- the order asked for: by id in the direction asked for; or by the text of the field in the direction
-- asked for, then by ascending id, with the items that lack the text behind all others.
pub query_all_joint_revision_projections-Ordered :
    (lower : String → String) (io : Reads) (s : Joints) (joint_id : Option ℕ)
    (search : Option String) (sort_by sort_order : String) (items : List JointRevisionProjection)
    → query_all_joint_revision_projections lower io s joint_id search sort_by sort_order ≡ ok items
    → Perm
        (searched lower
          (normalize_search lower search)
          (project_joint_revisions_bulk io s joint_id))
        items
      × Ordered (λ p q. comes_before lower sort_by (sort_order == "desc") p q) items
unfolding query_all_joint_revision_projections
query_all_joint_revision_projections-Ordered lower io s joint_id search sort_by sort_order items h =
    let found =
      searched lower (normalize_search lower search) (project_joint_revisions_bulk io s joint_id) in
    let answer : sorted_projections lower found sort_by sort_order ≡ items = ground arith in
    rw (← answer) (
      sorted_projections-Perm lower sort_by found sort_order,
      sorted_projections-Ordered lower sort_by found sort_order,
    )
