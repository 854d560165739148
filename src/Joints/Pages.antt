-- ===== src/Joints/Pages.antt =====
-- The pages of query_joint_revision_projections of backend/governance/joint_revision_query.py.
use torq_pro_ai.Prelude.{
  ℕ, String, Option, List, [], ◌∷◌, ◌++◌, length, zero, suc, ◌+◌, ◌-◌, ◌*◌, ◌≤◌, ◌≡◌, refl, sym,
  arith, ap, ◌∙◌,
}
use native.Mathlib.Nat.{div-add-mod', mod-lt}
use torq_pro_ai.Prelude.Int.{pos}
use torq_pro_ai.Prelude.Exec.{ok, raised}
use torq_pro_ai.Joints.Service.{Joints}
use torq_pro_ai.Joints.Projection.{JointRevisionProjection, Reads}
use torq_pro_ai.Joints.Query.{
  int, JointRevisionQueryResult, max_page_size, take, drop, total_pages_of, page_of,
  query_all_joint_revision_projections, query_joint_revision_projections,
}

take-nil : {A : Type 0} (n : ℕ) → ◌≡◌ {A = List A} (take n []) []
take-nil zero = refl
take-nil (suc n) = refl

take-append_drop :
    {A : Type 0} (n k : ℕ) (xs : List A) → take n xs ++ take k (drop n xs) ≡ take (n + k) xs
take-append_drop zero k xs = ground arith
take-append_drop (suc n) k [] = take-nil k ∙ sym (take-nil (suc n + k))
take-append_drop (suc n) k (x ∷ xs) =
    let step : suc n + k ≡ suc (n + k) = omega arith in
    rw step (ap (λ ys. x ∷ ys) (take-append_drop n k xs))

take-whole : {A : Type 0} (n : ℕ) (xs : List A) → length xs ≤ n → take n xs ≡ xs
take-whole zero [] h = refl
take-whole zero (x ∷ xs) h = absurd (omega arith)
take-whole (suc n) [] h = refl
take-whole (suc n) (x ∷ xs) h = ap (λ ys. x ∷ ys) (take-whole n xs (omega arith))

length-take : {A : Type 0} (n : ℕ) (xs : List A) → length (take n xs) ≤ n
length-take zero xs = omega arith
length-take (suc n) [] = omega arith
length-take (suc n) (x ∷ xs) = omega (arith, length-take n xs)

total_pages_of-enough : (total size : ℕ) → 1 ≤ size → total ≤ total_pages_of total size * size
total_pages_of-enough total size h = omega (
  arith,
  div-add-mod' (total + (size - 1)) size,
  mod-lt (total + (size - 1)) {m = size} (omega arith),
)

module _ (lower : String → String) (io : Reads) (s : Joints) (joint_id : Option ℕ)
    (search : Option String) (sort_by sort_order : String) (size : ℕ) where
  -- the items of a page, as the query answers
  abbrev pub page_items : ℕ → List JointRevisionProjection
  page_items page =
      elim (query_joint_revision_projections lower io s joint_id search sort_by sort_order
        (int (pos page)) (int (pos size))) [ ok result ↦ result.items | raised e ↦ [] ]

  -- the items of the first pages, one page behind the other
  abbrev pub first_pages : ℕ → List JointRevisionProjection
  first_pages zero = []
  first_pages (suc n) = first_pages n ++ page_items (suc n)

  module _ (items : List JointRevisionProjection) (low : 1 ≤ size) (high : size ≤ max_page_size)
      (all_items : query_all_joint_revision_projections lower io s joint_id search sort_by
          sort_order
        ≡ ok items) where
    query_page :
        (page : ℕ)
        → 1 ≤ page
        → query_joint_revision_projections lower io s joint_id search sort_by sort_order
            (int (pos page))
            (int (pos size))
          ≡ ok (page_of page size items)
    unfolding query_joint_revision_projections
    query_page page h = ground (arith, all_items)

    page_items-slice :
        (page : ℕ) → 1 ≤ page → page_items page ≡ take size (drop ((page - 1) * size) items)
    page_items-slice page h = ground (arith, query_page page h)

    first_pages-take : (n : ℕ) → first_pages n ≡ take (n * size) items
    first_pages-take zero = let none_yet : 0 * size ≡ 0 = omega arith in rw none_yet refl
    first_pages-take (suc n) =
        let before : suc n - 1 ≡ n = omega arith in
        let total : suc n * size ≡ n * size + size = omega arith in
        rw (page_items-slice (suc n) (omega arith), first_pages-take n, before, total)
          (take-append_drop (n * size) size items)

-- A query with a page size from 1 to 200, whose search and sorting go through: it answers every page
-- from 1 on, with no more items than the page size and the number of all items as the total; and the
-- items of its pages, from the first to the last of the pages that it counts, are all items in
-- order.
pub query_joint_revision_projections-pages :
    (lower : String → String) (io : Reads) (s : Joints) (joint_id : Option ℕ)
    (search : Option String) (sort_by sort_order : String) (size : ℕ)
    (items : List JointRevisionProjection)
    → 1 ≤ size
    → size ≤ max_page_size
    → query_all_joint_revision_projections lower io s joint_id search sort_by sort_order ≡ ok items
    → ((page : ℕ)
        → 1 ≤ page
        → (result : JointRevisionQueryResult) × (query_joint_revision_projections lower io s
              joint_id search sort_by sort_order
              (int (pos page))
              (int (pos size))
            ≡ ok result)
          × (length (result.items) ≤ size)
          × (result.total ≡ length items)
          × (first_pages lower io s joint_id search sort_by sort_order size (result.total_pages)
              ≡ items))
query_joint_revision_projections-pages lower io s joint_id search sort_by sort_order size items low
      high h page p =
    (
      page_of page size items,
      query_page lower io s joint_id search sort_by sort_order size items low high h page p,
      length-take size (drop ((page - 1) * size) items),
      refl,
      first_pages-take lower io s joint_id search sort_by sort_order size items low high h
            (total_pages_of (length items) size)
          ∙ take-whole (total_pages_of (length items) size * size) items
              (total_pages_of-enough (length items) size low),
    )
