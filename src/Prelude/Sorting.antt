-- ===== src/Prelude/Sorting.antt =====
-- Python's `sorted`, and what its results are like: rearranged, and ordered by the comparison and,
-- where that does not tell two items apart, by the order that they came in.
use mathlib.Core.Path.{◌≡◌, refl}
use mathlib.Core.Bool.{Bool, true, false, not, ◌&&◌, ◌||◌}
use mathlib.Core.List.{List, [], ◌∷◌, ◌++◌, Perm, perm_middle}
use mathlib.Core.List.Perm
use native.Mathlib.Omega.{arith}
use torq_pro_ai.Prelude.Tests.{if◌then◌else◌, Bool-cases}
use torq_pro_ai.Prelude.Lists.{All, All-append, keep}
use mathlib.Core.Logic.{inl, inr}

-- `sorted`, which is stable: an item is put before the first that does not come before it.
abbrev pub insert_sorted {ℓ} : {A : Type ℓ} → (A → A → Bool) → A → List A → List A
insert_sorted less x [] = x ∷ []
insert_sorted less x (y ∷ ys) =
    let rest = insert_sorted less x ys in if less y x then y ∷ rest else x ∷ y ∷ ys

abbrev pub stable_sort {ℓ} : {A : Type ℓ} → (A → A → Bool) → List A → List A
stable_sort less [] = []
stable_sort less (x ∷ xs) = insert_sorted less x (stable_sort less xs)

-- no item comes before one in front of it
abbrev pub Ordered : {A : Type 0} → (A → A → Bool) → List A → Type 0
Ordered before [] = Unit
Ordered before (x ∷ xs) = All (λ y. before y x ≡ false) xs × Ordered before xs

module _ {A : Type 0} (less : A → A → Bool) where
  pub insert_sorted-Perm : (x : A) (ys : List A) → Perm (x ∷ ys) (insert_sorted less x ys)
  insert_sorted-Perm x [] = Perm.refl (x ∷ [])
  insert_sorted-Perm x (y ∷ ys) = elim (Bool-cases (less y x)) [
    | inl skip ↦ rw skip (Perm.trans (Perm.swap y x ys) (Perm.cons y (insert_sorted-Perm x ys)))
    | inr here ↦ rw here (Perm.refl (x ∷ y ∷ ys))
  ]

  pub stable_sort-Perm : (xs : List A) → Perm xs (stable_sort less xs)
  stable_sort-Perm [] = Perm.refl []
  stable_sort-Perm (x ∷ xs) =
      Perm.trans (Perm.cons x (stable_sort-Perm xs)) (insert_sorted-Perm x (stable_sort less xs))

pub keep-Perm :
    {A : Type 0} (p : A → Bool) (xs : List A) → Perm xs (keep p xs ++ keep (λ x. not (p x)) xs)
unfolding keep
keep-Perm p [] = Perm.refl []
keep-Perm p (x ∷ xs) = elim (Bool-cases (p x)) [
  | inl y ↦ rw y (Perm.cons x (keep-Perm p xs))
  | inr n ↦ rw n (
      Perm.trans (Perm.cons x (keep-Perm p xs))
        (Perm.symm (perm_middle {a = x} (keep p xs) (keep (λ x. not (p x)) xs))))
]

-- `less` first, and `tie` where it does not tell the two apart
abbrev pub before_or {ℓ} : {A : Type ℓ} → (A → A → Bool) → (A → A → Bool) → A → A → Bool
before_or less tie y x = less y x || (not (less x y) && tie y x)

module _ {A : Type 0} (P : A → Type 0) (less : A → A → Bool) where
  All-insert_sorted : (x : A) (ys : List A) → P x → All P ys → All P (insert_sorted less x ys)
  All-insert_sorted x [] h k = (h, tt)
  All-insert_sorted x (y ∷ ys) h k = elim (Bool-cases (less y x)) [
    | inl skip ↦ rw skip (k.0, All-insert_sorted x ys h k.1)
    | inr here ↦ rw here (h, k)
  ]

  pub All-stable_sort : (xs : List A) → All P xs → All P (stable_sort less xs)
  All-stable_sort [] h = tt
  All-stable_sort (x ∷ xs) h =
      All-insert_sorted x (stable_sort less xs) h.0 (All-stable_sort xs h.1)

pub All-map2 :
    {A : Type 0} (P Q R : A → Type 0) (f : (a : A) → P a → Q a → R a) (xs : List A)
    → All P xs
    → All Q xs
    → All R xs
All-map2 P Q R f [] h k = tt
All-map2 P Q R f (x ∷ xs) h k = (f x h.0 k.0, All-map2 P Q R f xs h.1 k.1)

module _ {A : Type 0} (less tie : A → A → Bool)
    (asym : (x y : A) → less x y ≡ true → less y x ≡ false)
    (negtrans : (x y z : A) → less z y ≡ false → less y x ≡ false → less z x ≡ false) where
  -- an item that comes before all others in the first order
  insert_sorted-Ordered :
      (x : A) (ys : List A)
      → All (λ y. tie y x ≡ false) ys
      → Ordered (before_or less tie) ys
      → Ordered (before_or less tie) (insert_sorted less x ys)
  insert_sorted-Ordered x [] h k = (tt, tt)
  insert_sorted-Ordered x (y ∷ ys) h k = elim (Bool-cases (less y x)) [
    | inl skip ↦ rw skip (
      All-insert_sorted (λ z. before_or less tie z y ≡ false) less x ys
          (ground (arith, asym y x skip)) k.0,
      insert_sorted-Ordered x ys h.1 k.1,
    )
    | inr here ↦ rw here (
      (
        ground (arith, here, h.0),
        All-map2 (λ z. before_or less tie z y ≡ false) (λ z. tie z x ≡ false)
            (λ z. before_or less tie z x ≡ false) (λ z b t. ground (arith, negtrans x y z, here)) ys
            k.0 h.1,
      ),
      k,
    )
  ]

  -- what comes before in the first order and is not told apart stays in front
  pub stable_sort-Ordered :
      (xs : List A) → Ordered tie xs → Ordered (before_or less tie) (stable_sort less xs)
  stable_sort-Ordered [] h = tt
  stable_sort-Ordered (x ∷ xs) h =
      insert_sorted-Ordered x (stable_sort less xs)
        (All-stable_sort (λ y. tie y x ≡ false) less xs h.0) (stable_sort-Ordered xs h.1)

All-false : {A : Type 0} (xs : List A) → All (λ y. false ≡ false) xs
All-false [] = tt
All-false (x ∷ xs) = (refl, All-false xs)

-- a sort of any items
module _ {A : Type 0} (less : A → A → Bool) (asym : (x y : A) → less x y ≡ true → less y x ≡ false)
    (negtrans : (x y z : A) → less z y ≡ false → less y x ≡ false → less z x ≡ false) where
  no_order : (xs : List A) → Ordered (λ _ _. false) xs
  no_order [] = tt
  no_order (x ∷ xs) = (All-false xs, no_order xs)

  weaken : (xs : List A) → Ordered (before_or less λ _ _. false) xs → Ordered less xs
  weaken [] h = tt
  weaken (x ∷ xs) h = (
    All-map2 (λ y. before_or less (λ _ _. false) y x ≡ false)
        (λ y. before_or less (λ _ _. false) y x ≡ false) (λ y. less y x ≡ false)
        (λ y b _. ground arith) xs h.0 h.0,
    weaken xs h.1,
  )

  pub stable_sort-sorted : (xs : List A) → Ordered less (stable_sort less xs)
  stable_sort-sorted xs =
      weaken (stable_sort less xs)
        (stable_sort-Ordered less (λ _ _. false) asym negtrans xs (no_order xs))

module _ {A : Type 0} where
  pub All-keep : (p : A → Bool) (xs : List A) → All (λ x. p x ≡ true) (keep p xs)
  unfolding keep
  All-keep p [] = tt
  All-keep p (x ∷ xs) = elim (Bool-cases (p x)) [
    | inl y ↦ rw y (y, All-keep p xs)
    | inr n ↦ rw n (All-keep p xs)
  ]

  pub Ordered-map :
      (P : A → Type 0) (before before' : A → A → Bool)
      → ((x y : A) → P x → P y → before y x ≡ false → before' y x ≡ false)
      → (xs : List A) → All P xs
      → Ordered before xs
      → Ordered before' xs
  Ordered-map P before before' f [] h k = tt
  Ordered-map P before before' f (x ∷ xs) h k = (
    All-map2 P (λ y. before y x ≡ false) (λ y. before' y x ≡ false) (λ y. f x y h.0) xs h.1 k.0,
    Ordered-map P before before' f xs h.1 k.1,
  )

  pub Ordered-append :
      (P Q : A → Type 0) (before : A → A → Bool)
      → ((x y : A) → P x → Q y → before y x ≡ false)
      → (xs ys : List A) → All P xs
      → All Q ys
      → Ordered before xs
      → Ordered before ys
      → Ordered before (xs ++ ys)
  Ordered-append P Q before f [] ys p q h k = k
  Ordered-append P Q before f (x ∷ xs) ys p q h k = (
    All-append (λ y. before y x ≡ false) xs ys h.0
        (All-map2 Q Q (λ y. before y x ≡ false) (λ y r _. f x y p.0 r) ys q q),
    Ordered-append P Q before f xs ys p.1 q h.1 k,
  )
