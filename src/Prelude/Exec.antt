-- ===== src/Prelude/Exec.antt =====
-- Python functions that raise, and methods that mutate a state and may raise. What was written
-- before a raise stays written, so the state comes back beside the error too.
use mathlib.Core.Path.{◌≡◌, refl}
use mathlib.Core.Bool.{Bool, true, false}
use torq_pro_ai.Prelude.Tests.{if◌then◌else◌}
use mathlib.Core.Logic.{◌⊎◌, inl, inr}

pub data Result {ℓ} (E A : Type ℓ) : Type ℓ where
  ok : A → Result E A
  raised : E → Result E A

abbrev pub Exec {ℓ} : Type ℓ → Type ℓ → Type ℓ → Type ℓ
Exec S E A = S → Result E A × S

module _ {ℓ} {E A B : Type ℓ} where
  abbrev pub and_then : Result E A → (A → Result E B) → Result E B
  and_then (ok a) f = f a
  and_then (raised e) f = raised e

module _ {ℓ} {S E A : Type ℓ} where
  abbrev pub pure : A → Exec S E A
  pure a s = (ok a, s)

  abbrev pub raise : E → Exec S E A
  raise e s = (raised e, s)

  abbrev pub lift : Result E A → Exec S E A
  lift r s = (r, s)

  -- a read of the state that may raise
  abbrev pub reads : (S → Result E A) → Exec S E A
  reads f s = (f s, s)

module _ {ℓ} {S E A B : Type ℓ} where
  abbrev pub continue : Result E A → (A → Exec S E B) → Exec S E B
  continue (ok a) f s = f a s
  continue (raised e) f s = (raised e, s)

  infixl 5 ◌>>=◌ ◌>>◌
  abbrev pub ◌>>=◌ : Exec S E A → (A → Exec S E B) → Exec S E B
  ◌>>=◌ m f s = let (r, s') = m s in continue r f s'

  abbrev pub ◌>>◌ : Exec S E A → Exec S E B → Exec S E B
  m >> n = m >>= λ _. n

pub Result-cases {ℓ} :
    {E A : Type ℓ} (r : Result E A) → ((a : A) × (r ≡ ok a)) ⊎ ((e : E) × (r ≡ raised e))
Result-cases (ok a) = inl (a, refl)
Result-cases (raised e) = inr (e, refl)

pub and_then-eq_ok {ℓ} :
    {E A B : Type ℓ} (r : Result E A) (f : A → Result E B) {x : B}
    → and_then r f ≡ ok x
    → (a : A) × (r ≡ ok a) × (f a ≡ ok x)
and_then-eq_ok (ok a) f h = (a, refl, h)
and_then-eq_ok (raised e) f h = cc

pub ok-injective {ℓ} : {E A : Type ℓ} {x y : A} → ◌≡◌ {A = Result E A} (ok x) (ok y) → x ≡ y
ok-injective h = cc

pub checked-eq_ok {ℓ} :
    {E A : Type ℓ} (test : Bool) (a b : A) (err : E)
    → ◌≡◌ {A = Result E A} (if test then ok a else raised err) (ok b)
    → a ≡ b
checked-eq_ok true a b err h = ok-injective h
checked-eq_ok false a b err h = absurd (cc)

-- what holds of a result that is not an error
abbrev pub Yields {ℓ κ} : {E A : Type ℓ} → (A → Type κ) → Result E A → Type κ
Yields P (ok a) = P a
Yields P (raised e) = Unit

pub and_then-Yields {ℓ κ} :
    {E A B : Type ℓ} (P : B → Type κ) (r : Result E A) (f : A → Result E B)
    → ((a : A) → r ≡ ok a → Yields P (f a))
    → Yields P (and_then r f)
and_then-Yields P (ok a) f h = h a refl
and_then-Yields P (raised e) f h = tt

pub Yields-eq_ok {ℓ κ} :
    {E A : Type ℓ} (P : A → Type κ) (r : Result E A) {x : A} → Yields P r → r ≡ ok x → P x
Yields-eq_ok P (ok a) h e = rw (← ok-injective e) h
Yields-eq_ok P (raised err) h e = absurd (cc)

pub checked-Yields {ℓ κ} :
    {E A : Type ℓ} (P : A → Type κ) (test : Bool) (a : A) (err : E)
    → P a
    → Yields P (if test then ok a else raised err)
checked-Yields P true a err h = h
checked-Yields P false a err h = tt

-- To show that what a method returns, with the state it leaves, satisfies `Q`, step by step.
module _ {ℓ} {S E A B : Type ℓ} where
  pub continue-cases {κ} :
      (Q : Result E B × S → Type κ) (r : Result E A) (f : A → Exec S E B) (s : S)
      → ((e : E) → r ≡ raised e → Q (raised e, s))
      → ((a : A) → r ≡ ok a → Q (f a s))
      → Q (continue r f s)
  continue-cases Q (ok a) f s hr ho = ho a refl
  continue-cases Q (raised e) f s hr ho = hr e refl

-- an error leaves the state `b`
abbrev pub Atomic {ℓ} : {S E A : Type ℓ} → S → Result E A × S → Type ℓ
Atomic b (ok a, s) = s ≡ s
Atomic b (raised e, s) = s ≡ b

pub Atomic-raised {ℓ} :
    {S E A : Type ℓ} (b : S) (p : Result E A × S) {e : E} {s : S}
    → Atomic b p
    → p ≡ (raised e, s)
    → s ≡ b
Atomic-raised b (ok a, s) h k = absurd (cc)
Atomic-raised b (raised e, s) h k = cc
