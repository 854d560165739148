-- ===== src/Prelude/Texts/Decimals.antt =====
-- A number is read back from its decimal digits.
use Prim.Native.Nat.{ℕ, zero, suc, ◌+◌, ◌-◌, ◌*◌, ◌/◌, ◌%◌, ◌≤◌, ◌<◌}
use Prim.Native.Char.{code}
use Prim.Native.String.{String}
use mathlib.Core.Path.{◌≡◌, refl, ap, ◌∙◌}
use mathlib.Core.Logic.{inl, inr}
use mathlib.Core.Bool.{◌&&◌}
use mathlib.Core.List.{List, [], ◌∷◌, ◌++◌}
use mathlib.Core.Option.{Option, none, some}
use native.Mathlib.Omega.{arith}
use torq_pro_ai.Prelude.Tests.{ltb, leb, if◌then◌else◌, Bool-cases}
use torq_pro_ai.Prelude.Texts.{codes, append_str, digit_text, decimal_within, decimal}

-- the number that ASCII digits stand for, behind the digits of another
unfoldable pub int_of : ℕ → List ℕ → Option ℕ
int_of n [] = some n
int_of n (c ∷ cs) = if leb 48 c && leb c 57 then int_of (n * 10 + (c - 48)) cs else none

pub codes-append_str : (s t : String) → codes (append_str s t) ≡ codes s ++ codes t
unfolding append_str
codes-append_str String.[] t = refl
codes-append_str (String.◌∷◌ c s) t = ap (λ cs. code c ∷ cs) (codes-append_str s t)

codes-digit_text : (d : ℕ) → d < 10 → codes (digit_text d) ≡ (48 + d) ∷ []
codes-digit_text zero h = refl
codes-digit_text (suc zero) h = refl
codes-digit_text (suc (suc zero)) h = refl
codes-digit_text (suc (suc (suc zero))) h = refl
codes-digit_text (suc (suc (suc (suc zero)))) h = refl
codes-digit_text (suc (suc (suc (suc (suc zero))))) h = refl
codes-digit_text (suc (suc (suc (suc (suc (suc zero)))))) h = refl
codes-digit_text (suc (suc (suc (suc (suc (suc (suc zero))))))) h = refl
codes-digit_text (suc (suc (suc (suc (suc (suc (suc (suc zero)))))))) h = refl
codes-digit_text (suc (suc (suc (suc (suc (suc (suc (suc (suc zero))))))))) h = refl
codes-digit_text (suc (suc (suc (suc (suc (suc (suc (suc (suc (suc d)))))))))) h =
    absurd (omega arith)

int_of-append_one :
    (n m d : ℕ) (cs : List ℕ)
    → d < 10
    → int_of n cs ≡ some m
    → int_of n (cs ++ (48 + d) ∷ []) ≡ some (m * 10 + d)
unfolding int_of
int_of-append_one n m d [] small h = ground arith
int_of-append_one n m d (c ∷ cs) small h =
    ground (arith, int_of-append_one (n * 10 + (c - 48)) m d cs small)

int_of-digit_text : (d : ℕ) → d < 10 → int_of 0 (codes (digit_text d)) ≡ some d
unfolding int_of
int_of-digit_text d h =
    rw (codes-digit_text d h) (int_of-append_one 0 0 d [] h refl ∙ ap (λ m. some m) (omega arith))

int_of-decimal_within : (fuel n : ℕ) → n ≤ fuel → int_of 0 (codes (decimal_within fuel n)) ≡ some n
int_of-decimal_within zero n h = int_of-digit_text n (omega arith)
int_of-decimal_within (suc fuel) n h = elim (Bool-cases (ltb n 10)) [
  | inl small ↦ rw small (int_of-digit_text n (ground arith))
  | inr large ↦
      rw
        (
          large,
          codes-append_str (decimal_within fuel (n / 10)) (digit_text (n % 10)),
          codes-digit_text (n % 10) (omega arith),
        )
        (int_of-append_one 0 (n / 10) (n % 10) (codes (decimal_within fuel (n / 10))) (omega arith)
            (int_of-decimal_within fuel (n / 10) (ground arith))
          ∙ ap (λ m. some m) (omega arith))
]

-- `int(str(n)) == n`
pub decimal-int_of : (n : ℕ) → int_of 0 (codes (decimal n)) ≡ some n
unfolding decimal
decimal-int_of n = int_of-decimal_within n n (omega arith)
