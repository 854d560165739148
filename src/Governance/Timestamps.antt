-- ===== src/Governance/Timestamps.antt =====
-- `is_valid_utc_iso8601` of backend/governance/models.py: the pattern
-- `^\d{4}-\d{2}-\d{2}T\d{2}:\d{2}:\d{2}(\.\d{1,6})?Z$`, as the module re matches it: `\d` is any
-- decimal digit of Unicode, and `$` stands at the end and before a last newline.
pub mod Matching
use torq_pro_ai.Prelude.{
  ℕ, zero, suc, String, Bool, true, false, ◌&&◌, ◌||◌, Option, none, some, List, [], ◌∷◌, nat_beq,
  if◌then◌else◌,
}
use torq_pro_ai.Prelude.Texts.{codes, is_digit}

pub data Piece : Type 0 where
  digit : Piece
  literal : ℕ → Piece

abbrev pub date_time : List Piece
date_time =
    digit
    ∷ digit
    ∷ digit
    ∷ digit
    ∷ literal b'-'
    ∷ digit
    ∷ digit
    ∷ literal b'-'
    ∷ digit
    ∷ digit
    ∷ literal b'T'
    ∷ digit
    ∷ digit
    ∷ literal b':'
    ∷ digit
    ∷ digit
    ∷ literal b':'
    ∷ digit
    ∷ digit
    ∷ []

unfoldable pub fits : Piece → ℕ → Bool
fits digit c = is_digit c
fits (literal l) c = nat_beq c l

-- what is left of the text behind the pieces
unfoldable pub match_pieces : List Piece → List ℕ → Option (List ℕ)
match_pieces [] cs = some cs
match_pieces (p ∷ ps) [] = none
match_pieces (p ∷ ps) (c ∷ cs) = if fits p c then match_pieces ps cs else none

-- `Z$`
unfoldable pub match_zulu : List ℕ → Bool
match_zulu (z ∷ []) = nat_beq z b'Z'
match_zulu (z ∷ n ∷ []) = nat_beq z b'Z' && nat_beq n 10
match_zulu _ = false

-- `\d{1,k}Z$`, for `suc k`
unfoldable pub match_fraction : ℕ → List ℕ → Bool
unfolding match_zulu
match_fraction zero cs = false
match_fraction (suc k) [] = false
match_fraction (suc k) (c ∷ cs) = is_digit c && (match_zulu cs || match_fraction k cs)

-- `(\.\d{1,6})?Z$`
unfoldable pub match_tail : List ℕ → Bool
unfolding match_zulu match_fraction
match_tail [] = false
match_tail (c ∷ cs) = match_zulu (c ∷ cs) || (nat_beq c b'.' && match_fraction 6 cs)

unfoldable pub match_rest : Option (List ℕ) → Bool
unfolding match_tail
match_rest none = false
match_rest (some cs) = match_tail cs

unfoldable pub is_valid_utc_iso8601 : String → Bool
unfolding match_pieces match_rest
is_valid_utc_iso8601 value = match_rest (match_pieces date_time (codes value))

-- `_validate_optional_timestamp`: whether it passes its value through
unfoldable pub optional_timestamp_ok : Option String → Bool
optional_timestamp_ok none = true
optional_timestamp_ok (some value) = is_valid_utc_iso8601 value
