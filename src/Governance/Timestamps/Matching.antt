-- ===== src/Governance/Timestamps/Matching.antt =====
-- What the timestamp pattern accepts: no blank text, and a last newline.
use Prim.Native.Char.{code}
use torq_pro_ai.Prelude.{
  ℕ, zero, suc, String, Bool, true, false, not, some, List, [], ◌∷◌, ◌++◌, ◌≡◌, refl, arith, inl,
  inr, nat_beq, nat_beq_iff, any, Option-cases,
}
use torq_pro_ai.Prelude.Texts.{codes, is_space, is_blank}
use torq_pro_ai.Governance.Timestamps.{
  Piece, digit, literal, date_time, fits, match_pieces, match_zulu, match_fraction, match_tail,
  match_rest, is_valid_utc_iso8601,
}

abbrev is_mark : Piece → Bool
is_mark digit = false
is_mark (literal l) = not (is_space l)

mark_space : (p : Piece) (c : ℕ) → is_mark p ≡ true → fits p c ≡ true → is_space c ≡ false
unfolding fits
mark_space digit c h k = cc
mark_space (literal l) c h k = ground (arith, nat_beq_iff c l)

pieces-not-blank :
    (ps : List Piece) (s : String) (r : List ℕ)
    → any is_mark ps ≡ true
    → match_pieces ps (codes s) ≡ some r
    → is_blank s ≡ false
unfolding match_pieces is_blank
pieces-not-blank [] s r m h = cc
pieces-not-blank (p ∷ ps) String.[] r m h = cc
pieces-not-blank (p ∷ ps) (String.◌∷◌ c s) r m h =
    ground (arith, mark_space p (code c), pieces-not-blank ps s r)

-- A valid timestamp is not blank.
pub is_valid_utc_iso8601-not-blank :
    (v : String) → is_valid_utc_iso8601 v ≡ true → is_blank v ≡ false
unfolding is_valid_utc_iso8601 is_space
is_valid_utc_iso8601-not-blank v h = elim (Option-cases (match_pieces date_time (codes v))) [
  | inl e ↦ absurd (ground arith)
  | inr (r, e) ↦ pieces-not-blank date_time v r refl e
]

abbrev pub has_newline : List ℕ → Bool
has_newline cs = any (nat_beq 10) cs

match_pieces-append :
    (ps : List Piece) (cs r ds : List ℕ)
    → match_pieces ps cs ≡ some r
    → match_pieces ps (cs ++ ds) ≡ some (r ++ ds)
unfolding match_pieces
match_pieces-append [] cs r ds h = ground arith
match_pieces-append (p ∷ ps) [] r ds h = cc
match_pieces-append (p ∷ ps) (c ∷ cs) r ds h = ground (arith, match_pieces-append ps cs r ds)

match_pieces-has_newline :
    (ps : List Piece) (cs r : List ℕ)
    → match_pieces ps cs ≡ some r
    → has_newline cs ≡ false
    → has_newline r ≡ false
unfolding match_pieces
match_pieces-has_newline [] cs r h n = ground arith
match_pieces-has_newline (p ∷ ps) [] r h n = cc
match_pieces-has_newline (p ∷ ps) (c ∷ cs) r h n = ground (arith, match_pieces-has_newline ps cs r)

zulu-newline :
    (cs : List ℕ)
    → match_zulu cs ≡ true
    → has_newline cs ≡ false
    → match_zulu (cs ++ 10 ∷ []) ≡ true
unfolding match_zulu
zulu-newline [] h n = cc
zulu-newline (z ∷ []) h n = ground arith
zulu-newline (z ∷ c ∷ []) h n = absurd (ground arith)
zulu-newline (z ∷ c ∷ d ∷ cs) h n = cc

fraction-newline :
    (k : ℕ) (cs : List ℕ)
    → match_fraction k cs ≡ true
    → has_newline cs ≡ false
    → match_fraction k (cs ++ 10 ∷ []) ≡ true
unfolding match_fraction
fraction-newline zero cs h n = cc
fraction-newline (suc k) [] h n = cc
fraction-newline (suc k) (c ∷ cs) h n = ground (arith, zulu-newline cs, fraction-newline k cs)

tail-newline :
    (cs : List ℕ)
    → match_tail cs ≡ true
    → has_newline cs ≡ false
    → match_tail (cs ++ 10 ∷ []) ≡ true
unfolding match_tail
tail-newline [] h n = cc
tail-newline (c ∷ cs) h n = ground (arith, zulu-newline (c ∷ cs), fraction-newline 6 cs)

-- A text that is accepted as a timestamp and has no newline is accepted with one behind it too.
pub is_valid_utc_iso8601-newline :
    (v v' : String)
    → is_valid_utc_iso8601 v ≡ true
    → has_newline (codes v) ≡ false
    → codes v' ≡ codes v ++ 10 ∷ []
    → is_valid_utc_iso8601 v' ≡ true
unfolding is_valid_utc_iso8601 match_rest
is_valid_utc_iso8601-newline v v' h n e = elim (Option-cases (match_pieces date_time (codes v))) [
  | inl k ↦ absurd (ground arith)
  | inr (r, k) ↦
      rw (e, match_pieces-append date_time (codes v) r (10 ∷ []) k)
        (tail-newline r (ground arith) (match_pieces-has_newline date_time (codes v) r k n))
]
