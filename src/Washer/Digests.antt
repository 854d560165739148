-- ===== src/Washer/Digests.antt =====
-- The checksums of backend/library/washer_resolution_{decisions_store,evidence,closure}.py, the form
-- of a digest, and the normalizing validators of the evidence and closure models.
use torq_pro_ai.Prelude.{
  ℕ, zero, suc, String, Bool, true, false, not, ◌&&◌, ◌||◌, Option, none, some, List, [], ◌∷◌, ◌≡◌,
  nat_beq, leb, string_eq, ◌==◌, if◌then◌else◌, keep,
}
use torq_pro_ai.Prelude.Texts.{codes, strip, is_empty_str}
use torq_pro_ai.Prelude.Exec.{Result, ok, raised, and_then}
use torq_pro_ai.Washer.Records.{WasherError, validation_error}

-- the values of a dict that `json.dumps` is given
pub data Json : Type 0 where
  null : Json
  string : String → Json
  number : ℕ → Json
  strings : List String → Json

abbrev pub Payload : Type 0
Payload = List (String × Json)

abbrev pub string_or_null : Option String → Json
string_or_null none = null
string_or_null (some s) = string s

unfoldable pub is_hex : ℕ → Bool
is_hex c = (leb 48 c && leb c 57) || (leb 97 c && leb c 102)

-- `[0-9a-f]{k}$`; `$` stands before a last newline too
unfoldable pub match_hex : ℕ → List ℕ → Bool
unfolding is_hex
match_hex zero [] = true
match_hex zero (n ∷ []) = nat_beq n 10
match_hex zero (_ ∷ _ ∷ _) = false
match_hex (suc k) [] = false
match_hex (suc k) (c ∷ cs) = is_hex c && match_hex k cs

unfoldable pub is_valid_sha256_hex : String → Bool
unfolding match_hex
is_valid_sha256_hex value = match_hex 64 (codes value)

-- `json.dumps(payload, sort_keys=True, …)` and the hexadecimal form of its SHA-256 digest.
pub record Hashing : Type 0 where
  pub digest : Payload → String
  pub digest-hex : (p : Payload) → is_valid_sha256_hex (digest p) ≡ true

unfoldable pub compute_checksum : ⦃h : Hashing⦄ → Payload → String
compute_checksum ⦃h⦄ fields = h.digest (keep (λ (k, v). not (k == "integrity_checksum")) fields)

-- `_normalize_required`
unfoldable pub normalize_required : String → Result WasherError String
normalize_required value =
    let stripped = strip value in
    if is_empty_str stripped then raised validation_error else ok stripped

-- `_normalize_optional`
unfoldable pub normalize_optional : Option String → Result WasherError (Option String)
unfolding normalize_required
normalize_optional none = ok none
normalize_optional (some value) = and_then (normalize_required value) λ s. ok (some s)

-- `s.startswith(prefix)`
abbrev pub starts_with : List ℕ → List ℕ → Bool
starts_with [] cs = true
starts_with (p ∷ ps) [] = false
starts_with (p ∷ ps) (c ∷ cs) = nat_beq p c && starts_with ps cs

-- `_source_url_normalize_and_validate`
unfoldable pub normalize_url : Option String → Result WasherError (Option String)
normalize_url value = and_then (normalize_optional value) λ normalized. elim normalized [
  | none ↦ ok none
  | some url ↦
      if starts_with (codes "http://") (codes url) || starts_with (codes "https://") (codes url)
      then ok (some url)
      else raised validation_error
]
