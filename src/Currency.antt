-- ===== src/Currency.antt =====
-- Currency codes (internal/shared/currency/currency.go). Go's case tables beyond ASCII are a
-- parameter: `Unicode` has the functions of package unicode on code points from 128 up.
pub mod Codes
use paycore.Base.{
  ℕ, ◌+◌, ◌-◌, ◌≤◌, ◌≡◌, Bool, true, false, ◌&&◌, [], ◌∷◌, map, ltb, leb, ◌==◌, if◌then◌else◌,
}
use paycore.Base.Text.{Text, is_space, trim_space}

-- unicode.ToUpper, given its part beyond ASCII.
abbrev pub upper_rune : (ℕ → ℕ) → ℕ → ℕ
upper_rune upper c = if ltb c 128 then (if leb b'a' c && leb c b'z' then c - 32 else c) else upper c

-- The case tables, and what the Unicode standard says of them: a simple upper case mapping is its
-- own image, and neither makes nor loses white space.
pub record Unicode : Type 0 where
  pub upper : ℕ → ℕ
  pub letter : ℕ → Bool
  pub upper_case : ℕ → Bool
  pub upper_upper : (c : ℕ) → 128 ≤ c → upper_rune upper (upper c) ≡ upper c
  pub upper_space : (c : ℕ) → 128 ≤ c → is_space (upper c) ≡ is_space c

-- The number of bytes of a code point in UTF-8, and of a text.
abbrev pub rune_length : ℕ → ℕ
rune_length c = if ltb c 0x80 then 1 else if ltb c 0x800 then 2 else if ltb c 0x10000 then 3 else 4

abbrev pub byte_length : Text → ℕ
byte_length [] = 0
byte_length (c ∷ s) = rune_length c + byte_length s

module _ ⦃u : Unicode⦄ where
  abbrev pub to_upper : ℕ → ℕ
  to_upper = upper_rune u.upper

  -- `unicode.IsLetter(c) && unicode.IsUpper(c)`
  abbrev pub is_upper_letter : ℕ → Bool
  is_upper_letter c = if ltb c 128 then leb b'A' c && leb c b'Z' else u.letter c && u.upper_case c

  unfoldable pub normalize_currency : Text → Text
  normalize_currency s = map to_upper (trim_space s)

  abbrev pub all_upper : Text → Bool
  all_upper [] = true
  all_upper (c ∷ s) = is_upper_letter c && all_upper s

  unfoldable pub is_valid_currency : Text → Bool
  is_valid_currency s =
      let n = normalize_currency s in if byte_length n == 3 then all_upper n else false
