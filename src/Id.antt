-- ===== src/Id.antt =====
-- Identifiers (internal/shared/id/id.go): a prefix and sixteen random bytes in hexadecimal. What
-- `rand.Read` gives is an argument: the bytes, or none where it fails.
use paycore.Base.{
  ℕ, ◌+◌, ◌-◌, ◌/◌, ◌%◌, Option, none, some, List, [], ◌∷◌, ◌++◌, ltb, Result, ok, err, ◌>>=◌, ◌>>◌,
  fail_if, if◌then◌else◌,
}
use paycore.Base.Text.{Text, codes, is_empty, trim_space}
use paycore.Errors.{id_prefix_required, generate_id}

abbrev pub hex_digit : ℕ → ℕ
hex_digit d = if ltb d 10 then b'0' + d else b'a' + (d - 10)

-- hex.EncodeToString
unfoldable pub hex_encode : List ℕ → Text
hex_encode [] = []
hex_encode (b ∷ bs) = hex_digit (b / 16) ∷ hex_digit (b % 16) ∷ hex_encode bs

abbrev or_fail : Option (List ℕ) → Result (List ℕ)
or_fail none = err generate_id
or_fail (some bytes) = ok bytes

unfoldable pub new_id : Text → Option (List ℕ) → Result Text
unfolding hex_encode
new_id prefix random = do
  let prefix' = trim_space prefix
  fail_if (is_empty prefix') id_prefix_required
  bytes ← or_fail random
  ok (prefix' ++ codes "_" ++ hex_encode bytes)

-- The prefixes of the callers.
abbrev pub pay : Text
pay = codes "pay"

abbrev pub hold : Text
hold = codes "hold"

abbrev pub evt : Text
evt = codes "evt"

abbrev pub setbat : Text
setbat = codes "setbat"

abbrev pub setitem : Text
setitem = codes "setitem"
