-- ===== src/Idempotency/Hash.antt =====
-- The hash of a request (`HashRequest` of internal/idempotency/record.go). A method and a path are
-- the bytes of their strings; SHA-256 is a parameter, on bytes.
use paycore.Base.{ℕ, ◌≡◌, ◌≢◌, ◌⊎◌, inl, inr, refl, ◌/◌, ◌%◌, [], ◌∷◌, ◌++◌, arith}
use paycore.Base.Text.{Text, Text_discrete}
use paycore.Id.{hex_digit, hex_encode}
use paycore.Idempotency.{Bytes}

-- What is written to the hash.
abbrev pub hashed : Bytes → Bytes → Bytes → Bytes
hashed method path body = method ++ (b'\n' ∷ (path ++ (b'\n' ∷ body)))

abbrev pub hash_request : (Bytes → Bytes) → Bytes → Bytes → Bytes → Text
hash_request sha256 method path body = hex_encode (sha256 (hashed method path body))

-- `HashRequestBody`
abbrev pub hash_request_body : (Bytes → Bytes) → Bytes → Text
hash_request_body sha256 body = hash_request sha256 [] [] body

hex_digit-injective : (a b : ℕ) → hex_digit a ≡ hex_digit b → a ≡ b
hex_digit-injective a b h = ground arith

divided : (x y : ℕ) → x / 16 ≡ y / 16 → x % 16 ≡ y % 16 → x ≡ y
divided x y h l = omega arith

cons-eq : {x y : ℕ} {xs ys : Bytes} → x ≡ y → xs ≡ ys → x ∷ xs ≡ y ∷ ys
cons-eq h t = cc

pub hex_encode-injective : (a b : Bytes) → hex_encode a ≡ hex_encode b → a ≡ b
unfolding hex_encode
hex_encode-injective [] [] h = refl
hex_encode-injective [] (y ∷ ys) h = ground arith
hex_encode-injective (x ∷ xs) [] h = ground arith
hex_encode-injective (x ∷ xs) (y ∷ ys) h =
    let tail = hex_encode-injective xs ys (ground arith) in
    let high = hex_digit-injective (x / 16) (y / 16) (ground arith) in
    let low = hex_digit-injective (x % 16) (y % 16) (ground arith) in
    cons-eq (divided x y high low) tail

-- No newline among the bytes.
abbrev pub OneLine : Bytes → Type 0
OneLine [] = Unit {0}
OneLine (c ∷ s) = (c ≢ b'\n') × OneLine s

line-injective :
    (a a' b b' : Bytes)
    → OneLine a
    → OneLine a'
    → a ++ b'\n' ∷ b ≡ a' ++ b'\n' ∷ b'
    → (a ≡ a') × (b ≡ b')
line-injective [] [] b b' o o' h = (refl, ground arith)
line-injective [] (y ∷ ys) b b' o o' h = ground arith
line-injective (x ∷ xs) [] b b' o o' h = ground arith
line-injective (x ∷ xs) (y ∷ ys) b b' o o' h =
    let (p, q) = line-injective xs ys b b' o.1 o'.1 (ground arith) in (ground arith, q)

-- Two requests with one hash, with no newline in method and path, are the same request, or their
-- bytes are a collision of SHA-256.
pub hash_request-collision :
    (sha256 : Bytes → Bytes) (m m' p p' b b' : Bytes)
    → OneLine m
    → OneLine m'
    → OneLine p
    → OneLine p'
    → hash_request sha256 m p b ≡ hash_request sha256 m' p' b'
    → ((m ≡ m') × (p ≡ p') × (b ≡ b'))
      ⊎ ((hashed m p b ≢ hashed m' p' b') × (sha256 (hashed m p b) ≡ sha256 (hashed m' p' b')))
hash_request-collision sha256 m m' p p' b b' om om' op op' h =
    elim (Text_discrete (hashed m p b) (hashed m' p' b')) [
      | no n ↦ inr (n, hex_encode-injective _ _ h)
      | yes e ↦
          let (same_m, rest) = line-injective m m' (p ++ b'\n' ∷ b) (p' ++ b'\n' ∷ b') om om' e in
          let (same_p, same_b) = line-injective p p' b b' op op' rest in
          inl (same_m, same_p, same_b)
    ]
