-- ===== src/Currency/Codes.antt =====
-- Which texts are currency codes, and that normalizing settles them.
use paycore.Base.{
  ℕ, zero, suc, Bool, not, sym, ap, ◌||◌, ◌≤◌, ◌<◌, ◌≡◌, refl, true, false, ◌&&◌, [], ◌∷◌, map, ltb,
  leb, Bool-cases, arith, inl, inr,
}
use paycore.Base.Text.{Text, is_space, is_empty, trim_left, trim_right, trim_space, trim_space_idem}
use paycore.Currency.{
  Unicode, to_upper, normalize_currency, is_valid_currency, is_upper_letter, rune_length,
}

abbrev same : Bool → Bool → Bool
same true b = b
same false b = not b

same→eq : (a b : Bool) → same a b ≡ true → a ≡ b
same→eq true b h = sym h
same→eq false b h = ground arith

-- Every number below a bound passes a test.
all_below : ℕ → (ℕ → Bool) → Bool
all_below zero test = true
all_below (suc n) test = test n && all_below n test

all_below_sound :
    (n : ℕ) (test : ℕ → Bool) (c : ℕ) → all_below n test ≡ true → c < n → test c ≡ true
unfolding all_below
all_below_sound zero test c h lt = absurd (omega arith)
all_below_sound (suc n) test c h lt = ground (arith, all_below_sound n test c)

-- An ASCII letter.
abbrev pub is_letter : ℕ → Bool
is_letter c = leb b'a' c && leb c b'z' || leb b'A' c && leb c b'Z'

letter_not_space : (c : ℕ) → is_letter c ≡ true → is_space c ≡ false
unfolding is_space
letter_not_space c h = ground arith

three_bytes : (c : ℕ) → 0x800 ≤ c → c < 0x10000 → rune_length c ≡ 3
three_bytes c lo hi = ground arith

module _ ⦃u : Unicode⦄ where
  to_upper_idem : (c : ℕ) → to_upper (to_upper c) ≡ to_upper c
  to_upper_idem c = elim (Bool-cases (ltb c 128)) [
    | inl e ↦ ground arith
    | inr e ↦ ground (arith, u.upper_upper c)
  ]

  spaces_table : all_below 128 (λ d. same (is_space (to_upper d)) (is_space d)) ≡ true
  unfolding all_below is_space
  spaces_table = refl

  is_space-to_upper : (c : ℕ) → is_space (to_upper c) ≡ is_space c
  is_space-to_upper c = elim (Bool-cases (ltb c 128)) [
    | inl e ↦ same→eq _ _ (
        all_below_sound 128 (λ d. same (is_space (to_upper d)) (is_space d)) c spaces_table
          (ground arith))
    | inr e ↦ ground (arith, u.upper_space c)
  ]

  map-to_upper-trim_left : (s : Text) → trim_left (map to_upper s) ≡ map to_upper (trim_left s)
  unfolding trim_left
  map-to_upper-trim_left [] = refl
  map-to_upper-trim_left (c ∷ s) = elim (Bool-cases (is_space c)) [
    | inl e ↦ simp (is_space-to_upper, e) (map-to_upper-trim_left s)
    | inr e ↦ simp (is_space-to_upper, e)
  ]

  is_empty-map : (s : Text) → is_empty (map to_upper s) ≡ is_empty s
  is_empty-map [] = refl
  is_empty-map (c ∷ s) = refl

  map-to_upper-trim_right : (s : Text) → trim_right (map to_upper s) ≡ map to_upper (trim_right s)
  unfolding trim_right
  map-to_upper-trim_right [] = refl
  map-to_upper-trim_right (c ∷ s) = elim (Bool-cases (is_space c && is_empty (trim_right s))) [
    | inl e ↦ simp (is_space-to_upper, map-to_upper-trim_right s, is_empty-map, e)
    | inr e ↦ simp (is_space-to_upper, map-to_upper-trim_right s, is_empty-map, e)
  ]

  map-to_upper_idem : (s : Text) → map to_upper (map to_upper s) ≡ map to_upper s
  map-to_upper_idem [] = refl
  map-to_upper_idem (c ∷ s) = simp (to_upper_idem, map-to_upper_idem s)

  letter_length : (c : ℕ) → is_letter c ≡ true → rune_length (to_upper c) ≡ 1
  letter_length c h = ground arith

  letter_upper : (c : ℕ) → is_letter c ≡ true → is_upper_letter (to_upper c) ≡ true
  letter_upper c h = ground arith

  upper_beyond_ascii : (c : ℕ) → 0x800 ≤ c → u.upper c ≡ c → to_upper c ≡ c
  upper_beyond_ascii c lo fixed = ground arith

  upper_letter_beyond_ascii :
      (c : ℕ) → 0x800 ≤ c → u.letter c ≡ true → u.upper_case c ≡ true → is_upper_letter c ≡ true
  upper_letter_beyond_ascii c lo letter upper_case = ground arith

  normalize_idem : (s : Text) → normalize_currency (normalize_currency s) ≡ normalize_currency s
  unfolding normalize_currency trim_space
  normalize_idem s =
      simp (map-to_upper-trim_left, map-to_upper-trim_right, map-to_upper_idem)
        (ap (map to_upper) (trim_space_idem s))

  normalize-map_upper : (s : Text) → normalize_currency (map to_upper s) ≡ normalize_currency s
  unfolding normalize_currency trim_space
  normalize-map_upper s = simp (map-to_upper-trim_left, map-to_upper-trim_right, map-to_upper_idem)

  normalize-trim_space : (s : Text) → normalize_currency (trim_space s) ≡ normalize_currency s
  unfolding normalize_currency
  normalize-trim_space s = ap (map to_upper) (trim_space_idem s)

  -- The normal form of a code has its own normal form, and forgets its case and the white space
  -- around it; the check of a code tells it from none of the three.
  pub normalize_currency_idem :
      (s : Text)
      → ((normalize_currency (normalize_currency s) ≡ normalize_currency s)
          × (is_valid_currency (normalize_currency s) ≡ is_valid_currency s))
        × ((normalize_currency (map to_upper s) ≡ normalize_currency s)
            × (is_valid_currency (map to_upper s) ≡ is_valid_currency s))
        × ((normalize_currency (trim_space s) ≡ normalize_currency s)
            × (is_valid_currency (trim_space s) ≡ is_valid_currency s))
  unfolding is_valid_currency
  normalize_currency_idem s = (
    (normalize_idem s, rw (normalize_idem s)),
    (normalize-map_upper s, rw (normalize-map_upper s)),
    (normalize-trim_space s, rw (normalize-trim_space s)),
  )

  -- Three ASCII letters are a valid code, in either case.
  pub is_valid_currency-letters :
      (a b c : ℕ)
      → (is_letter a ≡ true)
      → (is_letter b ≡ true)
      → (is_letter c ≡ true)
      → is_valid_currency (a ∷ b ∷ c ∷ []) ≡ true
  unfolding is_valid_currency normalize_currency trim_space trim_left trim_right
  is_valid_currency-letters a b c ha hb hc = simp (
    letter_not_space a ha,
    letter_not_space b hb,
    letter_not_space c hc,
    letter_length a ha,
    letter_length b hb,
    letter_length c hc,
    letter_upper a ha,
    letter_upper b hb,
    letter_upper c hc,
  )

  -- The test counts bytes, so a single letter passes it whose UTF-8 form has three of them.
  pub is_valid_currency-one_letter :
      (c : ℕ)
      → 0x800 ≤ c
      → c < 0x10000
      → u.upper c ≡ c
      → u.letter c ≡ true
      → u.upper_case c ≡ true
      → is_space c ≡ false
      → is_valid_currency (c ∷ []) ≡ true
  unfolding is_valid_currency normalize_currency trim_space trim_left trim_right
  is_valid_currency-one_letter c lo hi fixed letter upper_case space = simp space (
      simp (upper_beyond_ascii c lo fixed)
        (simp (three_bytes c lo hi, upper_letter_beyond_ascii c lo letter upper_case)))
