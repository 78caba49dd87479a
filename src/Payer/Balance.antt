-- ===== src/Payer/Balance.antt =====
-- What the operations on a payer do to the balances: no money is made or lost, and no balance
-- leaves the range of an int64.
use paycore.Base.{ℕ, ◌+◌, ◌<◌, ◌^◌, ◌≡◌, ◌↔◌, true, ok, arith}
use paycore.Base.Int.{
  ℤ, pos, pos_part, ◌+ℤ◌, ◌-ℤ◌, ◌≤ℤ◌, ◌<ℤ◌, add_int64, sub_int64, int_laws, add_int64_exact,
  sub_int64_exact,
}
use paycore.Base.Text.{Text}
use paycore.Currency.{Unicode}
use paycore.Payer.{Payer, new_payer, can_authorize, reserve, release, capture_held}

-- Balances are not negative, and together they fit an int64.
pub record IsSolvent (p : Payer) : Type 0 where
  pub available_nonneg : pos 0 ≤ℤ p.available
  pub held_nonneg : pos 0 ≤ℤ p.held
  pub fits : pos_part p.available + pos_part p.held < 2 ^ 63

-- The payers that `reserve` and `release` return when their guards pass.
abbrev reserved : Payer → ℤ → ℕ → Payer
reserved p x now = record p {
  available = sub_int64 p.available x;
  held = add_int64 p.held x;
  version = add_int64 p.version (pos 1);
  updated_at = now;
}

abbrev released : Payer → ℤ → ℕ → Payer
released p x now = record p {
  available = add_int64 p.available x;
  held = sub_int64 p.held x;
  version = add_int64 p.version (pos 1);
  updated_at = now;
}

abbrev pub total : Payer → ℤ
total p = p.available +ℤ p.held

module _ ⦃u : Unicode⦄ where
  -- A new payer holds nothing, and its balances are in range.
  pub new_payer-IsSolvent :
      (id : Text) (x : ℤ) (c : Text) (now : ℕ) {p : Payer}
      → pos_part x < 2 ^ 63
      → new_payer id x c now ≡ ok p
      → IsSolvent p × (total p ≡ x) × (p.held ≡ pos 0)
  unfolding new_payer ◌+ℤ◌
  new_payer-IsSolvent id x c now h e = ground arith

  -- A reservation moves the amount from the available to the held balance.
  pub reserve-Moves :
      (p : Payer) (x : ℤ) (c : Text) (now : ℕ) {q : Payer}
      → IsSolvent p
      → reserve p x c now ≡ ok q
      → IsSolvent q × (total q ≡ total p) × (q.held ≡ p.held +ℤ x) × (pos 0 <ℤ x)
  unfolding reserve
  reserve-Moves p x c now h e = grind (int_laws, add_int64_exact, sub_int64_exact)

  -- A release moves it back.
  pub release-Moves :
      (p : Payer) (x : ℤ) (c : Text) (now : ℕ) {q : Payer}
      → IsSolvent p
      → release p x c now ≡ ok q
      → IsSolvent q × (total q ≡ total p) × (q.held ≡ p.held -ℤ x) × (pos 0 <ℤ x)
  unfolding release
  release-Moves p x c now h e = grind (int_laws, add_int64_exact, sub_int64_exact)

  -- A capture takes it out of the held balance and leaves the available one alone.
  pub capture_held-Moves :
      (p : Payer) (x : ℤ) (c : Text) (now : ℕ) {q : Payer}
      → IsSolvent p
      → capture_held p x c now ≡ ok q
      → IsSolvent q × (q.available ≡ p.available) × (q.held ≡ p.held -ℤ x) × (pos 0 <ℤ x)
  unfolding capture_held
  capture_held-Moves p x c now h e = grind (int_laws, add_int64_exact, sub_int64_exact)

  -- The test that the service makes first is the guard of `reserve`: a payer passes it exactly
  -- when the reservation succeeds.
  pub can_authorize-reserve :
      (p : Payer) (x : ℤ) (c : Text) (now : ℕ)
      → (can_authorize p x c ≡ true) ↔ ((q : Payer) × (reserve p x c now ≡ ok q))
  unfolding can_authorize reserve
  can_authorize-reserve p x c now = (λ e. (reserved p x now, ground arith), λ (q, e). ground arith)

  -- Releasing what was reserved gives the balances back.
  pub release-reserve :
      (p : Payer) (x : ℤ) (c : Text) (now later : ℕ) {q : Payer}
      → IsSolvent p
      → reserve p x c now ≡ ok q
      → (r : Payer) × (release q x c later ≡ ok r) × (r.available ≡ p.available) × (r.held ≡ p.held)
  unfolding reserve release
  release-reserve p x c now later {q} h e = (
    released q x later,
    grind (int_laws, reserve-Moves p x c now {q = q} h e),
    grind (int_laws, add_int64_exact, sub_int64_exact),
    grind (int_laws, add_int64_exact, sub_int64_exact),
  )
