-- ===== src/Payer.antt =====
-- Payers and their balances (internal/payer/entity.go).
pub mod Store
pub mod Postgres
pub mod Balance
pub mod Service
use paycore.Base.{
  ℕ, Bool, true, false, not, ◌&&◌, Result, ok, err, ◌>>=◌, ◌>>◌, fail_if, if◌then◌else◌,
}
use paycore.Base.Int.{ℤ, pos, add_int64, sub_int64, ltb_ℤ, leb_ℤ}
use paycore.Base.Text.{Text, text_eq, is_empty, trim_space}
use paycore.Currency.{Unicode, normalize_currency, is_valid_currency}
use paycore.Errors.{
  payer_id_required, available_balance_negative, invalid_currency, reserve_amount_not_positive,
  release_amount_not_positive, capture_amount_not_positive, reserve_currency_mismatch,
  release_currency_mismatch, capture_currency_mismatch, insufficient_available, insufficient_held,
}

-- Times are nanoseconds; `UTC` keeps the instant.
pub record Payer : Type 0 where
  pub id : Text
  pub available : ℤ
  pub held : ℤ
  pub currency : Text
  pub version : ℤ
  pub created_at : ℕ
  pub updated_at : ℕ

module _ ⦃u : Unicode⦄ where
  unfoldable pub new_payer : Text → ℤ → Text → ℕ → Result Payer
  new_payer id available currency now = do
    let id' = trim_space id
    let currency' = normalize_currency currency
    fail_if (is_empty id') payer_id_required
    fail_if (ltb_ℤ available (pos 0)) available_balance_negative
    fail_if (not (is_valid_currency currency')) invalid_currency
    ok (record {
      id = id';
      available = available;
      held = pos 0;
      currency = currency';
      version = pos 0;
      created_at = now;
      updated_at = now;
    })

  unfoldable pub can_authorize : Payer → ℤ → Text → Bool
  can_authorize p amount currency =
      if leb_ℤ amount (pos 0)
      then false
      else if not (text_eq p.currency (normalize_currency currency))
      then false
      else leb_ℤ amount p.available

  unfoldable pub reserve : Payer → ℤ → Text → ℕ → Result Payer
  reserve p amount currency now = do
    fail_if (leb_ℤ amount (pos 0)) reserve_amount_not_positive
    fail_if (not (text_eq p.currency (normalize_currency currency))) reserve_currency_mismatch
    fail_if (ltb_ℤ p.available amount) insufficient_available
    ok (record p {
      available = sub_int64 p.available amount;
      held = add_int64 p.held amount;
      version = add_int64 p.version (pos 1);
      updated_at = now;
    })

  unfoldable pub release : Payer → ℤ → Text → ℕ → Result Payer
  release p amount currency now = do
    fail_if (leb_ℤ amount (pos 0)) release_amount_not_positive
    fail_if (not (text_eq p.currency (normalize_currency currency))) release_currency_mismatch
    fail_if (ltb_ℤ p.held amount) insufficient_held
    ok (record p {
      available = add_int64 p.available amount;
      held = sub_int64 p.held amount;
      version = add_int64 p.version (pos 1);
      updated_at = now;
    })

  unfoldable pub capture_held : Payer → ℤ → Text → ℕ → Result Payer
  capture_held p amount currency now = do
    fail_if (leb_ℤ amount (pos 0)) capture_amount_not_positive
    fail_if (not (text_eq p.currency (normalize_currency currency))) capture_currency_mismatch
    fail_if (ltb_ℤ p.held amount) insufficient_held
    ok (record p {
      held = sub_int64 p.held amount;
      version = add_int64 p.version (pos 1);
      updated_at = now;
    })
