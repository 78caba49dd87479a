-- ===== src/Merchant.antt =====
-- Merchants (internal/merchant/entity.go).
pub mod Store
pub mod Postgres
pub mod Service
use paycore.Base.{ℕ, Bool, true, false, not, Result, ok, ◌>>=◌, ◌>>◌, fail_if}
use paycore.Base.Text.{Text, is_empty, trim_space}
use paycore.Currency.{Unicode, normalize_currency, is_valid_currency}
use paycore.Errors.{merchant_id_required, merchant_name_required, invalid_settlement_currency}

pub data MerchantStatus : Type 0 where
  active suspended closed : MerchantStatus

pub record Merchant : Type 0 where
  pub id : Text
  pub name : Text
  pub status : MerchantStatus
  pub settlement_currency : Text
  pub created_at : ℕ
  pub updated_at : ℕ

unfoldable pub new_merchant : ⦃u : Unicode⦄ → Text → Text → Text → ℕ → Result Merchant
new_merchant id name settlement_currency now = do
  let id' = trim_space id
  let name' = trim_space name
  let currency = normalize_currency settlement_currency
  fail_if (is_empty id') merchant_id_required
  fail_if (is_empty name') merchant_name_required
  fail_if (not (is_valid_currency currency)) invalid_settlement_currency
  ok (record {
    id = id';
    name = name';
    status = active;
    settlement_currency = currency;
    created_at = now;
    updated_at = now;
  })

abbrev is_active : MerchantStatus → Bool
is_active active = true
is_active _ = false

unfoldable pub can_create_payments : Merchant → Bool
can_create_payments m = is_active m.status
