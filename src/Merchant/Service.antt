-- ===== src/Merchant/Service.antt =====
-- The merchant service (internal/merchant/service.go). The argument `now` is what `s.now()` returns.
use paycore.Base.{ℕ, List}
use paycore.Base.Text.{Text}
use paycore.Database.{Columns}
use paycore.Currency.{Unicode}
use paycore.Merchant.{Merchant, new_merchant}
use paycore.Merchant.Postgres.{create_merchant_row, get_merchant_row, list_merchant_rows}
use paycore.World.{Action, ◌>>=◌, lift, on_merchants}

pub record CreateMerchantInput : Type 0 where
  pub id : Text
  pub name : Text
  pub settlement_currency : Text

unfoldable pub serve_create_merchant :
    ⦃u : Unicode⦄ → ⦃c : Columns⦄ → ℕ → CreateMerchantInput → Action Merchant
serve_create_merchant now input = do
  merchant ← lift (new_merchant input.id input.name input.settlement_currency now)
  on_merchants λ e. create_merchant_row e merchant

unfoldable pub serve_get_merchant : ⦃c : Columns⦄ → Text → Action Merchant
serve_get_merchant id = on_merchants λ e. get_merchant_row e id

unfoldable pub serve_list_merchants : ⦃c : Columns⦄ → Action (List Merchant)
serve_list_merchants = on_merchants list_merchant_rows
