-- ===== src/Payer/Service.antt =====
-- The payer service (internal/payer/service.go). The argument `now` is what `s.now()` returns.
use paycore.Base.{ℕ, List}
use paycore.Base.Int.{ℤ}
use paycore.Base.Text.{Text}
use paycore.Database.{Columns}
use paycore.Currency.{Unicode}
use paycore.Payer.{Payer, new_payer}
use paycore.Payer.Postgres.{create_payer_row, get_payer_row, list_payer_rows, update_payer_row}
use paycore.World.{Action, ◌>>=◌, lift, on_payers, on_payers_twice}

pub record CreatePayerInput : Type 0 where
  pub id : Text
  pub available : ℤ
  pub currency : Text

unfoldable pub serve_create_payer :
    ⦃u : Unicode⦄ → ⦃c : Columns⦄ → ℕ → CreatePayerInput → Action Payer
serve_create_payer now input = do
  payer ← lift (new_payer input.id input.available input.currency now)
  on_payers λ e. create_payer_row e payer

unfoldable pub serve_get_payer : ⦃c : Columns⦄ → Text → Action Payer
serve_get_payer id = on_payers λ e. get_payer_row e id

unfoldable pub serve_list_payers : ⦃c : Columns⦄ → Action (List Payer)
serve_list_payers = on_payers list_payer_rows

unfoldable pub serve_update_payer : ⦃c : Columns⦄ → Payer → Action Payer
serve_update_payer payer = on_payers_twice λ e later. update_payer_row e later payer
