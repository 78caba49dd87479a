-- ===== src/Ledger/Calls.antt =====
-- Every history of calls on the database keeps the tables consistent.
use paycore.Base.{ℕ, ◌≡◌, false, true}
use paycore.Base.Int.{ℤ}
use paycore.Base.Text.{Text}
use paycore.Database.{Columns}
use paycore.Currency.{Unicode}
use paycore.Ledger.{IsConsistent}
use paycore.Ledger.Expiry.{expire_tx-IsConsistent}
use paycore.Ledger.Services.{authorize_tx-IsConsistent, capture_tx-IsConsistent}
use paycore.Payment.Service.{
  AuthorizePaymentInput, authorize_tx, capture_tx, expire_tx, authorize_payment, capture_payment,
  expire_authorized_payments,
}
use paycore.World.Run.{within_tx-keeps}
use paycore.World.{World, Pool, postgres}

module _ ⦃u : Unicode⦄ ⦃columns : Columns⦄ where
  pub authorize_payment-IsConsistent :
      (pool : Pool) (now : ℕ) (input : AuthorizePaymentInput) (w : World)
      → w.in_tx ≡ false
      → IsConsistent w.stores
      → IsConsistent (authorize_payment (postgres pool) now input w).1.stores
  unfolding authorize_payment
  authorize_payment-IsConsistent pool now input w out c =
      within_tx-keeps IsConsistent pool (authorize_tx now input) w out c (λ r v e.
        authorize_tx-IsConsistent now input (record w { in_tx = true }) {r = r} {w' = v} c e)

  pub capture_payment-IsConsistent :
      (pool : Pool) (now : ℕ) (id : Text) (w : World)
      → w.in_tx ≡ false
      → IsConsistent w.stores
      → IsConsistent (capture_payment (postgres pool) now id w).1.stores
  unfolding capture_payment
  capture_payment-IsConsistent pool now id w out c =
      within_tx-keeps IsConsistent pool (capture_tx now id) w out c
        (λ r v e. capture_tx-IsConsistent now id (record w { in_tx = true }) {r = r} {w' = v} c e)

  pub expire_authorized_payments-IsConsistent :
      (pool : Pool) (now : ℕ) (limit : ℤ) (w : World)
      → w.in_tx ≡ false
      → IsConsistent w.stores
      → IsConsistent (expire_authorized_payments (postgres pool) now limit w).1.stores
  unfolding expire_authorized_payments
  expire_authorized_payments-IsConsistent pool now limit w out c =
      within_tx-keeps IsConsistent pool (expire_tx now _) w out c
        (λ r v e. expire_tx-IsConsistent now _ (record w { in_tx = true }) {rs = r} {w' = v} c e)
