-- ===== src/Payment/Service.antt =====
-- Authorization, capture and expiry of payments (internal/payment/service.go). The argument `now`
-- is what `s.now()` returns in the call.
pub mod Rows
pub mod Writes
pub mod Metrics
use paycore.Base.{
  ℕ, ◌+◌, ◌*◌, not, Option, none, some, List, [], ◌∷◌, ltb, Result, ok, err, if◌then◌else◌,
}
use paycore.Base.Int.{ℤ, pos, leb_ℤ}
use paycore.Base.Text.{Text, codes, text_eq}
use paycore.Database.{Columns}
use paycore.Currency.{Unicode, normalize_currency}
use paycore.Errors.{
  merchant_cannot_create_payments, payer_currency_mismatch, insufficient_available_balance,
  payment_not_capturable, authorization_expired,
}
use paycore.Id
use paycore.Id.{new_id}
use paycore.Merchant.{Merchant, can_create_payments}
use paycore.Merchant.Postgres.{get_merchant_row}
use paycore.Outbox.{
  Event, NewEventInput, Payload, payment_authorized, payment_captured, payment_expired, new_event,
}
use paycore.Outbox.Postgres.{create_event_row}
use paycore.Payer.{Payer, can_authorize, reserve, release, capture_held}
use paycore.Payer.Postgres.{get_payer_row, update_payer_row}
use paycore.Payment.{
  Payment, Hold, new_hold, new_authorized_payment, is_authorized, capture, expire, capture_hold,
  release_hold,
}
use paycore.Payment.Postgres.{
  create_payment_row, get_payment_row, list_expired_payment_rows, update_payment_row,
  create_hold_row, get_hold_row_by_payment_id, update_hold_row,
}
use paycore.World.{
  Action, World, Transactor, ◌>>=◌, ◌>>◌, pure, lift, fail_if, draw, on_merchants, on_payers,
  on_payers_twice, on_payments, on_holds, on_events, locked_rows, within_tx,
}

abbrev pub aggregate_type_payment : Text
aggregate_type_payment = codes "payment"

abbrev pub event_type_payment_authorized : Text
event_type_payment_authorized = codes "payment.authorized"

abbrev pub event_type_payment_captured : Text
event_type_payment_captured = codes "payment.captured"

abbrev pub event_type_payment_expired : Text
event_type_payment_expired = codes "payment.expired"

pub record AuthorizePaymentInput : Type 0 where
  pub merchant_id : Text
  pub payer_id : Text
  pub amount : ℤ
  pub currency : Text

-- `AuthorizePaymentResult` and `CapturePaymentResult`
pub record PaymentResult : Type 0 where
  pub payment : Payment
  pub hold : Hold
  pub payer : Payer

-- `15 * time.Minute`
abbrev pub authorization_ttl : ℕ
authorization_ttl = 15 * 60 * 1000000000

-- `outbox.NewEvent` and `s.outbox.CreateEvent`
abbrev pub emit : ⦃c : Columns⦄ → NewEventInput → Action Event
emit input = do
  random ← draw
  event ← lift (new_event input random)
  on_events λ e. create_event_row e event

abbrev pub authorized_event : Payment → Hold → ℕ → NewEventInput
authorized_event p h now = record {
  aggregate_type = aggregate_type_payment;
  aggregate_id = p.id;
  event_type = event_type_payment_authorized;
  payload =
      payment_authorized p.id p.merchant_id p.payer_id p.amount p.currency h.id p.authorized_at
        p.expires_at;
  now = now;
}

abbrev pub captured_event : Payment → Hold → ℕ → NewEventInput
captured_event p h now = record {
  aggregate_type = aggregate_type_payment;
  aggregate_id = p.id;
  event_type = event_type_payment_captured;
  payload = payment_captured p.id p.merchant_id p.payer_id p.amount p.currency h.id now;
  now = now;
}

abbrev pub expired_event : Payment → Hold → ℕ → NewEventInput
expired_event p h now = record {
  aggregate_type = aggregate_type_payment;
  aggregate_id = p.id;
  event_type = event_type_payment_expired;
  payload = payment_expired p.id p.merchant_id p.payer_id p.amount p.currency h.id now p.expires_at;
  now = now;
}

module _ ⦃u : Unicode⦄ ⦃c : Columns⦄ where
  -- The writes of an authorization.
  unfoldable pub write_authorization : ℕ → Payment → Hold → Payer → Action PaymentResult
  write_authorization now payment hold reserved = do
    payer' ← on_payers_twice λ e later. update_payer_row e later reserved
    payment' ← on_payments λ e. create_payment_row e payment
    hold' ← on_holds λ e. create_hold_row e hold
    emit (authorized_event payment' hold' now)
    pure (record { payment = payment'; hold = hold'; payer = payer' })

  -- The records that an authorization makes.
  unfoldable pub make_authorization :
      ℕ → AuthorizePaymentInput → Merchant → Payer → Action (Payment × Hold × Payer)
  make_authorization now input merchant payer = do
    payment_random ← draw
    payment_id ← lift (new_id Id.pay payment_random)
    hold_random ← draw
    hold_id ← lift (new_id Id.hold hold_random)
    hold ← lift (
        new_hold (record {
          id = hold_id;
          payment_id = payment_id;
          payer_id = payer.id;
          amount = input.amount;
          currency = input.currency;
          now = now;
        }))
    payment ← lift (
        new_authorized_payment (record {
          id = payment_id;
          merchant_id = merchant.id;
          payer_id = payer.id;
          amount = input.amount;
          currency = input.currency;
          hold_id = hold.id;
          now = now;
          expires_at = now + authorization_ttl;
        }))
    reserved ← lift (reserve payer input.amount input.currency now)
    pure (payment, hold, reserved)

  -- The body of the transaction of `AuthorizePayment`.
  unfoldable pub authorize_tx : ℕ → AuthorizePaymentInput → Action PaymentResult
  authorize_tx now input = do
    merchant ← on_merchants λ e. get_merchant_row e input.merchant_id
    fail_if (not (can_create_payments merchant)) merchant_cannot_create_payments
    payer ← on_payers λ e. get_payer_row e input.payer_id
    fail_if (not (text_eq payer.currency (normalize_currency input.currency)))
        payer_currency_mismatch
    fail_if (not (can_authorize payer input.amount input.currency)) insufficient_available_balance
    (payment, hold, reserved) ← make_authorization now input merchant payer
    write_authorization now payment hold reserved

  unfoldable pub authorize_payment : Transactor → ℕ → AuthorizePaymentInput → Action PaymentResult
  authorize_payment transactor now input = within_tx transactor (authorize_tx now input)

  -- The writes of a capture.
  unfoldable pub write_capture : ℕ → Payment → Hold → Payer → Action PaymentResult
  write_capture now captured captured_hold charged = do
    payer' ← on_payers_twice λ e later. update_payer_row e later charged
    hold' ← on_holds λ e. update_hold_row e captured_hold
    payment' ← on_payments λ e. update_payment_row e captured
    emit (captured_event payment' hold' now)
    pure (record { payment = payment'; hold = hold'; payer = payer' })

  -- The body of the transaction of `CapturePayment`.
  unfoldable pub capture_tx : ℕ → Text → Action PaymentResult
  capture_tx now payment_id = do
    payment ← on_payments λ e. get_payment_row e payment_id
    hold ← on_holds λ e. get_hold_row_by_payment_id e payment.id
    payer ← on_payers λ e. get_payer_row e payment.payer_id
    fail_if (not (is_authorized payment.status)) payment_not_capturable
    fail_if (ltb payment.expires_at now) authorization_expired
    captured ← lift (capture payment now)
    captured_hold ← lift (capture_hold hold now)
    charged ← lift (capture_held payer payment.amount payment.currency now)
    write_capture now captured captured_hold charged

  unfoldable pub capture_payment : Transactor → ℕ → Text → Action PaymentResult
  capture_payment transactor now payment_id = within_tx transactor (capture_tx now payment_id)

  unfoldable pub release_payer : ℕ → Payment → Payer → Action Payer
  release_payer now payment payer = do
    released ← lift (release payer payment.amount payment.currency now)
    on_payers_twice λ e later. update_payer_row e later released

  unfoldable pub release_held : ℕ → Hold → Action Hold
  release_held now hold = do
    released ← lift (release_hold hold now)
    on_holds λ e. update_hold_row e released

  unfoldable pub expire_payment : ℕ → Payment → Action Payment
  expire_payment now payment = do
    expired ← lift (expire payment now)
    on_payments λ e. update_payment_row e expired

  -- One round of the loop of `ExpireAuthorizedPayments`.
  unfoldable pub expire_one : ℕ → Payment → Action PaymentResult
  expire_one now payment = do
    hold ← on_holds λ e. get_hold_row_by_payment_id e payment.id
    payer ← on_payers λ e. get_payer_row e payment.payer_id
    payer' ← release_payer now payment payer
    hold' ← release_held now hold
    payment' ← expire_payment now payment
    emit (expired_event payment' hold' now)
    pure (record { payment = payment'; hold = hold'; payer = payer' })

  -- The loop; the three slices of the result are one list.
  unfoldable pub expire_all : ℕ → List Payment → Action (List PaymentResult)
  expire_all now [] = pure []
  expire_all now (payment ∷ rest) = do
    let later = expire_all now rest
    result ← expire_one now payment
    results ← later
    pure (result ∷ results)

  unfoldable pub expire_tx : ℕ → ℤ → Action (List PaymentResult)
  expire_tx now limit = do
    locked ← locked_rows
    payments ← on_payments λ e. list_expired_payment_rows e locked now limit
    expire_all now payments

  unfoldable pub expire_authorized_payments : Transactor → ℕ → ℤ → Action (List PaymentResult)
  expire_authorized_payments transactor now limit =
      within_tx transactor (expire_tx now (if leb_ℤ limit (pos 0) then pos 100 else limit))
