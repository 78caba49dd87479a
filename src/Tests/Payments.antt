-- ===== src/Tests/Payments.antt =====
-- The theorems about the payment service, along one authorization and its capture.
use paycore.Base.{◌≡◌, refl, false, none, some, [], ok, err}
use paycore.Base.Dict.{lookup, insert, find_value}
use paycore.Base.Int.{pos, ◌+ℤ◌, ◌-ℤ◌, int64, add_int64, sub_int64}
use paycore.Base.Text.{Text, codes, is_space, trim_space, Text_discrete}
use paycore.Currency.{normalize_currency, is_valid_currency}
use paycore.Errors.{payment_not_capturable}
use paycore.Id.{new_id}
use paycore.Ledger.History.{IsServing, Reach-IsServing, empty_stores-IsConsistent}
use paycore.Ledger.Outcome.{Authorized, authorize_payment-Authorized}
use paycore.Ledger.Capture.{Captured, capture_payment-Captured, capture_payment-twice}
use paycore.Merchant.{new_merchant, can_create_payments}
use paycore.Merchant.Postgres.{create_merchant_row, get_merchant_row}
use paycore.Outbox.{new_event}
use paycore.Outbox.Postgres.{create_event_row}
use paycore.Payer.{new_payer, can_authorize, reserve, capture_held}
use paycore.Payer.Postgres.{create_payer_row, get_payer_row, update_payer_row}
use paycore.Payment as P
use paycore.Payment.{Payment, Hold, new_hold, new_authorized_payment, capture, capture_hold}
use paycore.Payment.Service.{
  PaymentResult, authorize_tx, make_authorization, write_authorization, authorize_payment,
  capture_tx, write_capture, capture_payment,
}
use paycore.Payment.Postgres.{
  create_payment_row, create_hold_row, get_payment_row, get_hold_row_by_payment_id,
  update_payment_row, update_hold_row,
}
use paycore.Tests.{
  ascii, micros, pool, start, with_payer, with_payment, authorize_input, charged_payer,
  Reach-with_payer, Reach-with_payment,
}
use paycore.World.{World, postgres, within_tx}

abbrev pay_id : Text
pay_id = codes "pay_01000000000000000000000000000001"

abbrev payment : Payment
payment = record {
  id = pay_id;
  merchant_id = codes "m1";
  payer_id = codes "p1";
  amount = pos 120;
  currency = codes "EUR";
  status = P.authorized;
  hold_id = codes "hold_02000000000000000000000000000002";
  authorized_at = 30000;
  expires_at = 900000030000;
  captured_at = none;
  settled_at = none;
  created_at = 30000;
  updated_at = 30000;
}

abbrev hold : Hold
hold = record {
  id = codes "hold_02000000000000000000000000000002";
  payment_id = pay_id;
  payer_id = codes "p1";
  amount = pos 120;
  currency = codes "EUR";
  status = P.held;
  created_at = 30000;
  updated_at = 30000;
}

abbrev authorized_result : PaymentResult
authorized_result = record { payment = payment; hold = hold; payer = charged_payer }

authorizes :
    authorize_payment (postgres pool) 30000 authorize_input with_payer
    ≡ (ok authorized_result, with_payment)
unfolding with_payment lookup insert Text_discrete is_space trim_space normalize_currency
    is_valid_currency new_merchant create_merchant_row new_payer create_payer_row authorize_tx
    make_authorization write_authorization find_value within_tx get_merchant_row get_payer_row
    can_create_payments can_authorize reserve update_payer_row add_int64 sub_int64 int64 ◌+ℤ◌ ◌-ℤ◌
    new_id new_hold new_authorized_payment create_payment_row create_hold_row new_event
    create_event_row
authorizes = refl

start-IsServing : IsServing start
start-IsServing = record { outside = refl; consistent = empty_stores-IsConsistent }

with_payer-IsServing : IsServing with_payer
with_payer-IsServing = Reach-IsServing start-IsServing Reach-with_payer

with_payment-IsServing : IsServing with_payment
with_payment-IsServing = Reach-IsServing start-IsServing Reach-with_payment

authorize_payment-Authorized_example :
    Authorized 30000 authorize_input authorized_result with_payer.stores with_payment.stores
authorize_payment-Authorized_example =
    authorize_payment-Authorized pool 30000 authorize_input with_payer with_payer-IsServing.outside
      with_payer-IsServing.consistent authorizes

abbrev captured_result : PaymentResult
captured_result = record {
  payment = record payment { status = P.captured; captured_at = some 60000; updated_at = 60000 };
  hold = record hold { status = P.HoldStatus.captured; updated_at = 60000 };
  payer = record charged_payer { held = pos 0; version = pos 2; updated_at = 60000 };
}

with_capture : World
unfolding with_payment capture_payment
with_capture = (capture_payment (postgres pool) 60000 pay_id with_payment).1

captures :
    capture_payment (postgres pool) 60000 pay_id with_payment ≡ (ok captured_result, with_capture)
unfolding with_capture lookup insert Text_discrete is_space trim_space normalize_currency
    is_valid_currency new_merchant create_merchant_row new_payer create_payer_row authorize_tx
    make_authorization write_authorization find_value within_tx get_merchant_row get_payer_row
    can_create_payments can_authorize reserve update_payer_row add_int64 sub_int64 int64 ◌+ℤ◌ ◌-ℤ◌
    new_id new_hold new_authorized_payment create_payment_row create_hold_row new_event
    create_event_row capture_tx write_capture get_payment_row get_hold_row_by_payment_id capture
    capture_hold capture_held update_hold_row update_payment_row
captures = refl

capture_payment-Captured_example :
    Captured 60000 pay_id captured_result with_payment.stores with_capture.stores
capture_payment-Captured_example =
    capture_payment-Captured pool 60000 pay_id with_payment with_payment-IsServing.outside
      with_payment-IsServing.consistent captures

abbrev retry : World
retry = record { stores = with_capture.stores; ctx = []; random = []; locked = []; in_tx = false }

capture_payment-twice_example :
    let (result, after) = capture_payment (postgres pool) 70000 pay_id retry in
    (result ≡ err payment_not_capturable) × (after.stores ≡ retry.stores)
capture_payment-twice_example =
    capture_payment-twice pool pool 60000 70000 pay_id with_payment retry
      with_payment-IsServing.outside with_payment-IsServing.consistent captures refl refl refl refl
      refl
