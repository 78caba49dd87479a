-- ===== src/Payment.antt =====
-- Payments and their authorization holds (internal/payment/entity.go and hold.go).
pub mod Store
pub mod Postgres
pub mod Service
pub mod Lifecycle
use paycore.Base.{
  ℕ, Bool, true, false, not, ◌||◌, Option, none, some, ltb, ◌==◌, Result, ok, ◌>>=◌, ◌>>◌, fail_if,
  if◌then◌else◌,
}
use paycore.Base.Int.{ℤ, pos, leb_ℤ}
use paycore.Base.Text.{Text, is_empty, trim_space}
use paycore.Currency.{Unicode, normalize_currency, is_valid_currency}
use paycore.Errors.{
  payment_id_required, merchant_id_required, payer_id_required, hold_id_required,
  amount_not_positive, hold_amount_not_positive, invalid_currency, expiry_not_after_authorization,
  payment_not_authorized, payment_not_expirable, payment_not_captured, authorization_expired,
  hold_not_capturable, hold_not_releasable,
}

pub data Status : Type 0 where
  pending authorized captured settled expired failed : Status

-- Times are nanoseconds; `UTC` keeps the instant. A pointer to a time is an option.
pub record Payment : Type 0 where
  pub id : Text
  pub merchant_id : Text
  pub payer_id : Text
  pub amount : ℤ
  pub currency : Text
  pub status : Status
  pub hold_id : Text
  pub authorized_at : ℕ
  pub expires_at : ℕ
  pub captured_at : Option ℕ
  pub settled_at : Option ℕ
  pub created_at : ℕ
  pub updated_at : ℕ

pub record NewAuthorizedPaymentInput : Type 0 where
  pub id : Text
  pub merchant_id : Text
  pub payer_id : Text
  pub amount : ℤ
  pub currency : Text
  pub hold_id : Text
  pub now : ℕ
  pub expires_at : ℕ

unfoldable pub new_authorized_payment : ⦃u : Unicode⦄ → NewAuthorizedPaymentInput → Result Payment
new_authorized_payment input = do
  let id = trim_space input.id
  let merchant_id = trim_space input.merchant_id
  let payer_id = trim_space input.payer_id
  let hold_id = trim_space input.hold_id
  let currency = normalize_currency input.currency
  fail_if (is_empty id) payment_id_required
  fail_if (is_empty merchant_id) merchant_id_required
  fail_if (is_empty payer_id) payer_id_required
  fail_if (is_empty hold_id) hold_id_required
  fail_if (leb_ℤ input.amount (pos 0)) amount_not_positive
  fail_if (not (is_valid_currency currency)) invalid_currency
  fail_if (not (ltb input.now input.expires_at)) expiry_not_after_authorization
  ok (record {
    id = id;
    merchant_id = merchant_id;
    payer_id = payer_id;
    amount = input.amount;
    currency = currency;
    status = authorized;
    hold_id = hold_id;
    authorized_at = input.now;
    expires_at = input.expires_at;
    captured_at = none;
    settled_at = none;
    created_at = input.now;
    updated_at = input.now;
  })

abbrev pub is_authorized : Status → Bool
is_authorized authorized = true
is_authorized _ = false

abbrev pub is_captured : Status → Bool
is_captured captured = true
is_captured _ = false

unfoldable pub can_capture : Payment → ℕ → Bool
can_capture p now =
    if not (is_authorized p.status) then false else ltb now p.expires_at || now == p.expires_at

unfoldable pub capture : Payment → ℕ → Result Payment
capture p now = do
  fail_if (not (is_authorized p.status)) payment_not_authorized
  fail_if (ltb p.expires_at now) authorization_expired
  ok (record p { status = captured; captured_at = some now; updated_at = now })

unfoldable pub expire : Payment → ℕ → Result Payment
expire p now = do
  fail_if (not (is_authorized p.status)) payment_not_expirable
  ok (record p { status = expired; updated_at = now })

unfoldable pub settle : Payment → ℕ → Result Payment
settle p now = do
  fail_if (not (is_captured p.status)) payment_not_captured
  ok (record p { status = settled; settled_at = some now; updated_at = now })

pub data HoldStatus : Type 0 where
  held captured released : HoldStatus

pub record Hold : Type 0 where
  pub id : Text
  pub payment_id : Text
  pub payer_id : Text
  pub amount : ℤ
  pub currency : Text
  pub status : HoldStatus
  pub created_at : ℕ
  pub updated_at : ℕ

pub record NewHoldInput : Type 0 where
  pub id : Text
  pub payment_id : Text
  pub payer_id : Text
  pub amount : ℤ
  pub currency : Text
  pub now : ℕ

unfoldable pub new_hold : ⦃u : Unicode⦄ → NewHoldInput → Result Hold
new_hold input = do
  let id = trim_space input.id
  let payment_id = trim_space input.payment_id
  let payer_id = trim_space input.payer_id
  let currency = normalize_currency input.currency
  fail_if (is_empty id) hold_id_required
  fail_if (is_empty payment_id) payment_id_required
  fail_if (is_empty payer_id) payer_id_required
  fail_if (leb_ℤ input.amount (pos 0)) hold_amount_not_positive
  fail_if (not (is_valid_currency currency)) invalid_currency
  ok (record {
    id = id;
    payment_id = payment_id;
    payer_id = payer_id;
    amount = input.amount;
    currency = currency;
    status = held;
    created_at = input.now;
    updated_at = input.now;
  })

abbrev pub is_held : HoldStatus → Bool
is_held held = true
is_held _ = false

unfoldable pub capture_hold : Hold → ℕ → Result Hold
capture_hold h now = do
  fail_if (not (is_held h.status)) hold_not_capturable
  ok (record h { status = captured; updated_at = now })

unfoldable pub release_hold : Hold → ℕ → Result Hold
release_hold h now = do
  fail_if (not (is_held h.status)) hold_not_releasable
  ok (record h { status = released; updated_at = now })
