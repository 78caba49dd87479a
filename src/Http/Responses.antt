-- ===== src/Http/Responses.antt =====
-- The responses of the payment handler (internal/payment/handler.go): one for each error, and those
-- of an authorization and a capture.
use paycore.Base.{ℕ, Option, none, some, [], ◌∷◌}
use paycore.Base.Int.{pos}
use paycore.Base.Text.{Text, codes}
use paycore.Errors.{
  Error, cause, merchant_not_found, payer_not_found, payer_version_conflict,
  merchant_cannot_create_payments, payer_currency_mismatch, insufficient_available_balance,
  payment_not_found, hold_not_found, payment_not_capturable, authorization_expired,
  request_hash_mismatch, expired_idempotency_key, request_in_progress,
}
use paycore.Http.{Response, Encoding, Json, object, text, number, write_error_map}
use paycore.Payment.{Status, pending, authorized, captured, settled, expired, failed}
use paycore.Payment.Service.{PaymentResult}

abbrev pub status_text : Status → Text
status_text pending = codes "PENDING"
status_text authorized = codes "AUTHORIZED"
status_text captured = codes "CAPTURED"
status_text settled = codes "SETTLED"
status_text expired = codes "EXPIRED"
status_text failed = codes "FAILED"

module _ (enc : Encoding) where
  authorization_error_of : Error → Error → Response
  authorization_error_of e merchant_not_found =
      write_error_map enc (pos 404) (codes "MERCHANT_NOT_FOUND") (codes "Merchant not found")
  authorization_error_of e payer_not_found =
      write_error_map enc (pos 404) (codes "PAYER_NOT_FOUND") (codes "Payer not found")
  authorization_error_of e payer_version_conflict =
      write_error_map enc (pos 409) (codes "PAYER_VERSION_CONFLICT")
        (codes "Payer balance changed during payment authorization")
  authorization_error_of e merchant_cannot_create_payments =
      write_error_map enc (pos 409) (codes "MERCHANT_CANNOT_CREATE_PAYMENTS")
        (codes "Merchant cannot create payments")
  authorization_error_of e payer_currency_mismatch =
      write_error_map enc (pos 422) (codes "PAYER_CURRENCY_MISMATCH")
        (codes "Payer currency does not match payment currency")
  authorization_error_of e insufficient_available_balance =
      write_error_map enc (pos 422) (codes "INSUFFICIENT_AVAILABLE_BALANCE")
        (codes "Payer has insufficient available balance")
  authorization_error_of e _ =
      write_error_map enc (pos 400) (codes "INVALID_PAYMENT_AUTHORIZATION") (enc.error_text e)

  unfoldable pub authorization_error_response : Error → Response
  unfolding authorization_error_of
  authorization_error_response e = authorization_error_of e (cause e)

  capture_error_of : Error → Error → Response
  capture_error_of e payment_not_found =
      write_error_map enc (pos 404) (codes "PAYMENT_NOT_FOUND") (codes "Payment not found")
  capture_error_of e hold_not_found =
      write_error_map enc (pos 404) (codes "PAYMENT_HOLD_NOT_FOUND")
        (codes "Payment hold not found")
  capture_error_of e payer_not_found =
      write_error_map enc (pos 404) (codes "PAYER_NOT_FOUND") (codes "Payer not found")
  capture_error_of e payer_version_conflict =
      write_error_map enc (pos 409) (codes "PAYER_VERSION_CONFLICT")
        (codes "Payer balance changed during payment capture")
  capture_error_of e payment_not_capturable =
      write_error_map enc (pos 409) (codes "PAYMENT_NOT_CAPTURABLE")
        (codes "Payment is not capturable")
  capture_error_of e authorization_expired =
      write_error_map enc (pos 422) (codes "AUTHORIZATION_EXPIRED")
        (codes "Authorization has expired")
  capture_error_of e _ =
      write_error_map enc (pos 400) (codes "INVALID_PAYMENT_CAPTURE") (enc.error_text e)

  unfoldable pub capture_error_response : Error → Response
  unfolding capture_error_of
  capture_error_response e = capture_error_of e (cause e)

  idempotency_error_of : Error → Error → Response
  idempotency_error_of e request_hash_mismatch =
      write_error_map enc (pos 409) (codes "IDEMPOTENCY_KEY_CONFLICT")
        (codes "Idempotency-Key was already used for a different request")
  idempotency_error_of e expired_idempotency_key =
      write_error_map enc (pos 409) (codes "IDEMPOTENCY_KEY_EXPIRED")
        (codes "Idempotency-Key has expired")
  idempotency_error_of e request_in_progress =
      write_error_map enc (pos 409) (codes "IDEMPOTENCY_REQUEST_IN_PROGRESS")
        (codes "Request with this Idempotency-Key is already in progress")
  idempotency_error_of e _ =
      write_error_map enc (pos 400) (codes "INVALID_IDEMPOTENCY_KEY") (enc.error_text e)

  unfoldable pub idempotency_error_response : Error → Response
  unfolding idempotency_error_of
  idempotency_error_response e = idempotency_error_of e (cause e)

  unfoldable pub authorize_payment_response : PaymentResult → Json
  authorize_payment_response r = object (
      (codes "payment_id", text r.payment.id)
      ∷ (codes "status", text (status_text r.payment.status))
      ∷ (codes "merchant_id", text r.payment.merchant_id)
      ∷ (codes "payer_id", text r.payment.payer_id)
      ∷ (codes "amount", number r.payment.amount)
      ∷ (codes "currency", text r.payment.currency)
      ∷ (codes "hold_id", text r.hold.id)
      ∷ (codes "authorized_at", text (enc.format_time r.payment.authorized_at))
      ∷ (codes "expires_at", text (enc.format_time r.payment.expires_at))
      ∷ [])

  time_or_empty : Option ℕ → Text
  time_or_empty none = []
  time_or_empty (some t) = enc.format_time t

  unfoldable pub capture_payment_response : PaymentResult → Json
  unfolding time_or_empty
  capture_payment_response r = object (
      (codes "payment_id", text r.payment.id)
      ∷ (codes "status", text (status_text r.payment.status))
      ∷ (codes "captured_amount", number r.payment.amount)
      ∷ (codes "currency", text r.payment.currency)
      ∷ (codes "captured_at", text (time_or_empty r.payment.captured_at))
      ∷ [])

  unfoldable pub route_not_found : Response
  route_not_found =
      write_error_map enc (pos 404) (codes "PAYMENT_ROUTE_NOT_FOUND")
        (codes "Payment route not found")

  unfoldable pub invalid_request_body : Response
  invalid_request_body =
      write_error_map enc (pos 400) (codes "INVALID_REQUEST_BODY")
        (codes "Request body could not be read")

  unfoldable pub invalid_json : Response
  invalid_json =
      write_error_map enc (pos 400) (codes "INVALID_JSON") (codes "Request body must be valid JSON")

  unfoldable pub key_required : Response
  key_required =
      write_error_map enc (pos 400) (codes "IDEMPOTENCY_KEY_REQUIRED")
        (codes "Idempotency-Key header is required")
