-- ===== src/Http.antt =====
-- HTTP requests and responses (internal/shared/httpjson, internal/http), as the handlers see them.
pub mod Responses
pub mod Merchants
pub mod Payers
pub mod Payments
pub mod Middleware
use paycore.Base.{ℕ, Option, List, [], ◌∷◌}
use paycore.Base.Int.{ℤ, pos}
use paycore.Base.Text.{Text, codes}
use paycore.Errors.{Error}
use paycore.Idempotency.{Bytes}

-- What a handler reads of a request. `payment_id` is the parameter of the route, empty where it has
-- none; a header that is absent is empty; the body is none where reading it fails.
pub record Request : Type 0 where
  pub method : Bytes
  pub path : Bytes
  pub payment_id : Text
  pub idempotency_key : Text
  pub request_id : Text
  pub forwarded_for : Text
  pub real_ip : Text
  pub remote_addr : Text
  pub body : Option Bytes

-- Its content is JSON, as its header says.
pub record Response : Type 0 where
  pub status : ℤ
  pub body : Bytes

-- What is encoded: an object with the fields of a struct in their order or of a map by their keys,
-- or an array of such objects.
pub data Value : Type 0 where
  text : Text → Value
  number : ℤ → Value

abbrev pub Fields : Type 0
Fields = List (Text × Value)

pub data Json : Type 0 where
  object : Fields → Json
  array : List Fields → Json

pub record AuthorizePaymentRequest : Type 0 where
  pub merchant_id : Text
  pub payer_id : Text
  pub amount : ℤ
  pub currency : Text

pub record CreateMerchantRequest : Type 0 where
  pub id : Text
  pub name : Text
  pub settlement_currency : Text

pub record CreatePayerRequest : Type 0 where
  pub id : Text
  pub available_balance : ℤ
  pub currency : Text

-- The functions of packages encoding/json and time that the handlers call, and the texts of errors.
-- A body that does not decode gives none.
pub record Encoding : Type 0 where
  pub encode : Json → Bytes
  pub decode_authorize : Bytes → Option AuthorizePaymentRequest
  pub decode_merchant : Bytes → Option CreateMerchantRequest
  pub decode_payer : Bytes → Option CreatePayerRequest
  pub format_time : ℕ → Text
  pub error_text : Error → Text

module _ (enc : Encoding) where
  unfoldable pub write : ℤ → Json → Response
  write status body = record { status = status; body = enc.encode body }

  -- The map of an error code and a message.
  unfoldable pub write_error_map : ℤ → Text → Text → Response
  unfolding write
  write_error_map status code message =
      write status (object ((codes "error_code", text code) ∷ (codes "message", text message) ∷ []))

  -- `writeError`; `now` is what `time.Now()` returns.
  unfoldable pub write_error : ℕ → Text → ℤ → Text → Text → Response
  unfolding write
  write_error now request_id status code message = write status (
      object (
        (codes "error_code", text code)
        ∷ (codes "message", text message)
        ∷ (codes "request_id", text request_id)
        ∷ (codes "timestamp", text (enc.format_time now))
        ∷ []))

unfoldable pub post : Bytes
post = codes "POST"

unfoldable pub get : Bytes
get = codes "GET"

unfoldable pub method_not_allowed : Encoding → Response
method_not_allowed enc =
    write_error_map enc (pos 405) (codes "METHOD_NOT_ALLOWED") (codes "Method not allowed")
