-- ===== src/Http/Merchants.antt =====
-- The merchant handler (internal/merchant/handler.go). A body that cannot be read does not decode.
use paycore.Base.{ℕ, Option, none, some, [], ◌∷◌, map, ok, err, if◌then◌else◌}
use paycore.Base.Int.{pos}
use paycore.Base.Text.{Text, codes, text_eq}
use paycore.Database.{Columns}
use paycore.Currency.{Unicode}
use paycore.Errors.{Error, cause, duplicate_merchant, merchant_not_found}
use paycore.Http.{
  Request, Response, Encoding, Fields, object, array, text, write, write_error_map,
  method_not_allowed, post, get, CreateMerchantRequest,
}
use paycore.Idempotency.{Bytes}
use paycore.Merchant.{Merchant, MerchantStatus, active, suspended, closed}
use paycore.Merchant.Service.{serve_create_merchant, serve_list_merchants}
use paycore.World.{World}

abbrev pub merchant_status_text : MerchantStatus → Text
merchant_status_text active = codes "ACTIVE"
merchant_status_text suspended = codes "SUSPENDED"
merchant_status_text closed = codes "CLOSED"

module _ (enc : Encoding) where
  unfoldable pub merchant_response : Merchant → Fields
  merchant_response m =
      (codes "id", text m.id)
      ∷ (codes "name", text m.name)
      ∷ (codes "status", text (merchant_status_text m.status))
      ∷ (codes "settlement_currency", text m.settlement_currency)
      ∷ (codes "created_at", text (enc.format_time m.created_at))
      ∷ (codes "updated_at", text (enc.format_time m.updated_at))
      ∷ []

  merchant_error_of : Error → Error → Response
  merchant_error_of e duplicate_merchant =
      write_error_map enc (pos 409) (codes "MERCHANT_ALREADY_EXISTS")
        (codes "Merchant already exists")
  merchant_error_of e merchant_not_found =
      write_error_map enc (pos 404) (codes "MERCHANT_NOT_FOUND") (codes "Merchant not found")
  merchant_error_of e _ =
      write_error_map enc (pos 400) (codes "INVALID_MERCHANT") (enc.error_text e)

  unfoldable pub merchant_error_response : Error → Response
  unfolding merchant_error_of
  merchant_error_response e = merchant_error_of e (cause e)

  decoded_merchant : Option Bytes → Option CreateMerchantRequest
  decoded_merchant none = none
  decoded_merchant (some body) = enc.decode_merchant body

  unfoldable pub handle_create_merchant :
      ⦃u : Unicode⦄ → ⦃c : Columns⦄ → ℕ → Request → World → Response × World
  unfolding decoded_merchant
  handle_create_merchant now q w = elim (decoded_merchant q.body) [
    | none ↦ (
      write_error_map enc (pos 400) (codes "INVALID_JSON")
          (codes "Request body must be valid JSON"),
      w,
    )
    | some x ↦
        let (r, w') =
          serve_create_merchant now
            (record { id = x.id; name = x.name; settlement_currency = x.settlement_currency }) w in
        elim r [
          | ok m ↦ (write enc (pos 201) (object (merchant_response m)), w')
          | err e ↦ (merchant_error_response e, w')
        ]
  ]

  unfoldable pub handle_list_merchants : ⦃c : Columns⦄ → World → Response × World
  handle_list_merchants w =
      let (r, w') = serve_list_merchants w in
      elim r [
        | ok ms ↦ (write enc (pos 200) (array (map merchant_response ms)), w')
        | err e ↦ (
          write_error_map enc (pos 500) (codes "MERCHANT_LIST_FAILED")
              (codes "Failed to list merchants"),
          w',
        )
      ]

  unfoldable pub handle_merchants :
      ⦃u : Unicode⦄ → ⦃c : Columns⦄ → ℕ → Request → World → Response × World
  handle_merchants now q w =
      if text_eq q.method post
      then handle_create_merchant now q w
      else if text_eq q.method get
      then handle_list_merchants w
      else (method_not_allowed enc, w)
